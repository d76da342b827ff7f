-- ===== src/Agents/Submit/Final.antt =====
-- A decision that has left 'submitted' is irrevocable.
use fund.Agents.Seats.{can}
use fund.Python.Floats.{Float}
use fund.Python.Values.{Dict, get}
use fund.State.Transition.{◌=ₛ◌}
use fund.State.Rows.{Decision, submitted, Time, Db, Intent, Critique}
use fund.Agents.Submit.{
  upsert_decision, has_left, Pydantic, store_decision, write_decision, handle_submit_decision,
  keep_if, valid_decision, build_decision, fits_int64, is_well_formed, str_of, action_of, natural,
  stop_of,
}
use fund.State.Keys.{is_key, next_decision_id}
use fund.Base.{
  none, List, ℕ, select, ◌≡◌, not, find?, false, ◌∷◌, Bool-cases, inl, arith, inr, [], refl, String,
  Option, some, any, true, str_eq, ◌&&◌, Bool, ap, if◌then◌else◌, sym, ◌∙◌,
}

-- The rows that have left 'submitted', in order.
abbrev pub settled_rows : List Decision → List Decision
settled_rows = select (λ (d : Decision). not (d.status =ₛ submitted))

-- An UPSERT whose key is free, or taken by a row that is still submitted.
upsert-settled :
    (id : ℕ) (new : Decision) (ds : List Decision)
    → new.status ≡ submitted
    → has_left (find? (is_key new.run_date new.ticker) ds) ≡ false
    → settled_rows (upsert_decision id new ds) ≡ settled_rows ds
unfolding upsert_decision
upsert-settled id new [] fresh h = rw fresh refl
upsert-settled id new (d ∷ ds) fresh h = elim (Bool-cases (is_key new.run_date new.ticker d)) [
  | inl hit ↦
      let waits : not (d.status =ₛ submitted) ≡ false = rw hit at h in rw hit (rw waits refl)
  | inr miss ↦ rw miss (ground (arith, upsert-settled id new ds fresh (rw miss at h)))
]

store-settled :
    (seat : String) (d : Decision) (now : Time) (db : Db)
    → d.status ≡ submitted
    → has_left (find? (is_key d.run_date d.ticker) db.decisions) ≡ false
    → settled_rows (store_decision seat d now db).1.decisions ≡ settled_rows db.decisions
unfolding store_decision
store-settled seat d now db fresh h = elim (Bool-cases (fits_int64 d.qty)) [
  | inl fits ↦ rw fits (upsert-settled (next_decision_id db.decisions) d db.decisions fresh h)
  | inr large ↦ rw large refl
]

write-settled :
    (seat : String) (o : Option Decision) (now : Time) (db : Db)
    → ((d : Decision) → o ≡ some d → d.status ≡ submitted)
    → settled_rows (write_decision seat o now db).1.decisions ≡ settled_rows db.decisions
unfolding write_decision
write-settled seat none now db new = refl
write-settled seat (some d) now db new =
    elim (Bool-cases (has_left (find? (is_key d.run_date d.ticker) db.decisions))) [
      | inl gone ↦ rw gone refl
      | inr waits ↦
          elim (Bool-cases (
            any (λ (c : Critique). str_eq c.run_date d.run_date && str_eq c.ticker d.ticker)
              db.critiques)) [
                | inl seen ↦ rw (waits, seen) (store-settled seat d now db (new d refl) waits)
                | inr unseen ↦ rw (waits, unseen) refl
              ]
    ]

some_lem : (a b : Decision) → some a ≡ some b → a ≡ b
some_lem a b h = cc

guarded :
    (b : Bool) (o : Option Decision) (d : Decision) → (if b then o else none) ≡ some d → o ≡ some d
guarded true o d h = h
guarded false o d h = cc

module _ (p : Pydantic) where
  kept :
      (fits : Decision → Bool) (r d : Decision)
      → keep_if p fits (some r) ≡ some d
      → (r ≡ d) × (fits d ≡ true)
  unfolding keep_if
  kept fits r d h = elim (Bool-cases (fits r)) [
    | inl good ↦ let same : r ≡ d = some_lem r d (rw good at h) in (same, sym (ap fits same) ∙ good)
    | inr bad ↦ cc (rw bad at h)
  ]

  -- Whatever passes validation is a row in 'submitted' that is well formed.
  built :
      (charter run_date : String) (t : Option String) (a : Option Intent) (q : Option ℕ)
      (s : Option (Option Float)) (d : Decision)
      → keep_if p is_well_formed (build_decision p charter run_date t a q s) ≡ some d
      → (d.status ≡ submitted) × (is_well_formed d ≡ true) × (d.run_date ≡ run_date)
  unfolding keep_if build_decision
  built charter run_date (some t) (some a) (some q) (some s) d h =
      let k = kept is_well_formed _ d h in
      (ap (λ (r : Decision). r.status) (sym k.0), k.1, ap (λ (r : Decision). r.run_date) (sym k.0))
  built charter run_date (some t) (some a) (some q) none d h = cc
  built charter run_date (some t) (some a) none s d h = cc
  built charter run_date (some t) none q s d h = cc
  built charter run_date none a q s d h = cc

  pub valid_decision-built :
      (charter run_date : String) (args : Dict) (d : Decision)
      → valid_decision p charter run_date args ≡ some d
      → (d.status ≡ submitted) × (is_well_formed d ≡ true) × (d.run_date ≡ run_date)
  unfolding valid_decision
  valid_decision-built charter run_date args d h =
      built charter run_date (str_of (get args "ticker")) (action_of (get args "action"))
        (natural (p.lax_int (get args "qty"))) (stop_of p (get args "stop_price")) d
        (guarded _ _ d h)

  -- Whoever submits whatever: the decisions that have left 'submitted' are the same rows as before,
  -- in the same order.
  pub handle_submit_decision-final :
      (charter seat : String) (args : Dict) (run_date : String) (now : Time) (db : Db)
      → settled_rows (handle_submit_decision p charter seat args run_date now db).1.decisions
        ≡ settled_rows db.decisions
  unfolding handle_submit_decision
  handle_submit_decision-final charter seat args run_date now db =
      elim (Bool-cases (can seat "submit_decision")) [
        | inl may ↦ rw may (
            write-settled seat (valid_decision p charter run_date args) now db
              (λ d e. (valid_decision-built charter run_date args d e).0))
        | inr not_granted ↦ rw not_granted refl
      ]
