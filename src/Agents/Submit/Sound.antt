-- ===== src/Agents/Submit/Sound.antt =====
-- What a call of submit_decision leaves behind, accepted or not.
use fund.State.Transition.Literals.{=ₛ-sound}
use fund.State.Transition.{◌=ₛ◌}
use fund.Agents.Submit.Final.{valid_decision-built}
use fund.Python.Actions.{Result, ok, err}
use fund.Python.Values.{Dict}
use fund.State.Rows.{Decision, Db, Time, submitted, Critique}
use fund.Agents.Seats.{can, seat_caps}
use fund.Agents.Submit.{
  Pydantic, upsert_decision, handle_submit_decision, has_left, write_decision, Reply,
  store_decision, valid_decision, fits_int64, refused, accepted,
}
use fund.State.Keys.{is_key, next_decision_id}
use fund.Base.{
  none, ◌≡◌, Option, String, ℕ, List, some, true, str_eq, arith, Bool-cases, find?, inl, any, false,
  str_eq_iff, inr, str_eq_refl, refl, ◌&&◌, ◌∷◌, not, not-false, [], subst,
}

pm_only : (seat : String) → can seat "submit_decision" ≡ true → str_eq seat "pm" ≡ true
unfolding can seat_caps
pm_only seat h = ground arith

-- The row that an UPSERT leaves under its key.
abbrev pub IsStored : Decision → Option Decision → Type 0
IsStored new none = ⊥
IsStored new (some d) =
    (d.action ≡ new.action)
    × (d.qty ≡ new.qty)
    × (d.stop_price ≡ new.stop_price)
    × (d.status ≡ submitted)
    × (d.charter_version ≡ new.charter_version)

upsert-IsStored :
    (id : ℕ) (new : Decision) (ds : List Decision)
    → new.status ≡ submitted
    → has_left (find? (is_key new.run_date new.ticker) ds) ≡ false
    → IsStored new (find? (is_key new.run_date new.ticker) (upsert_decision id new ds))
unfolding upsert_decision
upsert-IsStored id new [] fresh h =
    rw (str_eq_refl new.run_date, str_eq_refl new.ticker) (refl, refl, refl, fresh, refl)
upsert-IsStored id new (d ∷ ds) fresh h = elim (Bool-cases (is_key new.run_date new.ticker d)) [
  | inl hit ↦
      let waits : not (d.status =ₛ submitted) ≡ false = rw hit at h in
      rw (hit, hit) (refl, refl, refl, =ₛ-sound d.status submitted (not-false _ waits), refl)
  | inr miss ↦ rw (miss, miss) (upsert-IsStored id new ds fresh (rw miss at h))
]

-- How the call ends. Accepted: the PM called it with a valid decision for a ticker that carries a
-- critique, and the store's row for that ticker and day is the decision, still submitted.
-- Otherwise nothing has changed.
abbrev pub Answers :
    Pydantic
    → (charter seat : String) → Dict
    → (run_date : String) → Db
    → Result Reply × Db
    → Type 0
Answers p charter seat args run_date db (ok accepted, db') =
    (seat ≡ "pm")
    × (d : Decision) × (valid_decision p charter run_date args ≡ some d)
    × (any (λ (c : Critique). str_eq c.run_date run_date && str_eq c.ticker d.ticker) db.critiques
        ≡ true)
    × IsStored d (find? (is_key run_date d.ticker) db'.decisions)
Answers p charter seat args run_date db (ok (refused why), db') = db' ≡ db
Answers p charter seat args run_date db (err e, db') = db' ≡ db

module _ (p : Pydantic) (charter seat : String) (args : Dict) (run_date : String) (now : Time)
    (db : Db) where
  write-Answers :
      (o : Option Decision)
      → valid_decision p charter run_date args ≡ o
      → seat ≡ "pm"
      → Answers p charter seat args run_date db (write_decision seat o now db)
  unfolding write_decision store_decision
  write-Answers none e s = refl
  write-Answers (some d) e s =
      let b = valid_decision-built p charter run_date args d e in
      let same : d.run_date ≡ run_date = b.2 in
      elim (Bool-cases (has_left (find? (is_key d.run_date d.ticker) db.decisions))) [
        | inl gone ↦ rw gone refl
        | inr waits ↦
            elim (Bool-cases (
              any (λ (c : Critique). str_eq c.run_date d.run_date && str_eq c.ticker d.ticker)
                db.critiques)) [
                  | inr unseen ↦ rw (waits, unseen) refl
                  | inl seen ↦ elim (Bool-cases (fits_int64 d.qty)) [
                    | inr large ↦ rw (waits, seen, large) refl
                    | inl fits ↦
                        rw (waits, seen, fits)
                          (
                            s,
                            d,
                            e,
                            subst
                                (λ (day : String).
                                  any
                                    (λ (c : Critique).
                                      str_eq c.run_date day && str_eq c.ticker d.ticker)
                                    db.critiques
                                  ≡ true)
                                same seen,
                            subst
                                (λ (day : String). IsStored d (
                                  find? (is_key day d.ticker) (
                                    upsert_decision (next_decision_id db.decisions) d
                                      db.decisions)))
                                same
                                (upsert-IsStored (next_decision_id db.decisions) d db.decisions b.0
                                  waits),
                          )
                  ]
                ]
      ]

  -- A call of submit_decision, by any seat with any arguments, is accepted only from the PM, for a valid
  -- decision on a ticker that carries a critique of the day, and then the decision is the day's row of
  -- that ticker, still submitted; a call that is refused or raises changes nothing.
  pub handle_submit_decision-Answers :
      Answers p charter seat args run_date db
        (handle_submit_decision p charter seat args run_date now db)
  unfolding handle_submit_decision
  handle_submit_decision-Answers = elim (Bool-cases (can seat "submit_decision")) [
    | inl may ↦ rw may (
        write-Answers (valid_decision p charter run_date args) refl
          ((str_eq_iff seat "pm").0 (pm_only seat may)))
    | inr not_granted ↦ rw not_granted refl
  ]
