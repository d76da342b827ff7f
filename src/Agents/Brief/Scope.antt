-- ===== src/Agents/Brief/Scope.antt =====
-- The brief of a stage shows a seat no more than its grants.
use fund.Agents.Seats.{can}
use fund.Agents.Brief.{
  section_if, in_scope, supersedes, by_agent, latest_weights, scope_of, weights_of, weights_from,
  signal_rows, on_day, by_ticker_and_agent, row_of, snapshot_for, needs_snapshot, sections_of,
  query, lookup, account_of, actions_from, handle_get_stage_brief, Fault,
}
use fund.Python.Actions.{Error, Result, ok}
use fund.State.Rows.{Db, Weight}
use fund.Base.{
  Bool, true, false, String, Option, none, some, List, [], ◌∷◌, ◌&&◌, not, any, map, select,
  order_by, str_eq, str_eq_iff, ◌≡◌, refl, sym, ap, ◌∙◌, Bool-cases, inl, inr, arith,
}

any-select :
    {A : Type 0} (p q : A → Bool) (xs : List A)
    → ((x : A) → q x ≡ true → p x ≡ true)
    → any q (select p xs) ≡ any q xs
any-select p q [] h = refl
any-select p q (x ∷ xs) h = elim (Bool-cases (p x)) [
  | inl kept ↦ rw (kept, any-select p q xs h) refl
  | inr dropped ↦ elim (Bool-cases (q x)) [
    | inl hit ↦ cc (h x hit)
    | inr miss ↦ rw (dropped, miss) (any-select p q xs h)
  ]
]

-- A newer row of an agent in scope is in scope.
supersedes-in_scope :
    (scope : Option String) (w v : Weight)
    → in_scope scope w ≡ true
    → supersedes w v ≡ true
    → in_scope scope v ≡ true
supersedes-in_scope none w v h newer = refl
supersedes-in_scope (some seat) w v h newer = elim (Bool-cases (str_eq v.agent w.agent)) [
  | inl same ↦ rw ((str_eq_iff v.agent w.agent).0 same) h
  | inr other ↦ cc (rw other at newer)
]

select-in_scope :
    (scope : Option String) (vs ws : List Weight)
    → select (λ w. not (any (supersedes w) vs) && in_scope scope w) ws
      ≡ select
          (λ w. not (any (supersedes w) (select (in_scope scope) vs)) && in_scope scope w)
          (select (in_scope scope) ws)
select-in_scope scope vs [] = refl
select-in_scope scope vs (w ∷ ws) = elim (Bool-cases (in_scope scope w)) [
  | inl kept ↦
      rw
        (
          kept,
          any-select (in_scope scope) (supersedes w) vs (λ v. supersedes-in_scope scope w v kept),
          select-in_scope scope vs ws,
          kept,
        )
        refl
  | inr dropped ↦ rw (dropped, sym (select-in_scope scope vs ws)) (ground arith)
]

latest_weights-in_scope :
    (scope : Option String) (ws : List Weight)
    → latest_weights scope ws ≡ latest_weights scope (select (in_scope scope) ws)
unfolding latest_weights
latest_weights-in_scope scope ws = ap (order_by by_agent) (select-in_scope scope ws ws)

section_if-eq :
    {A : Type 0} (granted : Bool) (name : String) (r r' : Result A) (default : A)
    (missing : List Fault)
    → (granted ≡ true → r ≡ r')
    → section_if granted name r default missing ≡ section_if granted name r' default missing
unfolding section_if
section_if-eq false name r r' default missing h = refl
section_if-eq true name r r' default missing h =
    ap (λ x. section_if true name x default missing) (h refl)

query-eq :
    {A : Type 0} (failed : Option Error) (r r' : Result A)
    → r ≡ r'
    → query failed r ≡ query failed r'
query-eq failed r r' same = ap (query failed) same

weights_of-eq :
    (db db' : Db) (seat : String)
    → select (in_scope (scope_of seat)) db.weights ≡ select (in_scope (scope_of seat)) db'.weights
    → weights_of db seat ≡ weights_of db' seat
unfolding weights_of
weights_of-eq db db' seat same = ap weights_from (
    latest_weights-in_scope (scope_of seat) db.weights
    ∙ ap (latest_weights (scope_of seat)) same
    ∙ sym (latest_weights-in_scope (scope_of seat) db'.weights))

signal_rows-eq :
    (db db' : Db) (run_date : String)
    → select (on_day run_date) db.signals ≡ select (on_day run_date) db'.signals
    → signal_rows db run_date ≡ signal_rows db' run_date
unfolding signal_rows
signal_rows-eq db db' run_date same = ap (λ ss. map row_of (order_by by_ticker_and_agent ss)) same

module _ {V : Type 0} (empty_dict : V) (or_empty : Option V → V) (as_dict : V → Result V)
    (failing : String → Option Error) (seat run_date : String) where
  account_of-eq :
      (granted : Bool) (snap snap' : List (String × V))
      → (granted ≡ true
          → (lookup snap "cash" ≡ lookup snap' "cash")
            × (lookup snap "positions" ≡ lookup snap' "positions"))
      → account_of empty_dict or_empty as_dict granted snap
        ≡ account_of empty_dict or_empty as_dict granted snap'
  account_of-eq false snap snap' h = refl
  account_of-eq true snap snap' h = rw ((h refl).0, (h refl).1) refl

  -- Two stores and two snapshots that a seat's grants cannot tell apart give it the same brief. The cash
  -- and the positions of the snapshot are compared only for a seat that reads the account, and its
  -- allowed actions only for one that reads those; the signals only for one that reads signals, and
  -- then only those of the day; and the weights only for one that reads weights, and then only its own
  -- rows unless it reads every seat's signals. That the snapshot failed is shown if it was taken.
  pub handle_get_stage_brief_scoped :
      (snapshot snapshot' : Option (Result (List (String × V)))) (journal : Option (Result String))
      (db db' : Db)
      → let taken = snapshot_for (needs_snapshot seat) snapshot in
        let taken' = snapshot_for (needs_snapshot seat) snapshot' in
        taken.1 ≡ taken'.1
        → (can seat "read_account" ≡ true
            → (lookup taken.0 "cash" ≡ lookup taken'.0 "cash")
              × (lookup taken.0 "positions" ≡ lookup taken'.0 "positions"))
        → (can seat "read_allowed_actions" ≡ true
            → lookup taken.0 "allowed_actions" ≡ lookup taken'.0 "allowed_actions")
        → (can seat "read_signals" ≡ true
            → select (on_day run_date) db.signals ≡ select (on_day run_date) db'.signals)
        → (can seat "read_weights" ≡ true
            → select (in_scope (scope_of seat)) db.weights
              ≡ select (in_scope (scope_of seat)) db'.weights)
        → handle_get_stage_brief empty_dict or_empty as_dict failing seat run_date snapshot journal
            db
          ≡ handle_get_stage_brief empty_dict or_empty as_dict failing seat run_date snapshot'
              journal db'
  unfolding handle_get_stage_brief sections_of
  handle_get_stage_brief_scoped snapshot snapshot' journal db db' same_faults same_account
        same_actions same_signals same_weights =
      let weights = λ (missing : List Fault).
        section_if-eq (can seat "read_weights") "weights"
          (query (failing "weights") (weights_of db seat))
          (query (failing "weights") (weights_of db' seat)) [] missing
          (λ reads.
            query-eq (failing "weights") _ _ (weights_of-eq db db' seat (same_weights reads))) in
      let signals = λ (missing : List Fault).
        section_if-eq (can seat "read_signals") "signals"
          (query (failing "signals") (ok (signal_rows db run_date)))
          (query (failing "signals") (ok (signal_rows db' run_date))) [] missing
          (λ reads.
            query-eq (failing "signals") _ _
              (ap ok (signal_rows-eq db db' run_date (same_signals reads)))) in
      let snap = (snapshot_for (needs_snapshot seat) snapshot).0 in
      let snap' = (snapshot_for (needs_snapshot seat) snapshot').0 in
      let actions = λ (missing : List Fault).
        section_if-eq (can seat "read_allowed_actions") "allowed actions"
          (actions_from empty_dict or_empty as_dict (lookup snap "allowed_actions"))
          (actions_from empty_dict or_empty as_dict (lookup snap' "allowed_actions")) empty_dict
          missing (λ reads. ap (actions_from empty_dict or_empty as_dict) (same_actions reads)) in
      rw
        (
          same_faults,
          account_of-eq (can seat "read_account") snap snap' same_account,
          weights,
          signals,
          actions,
        )
        refl
