-- ===== src/Agents/Brief/Honest.antt =====
-- The brief of a stage names what it could not build.
use fund.Agents.Seats.{can}
use fund.Agents.Brief.{
  section, section_if, weights_of, signal_rows, snapshot_for, needs_snapshot, sections_of, lookup,
  handle_get_stage_brief, Fault, bound, query, Brief, brief, actions_from, account_of,
}
use fund.Python.Actions.{Error, Result, ok, err}
use fund.State.Rows.{Db}
use fund.Base.{
  Bool, true, false, String, Option, none, some, List, [], ◌∷◌, ◌++◌, ◌≡◌, refl, append-nil,
}

-- What a source gave, or the default.
unfoldable pub value_of : {A : Type 0} → Result A → A → A
value_of (ok a) default = a
value_of (err e) default = default

unfoldable pub shown : {A : Type 0} → Bool → Result A → A → Option A
unfolding value_of
shown false r default = none
shown true r default = some (value_of r default)

-- The failure of a source that was asked.
unfoldable pub named : {A : Type 0} → Bool → String → Result A → List Fault
named false name r = []
named true name (ok a) = []
named true name (err e) = (name, e) ∷ []

section_lem :
    {A : Type 0} (name : String) (r : Result A) (default : A) (missing : List Fault)
    → section name r default missing ≡ (value_of r default, missing ++ named true name r)
unfolding section value_of named
section_lem name (ok a) default missing = rw (append-nil missing) refl
section_lem name (err e) default missing = refl

section_if_lem :
    {A : Type 0} (granted : Bool) (name : String) (r : Result A) (default : A)
    (missing : List Fault)
    → section_if granted name r default missing
      ≡ (shown granted r default, missing ++ named granted name r)
unfolding section_if shown named
section_if_lem false name r default missing = rw (append-nil missing) refl
section_if_lem true name r default missing = rw (section_lem name r default missing) refl

-- The snapshot that the sections are read from.
unfoldable pub snapshot_read :
    {V : Type 0} → Bool → Option (Result (List (String × V))) → List (String × V)
unfolding value_of
snapshot_read false snapshot = []
snapshot_read true snapshot = value_of (bound snapshot) []

snapshot_for_lem :
    {V : Type 0} (needed : Bool) (snapshot : Option (Result (List (String × V))))
    → snapshot_for needed snapshot
      ≡ (snapshot_read needed snapshot, named needed "account snapshot" (bound snapshot))
unfolding snapshot_read named
snapshot_for_lem false snapshot = refl
snapshot_for_lem true snapshot = section_lem "account snapshot" (bound snapshot) [] []

module _ {V : Type 0} (empty_dict : V) (or_empty : Option V → V) (as_dict : V → Result V)
    (failing : String → Option Error) (seat run_date : String) where
  -- What the sections of a brief are, each by itself, and what it says is missing.
  pub Honest : Option (Result (List (String × V))) → Option (Result String) → Db → Brief V → Type 0
  Honest snapshot journal db b =
      let snap = snapshot_read (needs_snapshot seat) snapshot in
      let actions = actions_from empty_dict or_empty as_dict (lookup snap "allowed_actions") in
      (b.journal ≡ value_of (bound journal) "")
      × (b.account ≡ account_of empty_dict or_empty as_dict (can seat "read_account") snap)
      × (b.weights
          ≡ shown (can seat "read_weights") (query (failing "weights") (weights_of db seat)) [])
      × (b.signals
          ≡ shown (can seat "read_signals")
              (query (failing "signals") (ok (signal_rows db run_date))) [])
      × (b.allowed_actions ≡ shown (can seat "read_allowed_actions") actions empty_dict)
      × (b.unavailable
          ≡ named (needs_snapshot seat) "account snapshot" (bound snapshot)
            ++ named true "journal" (bound journal)
            ++ named (can seat "read_weights") "weights"
                (query (failing "weights") (weights_of db seat))
            ++ named (can seat "read_signals") "signals"
                (query (failing "signals") (ok (signal_rows db run_date)))
            ++ named (can seat "read_allowed_actions") "allowed actions" actions)

  -- Whatever its sources do, a seat that is granted the brief gets one. It has a section for each of
  -- the seat's grants and no other; each section holds what its own source gave, or its default if
  -- the source raised; and what is named as unavailable is exactly the sources that were asked and
  -- raised, in order. The account is read off the snapshot, where an absent field is not a failure.
  pub handle_get_stage_brief-Honest :
      (snapshot : Option (Result (List (String × V)))) (journal : Option (Result String)) (db : Db)
      → can seat "get_stage_brief" ≡ true
      → (b : Brief V) × (handle_get_stage_brief empty_dict or_empty as_dict failing seat run_date
            snapshot journal db
          ≡ brief b)
        × Honest snapshot journal db b
  unfolding handle_get_stage_brief sections_of Honest
  handle_get_stage_brief-Honest snapshot journal db granted = (
    sections_of empty_dict or_empty as_dict failing seat run_date
        (snapshot_for (needs_snapshot seat) snapshot) (bound journal) db,
    rw granted refl,
    (let snap = snapshot_read (needs_snapshot seat) snapshot in
        let actions = actions_from empty_dict or_empty as_dict (lookup snap "allowed_actions") in
        rw
          (
            snapshot_for_lem (needs_snapshot seat) snapshot,
            section_lem "journal" (bound journal) "",
            section_if_lem (can seat "read_weights") "weights"
                (query (failing "weights") (weights_of db seat)) [],
            section_if_lem (can seat "read_signals") "signals"
                (query (failing "signals") (ok (signal_rows db run_date))) [],
            section_if_lem (can seat "read_allowed_actions") "allowed actions" actions empty_dict,
          )
          (refl, refl, refl, refl, refl, refl)),
  )
