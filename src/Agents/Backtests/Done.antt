-- ===== src/Agents/Backtests/Done.antt =====
-- What a backtest that the tool reports as done leaves behind.
use fund.Agents.Backtests.Moves.{row_of, InBacktest, advance_to-InBacktest}
use fund.Backtest.Runs.Again.{run_backtest-stored}
use fund.Backtest.Runs.Touch.{run-OnlyTrials}
use fund.Backtest.Params.{Fault}
use fund.Backtest.Params.{check_params}
use fund.Agents.Backtests.{
  done, moved_then, is_backtestable, Request, is_race, run_request, with_rows, after_run, run_on,
  check_point, is_lookup,
}
use fund.State.Specs.{advance_to_backtest}
use fund.Base.{
  none, some, true, [], ◌∷◌, inl, inr, refl, String, Bool, List, ◌≡◌, Option, find?, str_eq,
  Bool-cases, ap, str_eq_iff, ◌∙◌,
}
use fund.Python.Actions.{ok, err, Result}
use fund.State.Rows.{budget_exhausted, result, Strategy, Db, Time, Spec}
use fund.Backtest.Registry.{get}
use fund.Backtest.Runs.{Engine, Run, run_backtest, returned, refused_run}

found_spec :
    (id : String) (ss : List Spec) (s : Spec)
    → find? (λ (s : Spec). str_eq s.spec_id id) ss ≡ some s
    → str_eq s.spec_id id ≡ true
found_spec id [] s h = cc
found_spec id (r ∷ rows) s h = elim (Bool-cases (str_eq r.spec_id id)) [
  | inl own ↦ rw (some_spec r s (rw own at h)) at own
  | inr other ↦ found_spec id rows s (rw other at h)
]
  where
    some_spec : (a b : Spec) → some a ≡ some b → a ≡ b
    some_spec a b h = cc

moved_ok :
    (stats said : String) (r : Result Bool)
    → moved_then stats r ≡ ok (done said)
    → (b : Bool) × (r ≡ ok b) × (stats ≡ said)
moved_ok stats said (ok b) h = (b, refl, cc)
moved_ok stats said (err e) h = elim (Bool-cases (is_race e)) [
  | inl race ↦ cc (rw race at h)
  | inr other ↦ cc (rw other at h)
]

-- What an answer that is done says of the run, and of the store after it.
after_run-InBacktest :
    (seat : String) (s : Spec) (row : Strategy) (now : Time) (r : Result Run) (db : Db)
    (stats : String)
    → row_of s.spec_id db.strategies ≡ some row
    → is_backtestable row.state ≡ true
    → (after_run seat s row.state_version now r db).0 ≡ ok (done stats)
    → (cached : Bool) × (r ≡ ok (returned (result stats) cached))
      × InBacktest s.spec_id (after_run seat s row.state_version now r db).1
      × ((after_run seat s row.state_version now r db).1.trials ≡ db.trials)
after_run-InBacktest seat s row now (err e) db stats er able h = cc
after_run-InBacktest seat s row now (ok (refused_run reason)) db stats er able h = cc
after_run-InBacktest seat s row now (ok (returned budget_exhausted cached)) db stats er able h = cc
after_run-InBacktest seat s row now (ok (returned (result said) cached)) db stats er able h =
    let (b, moved, same) =
      moved_ok said stats (advance_to_backtest s.spec_id row.state_version now db).0 h in
    let after = advance_to-InBacktest s.spec_id now db row b er able moved in
    (cached, ap (λ (t : String). ok (returned (result t) cached)) same, after.0, after.1)

module _ {D : Type 0} (engine : Engine D) (seat : String) (now : Time) where
  -- The request's spec is registered, its point lies in the declared ranges, the registry holds these
  -- statistics under the key of the run, and the spec's lifecycle row is in BACKTEST.
  abbrev pub Backtested : Request → Result D → (stats : String) → Db → Db → Type 0
  Backtested req (err e) stats db db' = ⊥
  Backtested req (ok close) stats db db' =
      (s : Spec) × (find? (λ (s : Spec). str_eq s.spec_id req.spec_id) db.specs ≡ some s)
      × (check_params req.params (engine.param_ranges s.content) ≡ none)
      × (get (engine.run_key s.spec_id req.params close req.seed) db'.trials ≡ some (result stats))
      × InBacktest s.spec_id db'

  run_on-Backtested :
      (req : Request) (s : Spec) (row : Strategy) (close : Result D) (db : Db) (stats : String)
      → find? (λ (s : Spec). str_eq s.spec_id req.spec_id) db.specs ≡ some s
      → row_of req.spec_id db.strategies ≡ some row
      → is_backtestable row.state ≡ true
      → check_params req.params (engine.param_ranges s.content) ≡ none
      → (run_on engine seat now req s row close db).0 ≡ ok (done stats)
      → Backtested req close stats db (run_on engine seat now req s row close db).1
  run_on-Backtested req s row (err e) db stats eo er able inside h =
      elim (Bool-cases (is_lookup e)) [
        | inl no_data ↦ cc (rw no_data at h)
        | inr other ↦ cc (rw other at h)
      ]
  run_on-Backtested req s row (ok close) db stats eo er able inside h =
      let ran = run_backtest engine s req.params close req.seed seat db in
      let own : s.spec_id ≡ req.spec_id =
        (str_eq_iff s.spec_id req.spec_id).0 (found_spec req.spec_id db.specs s eo) in
      let strategies : ran.1.strategies ≡ db.strategies =
        ap (λ (d : Db). d.strategies) (run-OnlyTrials engine s req.params close req.seed seat db) in
      let (cached, returned_it, in_backtest, kept) =
        after_run-InBacktest seat s row now (ran.0) (ran.1) stats
          (ap (row_of s.spec_id) strategies
            ∙ ap (λ (id : String). row_of id db.strategies) own
            ∙ er)
          able h in
      (
        s,
        eo,
        inside,
        ap (get (engine.run_key s.spec_id req.params close req.seed)) kept
            ∙ run_backtest-stored engine s req.params close req.seed seat db (result stats) cached
                returned_it,
        in_backtest,
      )

  point-Backtested :
      (req : Request) (s : Spec) (row : Strategy) (close : Result D) (db : Db) (stats : String)
      (o : Option Fault)
      → find? (λ (s : Spec). str_eq s.spec_id req.spec_id) db.specs ≡ some s
      → row_of req.spec_id db.strategies ≡ some row
      → is_backtestable row.state ≡ true
      → check_params req.params (engine.param_ranges s.content) ≡ o
      → (check_point engine seat now o (run_on engine seat now req s row close) db).0
        ≡ ok (done stats)
      → Backtested req close stats db
          (check_point engine seat now o (run_on engine seat now req s row close) db).1
  point-Backtested req s row close db stats none eo er able e h =
      run_on-Backtested req s row close db stats eo er able e h
  point-Backtested req s row close db stats (some fault) eo er able e h = cc

  with_rows-Backtested :
      (req : Request) (o : Option Spec) (r : Option Strategy) (close : Result D) (db : Db)
      (stats : String)
      → find? (λ (s : Spec). str_eq s.spec_id req.spec_id) db.specs ≡ o
      → row_of req.spec_id db.strategies ≡ r
      → (with_rows engine seat now req o r close db).0 ≡ ok (done stats)
      → Backtested req close stats db (with_rows engine seat now req o r close db).1
  with_rows-Backtested req none r close db stats eo er h = cc
  with_rows-Backtested req (some s) none close db stats eo er h = cc
  with_rows-Backtested req (some s) (some row) close db stats eo er h =
      elim (Bool-cases (is_backtestable row.state)) [
        | inr wrong_state ↦ cc (rw wrong_state at h)
        | inl able ↦ elim (Bool-cases (engine.rule_known s.content)) [
          | inr unknown ↦ cc (rw (able, unknown) at h)
          | inl known ↦
              rw (able, known)
                (point-Backtested req s row close db stats
                  (check_params req.params (engine.param_ranges s.content)) eo er able refl
                  (rw (able, known) at h))
        ]
      ]

  -- A backtest that the tool reports as done is of a registered spec, at a point in its declared ranges;
  -- its statistics stand in the registry under the key of the run, and the spec's lifecycle row has moved to,
  -- or was already in, BACKTEST.
  pub run_request_done :
      (req : Request) (close : Result D) (db : Db) (stats : String)
      → (run_request engine seat now (some req) close db).0 ≡ ok (done stats)
      → Backtested req close stats db (run_request engine seat now (some req) close db).1
  unfolding run_request
  run_request_done req close db stats h =
      with_rows-Backtested req (find? (λ (s : Spec). str_eq s.spec_id req.spec_id) db.specs)
        (row_of req.spec_id db.strategies) close db stats refl refl h
