-- ===== src/Backtest/Runs.antt =====
-- `run_backtest` and `evaluate_holdout` of fundbt/run_backtest.py, with what
-- agents/tools/fund_server.py's `handle_run_backtest` adds. The numbers are the engine's: pandas, numpy
-- and the rules over them are a parameter, and so are the hashes. A BacktestError is a value here.
pub mod Budget
pub mod Touch
pub mod Again
use fund.Backtest.Params.{Fault, missing_from, Range, undeclared_param, check_ranges}
use fund.Python.Values.{Dict}
use fund.Backtest.Registry.{get, log, consume_holdout, spec_trial_count, family_n}
use fund.Base.{none, some, true, false, Bool, Option, String, if◌then◌else◌, ℕ, List, leb, not, ◌+◌}
use fund.Python.Actions.{ok, err, Action, Result}
use fund.State.Rows.{Stats, budget_exhausted, result, spec, backtest, Spec, Trial, Db}
use fund.State.Transition.{◌=ₛ◌}

-- The engine over a type of price data.
pub record Engine (D : Type 0) : Type 0 where
  pub run_key : (spec_id : String) → Dict → D → (seed : ℕ) → String
  pub holdout_run_key : (spec_id : String) → Dict → D → String
  pub rule_known : (content : String) → Bool
  pub param_ranges : (content : String) → List (String × Range)
  pub has_nan : D → Bool
  pub is_short : D → Bool  -- fewer than two years before the holdout
  pub compute : (content : String) → Dict → D → (n_trials : ℕ) → List Trial → String
  pub compute_holdout : (content : String) → Dict → D → String
  pub holdout_passes : (detail : String) → Bool  -- its Sharpe ratio is finite and above 0

pub data Run : Type 0 where
  returned : Stats → (cached : Bool) → Run
  refused_run : (reason : String) → Run

-- A trial is logged, then the answer is given.
abbrev pub answer_log : Run → Result (Unit {0}) → Result Run
answer_log answer (ok _) = ok answer
answer_log answer (err e) = err e

abbrev pub log_then : Trial → Run → Action Db Run
log_then t answer db = (answer_log answer (log t db).0, (log t db).1)

-- What the single touch answers: a second one is refused, and a wiring error has its own name.
abbrev pub answer_touch : String → Result Bool → Run
answer_touch detail (ok true) = returned (result detail) false
answer_touch detail (ok false) = refused_run "holdout_already_consumed"
answer_touch detail (err e) = refused_run "holdout_wiring_error"

abbrev pub touch_then :
    (spec_id run_key : String) (passed : Bool) (detail : String) → Result (Unit {0}) → Action Db Run
touch_then spec_id run_key passed detail (err e) db = (err e, db)
touch_then spec_id run_key passed detail (ok _) db =
    let touched = consume_holdout spec_id run_key passed db in
    (ok (answer_touch detail touched.0), touched.1)

abbrev pub cached_run : Option Stats → Action Db Run → Action Db Run
cached_run (some stats) fresh db = (ok (returned stats true), db)
cached_run none fresh db = fresh db

abbrev pub checked_run : Option Fault → Action Db Run → Action Db Run
checked_run (some fault) run db = (ok (refused_run "param"), db)
checked_run none run db = run db

module _ {D : Type 0} (engine : Engine D) where
  abbrev pub trial_of : Spec → Dict → D → (seed : ℕ) → (seat : String) → Stats → Trial
  trial_of s params close seed seat stats = record {
    run_key = engine.run_key s.spec_id params close seed;
    spec_id = s.spec_id;
    family = s.family;
    seat = seat;
    stats = stats;
    is_holdout = false;
  }

  -- The engine's own check of a point, before anything is hashed.
  abbrev pub engine_checks : Spec → Dict → Option Fault
  engine_checks s params = elim (missing_from params (engine.param_ranges s.content)) [
    | some p ↦ some (undeclared_param p)
    | none ↦ check_ranges params (engine.param_ranges s.content)
  ]

  unfoldable pub fresh_run : Spec → Dict → D → (seed : ℕ) → (seat : String) → Action Db Run
  unfolding log spec_trial_count family_n
  fresh_run s params close seed seat db =
      if leb s.search_budget (spec_trial_count s.spec_id db.trials)
      then log_then (trial_of s params close seed seat budget_exhausted)
          (refused_run "budget_exhausted") db
      else if engine.has_nan close
      then (ok (refused_run "nan_in_close"), db)
      else if engine.is_short close
      then (ok (refused_run "insufficient_data"), db)
      else let stats =
          result
            (engine.compute s.content params close (family_n s.family db.trials + 1) db.trials) in
        log_then (trial_of s params close seed seat stats) (returned stats false) db

  unfoldable pub run_backtest : Spec → Dict → D → (seed : ℕ) → (seat : String) → Action Db Run
  unfolding fresh_run get
  run_backtest s params close seed seat db =
      if not (engine.rule_known s.content)
      then (ok (refused_run "unknown_rule"), db)
      else checked_run (engine_checks s params)
          (cached_run (get (engine.run_key s.spec_id params close seed) db.trials)
            (fresh_run s params close seed seat))
          db

  abbrev pub holdout_trial : Spec → Dict → D → Trial
  holdout_trial s params close = record {
    run_key = engine.holdout_run_key s.spec_id params close;
    spec_id = s.spec_id;
    family = s.family;
    seat = "orchestrator";
    stats = result (engine.compute_holdout s.content params close);
    is_holdout = true;
  }

  -- The holdout's own trial is logged before the touch.
  unfoldable pub evaluate_holdout : Spec → Dict → D → Action Db Run
  unfolding log consume_holdout
  evaluate_holdout s params close db =
      let detail = engine.compute_holdout s.content params close in
      let logged = log (holdout_trial s params close) db in
      touch_then s.spec_id (engine.holdout_run_key s.spec_id params close)
        (engine.holdout_passes detail) detail (logged.0) (logged.1)
