-- ===== src/Agents/Backtests.antt =====
-- `handle_run_backtest` of agents/tools/fund_server.py. The request is validated by pydantic before the
-- modelled part, `none` for a payload that is not one. The prices come from the caller, or do not.
use fund.Slack.Outbox.{append_event}
use fund.Backtest.Params.{check_params}
use fund.Backtest.Params.{Fault}
use fund.State.Specs.{advance_to_backtest}
use fund.Agents.Seats.{can}
use fund.Python.Values.{Dict}
pub mod Moves
pub mod Done
use fund.Base.{
  none, some, true, false, [], ◌∷◌, String, Bool, Option, ℕ, ◌||◌, if◌then◌else◌, find?, not,
  str_eq,
}
use fund.Python.Actions.{
  ok, err, lookup_error, stale_transition, illegal_transition, Result, Action, Error,
}
use fund.State.Rows.{
  Body, spec, backtest, budget_exhausted, result, Status, Spec, Time, Db, Strategy,
}
use fund.State.Transition.{◌=ₛ◌}
use fund.Backtest.Runs.{Engine, Run, run_backtest, returned, refused_run}

pub record Request : Type 0 where
  pub spec_id : String
  pub params : Dict
  pub seed : ℕ

pub data RunReply : Type 0 where
  done : (stats : String) → RunReply
  refused : (why : String) → RunReply

abbrev pub is_backtestable : Status → Bool
is_backtestable state = state =ₛ spec || state =ₛ backtest

-- The exceptions of the move that the handler catches, and the one of the prices.
abbrev pub is_race : Error → Bool
is_race stale_transition = true
is_race illegal_transition = true
is_race e = false

abbrev pub is_lookup : Error → Bool
is_lookup lookup_error = true
is_lookup e = false

abbrev pub moved_then : (stats : String) → Result Bool → Result RunReply
moved_then stats (ok moved) = ok (done stats)
moved_then stats (err e) = if is_race e then ok (refused "moved") else err e

abbrev pub spent_event : (seat : String) → Spec → Time → String → Db → Db
spent_event seat s now reason db =
    if str_eq reason "budget_exhausted"
    then append_event (Body.budget_spent seat s.spec_id s.family s.search_budget) now db
    else db

-- What the engine answered; a cached refusal carries no run key.
abbrev pub after_run :
    (seat : String) → Spec → (version : ℕ) → Time → Result Run → Action Db RunReply
after_run seat s version now (err e) db = (err e, db)
after_run seat s version now (ok (refused_run reason)) db =
    (ok (refused reason), spent_event seat s now reason db)
after_run seat s version now (ok (returned budget_exhausted cached)) db =
    (ok (refused "cached rejection"), db)
after_run seat s version now (ok (returned (result stats) cached)) db =
    let moved = advance_to_backtest s.spec_id version now db in (moved_then stats moved.0, moved.1)

module _ {D : Type 0} (engine : Engine D) (seat : String) (now : Time) where
  abbrev pub run_on : Request → Spec → Strategy → Result D → Action Db RunReply
  run_on req s row (err e) db = (if is_lookup e then ok (refused "no data") else err e, db)
  run_on req s row (ok close) db =
      let ran = run_backtest engine s req.params close req.seed seat db in
      after_run seat s row.state_version now (ran.0) (ran.1)

  abbrev pub check_point : Option Fault → Action Db RunReply → Action Db RunReply
  check_point (some fault) next db = (ok (refused "param"), db)
  check_point none next db = next db

  abbrev pub with_rows : Request → Option Spec → Option Strategy → Result D → Action Db RunReply
  with_rows req none row close db = (ok (refused "not registered"), db)
  with_rows req (some s) none close db = (ok (refused "no lifecycle row"), db)
  with_rows req (some s) (some row) close db =
      if not (is_backtestable row.state)
      then (ok (refused "state"), db)
      else if not (engine.rule_known s.content)
      then (ok (refused "unknown_rule"), db)
      else check_point (check_params req.params (engine.param_ranges s.content))
          (run_on req s row close) db

  -- The handler behind its seat guard.
  unfoldable pub run_request : Option Request → (close : Result D) → Action Db RunReply
  unfolding run_backtest advance_to_backtest check_params
  run_request none close db = (ok (refused "invalid"), db)
  run_request (some req) close db =
      with_rows req (find? (λ (s : Spec). str_eq s.spec_id req.spec_id) db.specs)
        (find? (λ (st : Strategy). str_eq st.strategy_id req.spec_id) db.strategies) close db

  -- No seat holds the capability yet.
  unfoldable pub handle_run_backtest : Option Request → (close : Result D) → Action Db RunReply
  unfolding can run_request
  handle_run_backtest req close db =
      if not (can seat "run_backtest")
      then (ok (refused "not granted"), db)
      else run_request req close db
