-- ===== src/Tests/Research.antt =====
-- Examples on backtests, the strategy gates and the development loop's guard.
use fund.Stratgate.Checks.{passes}
use fund.Agents.Backtests.Done.{run_request_done}
use fund.Agents.Backtests.Done.{Backtested}
use fund.Agents.Backtests.{Request, run_request}
use fund.Devloop.Clean.{Allowed, main_clean}
use fund.Backtest.Runs.Again.{run_backtest_twice}
use fund.Stratgate.{evaluate_g2, g2_defaults}
use fund.Backtest.Runs.{Engine, run_backtest, returned}
use fund.Backtest.Runs.Touch.{revealed, holdout_revealed_once}
use fund.Stratgate.Statistics.{Admissible, evaluate_g2_iff}
use fund.Devloop.{changes_of, main, violations, violation, untracked, checkbox_only_diff}
use fund.Base.{
  some, true, false, [], ◌∷◌, refl, pos, List, Option, Bool, ◌≡◌, ◌≤◌, if◌then◌else◌, ◌↔◌, All,
  ◌++◌, arith,
}
use fund.Python.Values.{Value, Dict, int, float}
use fund.Python.Actions.{ok}
use fund.State.Rows.{result, Db, Spec, Status}
use fund.Tests.Samples.{test_db}
use fund.Backtest.Runs.Budget.{executed, run, holdout, Attempt, attempts, attempts_budget}
use fund.Python.Floats.{whole, zero_float, Float}

abbrev test_spec : Spec
test_spec = record {
  spec_id = "spec_1";
  family = "F1";
  seat = "quant";
  search_budget = 1;
  content = "c";
  created_at = 1;
}

abbrev spec_db : Db
spec_db = record test_db { specs = test_spec ∷ [] }

-- An engine over two sets of prices, one rule and no parameters.
abbrev test_engine : Engine Bool
test_engine = record {
  run_key = λ id params close seed. if close then "run_a" else "run_b";
  holdout_run_key = λ id params close. "run_h";
  rule_known = λ content. true;
  param_ranges = λ content. [];
  has_nan = λ close. false;
  is_short = λ close. false;
  compute = λ content params close n family. "stats";
  compute_holdout = λ content params close. "detail";
  holdout_passes = λ detail. true;
}

abbrev test_attempts : List (Attempt Bool)
test_attempts =
    run test_spec [] true 0 "quant"
    ∷ run test_spec [] false 0 "quant"
    ∷ holdout test_spec [] true
    ∷ holdout test_spec [] true
    ∷ []

attempts_budget_example : executed "spec_1" (attempts test_engine test_attempts spec_db).trials ≤ 1
unfolding executed
attempts_budget_example =
    attempts_budget test_engine "spec_1" 1 test_attempts spec_db
      (λ h. refl, (λ h. refl, (λ h. refl, (λ h. refl, tt)))) (omega arith)

run_backtest_twice_example :
    let first = run_backtest test_engine test_spec [] true 0 "quant" spec_db in
    run_backtest test_engine test_spec [] true 0 "news" first.1
    ≡ (ok (returned (result "stats") true), first.1)
unfolding run_backtest fund.Backtest.Params.missing_from fund.Backtest.Params.check_ranges
run_backtest_twice_example =
    run_backtest_twice test_engine test_spec [] true 0 "quant" "news" spec_db (result "stats") false
      refl

holdout_revealed_once_example : revealed test_engine "spec_1" test_attempts spec_db ≤ 1
holdout_revealed_once_example = holdout_revealed_once test_engine "spec_1" test_attempts spec_db

abbrev test_request : Request
test_request = record { spec_id = "spec_1"; params = []; seed = 0 }

abbrev registered_db : Db
registered_db = record spec_db {
  strategies =
      record { strategy_id = "spec_1"; state = Status.spec; state_version = 4; updated_at = 1 }
      ∷ [];
}

run_request_done_example :
    Backtested test_engine "quant" 6 test_request
      (ok true)
      "stats"
      registered_db
      (run_request test_engine "quant" 6 (some test_request) (ok true) registered_db).1
unfolding run_request fund.Backtest.Params.missing_from fund.Backtest.Params.check_ranges
run_request_done_example =
    run_request_done test_engine "quant" 6 test_request (ok true) registered_db "stats" refl

abbrev no_loss : Value → Value → Option Float
no_loss base sr = some zero_float

abbrev test_stats : Dict
test_stats =
    ("n_trades", int (pos 120))
    ∷ ("span_years", float (whole 9))
    ∷ ("net_sharpe", float (whole 1))
    ∷ ("net_sharpe_2x", float (whole 1))
    ∷ ("net_sharpe_3x", float (whole 1))
    ∷ ("deflated_sharpe", float (whole 1))
    ∷ ("wfe", float (whole 1))
    ∷ ("max_drawdown", float zero_float)
    ∷ ("cost_share", float zero_float)
    ∷ []

evaluate_g2_iff_example :
    (passes (evaluate_g2 no_loss test_stats (some []) g2_defaults) ≡ true)
    ↔ Admissible no_loss g2_defaults test_stats (some [])
evaluate_g2_iff_example = evaluate_g2_iff no_loss g2_defaults test_stats (some [])

main_clean_example :
    All
      (Allowed (checkbox_only_diff (λ s. s) []) ("tests/a.py" ∷ []))
      (changes_of ("M" ∷ "gate/risk.py" ∷ "" ∷ []) ++ untracked ("tests/b.py" ∷ "" ∷ []))
unfolding main violations violation changes_of untracked
main_clean_example =
    main_clean (λ s. s) ("tests/a.py" ∷ []) [] ("M" ∷ "gate/risk.py" ∷ "" ∷ [])
      ("tests/b.py" ∷ "" ∷ []) refl
