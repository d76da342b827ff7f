-- ===== src/Tests/Broker.antt =====
-- Examples of reconciliation against a concrete broker.
use fund.Orchestrator.Ingest.{Source, account_snapshot}
use fund.Orchestrator.Ingest.Trusted.{Snapshot, account_snapshot-Snapshot}
use fund.Orchestrator.Protection.Silent.{IsSafe, evaluate_silent}
use fund.Orchestrator.Protection.Cover.{covering_qty}
use fund.Orchestrator.Protection.Checks.{evaluate}
use fund.Python.Actions.{ok}
use fund.Orchestrator.Reconcile.Unconfirmed.{IsUntouched, timeout_close-unconfirmed}
use fund.Python.Floats.{Float, finite, nan, truncate, whole, one_unit, float_eq_int}
use fund.Tests.Samples.{test_conv, test_db, test_env, test_order, test_sys}
use fund.Python.Values.{Dict, text, int}
use fund.Orchestrator.Reconcile.Timeout.{timeout_close, confirmed_dead}
use fund.Orchestrator.Reconcile.Fills.{apply}
use fund.Orchestrator.Reconcile.Raises.{KeepsOnRaise, apply-keeps}
use fund.Base.{[], some, ℕ, refl, ◌∷◌, List, Option, All, pos, not, ◌==◌, ◌+◌}

abbrev exact_add : Float → Float → Float
exact_add (finite (pos x)) (finite (pos y)) = finite (pos (x + y))
exact_add x y = nan

abbrev cut_payload : Dict
cut_payload = ("status", text "filled") ∷ ("filled_qty", text "x") ∷ []

apply-keeps_example : KeepsOnRaise test_db (apply test_conv test_order cut_payload 4 test_db)
apply-keeps_example = apply-keeps test_conv test_order cut_payload 4 test_db

timeout_close-unconfirmed_example :
    let after = timeout_close test_conv test_env test_order 4 test_sys in
    IsUntouched test_db (after.0, after.1.db)
timeout_close-unconfirmed_example =
    timeout_close-unconfirmed test_conv test_env test_order 4 test_sys
      (unfold confirmed_dead in refl)

abbrev positions : List (Option Dict)
positions = some (("symbol", text "NVDA") ∷ ("side", text "long") ∷ ("qty", int (pos 5)) ∷ []) ∷ []

abbrev stops : List (Option Dict)
stops =
    some (
      ("symbol", text "NVDA")
      ∷ ("side", text "sell")
      ∷ ("type", text "stop")
      ∷ ("qty", text "5")
      ∷ [])
    ∷ []

evaluate_silent_example : All (IsSafe test_conv test_db stops) positions
unfolding evaluate covering_qty truncate float_eq_int whole one_unit
evaluate_silent_example = evaluate_silent test_conv test_db stops positions refl

-- A broker that lists nothing on the first reading and something on the second.
abbrev test_source : Source ℕ
test_source = record {
  account_state =
      λ w. (ok (record { lists_positions = not (w == 0); long_market_value = text "5" }), w);
  nap = λ w. w + 3;
}

account_snapshot-Snapshot_example :
    Snapshot test_conv 7 test_db (account_snapshot test_conv test_source 7 test_sys)
account_snapshot-Snapshot_example = account_snapshot-Snapshot test_conv test_source 7 test_sys
