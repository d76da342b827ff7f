-- ===== src/Orchestrator/Reconcile/Pass.antt =====
-- `reconcile_stage` of orchestrator/reconcile.py: recovery first, then the polls.
use fund.Base.{ℕ, Option, String}
use fund.Python.Floats.{Float}
use fund.Python.Values.{Value, Conversions}
use fund.Python.Actions.{Result}
use fund.Orchestrator.Broker.{Env, Sys}
use fund.Orchestrator.Reconcile.Recover.{recover_lost_orders}
use fund.Orchestrator.Reconcile.Poll.{reconcile_orders}

module _ (conv : Conversions) (add : Float → Float → Float) (text_of : Value → String) {W : Type 0}
    (env : Env W) where
  unfoldable pub reconcile_stage :
      (rounds : ℕ) (poll max_wait : Float) → Sys W → Result (Option (ℕ × Sys W))
  unfolding recover_lost_orders reconcile_orders
  reconcile_stage rounds poll max_wait s =
      let (n, s') = recover_lost_orders text_of env s in
      reconcile_orders conv add env rounds poll max_wait s'
