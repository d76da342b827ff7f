-- ===== src/Orchestrator/Daily/Day.antt =====
-- `run_day` and `run_close` of orchestrator/daily.py: the stages in their order, and the assertions that
-- every firing of a day makes. What the day is given is a record; `tick` is the readings of the clock,
-- in order. A stage of the record that is not given is a turn that does nothing. The close is that of a
-- day without a folder of journals; the figures of its digest are prose.
pub mod Resumed
use fund.Orchestrator.Daily.Execution.{run_execution}
use fund.Orchestrator.Daily.Gate.{run_gate}
use fund.Orchestrator.Protection.Checks.{Account}
use fund.Slack.Outbox.{append_event, Delivery}
use fund.Orchestrator.Daily.Turns.{Turn, run_research, run_decision}
use fund.Orchestrator.Daily.Sizing.{pre_gate_stage, run_pre_gate, MarketInputs}
use fund.Orchestrator.Protection.Accounts.{assert_positions_accounted, Holdings}
use fund.Gate.Risk.{Arith}
use fund.Orchestrator.Protection.Checks.{assert_positions_protected}
use fund.Orchestrator.Reconcile.Pass.{reconcile_stage}
use fund.State.Rows.{Time, Db, Event, Body}
use fund.Python.Values.{Conversions, Value}
use fund.Base.{
  String, List, Bool, Option, if◌then◌else◌, any, ℕ, ◌+◌, ◌==◌, some, str_eq, false, none,
}
use fund.Python.Floats.{Float, whole}
use fund.Orchestrator.Broker.{Sys, Env, on_db}
use fund.Python.Actions.{Action, Result, ok, err, ◌>>=◌, ◌>>◌, modify, pure}
use fund.Orchestrator.Daily.Stage.{Ran, run_stage, ran, drain_into, skipped}

pub record Given (W : Type 0) : Type 0 where
  pub conv : Conversions
  pub arith_of : Arith
  pub add : Float → Float → Float
  pub text_of : Value → String
  pub new_id : Db → String
  pub run_date : String
  pub inputs : MarketInputs
  pub research_seats : List String
  pub research_turn : Turn W
  pub decision_turn : Turn W
  pub execution_turn : Turn W
  pub env : Env W
  pub protection : Option (Account W)
  pub holdings : Option (Holdings W)
  pub renders : Body → Bool
  pub post : Event → W → Delivery × W
  pub tick : ℕ → Time

-- The digest of the day, once.
abbrev is_digest : String → Event → Bool
is_digest run_date e = elim e.body [ Body.digest day ↦ str_eq day run_date | _ ↦ false ]

unfoldable pub run_close : String → Time → Db → Db
run_close run_date now db =
    if any (is_digest run_date) db.events then db else append_event (Body.digest run_date) now db

module _ {W : Type 0} (g : Given W) where
  -- A stage of the day, with its readings of the clock.
  abbrev pub stage :
      {R : Type 0} → String → (now now2 : Time) → Action (Sys W) R → Action (Sys W) (Ran R)
  stage name now now2 body = run_stage g.renders g.post body g.run_date name now now2

  abbrev pub pre_gate : Action (Sys W) (List String)
  pre_gate s =
      let (active, db) = pre_gate_stage g.conv g.arith_of g.run_date g.inputs (g.tick 1) s.db in
      (ok active, record s { db = db })

  -- The pure computation again, when the stage is skipped.
  abbrev pub active_of : Ran (List String) → List String
  active_of skipped = run_pre_gate g.conv g.arith_of g.inputs
  active_of (ran active) = active

  -- The polls come to an end within their fuel.
  abbrev pub reconciled : Sys W → Result (Option (ℕ × Sys W)) → Result (Unit {0}) × Sys W
  reconciled s (err e) = (err e, s)
  reconciled s (ok none) = (ok tt, s)
  reconciled s (ok (some (n, s'))) = (ok tt, s')

  abbrev pub reconciliation : Action (Sys W) (Unit {0})
  reconciliation s =
      reconciled s (reconcile_stage g.conv g.add g.text_of g.env 92 (whole 3) (whole 90) s)

  -- Both assertions, and the drain of what they found.
  unfoldable pub assertions : Time → Sys W → Sys W
  assertions now s =
      let ((n, db), w) = assert_positions_protected g.conv g.protection now s.world s.db in
      let ((m, db'), w') = assert_positions_accounted g.conv g.holdings now w db in
      let found : Sys W = record { db = db'; world = w' } in
      if n + m == 0 then found else drain_into g.renders g.post now found

  abbrev pub close_day : Action (Sys W) (Unit {0})
  close_day = do
    stage "close" (g.tick 19) (g.tick 21)
        (modify (λ s. record s { db = run_close g.run_date (g.tick 20) s.db }))
    pure tt

  abbrev pub execution : Action (Sys W) (Ran (Unit {0}))
  execution =
      run_execution g.execution_turn g.renders g.post g.run_date (g.tick 11) (g.tick 12) (g.tick 13)
        (g.tick 14) (g.tick 15)

  abbrev pub after_pre_gate : List String → Action (Sys W) (Unit {0})
  after_pre_gate active = do
    stage "research" (g.tick 3) (g.tick 4)
        (run_research g.research_turn g.run_date g.research_seats active)
    stage "decision" (g.tick 5) (g.tick 7)
        (run_decision g.decision_turn g.run_date active (g.tick 6))
    stage "gate" (g.tick 8) (g.tick 10)
        (on_db (run_gate g.conv g.arith_of g.inputs g.new_id g.run_date (g.tick 9)))
    execution
    stage "reconciliation" (g.tick 16) (g.tick 17) reconciliation
    modify (assertions (g.tick 18))
    close_day

  unfoldable pub run_day : Action (Sys W) (Unit {0})
  run_day = do
    screened ← stage "pre_gate" (g.tick 0) (g.tick 2) pre_gate
    after_pre_gate (active_of screened)
