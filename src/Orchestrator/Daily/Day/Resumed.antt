-- ===== src/Orchestrator/Daily/Day/Resumed.antt =====
-- A day that is fired again after its close.
use fund.Orchestrator.Daily.Gate.{run_gate}
use fund.Orchestrator.Daily.Sizing.{run_pre_gate}
use fund.Orchestrator.Daily.Turns.{run_decision, run_research}
use fund.Orchestrator.Daily.Execution.{run_execution, execution_body}
use fund.Orchestrator.Daily.Stage.Resume.{run_stage_done}
use fund.Orchestrator.Broker.{Sys, on_db}
use fund.Python.Actions.{Action, ok, ◌>>◌, >>=_ok, modify}
use fund.Orchestrator.Daily.Stage.{status_of, skipped}
use fund.Base.{String, ◌≡◌, some, ◌∙◌, List}
use fund.State.Rows.{Db, Time, done}
use fund.Orchestrator.Daily.Day.{
  Given, stage, run_day, close_day, assertions, pre_gate, after_pre_gate, execution, active_of,
  reconciliation,
}

module _ {W : Type 0} (g : Given W) where
  abbrev pub IsDone : Db → String → Type 0
  IsDone db name = status_of g.run_date name db ≡ some done

  skips :
      {R : Type 0} (name : String) (now now2 : Time) (body : Action (Sys W) R) (s : Sys W)
      → IsDone s.db name
      → stage g name now now2 body s ≡ (ok skipped, s)
  skips name now now2 body s h = run_stage_done g.renders g.post body g.run_date name now now2 s h

  -- The rest of the day after a stage that is skipped.
  past :
      {R : Type 0} (name : String) (now now2 : Time) (body : Action (Sys W) R) (s : Sys W)
      (rest : Action (Sys W) (Unit {0}))
      → IsDone s.db name
      → (stage g name now now2 body >> rest) s ≡ rest s
  past name now now2 body s rest h =
      >>=_ok (stage g name now now2 body) (λ _. rest) s {a = skipped} {s' = s}
        (skips name now now2 body s h)

  past_execution :
      (s : Sys W) (rest : Action (Sys W) (Unit {0}))
      → IsDone s.db "execution"
      → (execution g >> rest) s ≡ rest s
  unfolding run_execution
  past_execution s rest h =
      past "execution" (g.tick 11) (g.tick 15)
        (execution_body g.execution_turn (g.tick 12) (g.tick 13) (g.tick 14)) s rest h

  -- What is left of the day from a stage on.
  abbrev from_reconciliation : Action (Sys W) (Unit {0})
  from_reconciliation = do
    stage g "reconciliation" (g.tick 16) (g.tick 17) (reconciliation g)
    modify (assertions g (g.tick 18))
    close_day g

  abbrev from_gate : Action (Sys W) (Unit {0})
  from_gate = do
    stage g "gate" (g.tick 8) (g.tick 10)
        (on_db (run_gate g.conv g.arith_of g.inputs g.new_id g.run_date (g.tick 9)))
    execution g
    from_reconciliation

  abbrev from_decision : List String → Action (Sys W) (Unit {0})
  from_decision active = do
    stage g "decision" (g.tick 5) (g.tick 7)
        (run_decision g.decision_turn g.run_date active (g.tick 6))
    from_gate

  -- A day fired again, whose stages up to the reconciliation are done: none of them runs, whatever the
  -- turns, the feeds and the broker are. The positions are checked again on the store and the world as
  -- they are, what the checks find is drained, and then the close decides by itself.
  pub run_day_resumed :
      (s : Sys W)
      → IsDone s.db "pre_gate"
      → IsDone s.db "research"
      → IsDone s.db "decision"
      → IsDone s.db "gate"
      → IsDone s.db "execution"
      → IsDone s.db "reconciliation"
      → run_day g s ≡ close_day g (assertions g (g.tick 18) s)
  unfolding run_day
  run_day_resumed s screened researched decided gated executed reconciled =
      >>=_ok (stage g "pre_gate" (g.tick 0) (g.tick 2) (pre_gate g))
        (λ x. after_pre_gate g (active_of g x)) s {a = skipped} {s' = s}
        (skips "pre_gate" (g.tick 0) (g.tick 2) (pre_gate g) s screened)
      ∙ past "research" (g.tick 3) (g.tick 4)
          (run_research g.research_turn g.run_date g.research_seats active) s (from_decision active)
          researched
      ∙ past "decision" (g.tick 5) (g.tick 7)
          (run_decision g.decision_turn g.run_date active (g.tick 6)) s from_gate decided
      ∙ past "gate" (g.tick 8) (g.tick 10)
          (on_db (run_gate g.conv g.arith_of g.inputs g.new_id g.run_date (g.tick 9))) s
          (execution g >> from_reconciliation) gated
      ∙ past_execution s from_reconciliation executed
      ∙ past "reconciliation" (g.tick 16) (g.tick 17) (reconciliation g) s
          (modify (assertions g (g.tick 18)) >> close_day g) reconciled
    where
      active : List String
      active = run_pre_gate g.conv g.arith_of g.inputs
