-- ===== src/Orchestrator/Daily/Stage/Resume.antt =====
-- A stage that is done is not run again.
use fund.Orchestrator.Daily.Stage.{is_row, run_stage, run_from, status_of, skipped}
use fund.Orchestrator.Broker.{Sys}
use fund.Python.Actions.{Action, ok}
use fund.Slack.Outbox.{Delivery}
use fund.State.Rows.{Body, Status, Checkpoint, Event, Time, done}
use fund.Base.{
  none, some, [], ◌∷◌, true, refl, inl, inr, Bool-cases, String, Bool, List, Option, ◌≡◌, any,
  find?,
}

abbrev status_of_rows : (run_date stage : String) → List Checkpoint → Option Status
status_of_rows run_date stage rows = elim (find? (is_row run_date stage) rows) [
  | none ↦ none
  | some c ↦ some c.status
]

present :
    (run_date stage : String) (s : Status) (rows : List Checkpoint)
    → status_of_rows run_date stage rows ≡ some s
    → any (is_row run_date stage) rows ≡ true
present run_date stage s [] h = cc
present run_date stage s (c ∷ rows) h = elim (Bool-cases (is_row run_date stage c)) [
  | inl hit ↦ rw hit refl
  | inr miss ↦ rw miss (present run_date stage s rows (rw (miss, status_of_rows) at h))
]

module _ {W : Type 0} (renders : Body → Bool) (post : Event → W → Delivery × W) {R : Type 0}
    (body : Action (Sys W) R) where
  -- A stage whose checkpoint is done is skipped whole on a resumed day: its body is not run, nothing
  -- is drained, and neither the store nor the outside world changes.
  pub run_stage_done :
      (run_date stage : String) (now now2 : Time) (s : Sys W)
      → status_of run_date stage s.db ≡ some done
      → run_stage renders post body run_date stage now now2 s ≡ (ok skipped, s)
  unfolding run_stage run_from
  run_stage_done run_date stage now now2 s h =
      rw (present run_date stage done s.db.checkpoints h, h) refl
