-- ===== src/Orchestrator/Daily/Stage.antt =====
-- `run_stage` of orchestrator/daily.py: the checkpoint around one stage body. The two clock readings
-- are arguments; the world is the one of the outbox's port.
pub mod Resume
use fund.Orchestrator.Broker.{Sys, on_db}
use fund.Slack.Outbox.{Delivery, drain}
use fund.State.Transition.{try_transition, checkpoint}
use fund.Python.Actions.{Action, pure, modify}
use fund.State.Rows.{Time, Checkpoint, Db, Status, pending, Body, Event, running, done}
use fund.Python.Actions.{◌>>◌, ◌>>=◌}
use fund.Base.{
  none, some, [], if◌then◌else◌, String, Bool, Option, any, str_eq, ◌++◌, find?, ◌&&◌, ◌∷◌,
}

-- INSERT OR IGNORE of the pending checkpoint.
abbrev pub is_row : (run_date stage : String) → Checkpoint → Bool
is_row run_date stage c = str_eq c.run_date run_date && str_eq c.stage stage && str_eq c.ticker "*"

abbrev ensure_row : (run_date stage : String) → Time → Db → Db
ensure_row run_date stage now db =
    if any (is_row run_date stage) db.checkpoints then db else record db {
      checkpoints =
          db.checkpoints
          ++ record {
            run_date = run_date;
            stage = stage;
            ticker = "*";
            status = pending;
            updated_at = now;
          }
            ∷ [];
    }

abbrev pub status_of : (run_date stage : String) → Db → Option Status
status_of run_date stage db = elim (find? (is_row run_date stage) db.checkpoints) [
  | none ↦ none
  | some c ↦ some c.status
]

-- What the stage came to: skipped, or the body's value.
pub data Ran (R : Type 0) : Type 0 where
  skipped : Ran R
  ran : R → Ran R

-- The drain over the store and the port's world; it always ends with a pass.
module _ {W : Type 0} (renders : Body → Bool) (post : Event → W → Delivery × W) where
  unfoldable pub drain_into : Time → Sys W → Sys W
  unfolding drain
  drain_into now s = elim (drain renders post now s.db s.world) [
    | none ↦ s
    | some p ↦ record { db = p.db; world = p.port }
  ]

  module _ {R : Type 0} (body : Action (Sys W) R) where
    close_stage : (run_date stage : String) → Time → R → Action (Sys W) (Ran R)
    unfolding drain_into try_transition
    close_stage run_date stage now2 r = do
      modify (drain_into now2)
      on_db (try_transition (checkpoint run_date stage "*") running done now2 [] none)
      pure (ran r)

    unfoldable pub run_from :
        Option Status → (run_date stage : String) → (now now2 : Time) → Action (Sys W) (Ran R)
    unfolding close_stage try_transition
    run_from (some done) run_date stage now now2 = pure skipped
    run_from (some pending) run_date stage now now2 = do
      on_db (try_transition (checkpoint run_date stage "*") pending running now [] none)
      r ← body
      close_stage run_date stage now2 r
    run_from _ run_date stage now now2 = do r ← body; close_stage run_date stage now2 r

    unfoldable pub run_stage :
        (run_date stage : String) → (now now2 : Time) → Action (Sys W) (Ran R)
    unfolding run_from
    run_stage run_date stage now now2 s =
        let db' = ensure_row run_date stage now s.db in
        run_from (status_of run_date stage db') run_date stage now now2 (record s { db = db' })
