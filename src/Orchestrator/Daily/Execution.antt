-- ===== src/Orchestrator/Daily/Execution.antt =====
-- `run_execution` of orchestrator/daily.py. The trader's turn is a parameter: agent code that changes
-- the store and the outside world, and may raise. Each reading of the clock is an argument.
use fund.Orchestrator.Daily.Stage.{run_stage, Ran}
use fund.Orchestrator.Broker.{Sys, on_db}
use fund.Slack.Outbox.{append_alert, Delivery}
use fund.Gate.Tickets.{open_tickets_without_orders, expire_open_tickets, open_tickets}
use fund.State.Rows.{Time, Db, Ticket, Body, Event}
use fund.Python.Actions.{◌>>◌, Action, modify, ok}
use fund.Base.{if◌then◌else◌, none, some, [], ◌∷◌, List, Option, is_empty, Bool, String}

abbrev alert_each : List Ticket → Time → Db → Db
alert_each [] now db = db
alert_each (t ∷ ts) now db = alert_each ts now (append_alert "ticket_open_after_exec" none now db)

unfoldable pub alert_unexecuted_tickets : Time → Db → Db
alert_unexecuted_tickets now db = alert_each (open_tickets_without_orders db) now db

module _ {W : Type 0} (turn : Option (Action (Sys W) (Unit {0}))) where
  -- The turn runs only if there is one and a ticket is open.
  take_turn : Option (Action (Sys W) (Unit {0})) → Time → Action (Sys W) (Unit {0})
  take_turn none now s = (ok tt, s)
  take_turn (some act) now s = if is_empty (open_tickets now s.db) then (ok tt, s) else act s

  unfoldable pub execution_body : (expiry opening closing : Time) → Action (Sys W) (Unit {0})
  unfolding take_turn expire_open_tickets alert_unexecuted_tickets
  execution_body expiry opening closing = do
    on_db (expire_open_tickets expiry)
    take_turn turn opening
    modify (λ s. record s { db = alert_unexecuted_tickets closing s.db })

  unfoldable pub run_execution :
      (renders : Body → Bool) (post : Event → W → Delivery × W) (run_date : String)
      (start expiry opening closing end : Time)
      → Action (Sys W) (Ran (Unit {0}))
  unfolding run_stage execution_body
  run_execution renders post run_date start expiry opening closing end =
      run_stage renders post (execution_body expiry opening closing) run_date "execution" start end
