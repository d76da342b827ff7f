-- ===== src/Orchestrator/Reconcile/Timeout.antt =====
-- `_timeout_close` of orchestrator/reconcile.py: closing out one order past the cap. A status that the
-- broker reports is hashable, as JSON scalars are.
use fund.Base.{ℕ, Bool, false, not, ◌||◌, Option, none, some, [], ◌∷◌, find?, str_eq, if◌then◌else◌}
use fund.Python.Floats.{Float}
use fund.Python.Values.{Value, Dict, Conversions, text, get, is_text}
use fund.Python.Actions.{Result, ok, err, Action, pure, gets, modify, catch, ◌>>=◌, ◌>>◌}
use fund.State.Rows.{Time, Db, Order, Ticket, Status, canceled, approved, executed, failed}
use fund.State.Transition.{try_transition, order, decision, orders, has_edge}
use fund.Slack.Outbox.{append_event, append_alert}
use fund.Orchestrator.Broker.{Env, Sys}
use fund.Orchestrator.Reconcile.Fills.{apply, dead_fill, write_fill, ticket_of, fill_event}

-- The broker statuses after which no more shares come, with what they are recorded as.
unfoldable pub confirmed_dead : Value → Option Status
confirmed_dead (text s) =
    if str_eq s "canceled"
    then some canceled
    else if str_eq s "expired"
    then some canceled
    else if str_eq s "rejected"
    then some Status.rejected
    else none
confirmed_dead _ = none

-- CAS the decision behind the ticket, if there is one.
abbrev move_decision : Option Ticket → Status → Time → Action Db Bool
move_decision none to now = pure false
move_decision (some t) to now = try_transition (decision t.decision_id) approved to now [] none

-- Once the order is recorded dead: nothing held, so the decision failed, or a real position, so it
-- is executed.
unfoldable pub settle_dead : Order → Option (ℕ × Float) → Time → Action Db (Unit {0})
unfolding try_transition
settle_dead row none now = do
  t ← gets (ticket_of row.client_order_id)
  moved ← move_decision t failed now
  modify (append_alert "order_unfilled_at_cap" none now)
settle_dead row (some fill) now = do
  t ← gets (ticket_of row.client_order_id)
  modify (append_event (fill_event row fill) now)
  moved ← move_decision t executed now
  modify (append_alert "order_partial_then_dead" none now)

abbrev write_dead_fill : Order → Option (ℕ × Float) → Time → Db → Db
write_dead_fill row none now db = db
write_dead_fill row (some fill) now db = write_fill row.client_order_id fill (some now) db

unfoldable pub record_dead : Order → Status → Status → Option (ℕ × Float) → Time → Action Db Bool
unfolding try_transition settle_dead
record_dead row from dead fill now = do
  modify (write_dead_fill row fill now)
  moved ← try_transition (order row.client_order_id) from dead now [] none
  if moved then (do settle_dead row fill now; pure false) else pure false

abbrev unreconciled : Time → Action Db Bool
unreconciled now = do modify (append_alert "order_unreconciled" none now); pure false

module _ (conv : Conversions) where
  -- The broker says that the order is dead, to be recorded as `dead`.
  unfoldable pub close_dead : Order → Dict → Status → Time → Action Db Bool
  unfolding record_dead dead_fill
  close_dead row o dead now db =
      elim (find? (λ (r : Order). str_eq r.client_order_id row.client_order_id) db.orders) [
        | none ↦ unreconciled now db
        | some cur ↦
            if not (has_edge orders cur.status dead)
            then unreconciled now db
            else elim (dead_fill conv o) [
              | err e ↦ unreconciled now db
              | ok fill ↦ record_dead row cur.status dead fill now db
            ]
      ]

  -- The branches on what the one re-query answered.
  unfoldable pub close_answered : Order → Dict → Time → Action Db Bool
  unfolding apply close_dead confirmed_dead
  close_answered row o now =
      if is_text (get o "status") "filled" || is_text (get o "status") "partially_filled"
      then catch (apply conv row o now) (λ e. unreconciled now)
      else elim (confirmed_dead (get o "status")) [
        | none ↦ unreconciled now
        | some dead ↦ close_dead row o dead now
      ]

  abbrev pub answer : Result (Option Dict) → Option Dict
  answer (ok (some (e ∷ o))) = some (e ∷ o)
  answer _ = none

  unfoldable pub close_reply : Order → Time → Option Dict → Action Db Bool
  unfolding close_answered
  close_reply row now none = unreconciled now
  close_reply row now (some o) = close_answered row o now

  -- The cancel may raise: the re-query decides. An empty answer raises, like one that fails.
  unfoldable pub timeout_close : {W : Type 0} → Env W → Order → Time → Action (Sys W) Bool
  unfolding close_reply
  timeout_close env row now s =
      let (_, w1) = env.cancel_order row.client_order_id s.world in
      let (reply, w2) = env.get_order row.client_order_id w1 in
      let (r, db') = close_reply row now (answer reply) s.db in
      (r, record s { db = db'; world = w2 })
