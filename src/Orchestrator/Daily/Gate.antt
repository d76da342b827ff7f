-- ===== src/Orchestrator/Daily/Gate.antt =====
-- The enforcement pass of orchestrator/daily.py: every submitted decision settles.
pub mod Settles
pub mod Waiting
pub mod Caps
use fund.Base.{
  ℕ, ◌+◌, ◌*◌, ◌==◌, ◌≡◌, Bool, true, false, not, ◌&&◌, ◌||◌, Option, none, some, List, [], ◌∷◌,
  ◌++◌, String, ℤ, pos, pos_part, ltb_ℤ, select, find?, update_where, str_eq, if◌then◌else◌,
  order_by, leb,
}
use fund.Python.Values.{Dict, Conversions}
use fund.Python.Actions.{Result, ok, err, Action, pure, raise, modify, gets, catch, ◌>>=◌, ◌>>◌}
use fund.State.Rows.{
  Time, Db, Decision, Ticket, Side, Intent, trade, hold, Body, submitted, held, opened, Status,
}
use fund.State.Transition.{try_transition, decision, ticket, ◌=ₛ◌}
use fund.Gate.Risk.{Arith, Verdict}
use fund.Gate.Tickets.{create_ticket}
use fund.Slack.Outbox.{append_event}
use fund.Orchestrator.Daily.Sizing.{MarketInputs, sized}

-- TICKET_TTL_MIN, in seconds.
abbrev pub ticket_ttl : ℕ
ticket_ttl = 45 * 60

abbrev open_ticket_of : ℕ → Db → Option Ticket
open_ticket_of id db = find? (λ (t : Ticket). t.decision_id == id && t.status =ₛ opened) db.tickets

abbrev ticket_for : ℕ → Db → Option Ticket
ticket_for id db = find? (λ (t : Ticket). t.decision_id == id) db.tickets

close_open_ticket : Option Ticket → Time → Action Db (Unit {0})
unfolding try_transition
close_open_ticket none now = pure tt
close_open_ticket (some t) now = do
  try_transition (ticket t.id) opened Status.expired now [] none
  pure tt

-- The open ticket goes first, so that a rejected decision leaves no live one behind.
unfoldable pub gate_reject : Decision → (reason : String) → Time → Action Db (Unit {0})
unfolding close_open_ticket try_transition
gate_reject d reason now = do
  existing ← gets (open_ticket_of d.id)
  close_open_ticket existing now
  moved ← try_transition (decision d.id) submitted Status.rejected now [] none
  if moved then modify (append_event (Body.gate_rejected d.ticker d.action reason) now) else pure tt

abbrev inputs_of : String → MarketInputs → Dict
inputs_of ticker [] = []
inputs_of ticker ((t, d) ∷ rest) =
    let more = inputs_of ticker rest in if str_eq t ticker then d else more

-- The gate caps the ask and never sizes it up.
abbrev pub capped_qty : ℕ → Verdict → ℤ
capped_qty asked (Verdict.approved q p side) = if ltb_ℤ q (pos asked) then q else pos asked
capped_qty asked (Verdict.rejected reason) = pos 0

abbrev why : Verdict → String
why (Verdict.approved q p side) = "zero_qty"
why (Verdict.rejected reason) = reason

-- A ticket that is there is reconciled to the fresh cap, under its own id.
abbrev refresh_ticket : String → ℤ → Time → Db → Db
refresh_ticket id max_qty expires_at db = record db {
  tickets =
      update_where (λ (t : Ticket). str_eq t.id id && t.status =ₛ opened)
        (λ t. record t { max_qty = pos_part max_qty; expires_at = expires_at }) db.tickets;
}

abbrev id_or : Option Ticket → String → String
id_or none fresh = fresh
id_or (some t) fresh = t.id

unfoldable pub approve_decision : Decision → String → Side → ℤ → Time → Action Db (Unit {0})
unfolding try_transition
approve_decision d id side max_qty now = do
  moved ← try_transition (decision d.id) submitted Status.approved now [] none
  if moved
      then modify (append_event (Body.gate_approved id d.ticker side (pos_part max_qty)) now)
      else pure tt

abbrev pub submitted_on : String → Decision → Bool
submitted_on run_date d = str_eq d.run_date run_date && d.status =ₛ submitted

module _ (conv : Conversions) (a : Arith) (inputs : MarketInputs) (new_id : Db → String) where
  mint :
      Option Ticket → String → Decision → Side → ℤ → (now expires_at : Time) → Action Db (Unit {0})
  unfolding create_ticket
  mint none id d side max_qty now expires_at =
      create_ticket id d.id d.ticker side max_qty d.stop_price expires_at now
  mint (some t) id d side max_qty now expires_at = modify (refresh_ticket id max_qty expires_at)

  unfoldable pub approve_trade :
      Decision → Side → ℤ → (now expires_at : Time) → Action Db (Unit {0})
  unfolding mint approve_decision
  approve_trade d side max_qty now expires_at = do
    existing ← gets (ticket_for d.id)
    fresh ← gets new_id
    let id = id_or existing fresh
    mint existing id d side max_qty now expires_at
    approve_decision d id side max_qty now

  unfoldable pub handle_trade : Decision → Side → (now expires_at : Time) → Action Db (Unit {0})
  unfolding approve_trade gate_reject sized
  handle_trade d side now expires_at =
      let verdict = sized conv a (inputs_of d.ticker inputs) side in
      let max_qty = capped_qty d.qty verdict in
      if ltb_ℤ max_qty (pos 1)
      then gate_reject d (why verdict) now
      else approve_trade d side max_qty now expires_at

  handle_intent : Intent → Decision → (now expires_at : Time) → Action Db (Unit {0})
  unfolding handle_trade try_transition
  handle_intent hold d now expires_at = do
    try_transition (decision d.id) submitted held now [] none
    pure tt
  handle_intent (trade side) d now expires_at = handle_trade d side now expires_at

  unfoldable pub gate_handle : Decision → (now expires_at : Time) → Action Db (Unit {0})
  unfolding handle_intent
  gate_handle d now expires_at = handle_intent d.action d now expires_at

  -- A raise rejects that decision alone.
  unfoldable pub gate_one : Decision → (now expires_at : Time) → Action Db (Unit {0})
  unfolding gate_handle gate_reject
  gate_one d now expires_at =
      catch (gate_handle d now expires_at) (λ e. gate_reject d "gate_error" now)

  unfoldable pub gate_rows : List Decision → (now expires_at : Time) → Action Db (Unit {0})
  unfolding gate_one
  gate_rows [] now expires_at = pure tt
  gate_rows (d ∷ rows) now expires_at = do gate_one d now expires_at; gate_rows rows now expires_at

  unfoldable pub run_gate : String → Time → Action Db (Unit {0})
  unfolding gate_rows
  run_gate run_date now db =
      gate_rows
        (order_by (λ (d e : Decision). leb d.id e.id) (select (submitted_on run_date) db.decisions))
        now (now + ticket_ttl) db
