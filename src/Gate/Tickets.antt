-- ===== src/Gate/Tickets.antt =====
-- gate/tickets.py: the ticket store and the validation of an order against its ticket.
pub mod Expiry
pub mod Orders
use fund.Base.{
  ℕ, ◌≡◌, Bool, true, false, not, ◌&&◌, ◌||◌, Option, none, some, List, [], ◌∷◌, String, ℤ, pos,
  pos_part, ltb_ℤ, leb, any, select, find?, order_by, str_eq, if◌then◌else◌, ◌==◌, ◌++◌,
}
use fund.Python.Floats.{Float, float_lt, zero_float}
use fund.Python.Values.{Value, Dict, Conversions}
use fund.Python.Actions.{
  Result, ok, err, Action, raise, modify, pure, value_error, integrity_error, overflow_error, ◌>>=◌,
  ◌>>◌,
}
use fund.State.Rows.{Time, Db, Decision, Ticket, Order, Side, opened, approved, expired}
use fund.State.Transition.{try_transition, ticket, decision, ◌=ₛ◌}

-- A stop price that the `Ticket` model refuses: not above zero.
abbrev pub bad_price : Option Float → Bool
bad_price none = false
bad_price (some p) = not (float_lt zero_float p)

-- The constraints of the tickets table: the primary key, one ticket per decision, and the decision
-- that it references.
abbrev pub violates : String → ℕ → Db → Bool
violates id decision_id db =
    any (λ (t : Ticket). str_eq t.id id) db.tickets
    || any (λ (t : Ticket). t.decision_id == decision_id) db.tickets
    || not (any (λ (d : Decision). d.id == decision_id) db.decisions)

unfoldable pub create_ticket :
    (id : String) (decision_id : ℕ) (ticker : String) (side : Side) (max_qty : ℤ)
    (stop_price : Option Float) (expires_at now : Time)
    → Action Db (Unit {0})
create_ticket id decision_id ticker side max_qty stop_price expires_at now db =
    if ltb_ℤ max_qty (pos 1) || bad_price stop_price
    then (err value_error, db)
    else if violates id decision_id db
    then (err integrity_error, db)
    else (
      ok tt,
      record db {
        tickets =
            db.tickets
            ++ record {
              id = id;
              decision_id = decision_id;
              ticker = ticker;
              side = side;
              max_qty = pos_part max_qty;
              stop_price = stop_price;
              expires_at = expires_at;
              status = opened;
              created_at = now;
            }
              ∷ [];
      },
    )

unfoldable pub get_ticket : String → Db → Option Ticket
get_ticket ticket_id db = find? (λ (t : Ticket). str_eq t.id ticket_id) db.tickets

-- now >= expires_at
abbrev pub is_expired : Time → Time → Bool
is_expired expires_at now = leb expires_at now

unfoldable pub open_tickets : Time → Db → List Ticket
open_tickets now db =
    select (λ (t : Ticket). not (is_expired t.expires_at now))
      (order_by (λ t u. leb t.created_at u.created_at)
        (select (λ (t : Ticket). t.status =ₛ opened) db.tickets))

abbrev pub has_order : List Order → Ticket → Bool
has_order orders t = any (λ (o : Order). str_eq o.client_order_id t.id) orders

unfoldable pub open_tickets_without_orders : Db → List Ticket
open_tickets_without_orders db =
    order_by (λ t u. leb t.created_at u.created_at)
      (select (λ (t : Ticket). t.status =ₛ opened && not (has_order db.orders t)) db.tickets)

-- One round of the loop: the ids that it appends.
unfoldable pub expire_row : Ticket → Time → Action Db (List String)
unfolding try_transition
expire_row r now = if not (is_expired r.expires_at now) then pure [] else do
  moved ← try_transition (ticket r.id) opened expired now [] none
  if moved
      then (do
        try_transition (decision r.decision_id) approved expired now [] none
        pure (r.id ∷ []))
      else pure []

-- The loop over the rows that were open when it began; returns the ids that it expired.
unfoldable pub expire_rows : List Ticket → Time → Action Db (List String)
unfolding expire_row
expire_rows [] now = pure []
expire_rows (r ∷ rows) now = do
  ids ← expire_row r now
  rest ← expire_rows rows now
  pure (ids ++ rest)

unfoldable pub expire_open_tickets : Time → Action Db (List String)
unfolding expire_rows
expire_open_tickets now db =
    expire_rows (select (λ (t : Ticket). t.status =ₛ opened) db.tickets) now db
