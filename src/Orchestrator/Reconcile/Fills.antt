-- ===== src/Orchestrator/Reconcile/Fills.antt =====
-- The fill half of orchestrator/reconcile.py: parsing a broker's fill numbers, and mirroring one
-- broker order into the store.
use fund.Base.{
  ℕ, Bool, true, false, not, ◌||◌, Option, none, some, List, [], ◌∷◌, String, ℤ, pos, pos_part,
  leb_ℤ, select, find?, update_where, str_eq, if◌then◌else◌,
}
use fund.Python.Floats.{Float, float_le, float_eq, float_eq_int, truncate, zero_float, whole}
use fund.Python.Values.{Value, Dict, Conversions, null, bool, int, float, text, other, get, is_text}
use fund.Python.Actions.{
  Result, ok, err, Action, pure, lift, gets, modify, value_error, type_error, key_error,
  overflow_error, ◌>>=◌, ◌>>◌,
}
use fund.State.Rows.{
  Time, Db, Order, Ticket, Body, submitted, partially_filled, filled, approved, executed,
}
use fund.State.Transition.{try_transition, order, decision, ◌=ₛ◌}
use fund.Slack.Outbox.{append_event, append_alert}

-- o[k]
abbrev pub index : Dict → String → Result Value
index [] k = err key_error
index ((j, v) ∷ d) k = let rest = index d k in if str_eq j k then ok v else rest

abbrev pub or_raise : {A : Type 0} → Option A → Result A
or_raise none = err value_error
or_raise (some a) = ok a

abbrev pub bind_result : {A B : Type 0} → Result A → (A → Result B) → Result B
bind_result (ok a) f = f a
bind_result (err e) f = err e

-- What the broker may do with a pending order.
unfoldable pub pending_orders : Db → List Order
pending_orders db =
    select (λ (o : Order). o.status =ₛ submitted || o.status =ₛ partially_filled) db.orders

module _ (conv : Conversions) where
  -- float(v)
  unfoldable pub to_float : Value → Result Float
  to_float (bool b) = ok (if b then whole 1 else whole 0)
  to_float (int n) = elim (conv.float_of_int n) [ none ↦ err overflow_error | some x ↦ ok x ]
  to_float (float x) = ok x
  to_float (text s) = elim (conv.float_of_text s) [ none ↦ err value_error | some x ↦ ok x ]
  to_float null = err type_error
  to_float other = err type_error

  unfoldable pub checked_fill : Float → Float → ℤ → Result (ℕ × Float)
  checked_fill raw_qty price qty =
      if not (float_eq_int raw_qty qty)
      then err value_error
      else if leb_ℤ qty (pos 0) || float_le price zero_float
      then err value_error
      else ok (pos_part qty, price)

  unfoldable pub parse_fill : Dict → Result (ℕ × Float)
  unfolding to_float checked_fill
  parse_fill o = bind_result (bind_result (index o "filled_qty") to_float) λ raw_qty.
      bind_result (bind_result (index o "filled_avg_price") to_float)
        λ price. bind_result (or_raise (truncate raw_qty)) λ qty. checked_fill raw_qty price qty

  is_no_fill : Value → Result Bool
  unfolding to_float
  is_no_fill null = ok true
  is_no_fill v =
      if is_text v ""
      then ok true
      else bind_result (to_float v) (λ qty. ok (float_eq qty zero_float))

  -- `None` is the plain cancel, in which no shares changed hands.
  unfoldable pub dead_fill : Dict → Result (Option (ℕ × Float))
  unfolding is_no_fill parse_fill
  dead_fill o =
      bind_result (is_no_fill (get o "filled_qty"))
        λ no_fill. if no_fill then ok none else bind_result (parse_fill o) (λ fill. ok (some fill))

-- UPDATE orders SET filled_qty, filled_avg_price (and closed_at) WHERE client_order_id
abbrev pub write_fill : String → ℕ × Float → Option Time → Db → Db
write_fill coid (qty, price) closed db = record db {
  orders =
      update_where (λ (o : Order). str_eq o.client_order_id coid)
        (λ o. record o {
          filled_qty = qty;
          filled_avg_price = some price;
          closed_at = elim closed [ none ↦ o.closed_at | some t ↦ some t ];
        })
        db.orders;
}

abbrev pub ticket_of : String → Db → Option Ticket
ticket_of coid db = find? (λ (t : Ticket). str_eq t.id coid) db.tickets

abbrev pub fill_event : Order → ℕ × Float → Body
fill_event row (qty, price) = Body.fill row.symbol row.side qty price row.client_order_id

-- The decision behind a fill is executed; any other than an approved one is left as it is.
unfoldable pub settle_decision : Option Ticket → Time → Action Db (Unit {0})
unfolding try_transition
settle_decision none now = pure tt
settle_decision (some t) now = do
  moved ← try_transition (decision t.decision_id) approved executed now [] none
  if moved then pure tt else modify (append_alert "fill_on_unapproved_decision" none now)

-- The second CAS of a fill, which runs only where the first one did not move the order.
unfoldable pub move_partial : Order → Time → Bool → Action Db Bool
unfolding try_transition
move_partial row now true = pure true
move_partial row now false =
    try_transition (order row.client_order_id) partially_filled filled now [] none

unfoldable pub announce_fill : Order → Time → ℕ × Float → (moved : Bool) → Action Db Bool
unfolding settle_decision
announce_fill row now fill false = pure false
announce_fill row now fill true = do
  modify (append_event (fill_event row fill) now)
  t ← gets (ticket_of row.client_order_id)
  settle_decision t now
  pure true

-- What follows a fill that parsed.
unfoldable pub record_filled : Order → Time → ℕ × Float → Action Db Bool
unfolding move_partial announce_fill try_transition
record_filled row now fill = do
  modify (write_fill row.client_order_id fill (some now))
  first ← try_transition (order row.client_order_id) submitted filled now [] none
  moved ← move_partial row now first
  announce_fill row now fill moved

unfoldable pub record_partial : Order → Time → ℕ × Float → Action Db Bool
unfolding try_transition
record_partial row now fill = do
  modify (write_fill row.client_order_id fill none)
  moved ← try_transition (order row.client_order_id) submitted partially_filled now [] none
  if moved
      then (do modify (append_alert "partial_fill_manual_review" none now); pure false)
      else pure false

module _ (conv : Conversions) where
  unfoldable pub apply_filled : Order → Dict → Time → Action Db Bool
  unfolding parse_fill record_filled
  apply_filled row o now = lift (parse_fill conv o) >>= record_filled row now

  unfoldable pub apply_partial : Order → Dict → Time → Action Db Bool
  unfolding parse_fill record_partial
  apply_partial row o now = lift (parse_fill conv o) >>= record_partial row now

  -- `_apply`: true exactly when this call moved the order to filled.
  unfoldable pub apply : Order → Dict → Time → Action Db Bool
  unfolding apply_filled apply_partial
  apply row o now =
      if is_text (get o "status") "filled"
      then apply_filled row o now
      else if is_text (get o "status") "partially_filled"
      then apply_partial row o now
      else pure false
