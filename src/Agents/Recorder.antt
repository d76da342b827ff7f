-- ===== src/Agents/Recorder.antt =====
-- The hook after a placed order, in agents/runtime.py: `_parse_fill` and `make_order_recorder`. The order
-- of a response, as `_extract_order` finds it, is an argument, a dict of any values. Its side is one of
-- the broker's two; `text_of` is str() of a number that is bound to a text column.
use fund.Slack.Outbox.{append_event}
use fund.Python.Floats.{Float, is_nan, truncate, float_eq_int, float_le, zero_float}
use fund.Python.Values.{Conversions, Dict, Value, get, is_text, text, int, float, bool, null, other}
use fund.Agents.Submit.{fits_int64}
pub mod Spent
use fund.Base.{
  none, some, true, false, [], ◌∷◌, Option, String, Bool, ℕ, ℤ, if◌then◌else◌, any, not, str_eq,
  ◌++◌, ◌||◌, leb_ℤ, pos, pos_part,
}
use fund.Python.Actions.{
  ok, err, overflow_error, operational_error, external_error, key_error, type_error, value_error,
  integrity_error, Error, Result, Action,
}
use fund.State.Rows.{
  Body, buy, sell, submitted, filled, opened, consumed, approved, executed, Time, Order, Side,
  Ticket, Db,
}
use fund.State.Transition.{ticket, order, decision, try_transition}
use fund.Orchestrator.Reconcile.Fills.{bind_result, write_fill, ticket_of, index, to_float}

pub record Landed : Type 0 where
  pub client_order_id : String
  pub alpaca_order_id : Option String
  pub symbol : String
  pub side : Side
  pub qty : ℕ
  pub is_filled : Bool  -- order.get("status") == "filled"
  pub payload : Dict

-- int(v)
unfoldable pub int_of : Conversions → Value → Result ℤ
int_of conv (bool b) = ok (if b then pos 1 else pos 0)
int_of conv (int n) = ok n
int_of conv (float x) = elim (truncate x) [
  | none ↦ err (if is_nan x then value_error else overflow_error)
  | some n ↦ ok n
]
int_of conv (text s) = elim (conv.int_of_text s) [ none ↦ err value_error | some n ↦ ok n ]
int_of conv null = err type_error
int_of conv other = err type_error

-- What a value is as the value of a text column.
abbrev pub bind_text : (Value → String) → Value → Result (Option String)
bind_text text_of null = ok none
bind_text text_of (text s) = ok (some s)
bind_text text_of other = err operational_error
bind_text text_of v = ok (some (text_of v))

-- A number of shares that fits the column; a broker's order is for a positive one.
abbrev pub shares : ℤ → Result ℕ
shares n =
    if leb_ℤ n (pos 0)
    then err external_error
    else if not (fits_int64 (pos_part n))
    then err overflow_error
    else ok (pos_part n)

abbrev pub column_text : (Value → String) → Value → Result String
column_text text_of v =
    bind_result (bind_text text_of v) (λ s. elim s [ none ↦ err integrity_error | some t ↦ ok t ])

abbrev pub side_in : Value → Result Side
side_in v =
    if is_text v "buy" then ok buy else if is_text v "sell" then ok sell else err external_error

-- The reads of the INSERT's arguments, in their order, each of which may raise.
unfoldable pub read_landed : Conversions → (text_of : Value → String) → Dict → Result Landed
unfolding int_of
read_landed conv text_of o =
    bind_result (bind_result (index o "client_order_id") (column_text text_of)) λ coid.
      bind_result (bind_result (index o "symbol") (column_text text_of)) λ symbol.
        bind_result (bind_result (index o "side") side_in) λ side.
          bind_result (bind_result (bind_result (index o "qty") (int_of conv)) shares) λ qty.
            bind_result (bind_text text_of (get o "id")) λ alpaca. ok (record {
              client_order_id = coid;
              alpaca_order_id = alpaca;
              symbol = symbol;
              side = side;
              qty = qty;
              is_filled = is_text (get o "status") "filled";
              payload = o;
            })

abbrev new_order : Landed → Time → Order
new_order o now = record {
  client_order_id = o.client_order_id;
  alpaca_order_id = o.alpaca_order_id;
  symbol = o.symbol;
  side = o.side;
  qty = o.qty;
  status = submitted;
  filled_qty = 0;
  filled_avg_price = none;
  submitted_at = now;
  closed_at = none;
}

abbrev same_id : Option String → Option String → Bool
same_id (some a) (some b) = str_eq a b
same_id _ _ = false

-- Both keys of the table are unique.
abbrev pub clashes : Landed → Order → Bool
clashes o r =
    str_eq r.client_order_id o.client_order_id || same_id r.alpaca_order_id o.alpaca_order_id

-- INSERT OR IGNORE INTO orders, whose key names a ticket.
unfoldable pub insert_landed : Landed → Time → Action Db (Unit {0})
insert_landed o now db =
    if any (clashes o) db.orders
    then (ok tt, db)
    else if not (any (λ (t : Ticket). str_eq t.id o.client_order_id) db.tickets)
    then (err integrity_error, db)
    else (ok tt, record db { orders = db.orders ++ new_order o now ∷ [] })

-- The exceptions that the try around both conversions takes.
abbrev pub is_malformed : Error → Bool
is_malformed key_error = true
is_malformed type_error = true
is_malformed value_error = true
is_malformed e = false

abbrev pub caught : Error → Result (Option (ℕ × Float))
caught e = if is_malformed e then ok none else err e

-- int() of a nan or of an infinity raises, outside the try.
abbrev pub fill_of : Float → Float → Option ℤ → Result (Option (ℕ × Float))
fill_of raw_qty price none = err value_error
fill_of raw_qty price (some qty) =
    if not (float_eq_int raw_qty qty) || leb_ℤ qty (pos 0) || float_le price zero_float
    then ok none
    else ok (some (pos_part qty, price))

abbrev pub both_read : Result Float → Result Float → Result (Option (ℕ × Float))
both_read (err e) price = caught e
both_read (ok raw_qty) (err e) = caught e
both_read (ok raw_qty) (ok price) = fill_of raw_qty price (truncate raw_qty)

abbrev pub read_float : Conversions → Result Value → Result Float
read_float conv (err e) = err e
read_float conv (ok v) = to_float conv v

unfoldable pub parse_fill : Conversions → Dict → Result (Option (ℕ × Float))
unfolding to_float
parse_fill conv o =
    both_read (read_float conv (index o "filled_qty"))
      (read_float conv (index o "filled_avg_price"))

abbrev pub ignore_moved : Result Bool → Result (Unit {0})
ignore_moved (ok moved) = ok tt
ignore_moved (err e) = err e

abbrev pub execute_decision : Option Ticket → Time → Action Db (Unit {0})
execute_decision none now db = (ok tt, db)
execute_decision (some t) now db =
    let m = try_transition (decision t.decision_id) approved executed now [] none db in
    (ignore_moved m.0, m.1)

-- The fill is written and announced only where the order moved.
abbrev pub announce : Landed → Time → ℕ × Float → Result Bool → Action Db (Unit {0})
announce o now fill (err e) db = (err e, db)
announce o now fill (ok false) db = (ok tt, db)
announce o now fill (ok true) db = execute_decision (ticket_of o.client_order_id db) now (
    append_event (Body.fill o.symbol o.side fill.0 fill.1 o.client_order_id) now
      (write_fill o.client_order_id fill (some now) db))

abbrev pub mirror_fill : Landed → Time → Result (Option (ℕ × Float)) → Action Db (Unit {0})
mirror_fill o now (err e) db = (err e, db)
mirror_fill o now (ok none) db = (ok tt, db)
mirror_fill o now (ok (some fill)) db =
    let m = try_transition (order o.client_order_id) submitted filled now [] none db in
    announce o now fill m.0 m.1

abbrev pub after_insert : Conversions → Landed → Time → Result (Unit {0}) → Action Db (Unit {0})
after_insert conv o now (err e) db = (err e, db)
after_insert conv o now (ok _) db =
    let m = try_transition (ticket o.client_order_id) opened consumed now [] none db in
    if o.is_filled then mirror_fill o now (parse_fill conv o.payload) m.1 else (ok tt, m.1)

unfoldable pub record_landed : Conversions → Landed → Time → Action Db (Unit {0})
unfolding insert_landed parse_fill try_transition
record_landed conv o now db =
    let inserted = insert_landed o now db in after_insert conv o now inserted.0 inserted.1

abbrev pub record_read : Conversions → Result Landed → Time → Action Db (Unit {0})
record_read conv (err e) now db = (err e, db)
record_read conv (ok o) now db = record_landed conv o now db

-- An order that cannot be read raises before anything is written.
unfoldable pub record_order :
    Conversions → (text_of : Value → String) → Dict → Time → Action Db (Unit {0})
unfolding read_landed record_landed
record_order conv text_of o now db = record_read conv (read_landed conv text_of o) now db
