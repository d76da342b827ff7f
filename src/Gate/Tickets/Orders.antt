-- ===== src/Gate/Tickets/Orders.antt =====
-- The trader hook of gate/tickets.py: an order is denied unless it is what its ticket authorizes.
pub mod Sound
pub mod Complete
use fund.Base.{
  ℕ, ◌≡◌, Bool, true, false, not, ◌&&◌, ◌||◌, Option, none, some, List, [], ◌∷◌, String, ℤ, pos,
  ltb_ℤ, str_eq, if◌then◌else◌,
}
use fund.Python.Floats.{Float, float_eq}
use fund.Python.Values.{Value, Dict, Conversions, bool, int, float, text, get, is_text, is_null}
use fund.Python.Actions.{Result, ok, err, value_error, overflow_error}
use fund.State.Rows.{Time, Db, Ticket, Side, buy, sell, opened}
use fund.State.Transition.{◌=ₛ◌}
use fund.Gate.Tickets.{get_ticket, is_expired}

-- The text that the side column holds.
abbrev pub side_text : Side → String
side_text buy = "buy"
side_text sell = "sell"

-- Why an order is denied.
pub data Denial : Type 0 where
  malformed_input missing_client_order_id no_ticket not_open ticket_expired wrong_symbol : Denial
  wrong_side bad_qty over_max_qty nested_leg leg_on_unstopped extra_leg wrong_stop : Denial
  not_oto not_gtc : Denial

pub data Ruling : Type 0 where
  allow : Ruling
  deny : Denial → Ruling

abbrev is_some_text : Option String → String → Bool
is_some_text none s = false
is_some_text (some u) s = str_eq u s

abbrev same_price : Option Float → Float → Bool
same_price none p = false
same_price (some x) p = float_eq x p

module _ (conv : Conversions) where
  -- Whole shares from an int or a digit text. `int` raises on a digit that is no decimal.
  unfoldable pub as_share_count : Value → Result (Option ℤ)
  as_share_count (int n) = ok (some n)
  as_share_count (text s) =
      if conv.is_digit s
      then elim (conv.int_of_text s) [ none ↦ err value_error | some n ↦ ok (some n) ]
      else ok none
  as_share_count _ = ok none

  -- A price from a number or a numeric text. `float` raises on an int that is too large.
  unfoldable pub as_price : Value → Result (Option Float)
  as_price (int n) = elim (conv.float_of_int n) [ none ↦ err overflow_error | some x ↦ ok (some x) ]
  as_price (float x) = ok (some x)
  as_price (text s) = ok (conv.float_of_text s)
  as_price _ = ok none

  unfoldable pub as_time_in_force : Value → Option String
  as_time_in_force (text s) = some (conv.strip_lower s)
  as_time_in_force _ = none

  -- The exit leg of a ticket that carries a stop.
  abbrev stop_ruling : Dict → Float → Option Float → Ruling
  stop_ruling d stop leg_price =
      if not (same_price leg_price stop)
      then deny wrong_stop
      else if not (is_text (get d "order_class") "oto")
      then deny not_oto
      else if not (is_some_text (as_time_in_force (get d "time_in_force")) "gtc")
      then deny not_gtc
      else allow

  leg_ruling : Dict → Float → Result (Option Float) → Result Ruling
  leg_ruling d stop (err e) = err e
  leg_ruling d stop (ok leg_price) = ok (stop_ruling d stop leg_price)

  unfoldable pub check_leg : Dict → Option Float → Result Ruling
  unfolding as_price as_time_in_force leg_ruling
  check_leg d none =
      if not (is_null (get d "stop_loss_stop_price"))
        || not (is_null (get d "stop_loss_limit_price"))
        || not (is_null (get d "take_profit_limit_price"))
      then ok (deny leg_on_unstopped)
      else ok allow
  check_leg d (some stop) =
      if not (is_null (get d "stop_loss_limit_price"))
        || not (is_null (get d "take_profit_limit_price"))
      then ok (deny extra_leg)
      else leg_ruling d stop (as_price (get d "stop_loss_stop_price"))

  unfoldable pub check_qty : Dict → Ticket → Option ℤ → Result Ruling
  unfolding check_leg
  check_qty d t none = ok (deny bad_qty)
  check_qty d t (some qty) =
      if ltb_ℤ qty (pos 1)
      then ok (deny bad_qty)
      else if ltb_ℤ (pos t.max_qty) qty
      then ok (deny over_max_qty)
      else if not (is_null (get d "stop_loss")) || not (is_null (get d "take_profit"))
      then ok (deny nested_leg)
      else check_leg d t.stop_price

  qty_ruling : Dict → Ticket → Result (Option ℤ) → Result Ruling
  unfolding check_qty
  qty_ruling d t (err e) = err e
  qty_ruling d t (ok qty) = check_qty d t qty

  unfoldable pub check_ticket : Dict → Time → Option Ticket → Result Ruling
  unfolding as_share_count qty_ruling
  check_ticket d now none = ok (deny no_ticket)
  check_ticket d now (some t) =
      if not (t.status =ₛ opened)
      then ok (deny not_open)
      else if is_expired t.expires_at now
      then ok (deny ticket_expired)
      else if not (is_text (get d "symbol") t.ticker)
      then ok (deny wrong_symbol)
      else if not (is_text (get d "side") (side_text t.side))
      then ok (deny wrong_side)
      else qty_ruling d t (as_share_count (get d "qty"))

  ruling_for : Dict → Time → Db → Value → Result Ruling
  unfolding check_ticket
  ruling_for d now db (text coid) =
      if str_eq coid ""
      then ok (deny missing_client_order_id)
      else check_ticket d now (get_ticket coid db)
  ruling_for d now db _ = ok (deny missing_client_order_id)

  -- `none` is a tool input that is no object.
  unfoldable pub validate_order : Option Dict → Time → Db → Result Ruling
  unfolding ruling_for
  validate_order none now db = ok (deny malformed_input)
  validate_order (some d) now db = ruling_for d now db (get d "client_order_id")
