-- ===== src/Orchestrator/Protection/Cover.antt =====
-- Live protective orders: state/protection.py's readers, and `_covering_qty` and
-- `_promised_stop` of orchestrator/protection.py. A broker's line that is not a dict is
-- `none`; a symbol or an id is a text, as the broker's models have it, or it is missing.
use fund.State.Transition.{◌=ₛ◌}
use fund.Gate.Tickets.Orders.{side_text}
use fund.Python.Actions.{Result, ok, err, overflow_error}
use fund.Python.Floats.{Float, truncate, float_eq_int, float_le, zero_float, float_lt}
use fund.State.Rows.{Db, Order, filled, Ticket}
use fund.Python.Values.{Conversions, Dict, Value, get, int, text, float, is_text}
use fund.Base.{
  if◌then◌else◌, [], none, some, true, false, ℕ, Option, String, Bool, List, order_by, leb, some,
  str_eq, ℤ, ◌∷◌, select, ◌&&◌, ◌||◌, none, true, false, not, ◌==◌, ◌+◌, find?, pos_part,
}

abbrev pub map_option : {A B : Type 0} → (A → B) → Option A → Option B
map_option f none = none
map_option f (some a) = some (f a)

-- STOP_TYPES
abbrev pub is_stop_type : String → Bool
is_stop_type s = str_eq s "stop" || str_eq s "stop_limit" || str_eq s "trailing_stop"

-- A promised stop: no fund record of opening the position, or the ticket's stop price.
pub data Promise : Type 0 where
  unknown : Promise
  promised : Option Float → Promise

module _ (conv : Conversions) where
  -- A broker enum as a comparable text; `strip_lower` of a text that is all blanks is empty.
  unfoldable pub normalized : Value → Option String
  normalized (text s) = if str_eq (conv.strip_lower s) "" then none else some (conv.strip_lower s)
  normalized _ = none

  positive_whole : Float → Option ℤ → Option ℕ
  positive_whole x none = none
  positive_whole x (some n) =
      if not (float_eq_int x n) || float_le x zero_float then none else some (pos_part n)

  unfoldable pub as_float : Value → Option Float
  as_float (int n) = conv.float_of_int n
  as_float (float x) = some x
  as_float (text s) = conv.float_of_text s
  as_float _ = none

  -- An int that is too large for a float raises OverflowError, which the caller's try takes.
  unfoldable pub raises_overflow : Value → Bool
  raises_overflow (int n) = elim (conv.float_of_int n) [ none ↦ true | some x ↦ false ]
  raises_overflow _ = false

  qty_of_float : Option Float → Option ℕ
  unfolding positive_whole
  qty_of_float none = none
  qty_of_float (some x) = positive_whole x (truncate x)

  unfoldable pub qty_of : Value → Result (Option ℕ)
  unfolding qty_of_float as_float raises_overflow
  qty_of v = if raises_overflow v then err overflow_error else ok (qty_of_float (as_float v))

  abbrev price_of_float : Option Float → Option Float
  price_of_float none = none
  price_of_float (some x) = if float_lt zero_float x then some x else none

  unfoldable pub price_of : Value → Result (Option Float)
  unfolding as_float raises_overflow
  price_of v = if raises_overflow v then err overflow_error else ok (price_of_float (as_float v))

  -- Whether an order of the symbol may be read, and whether it protects.
  kind_of : Dict → (closing : String) → Option Bool
  unfolding normalized
  kind_of o closing = elim (normalized (get o "side")) [
    | none ↦ none
    | some side ↦ elim (normalized (get o "type")) [
      | none ↦ none
      | some order_type ↦ some (str_eq side closing && is_stop_type order_type)
    ]
  ]

  -- One readable order more, or one that is skipped.
  abbrev add_cover : Option Bool → Result (Option ℕ) → Result (Option ℕ) → Result (Option ℕ)
  add_cover none qty rest = ok none
  add_cover (some false) qty rest = rest
  add_cover (some true) (err e) rest = err e
  add_cover (some true) (ok none) rest = ok none
  add_cover (some true) (ok (some n)) rest = elim rest [
    | err e ↦ err e
    | ok m ↦ ok (map_option (λ k. n + k) m)
  ]

  unfoldable pub covering_qty : List (Option Dict) → (symbol closing : String) → Result (Option ℕ)
  unfolding kind_of qty_of
  covering_qty [] symbol closing = ok (some 0)
  covering_qty (none ∷ orders) symbol closing = ok none
  covering_qty (some o ∷ orders) symbol closing =
      let rest = covering_qty orders symbol closing in
      if is_text (get o "symbol") symbol
      then add_cover (kind_of o closing) (qty_of (get o "qty")) rest
      else rest

-- The newest buy of the symbol with shares: ORDER BY submitted_at DESC LIMIT 1, over the join with its ticket.
abbrev is_opening : String → Order → Bool
is_opening symbol o =
    str_eq o.symbol symbol
    && str_eq (side_text o.side) "buy"
    && (o.status =ₛ filled || not (o.filled_qty == 0))

abbrev stop_of : Db → Order → Option Promise
stop_of db o =
    map_option (λ (t : Ticket). promised t.stop_price)
      (find? (λ (t : Ticket). str_eq t.id o.client_order_id) db.tickets)

first_stop : Db → List Order → Promise
first_stop db [] = unknown
first_stop db (o ∷ os) =
    let rest = first_stop db os in elim (stop_of db o) [ none ↦ rest | some p ↦ p ]

unfoldable pub promised_stop : Db → String → Promise
unfolding first_stop
promised_stop db symbol = first_stop db (
    order_by (λ (a b : Order). leb b.submitted_at a.submitted_at)
      (select (is_opening symbol) db.orders))
