-- ===== src/Gate/Risk.antt =====
-- gate/risk.py: tiered sizing. Float arithmetic is CPython's, so `Arith` is a parameter; the
-- comparisons, `math.floor` and `math.isfinite` are those of Python/Floats.
pub mod Bounds
pub mod Monotone
use fund.Base.{
  ℕ, ◌≡◌, Bool, true, false, not, ◌&&◌, ◌||◌, Option, none, some, List, [], ◌∷◌, String, ℤ, pos,
  negsuc, ltb_ℤ, leb_ℤ, eqb_ℤ, any, all, if◌then◌else◌, str_eq,
}
use fund.Python.Floats.{
  Float, is_finite, float_lt, float_le, float_min, float_max, zero_float, floor,
}
use fund.Python.Values.{Value, Dict, Conversions, get, null, int, float, text}
use fund.State.Rows.{Side, buy, sell}

-- A decimal literal m · 10^-e, and the operations of Python's float.
pub record Arith : Type 0 where
  pub literal : ℤ → ℕ → Float
  pub mul : Float → Float → Float
  pub sub : Float → Float → Float
  pub div : Float → Float → Float

pub record GateInputs : Type 0 where
  pub ticker : String
  pub side : Side
  pub equity : Float
  pub cash : Float
  pub price : Float
  pub vol_60d : Float
  pub avg_corr : Float
  pub held_qty : ℤ
  pub position_count : ℤ
  pub sector : String
  pub sector_value : Float
  pub daily_pnl_pct : Float

pub data Verdict : Type 0 where
  approved : (max_qty pre_sector_qty : ℤ) → Side → Verdict
  rejected : (reason : String) → Verdict

-- What `size` is called with: a GateInputs however built, a dict, or anything else.
pub data Inputs : Type 0 where
  model : GateInputs → Inputs
  dict : Dict → Inputs
  garbage : Inputs

abbrev pub max_positions : ℤ
max_positions = pos 8

abbrev field_names : List String
field_names =
    "ticker" ∷ "side" ∷ "equity" ∷ "cash" ∷ "price" ∷ "vol_60d" ∷ "avg_corr" ∷ "held_qty"
    ∷ "position_count" ∷ "sector" ∷ "sector_value" ∷ "daily_pnl_pct" ∷ []

-- Strict fields: a str, one of the two sides, an int that is no bool, a float or an int.
text_field : Value → Option String
text_field (text s) = some s
text_field _ = none

side_field : Value → Option Side
side_field (text s) =
    if str_eq s "buy" then some buy else if str_eq s "sell" then some sell else none
side_field _ = none

int_field : Value → Option ℤ
int_field (int n) = some n
int_field _ = none

-- A field that raises ends the validation.
infixl 5 ◌>>=◌
abbrev ◌>>=◌ : {A B : Type 0} → Option A → (A → Option B) → Option B
none >>= f = none
some a >>= f = f a

-- The validator `_finite` refuses what is no finite number.
finite_only : Float → Option Float
finite_only x = if is_finite x then some x else none

module _ (conv : Conversions) where
  float_field : Value → Option Float
  unfolding finite_only
  float_field (float x) = finite_only x
  float_field (int n) = elim (conv.float_of_int n) [ none ↦ none | some x ↦ finite_only x ]
  float_field _ = none

  -- `GateInputs.model_validate`; `none` is a ValidationError. No other key is allowed.
  unfoldable pub model_validate : Dict → Option GateInputs
  unfolding text_field side_field int_field float_field
  model_validate d = if not (all (λ e. any (str_eq e.0) field_names) d) then none else do
    ticker ← text_field (get d "ticker")
    side ← side_field (get d "side")
    equity ← float_field (get d "equity")
    cash ← float_field (get d "cash")
    price ← float_field (get d "price")
    vol ← float_field (get d "vol_60d")
    corr ← float_field (get d "avg_corr")
    held ← int_field (get d "held_qty")
    count ← int_field (get d "position_count")
    sector ← text_field (get d "sector")
    value ← float_field (get d "sector_value")
    pnl ← float_field (get d "daily_pnl_pct")
    some (record {
      ticker = ticker;
      side = side;
      equity = equity;
      cash = cash;
      price = price;
      vol_60d = vol;
      avg_corr = corr;
      held_qty = held;
      position_count = count;
      sector = sector;
      sector_value = value;
      daily_pnl_pct = pnl;
    })

module _ (conv : Conversions) (arith_ops : Arith) where
  open arith_ops use {literal, mul, sub, div}

  abbrev pub vol_tier : Float → Float
  vol_tier vol =
      if float_lt vol (literal (pos 15) 2)
      then literal (pos 25) 2
      else if float_le vol (literal (pos 50) 2)
      then literal (pos 20) 2
      else literal (pos 10) 2

  abbrev pub corr_mult : Float → Float
  corr_mult corr =
      if float_le (literal (pos 8) 1) corr
      then literal (pos 70) 2
      else if float_le (literal (pos 6) 1) corr
      then literal (pos 85) 2
      else if float_le (literal (pos 4) 1) corr
      then literal (pos 95) 2
      else if float_le (literal (pos 2) 1) corr
      then literal (pos 100) 2
      else literal (pos 110) 2

  abbrev pub sector_cap : Float
  sector_cap = literal (pos 60) 2

  abbrev pub circuit_breaker : Float
  circuit_breaker = literal (negsuc 2) 2

  -- math.isfinite of an int raises where the int is too large for a float
  abbrev finite_int : ℤ → Bool
  finite_int n = elim (conv.float_of_int n) [ none ↦ false | some x ↦ is_finite x ]

  out_of_range : GateInputs → Bool
  out_of_range i =
      float_le i.price zero_float
      || float_le i.equity zero_float
      || float_lt i.cash zero_float
      || ltb_ℤ i.held_qty (pos 0)
      || float_lt i.vol_60d zero_float
      || float_lt i.sector_value zero_float
      || ltb_ℤ i.position_count (pos 0)
      || float_lt i.avg_corr (literal (negsuc 9) 1)
      || float_lt (literal (pos 10) 1) i.avg_corr

  all_finite : GateInputs → Bool
  all_finite i =
      is_finite i.equity
      && is_finite i.cash
      && is_finite i.price
      && is_finite i.vol_60d
      && is_finite i.avg_corr
      && is_finite i.sector_value
      && is_finite i.daily_pnl_pct
      && finite_int i.held_qty
      && finite_int i.position_count

  -- The guard at the top of `size`.
  unfoldable pub malformed : GateInputs → Bool
  unfolding out_of_range all_finite
  malformed i = out_of_range i || not (all_finite i)

  abbrev pub dollar : GateInputs → Float
  dollar i = mul (mul i.equity (vol_tier i.vol_60d)) (corr_mult i.avg_corr)

  abbrev pub headroom : GateInputs → Float
  headroom i = sub (mul sector_cap i.equity) i.sector_value

  -- `none` is the exception that math.floor raises on an infinity or a nan
  abbrev pub pre_sector : GateInputs → Option ℤ
  pre_sector i = floor (div (float_min (dollar i) i.cash) i.price)

  abbrev pub sector_room : GateInputs → Option ℤ
  sector_room i = floor (div (float_max (headroom i) zero_float) i.price)

  abbrev min_ℤ : ℤ → ℤ → ℤ
  min_ℤ a b = if ltb_ℤ b a then b else a

  buy_verdict : Option ℤ → Option ℤ → Verdict
  buy_verdict (some pre) (some room) =
      if ltb_ℤ (min_ℤ pre room) (pos 1)
      then rejected "no_headroom"
      else approved (min_ℤ pre room) pre buy
  buy_verdict _ _ = rejected "gate_error"

  sell_verdict : GateInputs → Verdict
  sell_verdict i =
      if ltb_ℤ (pos 0) i.held_qty
      then approved i.held_qty i.held_qty sell
      else rejected "nothing_held"

  side_verdict : Side → GateInputs → Verdict
  unfolding buy_verdict sell_verdict
  side_verdict sell i = sell_verdict i
  side_verdict buy i =
      if float_le i.daily_pnl_pct circuit_breaker
      then rejected "circuit_breaker"
      else if eqb_ℤ i.held_qty (pos 0) && leb_ℤ max_positions i.position_count
      then rejected "position_count"
      else buy_verdict (pre_sector i) (sector_room i)

  unfoldable pub size_model : GateInputs → Verdict
  unfolding malformed side_verdict
  size_model i = if malformed i then rejected "gate_error" else side_verdict i.side i

  unfoldable pub size : Inputs → Verdict
  unfolding size_model model_validate
  size (model i) = size_model i
  size (dict d) = elim (model_validate conv d) [
    | none ↦ rejected "gate_error"
    | some i ↦ size_model i
  ]
  size garbage = rejected "gate_error"
