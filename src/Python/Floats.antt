-- ===== src/Python/Floats.antt =====
-- Python's float: the comparisons and the conversions to int that the program uses.
use fund.Base.{
  ℕ, ◌<◌, arith, suc, ◌*◌, ◌/◌, ◌^◌, Bool, true, false, Option, none, some, ℤ, pos, negsuc, ltb_ℤ,
  leb_ℤ, eqb_ℤ, sub_ℕ,
}

pub data Float : Type 0 where
  nan : Float
  inf : Float
  neg_inf : Float
  finite : ℤ → Float

-- The units of the float 1.0.
unfoldable pub one_unit : ℕ
one_unit = 2 ^ 1074

pub one_unit_pos : 0 < one_unit
unfolding one_unit
one_unit_pos = omega arith

abbrev pub is_finite : Float → Bool
is_finite (finite _) = true
is_finite _ = false

abbrev pub is_nan : Float → Bool
is_nan nan = true
is_nan _ = false

-- a < b, false wherever a nan takes part
abbrev pub float_lt : Float → Float → Bool
float_lt (finite a) (finite b) = ltb_ℤ a b
float_lt (finite a) inf = true
float_lt neg_inf (finite b) = true
float_lt neg_inf inf = true
float_lt _ _ = false

abbrev pub float_le : Float → Float → Bool
float_le (finite a) (finite b) = leb_ℤ a b
float_le (finite a) inf = true
float_le neg_inf (finite b) = true
float_le neg_inf inf = true
float_le neg_inf neg_inf = true
float_le inf inf = true
float_le _ _ = false

abbrev pub float_eq : Float → Float → Bool
float_eq (finite a) (finite b) = eqb_ℤ a b
float_eq inf inf = true
float_eq neg_inf neg_inf = true
float_eq _ _ = false

abbrev pub zero_float : Float
zero_float = finite (pos 0)

-- The float of a whole number below 2^53, exact.
unfoldable pub whole : ℕ → Float
whole n = finite (pos (n * one_unit))

-- int(x) and math.floor(x); `none` is the exception that a nan or an infinity raises
unfoldable pub truncate : Float → Option ℤ
truncate (finite (pos n)) = some (pos (n / one_unit))
truncate (finite (negsuc n)) = some (sub_ℕ 0 (suc n / one_unit))
truncate _ = none

unfoldable pub floor : Float → Option ℤ
floor (finite (pos n)) = some (pos (n / one_unit))
floor (finite (negsuc n)) = some (negsuc (n / one_unit))
floor _ = none

-- x == n for an int n, which Python compares exactly
unfoldable pub float_eq_int : Float → ℤ → Bool
float_eq_int (finite k) (pos n) = eqb_ℤ k (pos (n * one_unit))
float_eq_int (finite k) (negsuc n) = eqb_ℤ k (sub_ℕ 0 (suc n * one_unit))
float_eq_int _ _ = false

-- min(a, b) and max(a, b): the second only if it is strictly below, or above
abbrev pub float_min : Float → Float → Float
float_min a b = elim (float_lt b a) [ true ↦ b | false ↦ a ]

abbrev pub float_max : Float → Float → Float
float_max a b = elim (float_lt a b) [ true ↦ b | false ↦ a ]
