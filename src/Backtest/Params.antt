-- ===== src/Backtest/Params.antt =====
-- `_check_params` of agents/tools/fund_server.py: whether a point lies in the ranges that its spec
-- declares.
use fund.Base.{
  [], ◌∷◌, none, some, true, false, pos, negsuc, suc, List, Option, String, Bool, if◌then◌else◌,
  any, ◌&&◌, ◌*◌, str_eq, sub_ℕ,
}
use fund.Python.Values.{null, bool, int, float, text, other, Dict, Value}
use fund.Python.Floats.{finite, Float, float_le, one_unit}

-- What unpacks into three, and what does not.
pub data Range : Type 0 where
  bounds : (lo hi step : Value) → Range
  malformed : Range

-- A number as the exact value that a comparison of Python reads; a text has none.
abbrev pub exact : Value → Option Float
exact (int (pos n)) = some (finite (pos (n * one_unit)))
exact (int (negsuc n)) = some (finite (sub_ℕ 0 (suc n * one_unit)))
exact (float x) = some x
exact null = none
exact (bool b) = none
exact (text s) = none
exact other = none

abbrev pub is_number : Value → Bool
is_number v = elim (exact v) [ none ↦ false | some x ↦ true ]

abbrev pub is_declared : {A : Type 0} → String → List (String × A) → Bool
is_declared {A} p = any (λ (e : String × A). str_eq e.0 p)

-- The first name of one dict that the other lacks.
unfoldable pub missing_from : {A B : Type 0} → List (String × A) → List (String × B) → Option String
missing_from [] ds = none
missing_from ((p, v) ∷ ps) ds =
    let rest = missing_from ps ds in if is_declared p ds then rest else some p

-- Numbers, for which the comparison is defined.
abbrev pub is_inside : Option Float → Option Float → Option Float → Option Bool
is_inside (some lo) (some v) (some hi) = some (float_le lo v && float_le v hi)
is_inside _ _ _ = none

pub data Fault : Type 0 where
  undeclared_param missing_param bad_range param_type param_out_of_range : (param : String) → Fault

abbrev placed : String → Option Bool → Option Fault
placed p none = some (param_type p)
placed p (some true) = none
placed p (some false) = some (param_out_of_range p)

unfoldable pub check_range : String → Value → Option Range → Option Fault
check_range p v none = some (bad_range p)
check_range p v (some malformed) = some (bad_range p)
check_range p v (some (bounds lo hi step)) =
    if is_number lo && is_number hi && is_number step
    then placed p (is_inside (exact lo) (exact v) (exact hi))
    else some (bad_range p)

abbrev pub range_of : String → List (String × Range) → Option Range
range_of p [] = none
range_of p ((q, r) ∷ rs) = let rest = range_of p rs in if str_eq q p then some r else rest

unfoldable pub check_ranges : Dict → List (String × Range) → Option Fault
unfolding check_range
check_ranges [] ranges = none
check_ranges ((p, v) ∷ ps) ranges =
    let rest = check_ranges ps ranges in
    elim (check_range p v (range_of p ranges)) [ none ↦ rest | some fault ↦ some fault ]

unfoldable pub check_params : Dict → List (String × Range) → Option Fault
unfolding missing_from check_ranges
check_params params ranges = elim (missing_from params ranges) [
  | some p ↦ some (undeclared_param p)
  | none ↦ elim (missing_from ranges params) [
    | some p ↦ some (missing_param p)
    | none ↦ check_ranges params ranges
  ]
]
