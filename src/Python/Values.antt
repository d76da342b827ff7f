-- ===== src/Python/Values.antt =====
-- Dynamically typed values: an agent's tool input and a broker's payload.
use fund.Base.{
  Bool, true, false, Option, List, [], ◌∷◌, String, str_eq, ℤ, if◌then◌else◌, ◌≡◌, ap, refl,
  str_eq_iff,
}
use fund.Python.Floats.{Float}

-- `other` is any list, dict or object: the program never looks inside one.
pub data Value : Type 0 where
  null : Value
  bool : Bool → Value
  int : ℤ → Value
  float : Float → Value
  text : String → Value
  other : Value

abbrev pub Dict : Type 0
Dict = List (String × Value)

-- d.get(k)
abbrev pub get : Dict → String → Value
get [] k = null
get ((j, v) ∷ d) k = let rest = get d k in if str_eq j k then v else rest

-- v == s for a text s
abbrev pub is_text : Value → String → Bool
is_text (text u) s = str_eq u s
is_text _ s = false

abbrev pub is_null : Value → Bool
is_null null = true
is_null _ = false

-- What CPython's own conversions do, which rest on the Unicode tables and on correct rounding.
-- `none` is the exception that the conversion raises.
pub record Conversions : Type 0 where
  pub is_digit : String → Bool  -- s.isdigit()
  pub int_of_text : String → Option ℤ  -- int(s)
  pub strip_lower : String → String  -- s.strip().lower()
  pub lower : String → String  -- s.lower()
  pub float_of_text : String → Option Float  -- float(s)
  pub float_of_int : ℤ → Option Float  -- float(n)

pub is_null-eq : (v : Value) → is_null v ≡ true → v ≡ null
is_null-eq null h = refl
is_null-eq (bool b) h = cc
is_null-eq (int n) h = cc
is_null-eq (float x) h = cc
is_null-eq (text s) h = cc
is_null-eq other h = cc

pub is_text-eq : (v : Value) (s : String) → is_text v s ≡ true → v ≡ text s
is_text-eq (text u) s h = ap text ((str_eq_iff u s).0 h)
is_text-eq null s h = cc
is_text-eq (bool b) s h = cc
is_text-eq (int n) s h = cc
is_text-eq (float x) s h = cc
is_text-eq other s h = cc
