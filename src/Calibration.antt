-- ===== src/Calibration.antt =====
-- calibration/rows.py, `signal_probability` of calibration/scoring.py and `grade_rows` of
-- calibration/scoreboard.py: from resolutions to the graded calls of each seat. The scores over these
-- are numpy's arithmetic and are not modelled.
use fund.State.Rows.{Db, Decision, Direction, Signal, Resolution, bullish, bearish, neutral}
use fund.Gate.Risk.{Arith}
use fund.Python.Floats.{Float, float_lt, whole, zero_float, is_finite}
use fund.Base.{
  List, String, ℕ, Bool, Option, map, ℤ, ◌∷◌, [], if◌then◌else◌, order_by, str_eq, ◌++◌, ltb, pos,
  some, str_le, ◌&&◌, ◌==◌, negsuc, none, select,
}
pub mod Graded

-- A row of `scoreboard_rows`: the direction in the words of scoring.
pub record Row : Type 0 where
  pub seat : String
  pub direction : String
  pub confidence : ℕ
  pub alpha : Float

pub record Call : Type 0 where
  pub row : Row
  pub p : Float
  pub won : Bool  -- o
  pub sign : ℤ

abbrev pub scoring : Direction → String
scoring bullish = "long"
scoring bearish = "short"
scoring neutral = "neutral"

abbrev pub row_of : Signal → Float → Row
row_of s alpha = record {
  seat = s.agent;
  direction = scoring s.direction;
  confidence = s.confidence;
  alpha = alpha;
}

abbrev pub on_decision : Decision → Signal → Bool
on_decision d s = str_eq s.run_date d.run_date && str_eq s.ticker d.ticker

abbrev pub with_alpha : Float → List Signal → List (Signal × Float)
with_alpha alpha [] = []
with_alpha alpha (s ∷ ss) = (s, alpha) ∷ with_alpha alpha ss

-- The signals on the decisions with the id.
abbrev pub signals_of : ℕ → Float → List Decision → List Signal → List (Signal × Float)
signals_of id alpha [] ss = []
signals_of id alpha (d ∷ ds) ss =
    let rest = signals_of id alpha ds ss in
    if d.id == id then with_alpha alpha (select (on_decision d) ss) ++ rest else rest

abbrev pub fan_out : List Resolution → List Decision → List Signal → List (Signal × Float)
fan_out [] ds ss = []
fan_out (r ∷ rs) ds ss = signals_of r.decision_id r.alpha_vs_spy ds ss ++ fan_out rs ds ss

-- ORDER BY run_date, agent
abbrev pub by_day_and_agent : Signal × Float → Signal × Float → Bool
by_day_and_agent (a, x) (b, y) =
    if str_eq a.run_date b.run_date then str_le a.agent b.agent else str_le a.run_date b.run_date

abbrev pub row_of_pair : Signal × Float → Row
row_of_pair (s, alpha) = row_of s alpha

unfoldable pub scoreboard_rows : Db → List Row
scoreboard_rows db =
    map row_of_pair (order_by by_day_and_agent (fan_out db.resolutions db.decisions db.signals))

abbrev pub sign_of : String → ℤ
sign_of direction =
    if str_eq direction "long" then pos 1 else if str_eq direction "short" then negsuc 0 else pos 0

abbrev pub graded : Row → Float → Call
graded r p = record {
  row = r;
  p = p;
  won = float_lt zero_float r.alpha;
  sign = sign_of r.direction;
}

abbrev pub grade : Row → Option Float → List Call
grade r none = []
grade r (some p) = if is_finite r.alpha then graded r p ∷ [] else []

module _ (a : Arith) where
  -- none is a ValueError.
  unfoldable pub signal_probability : String → ℕ → Option Float
  signal_probability direction confidence =
      let c = a.div (whole confidence) (whole 100) in
      if ltb 100 confidence
      then none
      else if str_eq direction "long"
      then some c
      else if str_eq direction "short"
      then some (a.sub (whole 1) c)
      else if str_eq direction "neutral"
      then some (a.literal (pos 5) 1)
      else none

  -- A malformed row is dropped.
  unfoldable pub grade_rows : List Row → List Call
  grade_rows [] = []
  grade_rows (r ∷ rs) = grade r (signal_probability r.direction r.confidence) ++ grade_rows rs
