-- ===== src/Stratgate.antt =====
-- stratgate/gate.py: the statistical gate G2 and the holdout gate G3. A check keeps its name and its
-- outcome; its value and its limit are prose of the verdict. Division is Python's, and a parameter.
pub mod Checks
pub mod Statistics
pub mod Robustness
use fund.Base.{
  none, some, true, false, [], ◌∷◌, pos, negsuc, suc, Bool, List, Option, String, ℕ, if◌then◌else◌,
  not, ◌*◌, ◌^◌, sub_ℕ, ◌-◌, all, leb, ◌||◌, any, str_eq, ◌&&◌,
}
use fund.Python.Values.{get, null, bool, int, float, text, other, Dict, Value, get}
use fund.Python.Floats.{
  finite, Float, whole, float_le, float_max, zero_float, float_lt, is_finite, one_unit,
}
use fund.Python.Actions.{ok, err, type_error, Result}

-- What a comparison with a float reads; None, a text or a container has no order with one.
abbrev pub number : Value → Option Float
number (bool b) = some (if b then whole 1 else zero_float)
number (int (pos n)) = some (finite (pos (n * one_unit)))
number (int (negsuc n)) = some (finite (sub_ℕ 0 (suc n * one_unit)))
number (float x) = some x
number null = none
number (text s) = none
number other = none

-- `_bad`
abbrev pub bad : Value → Bool
bad null = true
bad (float x) = not (is_finite x)
bad v = false

-- The constants of G2Thresholds and of G3Thresholds, each the double that its literal stands for: n
-- parts of 2 ^ k.
abbrev double : (n k : ℕ) → Float
double n k = finite (pos (n * 2 ^ (1074 - k)))

pub record G2Thresholds : Type 0 where
  pub min_trades : Float
  pub min_span_years : Float
  pub min_sharpe_floor_costs : Float
  pub min_sharpe_2x_costs : Float
  pub min_sharpe_3x_costs : Float
  pub min_deflated_sharpe : Float
  pub min_wfe : Float
  pub hard_reject_wfe : Float
  pub max_drawdown : Float
  pub max_cost_share : Float
  pub max_neighbor_sharpe_loss : Float

unfoldable pub g2_defaults : G2Thresholds
g2_defaults = record {
  min_trades = whole 100;
  min_span_years = whole 8;
  min_sharpe_floor_costs = double 1 1;
  min_sharpe_2x_costs = double 5404319552844595 54;
  min_sharpe_3x_costs = zero_float;
  min_deflated_sharpe = double 4278419646001971 52;
  min_wfe = double 1 1;
  hard_reject_wfe = double 5404319552844595 54;
  max_drawdown = double 1 2;
  max_cost_share = double 1 1;
  max_neighbor_sharpe_loss = double 3602879701896397 53;
}

pub record Check : Type 0 where
  pub name : String
  pub is_ok : Bool

pub record Verdict : Type 0 where
  pub passed : Bool
  pub reason : String
  pub checks : List Check

abbrev pub gate_error : String → Verdict
gate_error name = record {
  passed = false;
  reason = "gate_error";
  checks = record { name = name; is_ok = false } ∷ [];
}

-- A comparison that is not defined raises.
abbrev pub outcomes : List (String × Option Bool) → Option (List Check)
outcomes [] = some []
outcomes ((name, none) ∷ tests) = none
outcomes ((name, some b) ∷ tests) = elim (outcomes tests) [
  | none ↦ none
  | some checks ↦ some (record { name = name; is_ok = b } ∷ checks)
]

abbrev pub first_failed : List Check → Option String
first_failed [] = none
first_failed (c ∷ cs) = let rest = first_failed cs in if c.is_ok then rest else some c.name

abbrev pub judge : List Check → Option String → Verdict
judge checks none = record { passed = true; reason = "pass"; checks = checks }
judge checks (some name) = record { passed = false; reason = name; checks = checks }

abbrev pub verdict_of : Option (List Check) → Result Verdict
verdict_of none = err type_error
verdict_of (some checks) = ok (judge checks (first_failed checks))

abbrev pub test : (Float → Bool) → Option Float → Option Bool
test limit none = none
test limit (some x) = some (limit x)

-- Each declared parameter with the Sharpe ratios of its neighbours, by side. None counts as empty.
abbrev pub Neighbors : Type 0
Neighbors = List (String × Dict)

abbrev pub g2_required : List String
g2_required =
    "n_trades" ∷ "span_years" ∷ "net_sharpe" ∷ "net_sharpe_2x" ∷ "net_sharpe_3x" ∷ "deflated_sharpe"
    ∷ "wfe" ∷ "max_drawdown" ∷ "cost_share" ∷ []

-- The first required key that is missing, null or not finite.
abbrev pub first_bad : Dict → List String → Option String
first_bad stats [] = none
first_bad stats (k ∷ ks) =
    let rest = first_bad stats ks in if bad (get stats k) then some k else rest

-- How far the neighbours have been read: the worst loss, a ratio that is not finite, or a TypeError.
pub data Loss : Type 0 where
  worst : Float → Loss
  not_finite : (param : String) → Loss
  raised : Loss

module _ (loss_of : (base sr : Value) → Option Float) where
  abbrev raise_to : Float → Option Float → Loss
  raise_to so_far none = raised
  raise_to so_far (some x) = worst (float_max so_far x)

  abbrev side_loss : (base sr : Value) → Float → Loss
  side_loss base sr so_far = elim (number base) [
    | none ↦ raised
    | some b ↦ if float_lt zero_float b then raise_to so_far (loss_of base sr) else worst so_far
  ]

  unfoldable pub sides_loss : (param : String) (base : Value) → Dict → Loss → Loss
  sides_loss param base [] l = l
  sides_loss param base ((side, sr) ∷ more) raised = raised
  sides_loss param base ((side, sr) ∷ more) (not_finite p) = not_finite p
  sides_loss param base ((side, sr) ∷ more) (worst so_far) =
      sides_loss param base more (if bad sr then not_finite param else side_loss base sr so_far)

  unfoldable pub worst_loss : (base : Value) → Neighbors → Loss → Loss
  unfolding sides_loss
  worst_loss base [] l = l
  worst_loss base ((param, sides) ∷ more) l = worst_loss base more (sides_loss param base sides l)

  abbrev pub g2_tests : G2Thresholds → Dict → Float → List (String × Option Bool)
  g2_tests t stats lost =
      ("n_trades", test (float_le t.min_trades) (number (get stats "n_trades")))
      ∷ ("span_years", test (float_le t.min_span_years) (number (get stats "span_years")))
      ∷ ("net_sharpe", test (float_le t.min_sharpe_floor_costs) (number (get stats "net_sharpe")))
      ∷ (
        "net_sharpe_2x",
        test (float_le t.min_sharpe_2x_costs) (number (get stats "net_sharpe_2x")),
      )
      ∷ (
        "net_sharpe_3x",
        test (float_lt t.min_sharpe_3x_costs) (number (get stats "net_sharpe_3x")),
      )
      ∷ (
        "deflated_sharpe",
        test (float_le t.min_deflated_sharpe) (number (get stats "deflated_sharpe")),
      )
      ∷ ("wfe", test (float_le t.min_wfe) (number (get stats "wfe")))
      ∷ ("wfe_hard", test (float_le t.hard_reject_wfe) (number (get stats "wfe")))
      ∷ ("max_drawdown", test (λ x. float_le x t.max_drawdown) (number (get stats "max_drawdown")))
      ∷ ("cost_share", test (λ x. float_le x t.max_cost_share) (number (get stats "cost_share")))
      ∷ ("param_cliff", some (float_le lost t.max_neighbor_sharpe_loss))
      ∷ []

  abbrev pub judge_loss : G2Thresholds → Dict → Loss → Result Verdict
  judge_loss t stats raised = err type_error
  judge_loss t stats (not_finite param) = ok (gate_error param)
  judge_loss t stats (worst lost) = verdict_of (outcomes (g2_tests t stats lost))

  abbrev pub after_required :
      G2Thresholds → Dict → Option String → Option Neighbors → Result Verdict
  after_required t stats (some key) neighbors = ok (gate_error key)
  after_required t stats none none = ok (gate_error "param_neighbors")
  after_required t stats none (some sides) =
      judge_loss t stats (worst_loss (get stats "net_sharpe") sides (worst zero_float))

  -- `neighbors` is none where the statistics lack the key.
  unfoldable pub evaluate_g2 : Dict → (neighbors : Option Neighbors) → G2Thresholds → Result Verdict
  unfolding worst_loss
  evaluate_g2 stats neighbors t = after_required t stats (first_bad stats g2_required) neighbors

pub record G3Thresholds : Type 0 where
  pub min_holdout_sharpe : Float
  pub min_holdout_vs_wf_ratio : Float
  pub min_nonnegative_regimes : ℕ

unfoldable pub g3_defaults : G3Thresholds
g3_defaults = record {
  min_holdout_sharpe = zero_float;
  min_holdout_vs_wf_ratio = double 1 1;
  min_nonnegative_regimes = 2;
}

abbrev pub regimes_named : Dict → Bool
regimes_named d =
    all (λ (e : String × Value). str_eq e.0 "bull" || str_eq e.0 "bear" || str_eq e.0 "chop") d
    && any (λ (e : String × Value). str_eq e.0 "bull") d
    && any (λ (e : String × Value). str_eq e.0 "bear") d
    && any (λ (e : String × Value). str_eq e.0 "chop") d

-- How many regimes have a ratio of at least 0; none is a TypeError.
abbrev add_regime : Option Bool → Option ℕ → Option ℕ
add_regime (some b) (some n) = some (if b then suc n else n)
add_regime _ _ = none

unfoldable pub nonnegative : Dict → Option ℕ
nonnegative [] = some 0
nonnegative ((regime, v) ∷ more) =
    add_regime (test (float_le zero_float) (number v)) (nonnegative more)

abbrev pub enough : ℕ → Option ℕ → Option Bool
enough least none = none
enough least (some n) = some (leb least n)

module _ (ratio_of : (holdout walkforward : Value) → Option Float) where
  abbrev pub g3_tests :
      G3Thresholds → (holdout walkforward : Value) → Dict → List (String × Option Bool)
  g3_tests t holdout walkforward regimes =
      ("holdout_sharpe", test (float_lt t.min_holdout_sharpe) (number holdout))
      ∷ ("holdout_vs_wf", test (float_le t.min_holdout_vs_wf_ratio) (ratio_of holdout walkforward))
      ∷ ("regimes_nonneg", enough t.min_nonnegative_regimes (nonnegative regimes))
      ∷ []

  abbrev pub judge_regimes :
      G3Thresholds → (holdout walkforward : Value) → Dict → Option Bool → Result Verdict
  judge_regimes t holdout walkforward regimes none = err type_error
  judge_regimes t holdout walkforward regimes (some false) = ok (gate_error "inputs")
  judge_regimes t holdout walkforward regimes (some true) =
      if not (regimes_named regimes) || any (λ (e : String × Value). bad e.1) regimes
      then ok (gate_error "regimes")
      else verdict_of (outcomes (g3_tests t holdout walkforward regimes))

  unfoldable pub evaluate_g3 : (holdout walkforward : Value) → Dict → G3Thresholds → Result Verdict
  unfolding nonnegative
  evaluate_g3 holdout walkforward regimes t =
      if bad holdout || bad walkforward
      then ok (gate_error "inputs")
      else judge_regimes t holdout walkforward regimes
          (test (float_lt zero_float) (number walkforward))
