-- ===== src/Stratgate/Robustness.antt =====
-- What passing the holdout gate means.
use fund.Stratgate.{
  G3Thresholds, test, bad, evaluate_g3, number, regimes_named, nonnegative, enough, judge_regimes,
  g3_tests, verdict_of, outcomes,
}
use fund.Base.{
  none, some, true, false, inl, inr, refl, Bool, Option, ◌≡◌, ◌↔◌, any, String, ℕ, leb, Bool-cases,
}
use fund.Python.Values.{Dict, Value}
use fund.Python.Floats.{Float, float_le, float_lt, zero_float}
use fund.Stratgate.Checks.{passes, some-true, verdict_passes, hold_verdict, AllHold}

-- A number within a limit.
abbrev Is : (Float → Bool) → Option Float → Type 0
Is limit v = (x : Float) × (v ≡ some x) × (limit x ≡ true)

Is-test : (limit : Float → Bool) (v : Option Float) → test limit v ≡ some true → Is limit v
Is-test limit none h = cc
Is-test limit (some x) h = (x, refl, some-true (limit x) h)

test-Is : (limit : Float → Bool) (v : Option Float) → Is limit v → test limit v ≡ some true
test-Is limit v (x, e, h) = rw (e, h) refl

enough_lem :
    (least : ℕ) (o : Option ℕ)
    → enough least o ≡ some true
    → (n : ℕ) × (o ≡ some n) × (leb least n ≡ true)
enough_lem least none h = cc
enough_lem least (some n) h = (n, refl, some-true (leb least n) h)

module _ (ratio_of : (holdout walkforward : Value) → Option Float) (t : G3Thresholds)
    (holdout walkforward : Value) (regimes : Dict) where
  -- Finite inputs, a walk-forward ratio above 0, the three regimes and no other with a finite ratio each,
  -- and the three limits.
  abbrev pub Robust : Type 0
  Robust =
      (bad holdout ≡ false)
      × (bad walkforward ≡ false)
      × Is (float_lt zero_float) (number walkforward)
      × (regimes_named regimes ≡ true)
      × (any (λ (e : String × Value). bad e.1) regimes ≡ false)
      × Is (float_lt t.min_holdout_sharpe) (number holdout)
      × Is (float_le t.min_holdout_vs_wf_ratio) (ratio_of holdout walkforward)
      × (n : ℕ) × (nonnegative regimes ≡ some n)
      × (leb t.min_nonnegative_regimes n ≡ true)

  judge_regimes-passes :
      (o : Option Bool)
      → passes (judge_regimes ratio_of t holdout walkforward regimes o) ≡ true
      → (o ≡ some true)
        × (regimes_named regimes ≡ true)
        × (any (λ (e : String × Value). bad e.1) regimes ≡ false)
        × (passes (verdict_of (outcomes (g3_tests ratio_of t holdout walkforward regimes))) ≡ true)
  judge_regimes-passes none h = cc
  judge_regimes-passes (some false) h = cc
  judge_regimes-passes (some true) h = elim (Bool-cases (regimes_named regimes)) [
    | inr unnamed ↦ cc (rw unnamed at h)
    | inl named ↦ elim (Bool-cases (any (λ (e : String × Value). bad e.1) regimes)) [
      | inl poor ↦ cc (rw (named, poor) at h)
      | inr fine ↦ (refl, named, fine, rw (named, fine) at h)
    ]
  ]

  passes_robust : passes (evaluate_g3 ratio_of holdout walkforward regimes t) ≡ true → Robust
  unfolding evaluate_g3
  passes_robust h = elim (Bool-cases (bad holdout)) [
    | inl poor ↦ cc (rw poor at h)
    | inr fine ↦ elim (Bool-cases (bad walkforward)) [
      | inl poor ↦ cc (rw (fine, poor) at h)
      | inr sound ↦
          let (above, named, finite_all, v) =
            judge_regimes-passes (test (float_lt zero_float) (number walkforward))
              (rw (fine, sound) at h) in
          let (a, (b, (c, u))) =
            verdict_passes (g3_tests ratio_of t holdout walkforward regimes) v in
          let count = enough_lem t.min_nonnegative_regimes (nonnegative regimes) c in
          (
            fine,
            sound,
            Is-test (float_lt zero_float) (number walkforward) above,
            named,
            finite_all,
            Is-test (float_lt t.min_holdout_sharpe) (number holdout) a,
            Is-test (float_le t.min_holdout_vs_wf_ratio) (ratio_of holdout walkforward) b,
            count.0,
            count.1,
            count.2,
          )
    ]
  ]

  robust_passes : Robust → passes (evaluate_g3 ratio_of holdout walkforward regimes t) ≡ true
  unfolding evaluate_g3
  robust_passes (fine, sound, above, named, finite_all, a, b, n, e, c) =
      let all_hold : AllHold (g3_tests ratio_of t holdout walkforward regimes) = (
        test-Is (float_lt t.min_holdout_sharpe) (number holdout) a,
        (
          test-Is (float_le t.min_holdout_vs_wf_ratio) (ratio_of holdout walkforward) b,
          (rw (e, c) refl, tt),
        ),
      ) in
      rw (fine, sound, test-Is (float_lt zero_float) (number walkforward) above, named, finite_all)
        (hold_verdict (g3_tests ratio_of t holdout walkforward regimes) all_hold)

  -- The holdout gate passes exactly where both ratios are finite and the walk-forward one is above 0, the
  -- regimes are the three that are named, each with a finite ratio, and the holdout's ratio, its share of
  -- the walk-forward one and the number of regimes at 0 or above are within their limits.
  pub evaluate_g3_iff :
      (passes (evaluate_g3 ratio_of holdout walkforward regimes t) ≡ true) ↔ Robust
  evaluate_g3_iff = (passes_robust, robust_passes)
