-- ===== src/Calibration/Graded.antt =====
-- Nothing that the store holds is lost between the two vocabularies.
use fund.Python.Floats.{Float, float_lt, whole, zero_float, is_finite}
use fund.Calibration.{
  signal_probability, Call, row_of, scoring, grade_rows, scoreboard_rows, sign_of, fan_out,
  signals_of, with_alpha, row_of_pair, by_day_and_agent, on_decision,
}
use fund.Base.{
  ℤ, ◌≤◌, pos, ℕ, negsuc, ◌≡◌, some, Bool, List, ltb, All, false, refl, arith, map, select,
  order_by, ◌∷◌, All-append, Bool-cases, [], All-order_by, inl, ◌==◌, ap, inr,
}
use fund.Gate.Risk.{Arith}
use fund.State.Rows.{Direction, Signal, bullish, bearish, neutral, Db, Decision, Resolution}

-- The CHECK of the signals table.
abbrev pub InRange : Signal → Type 0
InRange s = s.confidence ≤ 100

-- The probability of the event that a call states, by its direction.
abbrev pub stated : Arith → Direction → ℕ → Float
stated a bullish c = a.div (whole c) (whole 100)
stated a bearish c = a.sub (whole 1) (a.div (whole c) (whole 100))
stated a neutral c = a.literal (pos 5) 1

abbrev pub taken_side : Direction → ℤ
taken_side bullish = pos 1
taken_side bearish = negsuc 0
taken_side neutral = pos 0

abbrev pub call_of : Arith → Signal × Float → Call
call_of a (s, alpha) = record {
  row = row_of s alpha;
  p = stated a s.direction s.confidence;
  won = float_lt zero_float alpha;
  sign = taken_side s.direction;
}

abbrev pub is_measured : Signal × Float → Bool
is_measured (s, alpha) = is_finite alpha

abbrev In : Signal × Float → Type 0
In (s, alpha) = InRange s

with_alpha-In : (alpha : Float) (ss : List Signal) → All InRange ss → All In (with_alpha alpha ss)
with_alpha-In alpha [] h = tt
with_alpha-In alpha (s ∷ ss) h = (h.0, with_alpha-In alpha ss h.1)

select-InRange : (p : Signal → Bool) (ss : List Signal) → All InRange ss → All InRange (select p ss)
select-InRange p [] h = tt
select-InRange p (s ∷ ss) h = elim (Bool-cases (p s)) [
  | inl kept ↦ rw (kept, All) (h.0, select-InRange p ss h.1)
  | inr dropped ↦ rw (dropped, All) (select-InRange p ss h.1)
]

signals_of-In :
    (id : ℕ) (alpha : Float) (ds : List Decision) (ss : List Signal)
    → All InRange ss
    → All In (signals_of id alpha ds ss)
signals_of-In id alpha [] ss h = tt
signals_of-In id alpha (d ∷ ds) ss h = elim (Bool-cases (d.id == id)) [
  | inl hit ↦
      rw (hit, All)
        (All-append In (with_alpha alpha (select (on_decision d) ss)) (signals_of id alpha ds ss)
          (with_alpha-In alpha (select (on_decision d) ss) (select-InRange (on_decision d) ss h))
          (signals_of-In id alpha ds ss h))
  | inr miss ↦ rw (miss, All) (signals_of-In id alpha ds ss h)
]

fan_out-In :
    (rs : List Resolution) (ds : List Decision) (ss : List Signal)
    → All InRange ss
    → All In (fan_out rs ds ss)
fan_out-In [] ds ss h = tt
fan_out-In (r ∷ rs) ds ss h =
    All-append In (signals_of r.decision_id r.alpha_vs_spy ds ss) (fan_out rs ds ss)
      (signals_of-In r.decision_id r.alpha_vs_spy ds ss h) (fan_out-In rs ds ss h)

side-sign : (d : Direction) → sign_of (scoring d) ≡ taken_side d
side-sign bullish = refl
side-sign bearish = refl
side-sign neutral = refl

module _ (a : Arith) where
  in_range : (c : ℕ) → c ≤ 100 → ltb 100 c ≡ false
  in_range c h = ground arith

  probability :
      (d : Direction) (c : ℕ) → c ≤ 100 → signal_probability a (scoring d) c ≡ some (stated a d c)
  unfolding signal_probability
  probability bullish c h = rw (in_range c h) refl
  probability bearish c h = rw (in_range c h) refl
  probability neutral c h = rw (in_range c h) refl

  grade_pairs :
      (ps : List (Signal × Float))
      → All In ps
      → grade_rows a (map row_of_pair ps) ≡ map (call_of a) (select is_measured ps)
  unfolding grade_rows
  grade_pairs [] h = refl
  grade_pairs ((s, alpha) ∷ ps) h = elim (Bool-cases (is_finite alpha)) [
    | inl good ↦
        rw (probability s.direction s.confidence h.0, good, side-sign s.direction)
          (ap (λ cs. call_of a (s, alpha) ∷ cs) (grade_pairs ps h.1))
    | inr bad ↦ rw (probability s.direction s.confidence h.0, bad) (grade_pairs ps h.1)
  ]

  -- In a store whose confidences are within their range: the graded calls are, in the order of day and
  -- seat, exactly one for each signal of each resolved decision whose alpha is finite, with the stated
  -- probability and side of that signal. No signal is lost between the two vocabularies.
  pub grade-scoreboard_rows :
      (db : Db)
      → All InRange db.signals
      → grade_rows a (scoreboard_rows db)
        ≡ map (call_of a) (
            select is_measured
              (order_by by_day_and_agent (fan_out db.resolutions db.decisions db.signals)))
  unfolding scoreboard_rows
  grade-scoreboard_rows db h =
      grade_pairs (order_by by_day_and_agent (fan_out db.resolutions db.decisions db.signals)) (
        All-order_by In by_day_and_agent (fan_out db.resolutions db.decisions db.signals)
          (fan_out-In db.resolutions db.decisions db.signals h))
