-- ===== src/Gate/Risk/Monotone.antt =====
-- How the size that gate/risk.py approves moves with the account.
use fund.Gate.Risk.Bounds.{Promises, model-Promises}
use fund.State.Rows.{buy}
use fund.Python.Values.{Conversions}
use fund.Gate.Risk.{Arith, GateInputs, dollar, size, model, Verdict}
use fund.Base.{ℤ, pos, negsuc, ◌≤ℤ◌, ◌≡◌, true, false, inl, inr, arith, some, ℕ, ◌<◌, ◌≤◌, ◌/◌, ◌⊎◌}
use native.Mathlib.Nat.{div-mul-le_self, le-div_iff_mul-le}
use fund.Python.Floats.{
  Float, nan, inf, neg_inf, finite, float_le, float_min, is_nan, zero_float, floor, one_unit,
  one_unit_pos,
}

div_mono : (a b u : ℕ) → 0 < u → a ≤ b → a / u ≤ b / u
div_mono a b u h k = grind (arith, div-mul-le_self, le-div_iff_mul-le)

floor_mono :
    (x y : Float) (m n : ℤ) → float_le x y ≡ true → floor x ≡ some m → floor y ≡ some n → m ≤ℤ n
unfolding floor
floor_mono (finite (pos a)) (finite (pos b)) m n h p q =
    ground (arith, div_mono a b one_unit one_unit_pos)
floor_mono (finite (pos a)) (finite (negsuc b)) m n h p q = ground arith
floor_mono (finite (negsuc a)) (finite (pos b)) m n h p q = ground arith
floor_mono (finite (negsuc a)) (finite (negsuc b)) m n h p q =
    ground (arith, div_mono b a one_unit one_unit_pos)
floor_mono nan y m n h p q = ground arith
floor_mono inf y m n h p q = ground arith
floor_mono neg_inf y m n h p q = ground arith
floor_mono (finite a) nan m n h p q = ground arith
floor_mono (finite a) inf m n h p q = ground arith
floor_mono (finite a) neg_inf m n h p q = ground arith

float_min_mono :
    (d a b : Float)
    → is_nan d ≡ false
    → float_le a b ≡ true
    → float_le (float_min d a) (float_min d b) ≡ true
float_min_mono d a b h = ground arith

-- Division by a positive float is correctly rounded, so it keeps the order of its numerators.
abbrev pub DivMono : Arith → Type 0
DivMono a =
    (x y p : Float)
    → float_le p zero_float ≡ false
    → float_le x y ≡ true
    → float_le (a.div x p) (a.div y p) ≡ true

min_of_promise :
    (q p r q' p' r' : ℤ) → (q ≡ p) ⊎ (q ≡ r) → q' ≤ℤ p' → q' ≤ℤ r' → p' ≤ℤ p → r' ≡ r → q' ≤ℤ q
min_of_promise q p r q' p' r' (inl e) hp hr hm er = rw e (omega arith)
min_of_promise q p r q' p' r' (inr e) hp hr hm er = rw (e, ← er) hr

module _ (conv : Conversions) (a : Arith) (div_keeps : DivMono a) where
  mono_of_promises :
      (i : GateInputs) (less_cash : Float) (q p q' p' : ℤ)
      → is_nan (dollar conv a i) ≡ false
      → float_le less_cash i.cash ≡ true
      → Promises conv a i (Verdict.approved q p buy)
      → Promises conv a (record i { cash = less_cash }) (Verdict.approved q' p' buy)
      → (q' ≤ℤ q) × (p' ≤ℤ p)
  mono_of_promises i less_cash q p q' p' real le h h' =
      let less : p' ≤ℤ p =
        floor_mono _ _ p' p
          (div_keeps _ _ i.price h.0.price_pos (float_min_mono (dollar conv a i) _ _ real le)) h'.6
          h.6 in
      let same : h'.7 ≡ h.7 = cc (h.8, h'.8) in
      (min_of_promise q p h.7 q' p' h'.7 h.10 h'.5 h'.9 less same, less)

  -- Where float division by a positive price keeps the order of its numerators and the dollar budget
  -- is not a nan: if a purchase is approved on two inputs that differ in cash alone, the one with no
  -- more cash is for no more shares, before the sector cap and after it.
  pub cash_mono :
      (i : GateInputs) (less_cash : Float) (q p q' p' : ℤ)
      → is_nan (dollar conv a i) ≡ false
      → float_le less_cash i.cash ≡ true
      → size conv a (model i) ≡ Verdict.approved q p buy
      → size conv a (model (record i { cash = less_cash })) ≡ Verdict.approved q' p' buy
      → (q' ≤ℤ q) × (p' ≤ℤ p)
  cash_mono i less_cash q p q' p' real le e e' =
      mono_of_promises i less_cash q p q' p' real le (rw e at (model-Promises conv a i))
        (rw e' at (model-Promises conv a (record i { cash = less_cash })))
