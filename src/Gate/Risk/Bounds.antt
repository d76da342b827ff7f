-- ===== src/Gate/Risk/Bounds.antt =====
-- What an approval of gate/risk.py's `size` guarantees.
use fund.Base.{
  ℤ, negsuc, pos, ◌≤ℤ◌, ◌≡◌, true, false, ◌⊎◌, arith, some, none, inl, inr, ltb_ℤ, and_left,
  or_left, and_right, or_right, Bool-cases, Option, not-false, eqb_ℤ, ◌&&◌, leb_ℤ, refl,
}
use fund.Python.Floats.{is_finite, float_le, float_lt, float_max, float_min, floor, zero_float}
use fund.Python.Values.{Conversions, Dict}
use fund.State.Rows.{Side, buy, sell}
use fund.Gate.Risk.{
  Arith, GateInputs, Verdict, approved, rejected, size, malformed, side_verdict, buy_verdict,
  sell_verdict, model, circuit_breaker, pre_sector, sector_room, max_positions, all_finite,
  out_of_range, min_ℤ, vol_tier, corr_mult, Inputs, dict, garbage, model_validate,
}

-- Inputs that the gate may act on at all.
pub record IsSound (a : Arith) (i : GateInputs) : Type 0 where
  pub equity : is_finite i.equity ≡ true
  pub cash : is_finite i.cash ≡ true
  pub price : is_finite i.price ≡ true
  pub vol : is_finite i.vol_60d ≡ true
  pub corr : is_finite i.avg_corr ≡ true
  pub sector_value : is_finite i.sector_value ≡ true
  pub daily_pnl : is_finite i.daily_pnl_pct ≡ true
  pub price_pos : float_le i.price zero_float ≡ false
  pub equity_pos : float_le i.equity zero_float ≡ false
  pub held : pos 0 ≤ℤ i.held_qty
  pub corr_low : float_lt i.avg_corr (a.literal (negsuc 9) 1) ≡ false
  pub corr_high : float_lt (a.literal (pos 10) 1) i.avg_corr ≡ false

module _ (conv : Conversions) (a : Arith) where
  finite_of_all_finite :
      (i : GateInputs)
      → all_finite conv a i ≡ true
      → (is_finite i.equity ≡ true)
        × (is_finite i.cash ≡ true)
        × (is_finite i.price ≡ true)
        × (is_finite i.vol_60d ≡ true)
        × (is_finite i.avg_corr ≡ true)
        × (is_finite i.sector_value ≡ true)
        × (is_finite i.daily_pnl_pct ≡ true)
  unfolding all_finite
  finite_of_all_finite i h =
      let h7 = and_left _ _ (and_left _ _ h) in
      let h6 = and_left _ _ h7 in
      let h5 = and_left _ _ h6 in
      let h4 = and_left _ _ h5 in
      let h3 = and_left _ _ h4 in
      let h2 = and_left _ _ h3 in
      (
        and_left _ _ h2,
        and_right (is_finite i.equity) _ h2,
        and_right _ (is_finite i.price) h3,
        and_right _ (is_finite i.vol_60d) h4,
        and_right _ (is_finite i.avg_corr) h5,
        and_right _ (is_finite i.sector_value) h6,
        and_right _ (is_finite i.daily_pnl_pct) h7,
      )

  range_of_in_range :
      (i : GateInputs)
      → out_of_range conv a i ≡ false
      → (float_le i.price zero_float ≡ false)
        × (float_le i.equity zero_float ≡ false)
        × (pos 0 ≤ℤ i.held_qty)
        × (float_lt i.avg_corr (a.literal (negsuc 9) 1) ≡ false)
        × (float_lt (a.literal (pos 10) 1) i.avg_corr ≡ false)
  unfolding out_of_range
  range_of_in_range i h =
      let h4 = or_left _ _ (or_left _ _ (or_left _ _ (or_left _ _ (or_left _ _ h)))) in
      let h2 = or_left _ _ (or_left _ _ h4) in
      (
        or_left _ _ h2,
        or_right _ _ h2,
        held (or_right _ (ltb_ℤ i.held_qty (pos 0)) h4),
        or_right _ _ (or_left _ _ h),
        or_right _ _ h,
      )
    where
      held : ltb_ℤ i.held_qty (pos 0) ≡ false → pos 0 ≤ℤ i.held_qty
      held e = ground arith

  -- What a verdict promises about the inputs that it was computed from.
  abbrev pub Promises : GateInputs → Verdict → Type 0
  Promises i (rejected reason) = Unit
  Promises i (approved q p sell) = IsSound a i × (i.side ≡ sell) × (q ≡ i.held_qty) × (pos 1 ≤ℤ q)
  Promises i (approved q p buy) =
      IsSound a i
      × (i.side ≡ buy)
      × (float_le i.daily_pnl_pct (circuit_breaker conv a) ≡ false)
      × ((eqb_ℤ i.held_qty (pos 0) && leb_ℤ max_positions i.position_count) ≡ false)
      × (pos 1 ≤ℤ q)
      × (q ≤ℤ p)
      × (floor (
            a.div
              (float_min
                (a.mul (a.mul i.equity (vol_tier conv a i.vol_60d)) (corr_mult conv a i.avg_corr))
                i.cash)
              i.price)
          ≡ some p)
      × (r : ℤ) × (floor (
            a.div
              (float_max (a.sub (a.mul (a.literal (pos 60) 2) i.equity) i.sector_value) zero_float)
              i.price)
          ≡ some r)
      × (q ≤ℤ r)
      × ((q ≡ p) ⊎ (q ≡ r))

  IsSound-of_malformed : (i : GateInputs) → malformed conv a i ≡ false → IsSound a i
  unfolding malformed
  IsSound-of_malformed i h =
      let f = finite_of_all_finite i (not-false _ (or_right (out_of_range conv a i) _ h)) in
      let r = range_of_in_range i (or_left _ _ h) in
      record {
        equity = f.0;
        cash = f.1;
        price = f.2;
        vol = f.3;
        corr = f.4;
        sector_value = f.5;
        daily_pnl = f.6;
        price_pos = r.0;
        equity_pos = r.1;
        held = r.2;
        corr_low = r.3;
        corr_high = r.4;
      }

  sell-Promises :
      (i : GateInputs) → IsSound a i → i.side ≡ sell → Promises i (sell_verdict conv a i)
  unfolding sell_verdict
  sell-Promises i s e = elim (Bool-cases (ltb_ℤ (pos 0) i.held_qty)) [
    | inl some_held ↦ rw some_held (s, e, refl, ground arith)
    | inr none_held ↦ rw none_held tt
  ]

  -- What the floors that `min` is taken of leave.
  room-Promises :
      (i : GateInputs) (p r : Option ℤ)
      → IsSound a i
      → i.side ≡ buy
      → float_le i.daily_pnl_pct (circuit_breaker conv a) ≡ false
      → (eqb_ℤ i.held_qty (pos 0) && leb_ℤ max_positions i.position_count) ≡ false
      → pre_sector conv a i ≡ p
      → sector_room conv a i ≡ r
      → Promises i (buy_verdict conv a p r)
  unfolding buy_verdict
  room-Promises i none none s e b c ep er = tt
  room-Promises i none (some r) s e b c ep er = tt
  room-Promises i (some p) none s e b c ep er = tt
  room-Promises i (some p) (some r) s e b c ep er =
      elim (Bool-cases (ltb_ℤ (min_ℤ conv a p r) (pos 1))) [
        | inl too_few ↦ rw too_few tt
        | inr enough ↦
            rw enough
              (s, e, b, c, ground arith, ground arith, ep, r, er, ground arith, ground arith)
      ]

  side-Promises :
      (i : GateInputs) (side : Side)
      → IsSound a i
      → i.side ≡ side
      → Promises i (side_verdict conv a side i)
  unfolding side_verdict
  side-Promises i sell s e = sell-Promises i s e
  side-Promises i buy s e = elim (Bool-cases (float_le i.daily_pnl_pct (circuit_breaker conv a))) [
    | inl broken ↦ rw broken tt
    | inr calm ↦
        elim (Bool-cases (eqb_ℤ i.held_qty (pos 0) && leb_ℤ max_positions i.position_count)) [
          | inl full ↦ rw (calm, full) tt
          | inr room ↦ rw (calm, room) (room-Promises i _ _ s e calm room refl refl)
        ]
  ]

  pub model-Promises : (i : GateInputs) → Promises i (size conv a (model i))
  unfolding size
  model-Promises i = elim (Bool-cases (malformed conv a i)) [
    | inl bad ↦ rw bad tt
    | inr good ↦ rw good (side-Promises i i.side (IsSound-of_malformed i good) refl)
  ]

  -- The promises for what was handed in: a dict is first read as a model.
  abbrev pub PromisesOn : Option GateInputs → Verdict → Type 0
  PromisesOn o (rejected reason) = Unit
  PromisesOn none v = ⊥
  PromisesOn (some i) v = Promises i v

  abbrev pub inputs_of : Inputs → Option GateInputs
  inputs_of (model i) = some i
  inputs_of (dict d) = model_validate conv d
  inputs_of garbage = none

  promised : (i : GateInputs) (v : Verdict) → Promises i v → PromisesOn (some i) v
  promised i (rejected reason) h = tt
  promised i (approved q p s) h = h

  dict-Promises :
      (d : Dict) (o : Option GateInputs)
      → model_validate conv d ≡ o
      → PromisesOn o (size conv a (dict d))
  unfolding size
  dict-Promises d none e = rw (e, PromisesOn) tt
  dict-Promises d (some i) e = rw (e, PromisesOn) (promised i _ (model-Promises i))

  -- Every approval, of a model however built or of a dict that is read as one (garbage is never
  -- approved): the inputs are finite, with a positive price and equity and a correlation within -1 and
  -- 1. A sale is of all the shares held, at least one. A purchase is of at least one share, exactly the
  -- lesser of the floor of the budget and the floor of what 60 % of the equity leaves beside the
  -- sector's value, and is never made past the circuit breaker nor as a new position where eight are
  -- held.
  pub size-Promises : (inputs : Inputs) → PromisesOn (inputs_of inputs) (size conv a inputs)
  unfolding size
  size-Promises (model i) = promised i _ (model-Promises i)
  size-Promises (dict d) = dict-Promises d (model_validate conv d) refl
  size-Promises garbage = tt
