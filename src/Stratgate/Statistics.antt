-- ===== src/Stratgate/Statistics.antt =====
-- What passing the statistical gate means.
use fund.Stratgate.Checks.{
  passes, Within, test-Within, Within-test, Within-fine, AllHold, verdict_passes, hold_verdict,
  first_bad-none, none-first_bad, some-true,
}
use fund.Base.{none, some, true, false, refl, String, All, Option, ◌≡◌, ap, ◌↔◌}
use fund.Python.Values.{Dict, get, Value}
use fund.Python.Floats.{Float, float_le, float_lt, zero_float}
use fund.Stratgate.{
  not_finite, raised, worst, first_bad, bad, G2Thresholds, Loss, Neighbors, evaluate_g2, g2_tests,
  after_required, g2_required, judge_loss, worst_loss,
}

module _ (loss_of : (base sr : Value) → Option Float) (t : G2Thresholds) (stats : Dict) where
  -- Every limit of the gate, with what the worst neighbour loses.
  abbrev pub WithinLimits : Float → Type 0
  WithinLimits lost =
      Within (float_le t.min_trades) stats "n_trades"
      × Within (float_le t.min_span_years) stats "span_years"
      × Within (float_le t.min_sharpe_floor_costs) stats "net_sharpe"
      × Within (float_le t.min_sharpe_2x_costs) stats "net_sharpe_2x"
      × Within (float_lt t.min_sharpe_3x_costs) stats "net_sharpe_3x"
      × Within (float_le t.min_deflated_sharpe) stats "deflated_sharpe"
      × Within (float_le t.min_wfe) stats "wfe"
      × Within (float_le t.hard_reject_wfe) stats "wfe"
      × Within (λ x. float_le x t.max_drawdown) stats "max_drawdown"
      × Within (λ x. float_le x t.max_cost_share) stats "cost_share"
      × (float_le lost t.max_neighbor_sharpe_loss ≡ true)

  -- Statistics that may pass: complete, finite and within every limit, with neighbours that can all be
  -- read.
  abbrev pub Admissible : Option Neighbors → Type 0
  Admissible neighbors =
      (sides : Neighbors) × (lost : Float) × (neighbors ≡ some sides)
      × (worst_loss loss_of (get stats "net_sharpe") sides (worst zero_float) ≡ worst lost)
      × WithinLimits lost

  hold_limits :
      (lost : Float)
      → All (λ k. bad (get stats k) ≡ false) g2_required
      → AllHold (g2_tests loss_of t stats lost)
      → WithinLimits lost
  hold_limits lost (p, (q, (r, (o, (v, (w, (x, (y, (z, tt_)))))))))
        (a, (b, (c, (d, (e, (f, (g, (i, (j, (k, (l, u))))))))))) =
      (
        test-Within _ stats "n_trades" p a,
        test-Within _ stats "span_years" q b,
        test-Within _ stats "net_sharpe" r c,
        test-Within _ stats "net_sharpe_2x" o d,
        test-Within _ stats "net_sharpe_3x" v e,
        test-Within _ stats "deflated_sharpe" w f,
        test-Within _ stats "wfe" x g,
        test-Within _ stats "wfe" x i,
        test-Within _ stats "max_drawdown" y j,
        test-Within _ stats "cost_share" z k,
        some-true _ l,
      )

  limits_fine :
      (lost : Float) → WithinLimits lost → All (λ k. bad (get stats k) ≡ false) g2_required
  limits_fine lost (a, b, c, d, e, f, g, i, j, k, l) = (
    Within-fine _ stats "n_trades" a,
    (
      Within-fine _ stats "span_years" b,
      (
        Within-fine _ stats "net_sharpe" c,
        (
          Within-fine _ stats "net_sharpe_2x" d,
          (
            Within-fine _ stats "net_sharpe_3x" e,
            (
              Within-fine _ stats "deflated_sharpe" f,
              (
                Within-fine _ stats "wfe" g,
                (Within-fine _ stats "max_drawdown" j, (Within-fine _ stats "cost_share" k, tt)),
              ),
            ),
          ),
        ),
      ),
    ),
  )

  limits_hold : (lost : Float) → WithinLimits lost → AllHold (g2_tests loss_of t stats lost)
  limits_hold lost (a, b, c, d, e, f, g, i, j, k, l) = (
    Within-test _ stats "n_trades" a,
    (
      Within-test _ stats "span_years" b,
      (
        Within-test _ stats "net_sharpe" c,
        (
          Within-test _ stats "net_sharpe_2x" d,
          (
            Within-test _ stats "net_sharpe_3x" e,
            (
              Within-test _ stats "deflated_sharpe" f,
              (
                Within-test _ stats "wfe" g,
                (
                  Within-test _ stats "wfe" i,
                  (
                    Within-test _ stats "max_drawdown" j,
                    (Within-test _ stats "cost_share" k, (ap some l, tt)),
                  ),
                ),
              ),
            ),
          ),
        ),
      ),
    ),
  )

  judge_loss-passes :
      (l : Loss)
      → All (λ k. bad (get stats k) ≡ false) g2_required
      → passes (judge_loss loss_of t stats l) ≡ true
      → (lost : Float) × (l ≡ worst lost) × WithinLimits lost
  judge_loss-passes (worst lost) fine h =
      (lost, refl, hold_limits lost fine (verdict_passes (g2_tests loss_of t stats lost) h))
  judge_loss-passes (not_finite p) fine h = cc
  judge_loss-passes raised fine h = cc

  required_passes :
      (o : Option String) (neighbors : Option Neighbors)
      → first_bad stats g2_required ≡ o
      → passes (after_required loss_of t stats o neighbors) ≡ true
      → Admissible neighbors
  required_passes (some key) neighbors e h = cc
  required_passes none none e h = cc
  required_passes none (some sides) e h =
      let (lost, read, limits) =
        judge_loss-passes (worst_loss loss_of (get stats "net_sharpe") sides (worst zero_float))
          (first_bad-none stats g2_required e) h in
      (sides, lost, refl, read, limits)

  -- The statistical gate passes exactly the statistics in which every required figure is a number that is
  -- finite and within its limit, and whose neighbours' ratios can all be read, with the worst loss among
  -- them within its limit; on anything else it rejects, or raises.
  pub evaluate_g2_iff :
      (neighbors : Option Neighbors)
      → (passes (evaluate_g2 loss_of stats neighbors t) ≡ true) ↔ Admissible neighbors
  unfolding evaluate_g2
  evaluate_g2_iff neighbors = (
    λ h. required_passes (first_bad stats g2_required) neighbors refl h,
    λ (h : Admissible neighbors).
        let (sides, lost, e, w, limits) = h in
        rw (none-first_bad stats g2_required (limits_fine lost limits), e, w)
          (hold_verdict (g2_tests loss_of t stats lost) (limits_hold lost limits)),
  )
