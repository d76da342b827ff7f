-- ===== src/Orchestrator/Daily/Sizing/Advisory.antt =====
-- The stage that drops tickers and the snapshot that the portfolio manager is shown agree.
use fund.Gate.Tickets.Orders.{side_text}
use fund.State.Rows.{Side, Time, Db, buy, sell}
use fund.Gate.Risk.Bounds.{Promises, model-Promises}
use fund.Orchestrator.Daily.Sizing.{
  run_pre_gate, sized, qty_of_verdict, screen, Shapes, allowed_actions, MarketInputs, is_approved,
  put,
}
use fund.Gate.Risk.{Verdict, Arith, GateInputs, size, size_model, model_validate}
use fund.Python.Values.{Conversions, Dict, text}
use fund.Base.{
  if◌then◌else◌, [], none, some, true, false, refl, not, pos, Bool, Option, eqb_ℤ, ◌≤ℤ◌, String,
  ◌≡◌, List, arith, map, ◌∷◌, sym, ◌||◌,
}

-- A verdict that approves is for at least one share.
abbrev IsReal : Verdict → Type 0
IsReal (Verdict.approved q p side) = pos 1 ≤ℤ q
IsReal (Verdict.rejected reason) = Unit

nonzero-IsReal : (v : Verdict) → IsReal v → not (eqb_ℤ (qty_of_verdict v) (pos 0)) ≡ is_approved v
nonzero-IsReal (Verdict.approved q p side) h = ground arith
nonzero-IsReal (Verdict.rejected reason) h = refl

module _ (conv : Conversions) (a : Arith) where
  IsReal-of_Promises : (i : GateInputs) (v : Verdict) → Promises conv a i v → IsReal v
  IsReal-of_Promises i (Verdict.approved q p sell) h = h.3
  IsReal-of_Promises i (Verdict.approved q p buy) h = h.4
  IsReal-of_Promises i (Verdict.rejected reason) h = tt

  validated-IsReal :
      (o : Option GateInputs)
      → IsReal (elim o [ none ↦ Verdict.rejected "gate_error" | some i ↦ size_model conv a i ])
  validated-IsReal none = tt
  validated-IsReal (some i) =
      IsReal-of_Promises i (size_model conv a i) (unfold size in model-Promises conv a i)

  sized-IsReal : (inputs : Dict) (side : Side) → IsReal (sized conv a inputs side)
  unfolding sized size
  sized-IsReal inputs side =
      validated-IsReal (model_validate conv (put "side" (text (side_text side)) inputs))

  map-keep :
      (b c : Bool) (t : String) (s : Shapes) (rest : List (String × Shapes)) (ts : List String)
      → b ≡ c
      → map (λ e. e.0) rest ≡ ts
      → map (λ e. e.0) (if b then (t, s) ∷ rest else rest) ≡ (if c then t ∷ ts else ts)
  map-keep true c t s rest ts e h = rw (sym e, h) refl
  map-keep false c t s rest ts e h = rw (sym e, h) refl

  -- On any market data, malformed or not, the tickers that the pre-gate stage keeps are exactly the
  -- tickers of the advisory snapshot, in the same order.
  pub screen-run_pre_gate :
      (inputs : MarketInputs) (now : Time) (db : Db)
      → run_pre_gate conv a inputs ≡ (screen conv a inputs now db).0
  unfolding run_pre_gate screen allowed_actions
  screen-run_pre_gate [] now db = refl
  screen-run_pre_gate ((ticker, inputs) ∷ rest) now db =
      let b = sized conv a inputs buy in
      let s = sized conv a inputs sell in
      map-keep (not (eqb_ℤ (qty_of_verdict b) (pos 0)) || not (eqb_ℤ (qty_of_verdict s) (pos 0)))
        (is_approved b || is_approved s) ticker
        (record { buy_qty = qty_of_verdict b; sell_qty = qty_of_verdict s })
        (allowed_actions conv a rest) _
        (rw
          (nonzero-IsReal b (sized-IsReal inputs buy), nonzero-IsReal s (sized-IsReal inputs sell))
          refl)
        (screen-run_pre_gate rest now _)
