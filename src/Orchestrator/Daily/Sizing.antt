-- ===== src/Orchestrator/Daily/Sizing.antt =====
-- The sizing calls of orchestrator/daily.py: the advisory snapshot and the pre-gate stage.
pub mod Advisory
use fund.Base.{
  ◌≡◌, Bool, true, false, not, ◌&&◌, ◌||◌, Option, none, some, List, [], ◌∷◌, ◌++◌, String, ℤ, pos,
  eqb_ℤ, any, map, str_eq, if◌then◌else◌,
}
use fund.Python.Values.{Value, Dict, Conversions, text}
use fund.State.Rows.{Time, Db, Side, buy, sell, Offered}
use fund.Gate.Risk.{Arith, Verdict, size, dict}
use fund.Gate.Tickets.Orders.{side_text}
use fund.Slack.Outbox.{append_alert}

-- d[k] = v
abbrev pub put : String → Value → Dict → Dict
put k v [] = (k, v) ∷ []
put k v ((j, u) ∷ d) = let rest = put k v d in if str_eq j k then (j, v) ∷ d else (j, u) ∷ rest

abbrev pub MarketInputs : Type 0
MarketInputs = List (String × Dict)

pub record Shapes : Type 0 where
  pub buy_qty : ℤ
  pub sell_qty : ℤ

abbrev qty_of_verdict : Verdict → ℤ
qty_of_verdict (Verdict.approved q p side) = q
qty_of_verdict (Verdict.rejected reason) = pos 0

abbrev is_approved : Verdict → Bool
is_approved (Verdict.approved q p side) = true
is_approved (Verdict.rejected reason) = false

abbrev is_gate_error : Verdict → Bool
is_gate_error (Verdict.approved q p side) = false
is_gate_error (Verdict.rejected reason) = str_eq reason "gate_error"

module _ (conv : Conversions) (a : Arith) where
  unfoldable pub sized : Dict → Side → Verdict
  unfolding size
  sized inputs side = size conv a (dict (put "side" (text (side_text side)) inputs))

  unfoldable pub allowed_actions : MarketInputs → List (String × Shapes)
  unfolding sized
  allowed_actions [] = []
  allowed_actions ((ticker, inputs) ∷ rest) =
      let b = qty_of_verdict (sized inputs buy) in
      let s = qty_of_verdict (sized inputs sell) in
      let snapshot = allowed_actions rest in
      if not (eqb_ℤ b (pos 0)) || not (eqb_ℤ s (pos 0))
      then (ticker, record { buy_qty = b; sell_qty = s }) ∷ snapshot
      else snapshot

  unfoldable pub run_pre_gate : MarketInputs → List String
  unfolding allowed_actions
  run_pre_gate inputs = map (λ e. e.0) (allowed_actions inputs)

  -- The first loop of the stage: the active tickers, and an alert for each malformed feed.
  unfoldable pub screen : MarketInputs → Time → Db → List String × Db
  unfolding sized
  screen [] now db = ([], db)
  screen ((ticker, inputs) ∷ rest) now db =
      let active = is_approved (sized inputs buy) || is_approved (sized inputs sell) in
      let broken = is_gate_error (sized inputs buy) && is_gate_error (sized inputs sell) in
      let db' =
        if active
        then db
        else if broken
        then append_alert "gate_error" (some ticker) now db
        else db in
      let (tickers, db'') = screen rest now db' in
      (if active then ticker ∷ tickers else tickers, db'')

  abbrev offer : String → String → Db → Db
  offer run_date ticker db =
      if any (λ (o : Offered). str_eq o.run_date run_date && str_eq o.ticker ticker) db.offered
      then db
      else record db {
        offered = db.offered ++ record { run_date = run_date; ticker = ticker } ∷ [];
      }

  abbrev offer_all : String → List String → Db → Db
  offer_all run_date [] db = db
  offer_all run_date (t ∷ ts) db = offer_all run_date ts (offer run_date t db)

  unfoldable pub pre_gate_stage : String → MarketInputs → Time → Db → List String × Db
  unfolding screen
  pre_gate_stage run_date inputs now db =
      let (active, db') = screen inputs now db in (active, offer_all run_date active db')
