-- ===== src/Orchestrator/Protection/Checks.antt =====
-- `_evaluate` and `assert_positions_protected` of orchestrator/protection.py, and `log_observed` of
-- state/protection.py. A position's or an order's symbol and id are texts or missing, as is a side.
use fund.Python.Actions.{◌>>=◌, ◌>>◌, lift, modify}
use fund.Orchestrator.Protection.Cover.{unknown}
use fund.Slack.Outbox.{append_alert}
use fund.State.Rows.{Db, Protection, Time}
use fund.Orchestrator.Protection.Cover.{
  Promise, covering_qty, normalized, price_of, qty_of, is_stop_type, promised, promised_stop,
}
use fund.Python.Values.{Conversions, Value, Dict, get, text, is_null}
use fund.Python.Actions.{Result, Action, err, ok, pure, raise, type_error}
use fund.Base.{
  if◌then◌else◌, [], none, some, false, ℕ, List, Bool, Option, String, any, length, leb, str_eq,
  suc, ◌&&◌, ◌∷◌, ◌==◌, ◌||◌, ◌++◌,
}

-- What is wrong with a position.
pub data Problem : Type 0 where
  position_unreadable order_unreadable provenance_unknown : Problem
  uncovered : (covered : ℕ) → Problem

-- str(p.get("symbol") or "?")
abbrev pub symbol_of : Value → String
symbol_of (text s) = if str_eq s "" then "?" else s
symbol_of v = "?"

abbrev falsy : Value → Bool
falsy (text s) = str_eq s ""
falsy v = is_null v

abbrev text_of : Value → String
text_of (text s) = s
text_of v = ""

-- A stop that was promised, or a promise that cannot be read; none for a deliberately stopless buy.
abbrev pub by_promise : Promise → ℕ → Option Problem
by_promise unknown covered = some provenance_unknown
by_promise (promised none) covered = none
by_promise (promised (some stop)) covered = some (uncovered covered)

abbrev pub by_cover : ℕ → Result (Option ℕ) → Promise → Result (Option Problem)
by_cover held (err e) promise = err e
by_cover held (ok none) promise = ok (some order_unreadable)
by_cover held (ok (some covered)) promise =
    if leb held covered then ok none else ok (by_promise promise covered)

-- The broker's port, over a state of the outside world.
pub record Account (W : Type 0) : Type 0 where
  pub open_positions : W → Result (List (Option Dict)) × W
  pub open_orders : W → Result (List (Option Dict)) × W
  pub nap : W → W

abbrev Problems : Type 0
Problems = List (String × Problem)

module _ (conv : Conversions) where
  abbrev pub fields_of : Option Dict → Dict
  fields_of none = []
  fields_of (some d) = d

  -- CLOSING_SIDE.get(str(side or "").lower())
  abbrev pub closing_of : Value → Option String
  closing_of (text s) = if str_eq (conv.lower s) "long" then some "sell" else none
  closing_of v = none

  -- One position, with the shares held and the closing side as they were read.
  unfoldable pub judge :
      Db
      → (orders : List (Option Dict)) → String
      → Result (Option ℕ)
      → Option String
      → Result (Option Problem)
  unfolding covering_qty promised_stop
  judge db orders symbol (err e) closing = err e
  judge db orders symbol (ok none) closing = ok (some position_unreadable)
  judge db orders symbol (ok (some held)) none = ok (some position_unreadable)
  judge db orders symbol (ok (some held)) (some closing) =
      by_cover held (covering_qty conv orders symbol closing) (promised_stop db symbol)

  abbrev pub judge_position : Db → List (Option Dict) → Option Dict → Result (Option Problem)
  judge_position db orders p =
      judge db orders (symbol_of (get (fields_of p) "symbol"))
        (qty_of conv (get (fields_of p) "qty")) (closing_of (get (fields_of p) "side"))

  abbrev pub gather : String → Result (Option Problem) → Result Problems → Result Problems
  gather symbol (err e) rest = err e
  gather symbol (ok none) rest = rest
  gather symbol (ok (some problem)) (err e) = err e
  gather symbol (ok (some problem)) (ok more) = ok ((symbol, problem) ∷ more)

  unfoldable pub evaluate : Db → (positions orders : List (Option Dict)) → Result Problems
  unfolding judge qty_of
  evaluate db [] orders = ok []
  evaluate db (p ∷ ps) orders =
      let rest = evaluate db ps orders in
      gather (symbol_of (get (fields_of p) "symbol")) (judge_position db orders p) rest

  -- INSERT OR IGNORE of one observation.
  abbrev observe : Protection → Db → Db
  observe row db =
      if any
        (λ (r : Protection).
          str_eq r.alpaca_order_id row.alpaca_order_id && r.observed_at == row.observed_at)
        db.protection
      then db
      else record db { protection = db.protection ++ row ∷ [] }

  abbrev is_named : (String → Bool) → Option String → Bool
  is_named p none = false
  is_named p (some s) = p s

  -- Only a readable stop order on the closing side is a protective one.
  is_protective : Dict → Bool
  unfolding normalized
  is_protective o =
      is_named is_stop_type (normalized conv (get o "type"))
      && is_named (λ s. str_eq s "sell") (normalized conv (get o "side"))

  observation : Dict → ℕ → Time → Action Db (Unit {0})
  unfolding price_of
  observation o qty now = do
    stop ← lift (price_of conv (get o "stop_price"))
    modify (
        observe (record {
          alpaca_order_id = text_of (get o "id");
          observed_at = now;
          symbol = text_of (get o "symbol");
          qty = qty;
          stop_price = stop;
        }))

  log_order : Dict → Time → Result (Option ℕ) → Action Db (Unit {0})
  unfolding observation
  log_order o now (err e) = raise e
  log_order o now (ok none) = pure tt
  log_order o now (ok (some qty)) =
      if falsy (get o "id") || falsy (get o "symbol") then pure tt else observation o qty now

  -- A line that is not a dict raises.
  unfoldable pub log_observed : List (Option Dict) → Time → Action Db (Unit {0})
  unfolding is_protective log_order qty_of
  log_observed [] now = pure tt
  log_observed (none ∷ orders) now = raise type_error
  log_observed (some o ∷ orders) now =
      if is_protective o
      then (do log_order o now (qty_of conv (get o "qty")); log_observed orders now)
      else log_observed orders now

  alert_all : Problems → Time → Db → Db
  alert_all [] now db = db
  alert_all ((symbol, problem) ∷ rest) now db =
      alert_all rest now (append_alert "unprotected_position" (some symbol) now db)

  abbrev unverified : Time → Db → ℕ × Db
  unverified now db = (1, append_alert "protection_unverified" none now db)

  abbrev log_result : ℕ → Time → Result (Unit {0}) × Db → ℕ × Db
  log_result n now (ok _, db) = (n, db)
  log_result n now (err e, db) = (suc n, append_alert "protection_log_unwritten" none now db)

  -- The alerts first, then the log, in its own try.
  conclude : List (Option Dict) → Problems → Time → Db → ℕ × Db
  unfolding alert_all log_observed
  conclude orders problems now db =
      log_result (length problems) now (log_observed orders now (alert_all problems now db))

  module _ {W : Type 0} (broker : Account W) where
    abbrev bind_problems :
        Result (List (Option Dict))
        → Db
        → List (Option Dict)
        → Result (List (Option Dict) × Problems)
    bind_problems (err e) db positions = err e
    bind_problems (ok orders) db positions = elim (evaluate db positions orders) [
      | err e ↦ err e
      | ok ps ↦ ok (orders, ps)
    ]

    -- read_orders and _evaluate, as one step that may raise.
    snapshot : Db → List (Option Dict) → W → Result (List (Option Dict) × Problems) × W
    unfolding evaluate
    snapshot db positions w =
        let (orders, w') = broker.open_orders w in (bind_problems orders db positions, w')

    last_word : Time → Db → Result (List (Option Dict) × Problems) → ℕ × Db
    unfolding conclude
    last_word now db (err e) = unverified now db
    last_word now db (ok (orders, problems)) = conclude orders problems now db

    -- After the wait both sides are read again.
    second_look : Time → Db → Result (List (Option Dict)) × W → (ℕ × Db) × W
    unfolding snapshot last_word
    second_look now db (err e, w) = (unverified now db, w)
    second_look now db (ok [], w) = ((0, db), w)
    second_look now db (ok (p ∷ ps), w) =
        let (seen, w') = snapshot db (p ∷ ps) w in (last_word now db seen, w')

    first_look : Time → Db → Result (List (Option Dict) × Problems) × W → (ℕ × Db) × W
    unfolding second_look conclude
    first_look now db (err e, w) = (unverified now db, w)
    first_look now db (ok (orders, []), w) = (conclude orders [] now db, w)
    first_look now db (ok (orders, problem ∷ more), w) =
        second_look now db (broker.open_positions (broker.nap w))

    positions_read : Time → Db → Result (List (Option Dict)) × W → (ℕ × Db) × W
    unfolding snapshot first_look
    positions_read now db (err e, w) = (unverified now db, w)
    positions_read now db (ok [], w) = ((0, db), w)
    positions_read now db (ok (p ∷ ps), w) = first_look now db (snapshot db (p ∷ ps) w)

  unfoldable pub assert_positions_protected :
      {W : Type 0} → Option (Account W) → Time → W → Db → (ℕ × Db) × W
  unfolding positions_read
  assert_positions_protected none now w db = (unverified now db, w)
  assert_positions_protected (some broker) now w db =
      positions_read broker now db (broker.open_positions w)
