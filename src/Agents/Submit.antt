-- ===== src/Agents/Submit.antt =====
-- `handle_submit_signal` and `handle_submit_decision` of agents/tools/fund_server.py, with the models
-- Signal and Decision of state/models.py. How pydantic coerces a value to an int or to a float is a
-- parameter, and so is the length of a text in code points. The day of the clock is a date.
use fund.Slack.Outbox.{append_event}
use fund.Python.Actions.{Action, err, ok, overflow_error}
use fund.State.Transition.{◌=ₛ◌}
use fund.Python.Floats.{Float, float_lt, zero_float}
use fund.Agents.Seats.{can}
use fund.Python.Values.{Value, Dict, is_text, text, get, null}
use fund.State.Rows.{
  Decision, Intent, Signal, Direction, Time, trade, bullish, buy, submitted, Db, bearish, sell,
  hold, neutral, Body, Critique,
}
pub mod Final
pub mod Sound
use fund.State.Keys.{is_key, next_decision_id}
use fund.Base.{
  ℕ, if◌then◌else◌, [], none, some, true, false, Bool, List, Option, String, leb, ltb, not, str_eq,
  ℤ, ◌&&◌, ◌∷◌, any, pos, suc, ◌^◌, negsuc, find?, ◌==◌, ◌||◌,
}

pub record Pydantic : Type 0 where
  pub lax_int : Value → Option ℤ
  pub lax_float : Value → Option Float
  pub text_length : String → ℕ

-- What a tool call answers.
pub data Reply : Type 0 where
  accepted : Reply
  refused : (why : String) → Reply

-- A whole number that SQLite can bind.
unfoldable pub fits_int64 : ℕ → Bool
fits_int64 n = ltb n (2 ^ 63)

abbrev direction_of : Value → Option Direction
direction_of v =
    if is_text v "bullish"
    then some bullish
    else if is_text v "bearish"
    then some bearish
    else if is_text v "neutral"
    then some neutral
    else none

abbrev pub action_of : Value → Option Intent
action_of v =
    if is_text v "buy"
    then some (trade buy)
    else if is_text v "sell"
    then some (trade sell)
    else if is_text v "hold"
    then some hold
    else none

abbrev pub str_of : Value → Option String
str_of (text s) = some s
str_of _ = none

-- Field(ge=0)
abbrev pub natural : Option ℤ → Option ℕ
natural none = none
natural (some (pos n)) = some n
natural (some (negsuc n)) = none

abbrev at_most : ℕ → Option ℕ → Option ℕ
at_most limit none = none
at_most limit (some n) = if leb n limit then some n else none

abbrev is_positive : Option Float → Bool
is_positive none = true
is_positive (some x) = float_lt zero_float x

abbrev is_buy : Intent → Bool
is_buy (trade buy) = true
is_buy _ = false

abbrev is_hold : Intent → Bool
is_hold hold = true
is_hold (trade side) = false

abbrev is_none : Option Float → Bool
is_none none = true
is_none (some x) = false

abbrev same_bool : Bool → Bool → Bool
same_bool true b = b
same_bool false b = not b

-- The decision model's own rules: gt=0 on the stop, and `hold_means_zero`.
unfoldable pub is_well_formed : Decision → Bool
is_well_formed d =
    is_positive d.stop_price
    && same_bool (is_hold d.action) (d.qty == 0)
    && (is_none d.stop_price || is_buy d.action)

abbrev pub has_keys : List String → Dict → Bool
has_keys [] d = true
has_keys (k ∷ ks) d = any (λ (e : String × Value). str_eq e.0 k) d && has_keys ks d

-- ON CONFLICT(run_date, ticker) DO UPDATE: the row keeps its id and its status.
unfoldable pub upsert_decision : ℕ → Decision → List Decision → List Decision
upsert_decision id new [] = record new { id = id } ∷ []
upsert_decision id new (d ∷ ds) =
    let rest = upsert_decision id new ds in
    if is_key new.run_date new.ticker d
    then record d {
      action = new.action;
      qty = new.qty;
      stop_price = new.stop_price;
      charter_version = new.charter_version;
    }
      ∷ ds
    else d ∷ rest

abbrev pub is_same_signal : Signal → Signal → Bool
is_same_signal new s =
    str_eq s.run_date new.run_date && str_eq s.agent new.agent && str_eq s.ticker new.ticker

unfoldable pub upsert_signal : Signal → List Signal → List Signal
upsert_signal new [] = new ∷ []
upsert_signal new (s ∷ ss) =
    let rest = upsert_signal new ss in
    if is_same_signal new s
    then record s {
      direction = new.direction;
      confidence = new.confidence;
      charter_version = new.charter_version;
    }
      ∷ ss
    else s ∷ rest

abbrev pub has_left : Option Decision → Bool
has_left none = false
has_left (some d) = not (d.status =ₛ submitted)

-- A quantity that SQLite cannot bind raises before anything is written.
unfoldable pub store_decision : String → Decision → Time → Action Db Reply
unfolding upsert_decision next_decision_id fits_int64
store_decision seat d now db = if not (fits_int64 d.qty) then (err overflow_error, db) else (
  ok accepted,
  append_event (Body.decision_call seat d.ticker d.action d.qty) now
      (record db { decisions = upsert_decision (next_decision_id db.decisions) d db.decisions }),
)

unfoldable pub write_decision : String → Option Decision → Time → Action Db Reply
unfolding store_decision
write_decision seat none now db = (ok (refused "invalid"), db)
write_decision seat (some d) now db =
    if has_left (find? (is_key d.run_date d.ticker) db.decisions)
    then (ok (refused "irrevocable"), db)
    else if not (
        any (λ (c : Critique). str_eq c.run_date d.run_date && str_eq c.ticker d.ticker)
          db.critiques)
    then (ok (refused "no critique"), db)
    else store_decision seat d now db

unfoldable pub write_signal : String → Option Signal → Time → Action Db Reply
unfolding upsert_signal
write_signal seat none now db = (ok (refused "invalid"), db)
write_signal seat (some s) now db = (
  ok accepted,
  append_event (Body.signal_call s.agent s.ticker s.direction s.confidence) now
      (record db { signals = upsert_signal s db.signals }),
)

module _ (p : Pydantic) where
  -- Field(max_length=500) on a text.
  abbrev short_text : Value → Bool
  short_text (text s) = leb (p.text_length s) 500
  short_text v = false

  unfoldable pub stop_of : Value → Option (Option Float)
  stop_of null = some none
  stop_of v = elim (p.lax_float v) [ none ↦ none | some x ↦ some (some x) ]

  -- A row that has not been validated as a whole.
  unfoldable pub build_decision :
      (charter run_date : String)
      → Option String
      → Option Intent
      → Option ℕ
      → Option (Option Float)
      → Option Decision
  build_decision charter run_date (some ticker) (some action) (some qty) (some stop) =
      some (record {
        id = 0;
        run_date = run_date;
        ticker = ticker;
        action = action;
        qty = qty;
        stop_price = stop;
        status = submitted;
        charter_version = charter;
      })
  build_decision charter run_date _ _ _ _ = none

  unfoldable pub keep_if : (Decision → Bool) → Option Decision → Option Decision
  keep_if fits none = none
  keep_if fits (some d) = if fits d then some d else none

  abbrev pub is_str : Value → Bool
  is_str (text s) = true
  is_str v = false

  -- Decision(…): none is the KeyError or the ValidationError.
  unfoldable pub valid_decision : (charter run_date : String) → Dict → Option Decision
  unfolding build_decision keep_if stop_of is_well_formed
  valid_decision charter run_date args =
      if has_keys ("ticker" ∷ "action" ∷ "qty" ∷ "thesis" ∷ "invalidation" ∷ []) args
        && is_str (get args "thesis")
        && is_str (get args "invalidation")
      then keep_if is_well_formed (
          build_decision charter run_date (str_of (get args "ticker"))
            (action_of (get args "action")) (natural (p.lax_int (get args "qty")))
            (stop_of (get args "stop_price")))
      else none

  build_signal :
      (charter run_date seat : String) → Option String → Option Direction → Option ℕ → Option Signal
  build_signal charter run_date seat (some ticker) (some direction) (some confidence) =
      some (record {
        run_date = run_date;
        agent = seat;
        ticker = ticker;
        direction = direction;
        confidence = confidence;
        charter_version = charter;
      })
  build_signal charter run_date seat _ _ _ = none

  unfoldable pub valid_signal : (charter run_date seat : String) → Dict → Option Signal
  unfolding build_signal
  valid_signal charter run_date seat args =
      if has_keys ("ticker" ∷ "direction" ∷ "confidence" ∷ "summary" ∷ []) args
        && short_text (get args "summary")
      then build_signal charter run_date seat (str_of (get args "ticker"))
          (direction_of (get args "direction"))
          (at_most 100 (natural (p.lax_int (get args "confidence"))))
      else none

  unfoldable pub handle_submit_signal :
      (charter seat : String) → Dict → (run_date : String) → Time → Action Db Reply
  unfolding can valid_signal write_signal
  handle_submit_signal charter seat args run_date now db =
      if not (can seat "submit_signal")
      then (ok (refused "not granted"), db)
      else write_signal seat (valid_signal charter run_date seat args) now db

  unfoldable pub handle_submit_decision :
      (charter seat : String) → Dict → (run_date : String) → Time → Action Db Reply
  unfolding can valid_decision write_decision
  handle_submit_decision charter seat args run_date now db =
      if not (can seat "submit_decision")
      then (ok (refused "not granted"), db)
      else write_decision seat (valid_decision charter run_date args) now db
