-- ===== src/Orchestrator/Pnl.antt =====
-- orchestrator/pnl.py: the day's profit and loss against the benchmark, or no number at all. The
-- broker's account, the frame of closes and the arithmetic of floats are parameters; the wording of the
-- post is not modelled.
use fund.Orchestrator.Protection.Cover.{raises_overflow}
use fund.Orchestrator.Ingest.{float_of}
use fund.Gate.Risk.{Arith}
use fund.Orchestrator.Resolve.{Frame, finite_or_none, benchmark}
use fund.Python.Actions.{Result, err, ok, overflow_error, pnl_unavailable}
use fund.Python.Floats.{Float, float_le, zero_float}
use fund.Base.{
  List, Option, String, ℕ, ◌∷◌, [], if◌then◌else◌, some, not, any, str_eq, ◌||◌, ltb, length, ◌-◌,
}
use fund.Python.Values.{Conversions, Dict, get, Value}

pub record Pnl : Type 0 where
  pub run_date : String
  pub equity : Float
  pub pnl_usd : Float
  pub pnl_pct : Float
  pub spy_pct : Float
  pub alpha : Float

pub record Closes : Type 0 where
  pub prev : Float
  pub last : Float
  pub bar_date : String

-- frame.index[-1], of an index that is not empty.
abbrev pub last_of : List String → String
last_of [] = ""
last_of (s ∷ []) = s
last_of (s ∷ t ∷ ss) = last_of (t ∷ ss)

abbrev pub usable_closes : (prev last : Option Float) → String → Result Closes
usable_closes (some prev) (some last) bar_date =
    if float_le prev zero_float
    then err pnl_unavailable
    else ok (record { prev = prev; last = last; bar_date = bar_date })
usable_closes prev last bar_date = err pnl_unavailable

abbrev pub close_at : Frame → ℕ → Option Float
close_at frame i = finite_or_none (some (frame.close benchmark i))

unfoldable pub spy_closes : Result Frame → Result Closes
spy_closes (err e) = err e
spy_closes (ok frame) =
    if not (any (str_eq benchmark) frame.columns) || ltb (length frame.sessions) 2
    then err pnl_unavailable
    else usable_closes (close_at frame (length frame.sessions - 2))
        (close_at frame (length frame.sessions - 1)) (last_of frame.sessions)

module _ (conv : Conversions) (arith_of : Arith) where
  -- float(v), or None; an int that is too large for a float raises.
  unfoldable pub finite_of : Value → Result (Option Float)
  unfolding float_of raises_overflow
  finite_of v =
      if raises_overflow conv v then err overflow_error else ok (finite_or_none (float_of conv v))

  abbrev pub compare_to :
      (run_date : String) → (equity last_equity : Float) → Result Closes → Result Pnl
  compare_to run_date equity last_equity (err e) = err e
  compare_to run_date equity last_equity (ok spy) =
      if not (str_eq spy.bar_date run_date)
      then err pnl_unavailable
      else ok (
          let pnl_pct = arith_of.div (arith_of.sub equity last_equity) last_equity in
          let spy_pct = arith_of.div (arith_of.sub spy.last spy.prev) spy.prev in
          record {
            run_date = run_date;
            equity = equity;
            pnl_usd = arith_of.sub equity last_equity;
            pnl_pct = pnl_pct;
            spy_pct = spy_pct;
            alpha = arith_of.sub pnl_pct spy_pct;
          })

  abbrev pub from_equity :
      (run_date : String) → (equity last_equity : Result (Option Float)) → Result Frame → Result Pnl
  from_equity run_date (err e) last_equity frame = err e
  from_equity run_date (ok equity) (err e) frame = err e
  from_equity run_date (ok (some equity)) (ok (some last_equity)) frame =
      if float_le last_equity zero_float
      then err pnl_unavailable
      else compare_to run_date equity last_equity (spy_closes frame)
  from_equity run_date (ok equity) (ok last_equity) frame = err pnl_unavailable

  unfoldable pub eod_pnl :
      (run_date : String) → (account : Result Dict) → (frame : Result Frame) → Result Pnl
  unfolding finite_of spy_closes
  eod_pnl run_date (err e) frame = err e
  eod_pnl run_date (ok account) frame =
      from_equity run_date (finite_of (get account "equity"))
        (finite_of (get account "last_equity")) frame
