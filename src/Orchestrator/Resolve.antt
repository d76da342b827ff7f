-- ===== src/Orchestrator/Resolve.antt =====
-- orchestrator/resolve.py: the outcomes of decisions whose horizon has passed. The source of closing
-- prices is a parameter, which may raise, and so is the arithmetic of floats.
pub mod Outcomes
pub mod Measured
pub mod Again
use fund.Python.Actions.{
  Result, Action, ok, err, pure, integrity_error, key_error, raise, ◌>>=◌, ◌>>◌,
}
use fund.Python.Floats.{Float, float_eq, float_le, is_finite, zero_float, is_nan}
use fund.Base.{
  Bool, List, Option, String, ℕ, if◌then◌else◌, none, order_by, some, ◌∷◌, [], any, false, not,
  str_eq, str_le, suc, ◌++◌, ◌==◌, is_empty, leb, ◌&&◌, ◌||◌, length, ltb, ◌+◌,
}
use fund.Gate.Risk.{Arith}
use fund.State.Rows.{Db, Decision, Order, Resolution, Ticket, Time}

abbrev pub benchmark : String
benchmark = "SPY"

-- A frame of closes: the ET dates of its index, its columns, and a column's price at a position. A
-- position is only read below the number of sessions.
pub record Frame : Type 0 where
  pub sessions : List String
  pub columns : List String
  pub close : String → ℕ → Float

-- A row of the query for what is due.
pub record Due : Type 0 where
  pub id : ℕ
  pub run_date : String
  pub ticker : String
  pub fill : Option Float

pub record Counts : Type 0 where
  pub resolved : ℕ
  pub skipped : ℕ
  pub pending : ℕ

abbrev pub no_counts : Counts
no_counts = record { resolved = 0; skipped = 0; pending = 0 }

-- float(v) of a float or of None.
abbrev pub finite_or_none : Option Float → Option Float
finite_or_none none = none
finite_or_none (some x) = if is_finite x then some x else none

abbrev pub is_zero : Float → Bool
is_zero x = float_eq x zero_float

-- `a or b` on floats that may be None.
abbrev pub or_else : Option Float → Option Float → Option Float
or_else none b = b
or_else (some x) b = if is_zero x then b else some x

-- LEFT JOIN orders: the prices of a ticket's orders with a fill.
abbrev pub prices_of : String → List Order → List (Option Float)
prices_of id [] = []
prices_of id (o ∷ os) =
    let rest = prices_of id os in
    if str_eq o.client_order_id id && ltb 0 o.filled_qty then o.filled_avg_price ∷ rest else rest

-- The one row of a left join that has no partner.
abbrev pub or_null : List (Option Float) → List (Option Float)
or_null [] = none ∷ []
or_null (p ∷ ps) = p ∷ ps

abbrev pub fills_of : ℕ → List Ticket → List Order → List (Option Float)
fills_of decision [] os = []
fills_of decision (t ∷ ts) os =
    let rest = fills_of decision ts os in
    if t.decision_id == decision then or_null (prices_of t.id os) ++ rest else rest

abbrev pub due_rows : Decision → List (Option Float) → List Due
due_rows d [] = []
due_rows d (p ∷ ps) =
    record { id = d.id; run_date = d.run_date; ticker = d.ticker; fill = p } ∷ due_rows d ps

abbrev pub is_resolved : List Resolution → ℕ → Bool
is_resolved rs id = any (λ (r : Resolution). r.decision_id == id) rs

abbrev pub join : List Ticket → List Order → List Resolution → List Decision → List Due
join ts os rs [] = []
join ts os rs (d ∷ ds) =
    let rest = join ts os rs ds in
    if is_resolved rs d.id then rest else due_rows d (or_null (fills_of d.id ts os)) ++ rest

-- ORDER BY run_date, id
abbrev pub by_day : Due → Due → Bool
by_day a b = if str_eq a.run_date b.run_date then leb a.id b.id else str_le a.run_date b.run_date

unfoldable pub due : Db → List Due
due db = order_by by_day (join db.tickets db.orders db.resolutions db.decisions)

abbrev pub after_first : Option ℕ → Option ℕ
after_first none = none
after_first (some i) = some (suc i)

abbrev pub index_of : String → List String → Option ℕ
index_of day [] = none
index_of day (s ∷ ss) = if str_eq s day then some 0 else after_first (index_of day ss)

-- sorted({ticker of each row} | {benchmark})
abbrev pub tickers_in : List Due → List String
tickers_in [] = benchmark ∷ []
tickers_in (row ∷ rows) =
    let rest = tickers_in rows in if any (str_eq row.ticker) rest then rest else row.ticker ∷ rest

abbrev pub tickers_of : List Due → List String
tickers_of rows = order_by str_le (tickers_in rows)

abbrev pub too_young : List String → String → ℕ → Bool
too_young sessions run_date horizon = elim (index_of run_date sessions) [
  | none ↦ false
  | some start ↦ leb (length sessions) (start + horizon)
]

-- What a row that is not resolved counts as.
abbrev pub absent : Bool → Counts → Counts
absent young n =
    if young then record n { pending = suc n.pending } else record n { skipped = suc n.skipped }

-- A nan is bound as NULL, which the column refuses, and a decision is resolved once.
unfoldable pub refuses : Db → ℕ → Float × Float → Bool
refuses db id (realized, alpha) = is_nan realized || is_nan alpha || is_resolved db.resolutions id

abbrev pub insert_resolution : Due → ℕ → Float × Float → Time → Action Db (Unit {0})
insert_resolution row horizon (realized, alpha) now db =
    if refuses db row.id (realized, alpha) then (err integrity_error, db) else (
      ok tt,
      record db {
        resolutions =
            db.resolutions
            ++ record {
              decision_id = row.id;
              horizon_days = horizon;
              realized_return = realized;
              alpha_vs_spy = alpha;
              invalidated = false;
              reflection = none;
              resolved_at = now;
            }
              ∷ [];
      },
    )

abbrev pub settle :
    Frame → Due → ℕ → Result (Option (Float × Float)) → Time → Counts → Action Db Counts
settle frame row horizon (err e) now n = raise e
settle frame row horizon (ok none) now n =
    pure (absent (too_young frame.sessions row.run_date horizon) n)
settle frame row horizon (ok (some outcome)) now n = do
  insert_resolution row horizon outcome now
  pure (record n { resolved = suc n.resolved })

module _ (arith_of : Arith) where
  -- The two figures from the four prices, if each of them can be used.
  abbrev pub figures : (entry exit spy_in spy_out : Option Float) → Option (Float × Float)
  figures (some entry) (some exit) (some spy_in) (some spy_out) =
      if float_le entry zero_float || float_le spy_in zero_float
      then none
      else some (
          let realized = arith_of.div (arith_of.sub exit entry) entry in
          (realized, arith_of.sub realized (arith_of.div (arith_of.sub spy_out spy_in) spy_in)))
  figures entry exit spy_in spy_out = none

  -- A column that the frame has not got raises.
  abbrev pub measure_at : Frame → Due → (start end : ℕ) → Result (Option (Float × Float))
  measure_at frame row start end =
      if not (any (str_eq benchmark) frame.columns)
      then err key_error
      else ok (
          figures
            (or_else (finite_or_none row.fill)
              (finite_or_none (some (frame.close row.ticker start))))
            (finite_or_none (some (frame.close row.ticker end)))
            (finite_or_none (some (frame.close benchmark start)))
            (finite_or_none (some (frame.close benchmark end))))

  abbrev measure_from : Frame → Due → ℕ → Option ℕ → Result (Option (Float × Float))
  measure_from frame row horizon none = ok none
  measure_from frame row horizon (some start) =
      if leb (length frame.sessions) (start + horizon)
      then ok none
      else measure_at frame row start (start + horizon)

  unfoldable pub measure : Frame → Due → ℕ → Result (Option (Float × Float))
  measure frame row horizon =
      if not (any (str_eq row.ticker) frame.columns)
      then ok none
      else measure_from frame row horizon (index_of row.run_date frame.sessions)

  unfoldable pub resolve_rows : Frame → List Due → ℕ → Time → Counts → Action Db Counts
  resolve_rows frame [] horizon now n = pure n
  resolve_rows frame (row ∷ rows) horizon now n = do
    n' ← settle frame row horizon (measure frame row horizon) now n
    resolve_rows frame rows horizon now n'

  abbrev pub resolve_with : Result Frame → List Due → ℕ → Time → Action Db Counts
  resolve_with (err e) rows horizon now = raise e
  resolve_with (ok frame) rows horizon now = resolve_rows frame rows horizon now no_counts

  -- `close_frame` is the source's port, asked for the tickers that are due and the benchmark.
  unfoldable pub resolve_due :
      (close_frame : List String → Result Frame) → (horizon : ℕ) → Time → Action Db Counts
  resolve_due close_frame horizon now db =
      let rows = due db in
      if is_empty rows
      then (ok no_counts, db)
      else resolve_with (close_frame (tickers_of rows)) rows horizon now db
