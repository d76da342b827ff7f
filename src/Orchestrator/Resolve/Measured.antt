-- ===== src/Orchestrator/Resolve/Measured.antt =====
-- The resolutions job as a whole: what its run writes and counts.
use fund.Python.Actions.{ok, Result, err}
use fund.Orchestrator.Resolve.Outcomes.{Among, IsOutcome, Settled, total, resolve_rows-Settled}
use fund.State.Rows.{Resolution, Db, Time}
use fund.Orchestrator.Resolve.{
  Frame, figures, finite_or_none, Due, index_of, benchmark, measure, measure_at, or_else, is_zero,
  resolve_due, Counts, due, no_counts, tickers_of, resolve_with,
}
use fund.Base.{
  Option, ℕ, ◌≡◌, List, some, true, Bool-cases, inl, ap, false, inr, ◌||◌, arith, none, ◌+◌, ◌<◌,
  length, ◌⊎◌, or_left, or_right, any, sym, refl, str_eq, Option-cases, leb, ◌∙◌, All, String, ◌++◌,
  All-imp, [], append-nil, is_empty, ◌∷◌,
}
use fund.Python.Floats.{Float, is_finite, float_le, float_lt, zero_float, finite, nan, inf, neg_inf}
use fund.Gate.Risk.{Arith}

abbrev pub Prices : Arith → (entry exit spy_in spy_out : Float) → Float × Float → Type 0
Prices arith_of entry exit spy_in spy_out figures_of =
    (is_finite entry ≡ true)
    × (float_lt zero_float entry ≡ true)
    × (is_finite exit ≡ true)
    × (is_finite spy_in ≡ true)
    × (float_lt zero_float spy_in ≡ true)
    × (is_finite spy_out ≡ true)
    × (figures_of.0 ≡ arith_of.div (arith_of.sub exit entry) entry)
    × (figures_of.1 ≡ arith_of.sub figures_of.0 (arith_of.div (arith_of.sub spy_out spy_in) spy_in))

-- A resolution of a due row: the day it was decided is a session, the horizon is as many sessions
-- later, the four prices are finite with positive bases, and the figures are their returns. The
-- entry is the fill, or the close of the day.
abbrev pub IsMeasured : Arith → Frame → ℕ → List Due → Resolution → Type 0
IsMeasured arith_of frame horizon rows r =
    (row : Due) × Among row rows
    × (r.decision_id ≡ row.id)
    × (start : ℕ) × (index_of row.run_date frame.sessions ≡ some start)
    × (start + horizon < length frame.sessions)
    × (entry : Float) × ((row.fill ≡ some entry) ⊎ (frame.close row.ticker start ≡ entry))
    × Prices arith_of entry (frame.close row.ticker (start + horizon)) (frame.close benchmark start)
        (frame.close benchmark (start + horizon)) (r.realized_return, r.alpha_vs_spy)

pub is_empty-eq : (rows : List Due) → is_empty rows ≡ true → rows ≡ []
is_empty-eq [] h = refl
is_empty-eq (row ∷ rows) h = cc

finite_or_none-eq :
    (o : Option Float) (x : Float) → finite_or_none o ≡ some x → (o ≡ some x) × (is_finite x ≡ true)
finite_or_none-eq none x h = cc
finite_or_none-eq (some y) x h = elim (Bool-cases (is_finite y)) [
  | inl good ↦ let same : y ≡ x = cc (rw good at h) in (ap some same, rw (← same) good)
  | inr bad ↦ cc (rw bad at h)
]

priced : (c x : Float) → finite_or_none (some c) ≡ some x → (c ≡ x) × (is_finite x ≡ true)
priced c x h = let (same, good) = finite_or_none-eq (some c) x h in (cc, good)

entry_from :
    (fill : Option Float) (c e : Float)
    → or_else (finite_or_none fill) (finite_or_none (some c)) ≡ some e
    → ((fill ≡ some e) ⊎ (c ≡ e)) × (is_finite e ≡ true)
entry_from fill c e h = elim (Option-cases (finite_or_none fill)) [
  | inl missing ↦ let (same, good) = priced c e (rw (missing, or_else) at h) in (inr same, good)
  | inr (y, found) ↦ elim (Bool-cases (is_zero y)) [
    | inl zero_fill ↦
        let (same, good) = priced c e (rw (found, zero_fill, or_else) at h) in (inr same, good)
    | inr real ↦
        let same : some y ≡ some e = rw (found, real, or_else) at h in
        let (is_fill, good) = finite_or_none-eq fill e (found ∙ same) in (inl is_fill, good)
  ]
]

positive :
    (x : Float) → is_finite x ≡ true → float_le x zero_float ≡ false → float_lt zero_float x ≡ true
positive (finite k) h p = ground arith
positive nan h p = cc
positive inf h p = cc
positive neg_inf h p = cc

module _ (arith_of : Arith) where
  figures-Prices :
      (entry exit spy_in spy_out : Option Float) (o : Float × Float)
      → figures arith_of entry exit spy_in spy_out ≡ some o
      → (e x i u : Float) × (entry ≡ some e)
        × (exit ≡ some x)
        × (spy_in ≡ some i)
        × (spy_out ≡ some u)
        × (float_le e zero_float ≡ false)
        × (float_le i zero_float ≡ false)
        × (o.0 ≡ arith_of.div (arith_of.sub x e) e)
        × (o.1 ≡ arith_of.sub o.0 (arith_of.div (arith_of.sub u i) i))
  figures-Prices (some e) (some x) (some i) (some u) o h =
      elim (Bool-cases (float_le e zero_float || float_le i zero_float)) [
        | inl bad ↦ cc (rw bad at h)
        | inr good ↦
            let same : (
              arith_of.div (arith_of.sub x e) e,
              arith_of.sub (arith_of.div (arith_of.sub x e) e) (arith_of.div (arith_of.sub u i) i),
            )
                ≡ o =
              cc (rw good at h) in
            (
              e,
              x,
              i,
              u,
              refl,
              refl,
              refl,
              refl,
              or_left (float_le e zero_float) (float_le i zero_float) good,
              or_right (float_le e zero_float) (float_le i zero_float) good,
              ap (λ (p : Float × Float). p.0) (sym same),
              rw (← same) refl,
            )
      ]
  figures-Prices none exit spy_in spy_out o h = cc
  figures-Prices (some e) none spy_in spy_out o h = cc
  figures-Prices (some e) (some x) none spy_out o h = cc
  figures-Prices (some e) (some x) (some i) none o h = cc

  priced-Prices :
      (e x i u exit spy_in spy_out : Float) (o : Float × Float)
      → exit ≡ x
      → spy_in ≡ i
      → spy_out ≡ u
      → Prices arith_of e x i u o
      → Prices arith_of e exit spy_in spy_out o
  priced-Prices e x i u exit spy_in spy_out o hx hi hu p = rw (hx, hi, hu) p

  -- The figures of a row, at the place of its day among the sessions.
  measure_at-Prices :
      (frame : Frame) (row : Due) (start end : ℕ) (o : Float × Float)
      → measure_at arith_of frame row start end ≡ ok (some o)
      → (entry : Float) × ((row.fill ≡ some entry) ⊎ (frame.close row.ticker start ≡ entry))
        × Prices arith_of entry
            (frame.close row.ticker end)
            (frame.close benchmark start)
            (frame.close benchmark end)
            o
  measure_at-Prices frame row start end o h =
      elim (Bool-cases (any (str_eq benchmark) frame.columns)) [
        | inr missing ↦ cc (rw missing at h)
        | inl listed ↦
            let (e, x, i, u, he, hx, hi, hu, le_e, le_i, first, second) =
              figures-Prices
                (or_else (finite_or_none row.fill)
                  (finite_or_none (some (frame.close row.ticker start))))
                (finite_or_none (some (frame.close row.ticker end)))
                (finite_or_none (some (frame.close benchmark start)))
                (finite_or_none (some (frame.close benchmark end))) o (cc (rw listed at h)) in
            let (source, good) = entry_from row.fill (frame.close row.ticker start) e he in
            let (same_x, good_x) = priced (frame.close row.ticker end) x hx in
            let (same_i, good_i) = priced (frame.close benchmark start) i hi in
            let (same_u, good_u) = priced (frame.close benchmark end) u hu in
            (
              e,
              source,
              priced-Prices e x i u _ _ _ o same_x same_i same_u (
                good,
                positive e good le_e,
                good_x,
                good_i,
                positive i good_i le_i,
                good_u,
                first,
                second,
              ),
            )
      ]

  measure-IsMeasured :
      (frame : Frame) (row : Due) (horizon : ℕ) (o : Float × Float)
      → measure arith_of frame row horizon ≡ ok (some o)
      → (start : ℕ) × (index_of row.run_date frame.sessions ≡ some start)
        × (start + horizon < length frame.sessions)
        × (measure_at arith_of frame row start (start + horizon) ≡ ok (some o))
  unfolding measure
  measure-IsMeasured frame row horizon o h =
      elim (Bool-cases (any (str_eq row.ticker) frame.columns)) [
        | inr unknown ↦ cc (rw unknown at h)
        | inl known ↦ elim (Option-cases (index_of row.run_date frame.sessions)) [
          | inl closed ↦ cc (rw (known, closed) at h)
          | inr (start, is_open) ↦
              elim (Bool-cases (leb (length frame.sessions) (start + horizon))) [
                | inl young ↦ cc (rw (known, is_open, young) at h)
                | inr old ↦ (start, is_open, ground arith, rw (known, is_open, old) at h)
              ]
        ]
      ]

  -- What the new rows come from: the frame, if there is one.
  abbrev pub FromFrame : Result Frame → ℕ → List Due → List Resolution → Type 0
  FromFrame (err e) horizon rows new = new ≡ []
  FromFrame (ok frame) horizon rows new = All (IsMeasured arith_of frame horizon rows) new

  abbrev pub Accounts : Result Frame → ℕ → Db → Result Counts × Db → Type 0
  Accounts answer horizon db (ok n, db') =
      (new : List Resolution) × (db' ≡ record db { resolutions = db.resolutions ++ new })
      × (length new ≡ n.resolved)
      × (length (due db) ≡ total n)
      × FromFrame answer horizon (due db) new
  Accounts answer horizon db (err e, db') =
      (new : List Resolution) × (db' ≡ record db { resolutions = db.resolutions ++ new })
      × FromFrame answer horizon (due db) new

  nothing : (db : Db) → db ≡ record db { resolutions = db.resolutions ++ [] }
  nothing db = ap (λ rs. record db { resolutions = rs }) (sym (append-nil db.resolutions))

  All-IsMeasured :
      (frame : Frame) (horizon : ℕ) (rows : List Due) (new : List Resolution)
      → All (IsOutcome arith_of frame horizon rows) new
      → All (IsMeasured arith_of frame horizon rows) new
  All-IsMeasured frame horizon rows new h =
      All-imp (IsOutcome arith_of frame horizon rows) (IsMeasured arith_of frame horizon rows) new
        (λ r o.
          let (row, among, of_row, same_horizon, figures_of) = o in
          let (start, is_open, old, at) =
            measure-IsMeasured frame row horizon (r.realized_return, r.alpha_vs_spy) figures_of in
          let (entry, source, prices) =
            measure_at-Prices frame row start (start + horizon) (r.realized_return, r.alpha_vs_spy)
              at in
          (row, among, of_row, start, is_open, old, entry, source, prices))
        h

  Settled-Accounts :
      (frame : Frame) (horizon : ℕ) (db : Db) (m : Result Counts × Db)
      → Settled arith_of frame horizon (due db) no_counts db m
      → Accounts (ok frame) horizon db m
  Settled-Accounts frame horizon db (err e, db') (new, same, from) =
      (new, same, All-IsMeasured frame horizon (due db) new from)
  Settled-Accounts frame horizon db (ok n, db') (new, same, count, sum, from, rest) =
      (new, same, omega arith, omega arith, All-IsMeasured frame horizon (due db) new from)

  answered-Accounts :
      (answer : Result Frame) (horizon : ℕ) (now : Time) (db : Db)
      → Accounts answer horizon db (resolve_with arith_of answer (due db) horizon now db)
  answered-Accounts (err e) horizon now db = ([], nothing db, refl)
  answered-Accounts (ok frame) horizon now db =
      Settled-Accounts frame horizon db _
        (resolve_rows-Settled arith_of frame horizon (due db) now no_counts db)

  nothing_due :
      (answer : Result Frame) (horizon : ℕ) (db : Db)
      → is_empty (due db) ≡ true
      → Accounts answer horizon db (ok no_counts, db)
  nothing_due (err e) horizon db none_due =
      ([], nothing db, refl, ap length (is_empty-eq (due db) none_due), refl)
  nothing_due (ok frame) horizon db none_due =
      ([], nothing db, refl, ap length (is_empty-eq (due db) none_due), tt)

  -- A run of the resolutions job that returns has counted every due row once, as resolved, skipped or
  -- pending. Whether it returns or raises, it only adds rows, as many as it counts as resolved, and each
  -- of them is measured: on the horizon's two sessions, at finite prices with positive bases.
  pub resolve_due-Accounts :
      (close_frame : List String → Result Frame) (horizon : ℕ) (now : Time) (db : Db)
      → Accounts
          (close_frame (tickers_of (due db)))
          horizon
          db
          (resolve_due arith_of close_frame horizon now db)
  unfolding resolve_due
  resolve_due-Accounts close_frame horizon now db = elim (Bool-cases (is_empty (due db))) [
    | inl none_due ↦
        rw none_due (nothing_due (close_frame (tickers_of (due db))) horizon db none_due)
    | inr some_due ↦
        rw some_due (answered-Accounts (close_frame (tickers_of (due db))) horizon now db)
  ]
