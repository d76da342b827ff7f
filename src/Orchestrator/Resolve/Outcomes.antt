-- ===== src/Orchestrator/Resolve/Outcomes.antt =====
-- What a run of the resolutions job leaves: how its counts add up, where its rows come from, and that
-- another run on the same prices adds nothing.
use fund.Python.Floats.{Float}
use fund.Python.Actions.{Result, err, ok, ◌>>=◌, >>=_err, >>=_ok, integrity_error, pure}
use fund.State.Rows.{Db, Resolution, Time}
use fund.Base.{
  List, ℕ, Bool, ◌+◌, ◌∷◌, All, ◌≡◌, All-imp, ◌⊎◌, [], inr, none, some, ◌++◌, length, arith, true,
  inl, false, ap, suc, sym, ◌∙◌, append-nil, append_assoc, Option, any-append_left, ◌==◌,
  any-append_last, ==_refl, refl, Bool-cases, subst,
}
use fund.Gate.Risk.{Arith}
use fund.Orchestrator.Resolve.{
  Counts, Due, Frame, measure, absent, is_resolved, resolve_rows, settle, too_young,
  insert_resolution, refuses,
}

abbrev pub Among : Due → List Due → Type 0
Among row [] = ⊥
Among row (r ∷ rows) = (row ≡ r) ⊎ Among row rows

abbrev pub total : Counts → ℕ
total n = n.resolved + n.skipped + n.pending

-- The INSERT of an outcome, in both of its ends.
module _ (frame : Frame) (row : Due) (horizon : ℕ) (o : Float × Float) (now : Time) where
  abbrev written : Resolution
  written = record {
    decision_id = row.id;
    horizon_days = horizon;
    realized_return = o.0;
    alpha_vs_spy = o.1;
    invalidated = false;
    reflection = none;
    resolved_at = now;
  }

  abbrev grown : Db → Db
  grown db = record db { resolutions = db.resolutions ++ written ∷ [] }

  module _ (n : Counts) (db : Db) where
    settle_refused :
        refuses db row.id o ≡ true
        → settle frame row horizon (ok (some o)) now n db ≡ (err integrity_error, db)
    settle_refused refused =
        >>=_err (insert_resolution row horizon o now)
          (λ _. pure (record n { resolved = suc n.resolved })) db (rw refused refl)

    settle_taken :
        refuses db row.id o ≡ false
        → settle frame row horizon (ok (some o)) now n db
          ≡ (ok (record n { resolved = suc n.resolved }), grown db)
    settle_taken taken =
        >>=_ok (insert_resolution row horizon o now)
          (λ _. pure (record n { resolved = suc n.resolved })) db {a = tt} {s' = grown db}
          (rw taken refl)

module _ (arith_of : Arith) (frame : Frame) (horizon : ℕ) where
  -- A row of the table that one of the due rows measures to.
  abbrev pub IsOutcome : List Due → Resolution → Type 0
  IsOutcome rows r =
      (row : Due) × Among row rows
      × (r.decision_id ≡ row.id)
      × (r.horizon_days ≡ horizon)
      × (measure arith_of frame row horizon ≡ ok (some (r.realized_return, r.alpha_vs_spy)))

  -- A due row that could not be measured, or is resolved by now.
  abbrev pub IsSettled : Db → Due → Type 0
  IsSettled db row =
      (measure arith_of frame row horizon ≡ ok none) ⊎ (is_resolved db.resolutions row.id ≡ true)

  abbrev pub Settled : List Due → Counts → Db → Result Counts × Db → Type 0
  Settled rows n db (err e, db') =
      (new : List Resolution) × (db' ≡ record db { resolutions = db.resolutions ++ new })
      × All (IsOutcome rows) new
  Settled rows n db (ok n', db') =
      (new : List Resolution) × (db' ≡ record db { resolutions = db.resolutions ++ new })
      × (n.resolved + length new ≡ n'.resolved)
      × (total n + length rows ≡ total n')
      × All (IsOutcome rows) new
      × All (IsSettled db') rows

  nothing_new :
      (rows : List Due) (db : Db)
      → (new : List Resolution) × (db ≡ record db { resolutions = db.resolutions ++ new })
        × All (IsOutcome rows) new
  nothing_new rows db =
      ([], ap (λ rs. record db { resolutions = rs }) (sym (append-nil db.resolutions)), tt)

  module _ (row : Due) (rows : List Due) where
    further : (new : List Resolution) → All (IsOutcome rows) new → All (IsOutcome (row ∷ rows)) new
    further new h =
        All-imp (IsOutcome rows) (IsOutcome (row ∷ rows)) new (λ r o. (o.0, inr o.1, o.2, o.3, o.4))
          h

    after_absent :
        (young : Bool) (n : Counts) (db : Db) (m : Result Counts × Db)
        → measure arith_of frame row horizon ≡ ok none
        → Settled rows (absent young n) db m
        → Settled (row ∷ rows) n db m
    after_absent young n db (err e, db') no_figures (new, same, from) =
        (new, same, further new from)
    after_absent true n db (ok n', db') no_figures (new, same, count, sum, from, rest) =
        (new, same, count, omega arith, further new from, (inl no_figures, rest))
    after_absent false n db (ok n', db') no_figures (new, same, count, sum, from, rest) =
        (new, same, count, omega arith, further new from, (inl no_figures, rest))

    after_resolved :
        (o : Float × Float) (now : Time) (n : Counts) (db : Db) (m : Result Counts × Db)
        → measure arith_of frame row horizon ≡ ok (some o)
        → Settled rows (record n { resolved = suc n.resolved }) (grown frame row horizon o now db) m
        → Settled (row ∷ rows) n db m
    after_resolved o now n db (err e, db') measured (new, same, from) = (
      written frame row horizon o now ∷ new,
      same
          ∙ ap (λ rs. record db { resolutions = rs })
              (append_assoc db.resolutions (written frame row horizon o now ∷ []) new),
      ((row, inl refl, refl, refl, measured), further new from),
    )
    after_resolved o now n db (ok n', db') measured (new, same, count, sum, from, rest) = (
      written frame row horizon o now ∷ new,
      same
          ∙ ap (λ rs. record db { resolutions = rs })
              (append_assoc db.resolutions (written frame row horizon o now ∷ []) new),
      omega arith,
      omega arith,
      ((row, inl refl, refl, refl, measured), further new from),
      (
        inr (
            rw (ap (λ (d : Db). d.resolutions) same) (
              any-append_left (λ (r : Resolution). r.decision_id == row.id)
                (db.resolutions ++ written frame row horizon o now ∷ []) new
                (any-append_last (λ (r : Resolution). r.decision_id == row.id) db.resolutions
                  (written frame row horizon o now) (==_refl row.id)))),
        rest,
      ),
    )

    -- One row, with what is known of the others from any point on.
    one_row :
        (m : Result (Option (Float × Float))) (now : Time) (n : Counts) (db : Db)
        → ((n1 : Counts) (db1 : Db)
            → Settled rows n1 db1 (resolve_rows arith_of frame rows horizon now n1 db1))
        → measure arith_of frame row horizon ≡ m
        → Settled
            (row ∷ rows)
            n
            db
            ((settle frame row horizon m now n >>= resolve_rows arith_of frame rows horizon now) db)
    one_row (err e) now n db others em = nothing_new (row ∷ rows) db
    one_row (ok none) now n db others em =
        after_absent (too_young frame.sessions row.run_date horizon) n db _ em (others _ db)
    one_row (ok (some (x, y))) now n db others em = elim (Bool-cases (refuses db row.id (x, y))) [
      | inl refused ↦
          subst (Settled (row ∷ rows) n db)
            (sym (
              >>=_err (settle frame row horizon (ok (some (x, y))) now n)
                (resolve_rows arith_of frame rows horizon now) db {e = integrity_error} {s' = db}
                (settle_refused frame row horizon (x, y) now n db refused)))
            (nothing_new (row ∷ rows) db)
      | inr taken ↦
          subst (Settled (row ∷ rows) n db)
            (sym (
              >>=_ok (settle frame row horizon (ok (some (x, y))) now n)
                (resolve_rows arith_of frame rows horizon now) db
                {a = record n { resolved = suc n.resolved }}
                {s' = grown frame row horizon (x, y) now db}
                (settle_taken frame row horizon (x, y) now n db taken)))
            (after_resolved (x, y) now n db _ em (others _ (grown frame row horizon (x, y) now db)))
    ]

  pub resolve_rows-Settled :
      (rows : List Due) (now : Time) (n : Counts) (db : Db)
      → Settled rows n db (resolve_rows arith_of frame rows horizon now n db)
  unfolding resolve_rows
  resolve_rows-Settled [] now n db = (
    [],
    ap (λ rs. record db { resolutions = rs }) (sym (append-nil db.resolutions)),
    omega arith,
    omega arith,
    tt,
    tt,
  )
  resolve_rows-Settled (row ∷ rows) now n db =
      one_row row rows (measure arith_of frame row horizon) now n db
        (λ n1 db1. resolve_rows-Settled rows now n1 db1) refl
