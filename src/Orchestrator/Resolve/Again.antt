-- ===== src/Orchestrator/Resolve/Again.antt =====
-- A second run of the resolutions job on the same prices adds nothing.
use fund.Orchestrator.Resolve.Measured.{is_empty-eq}
use fund.Orchestrator.Resolve.Outcomes.{IsSettled, Settled, resolve_rows-Settled}
use fund.Python.Actions.{ok, Result}
use fund.Python.Floats.{Float}
use fund.State.Rows.{Decision, Ticket, Order, Db, Resolution, Time}
use fund.Base.{
  ℕ, List, Option, ◌≡◌, none, ◌++◌, All, false, inl, ◌∷◌, Bool-cases, inr, All-append_inv, [], Bool,
  any-append_left, ◌==◌, All-append, true, refl, ◌∙◌, is_empty, ap, subst, sym, All-order_by,
  All-order_by_inv,
}
use fund.Orchestrator.Resolve.{
  Frame, Due, measure, is_resolved, due_rows, join, or_null, fills_of, resolve_rows, Counts, absent,
  resolve_due, too_young, due, no_counts, by_day,
}
use fund.Gate.Risk.{Arith}

absent-resolved : (young : Bool) (n : Counts) → (absent young n).resolved ≡ n.resolved
absent-resolved true n = refl
absent-resolved false n = refl

module _ (arith_of : Arith) (frame : Frame) (horizon : ℕ) where
  abbrev Unmeasured : Due → Type 0
  Unmeasured row = measure arith_of frame row horizon ≡ ok none

  -- Of a decision that is not resolved now, each row was not measured.
  rows-Unmeasured :
      (d : Decision) (ps : List (Option Float)) (db : Db)
      → is_resolved db.resolutions d.id ≡ false
      → All (IsSettled arith_of frame horizon db) (due_rows d ps)
      → All Unmeasured (due_rows d ps)
  rows-Unmeasured d [] db open_still h = tt
  rows-Unmeasured d (p ∷ ps) db open_still (inl no_figures, h) =
      (no_figures, rows-Unmeasured d ps db open_still h)
  rows-Unmeasured d (p ∷ ps) db open_still (inr resolved, h) = cc

  join-Unmeasured :
      (ts : List Ticket) (os : List Order) (rs new : List Resolution) (ds : List Decision) (db : Db)
      → db.resolutions ≡ rs ++ new
      → All (IsSettled arith_of frame horizon db) (join ts os rs ds)
      → All Unmeasured (join ts os (rs ++ new) ds)
  join-Unmeasured ts os rs new [] db same h = tt
  join-Unmeasured ts os rs new (d ∷ ds) db same h =
      elim (Bool-cases (is_resolved (rs ++ new) d.id)) [
        | inl closed ↦
            rw (closed, All)
              (elim (Bool-cases (is_resolved rs d.id)) [
                | inl before ↦ join-Unmeasured ts os rs new ds db same (rw (before, All) at h)
                | inr lately ↦
                    join-Unmeasured ts os rs new ds db same
                      (All-append_inv (IsSettled arith_of frame horizon db)
                        (due_rows d (or_null (fills_of d.id ts os))) (join ts os rs ds)
                        (rw (lately, All) at h)).1
              ])
        | inr still ↦ elim (Bool-cases (is_resolved rs d.id)) [
          | inl before ↦
              cc (any-append_left (λ (r : Resolution). r.decision_id == d.id) rs new before)
          | inr open_then ↦
              let (these, others) =
                All-append_inv (IsSettled arith_of frame horizon db)
                  (due_rows d (or_null (fills_of d.id ts os))) (join ts os rs ds)
                  (rw (open_then, All) at h) in
              rw (still, All)
                (All-append Unmeasured (due_rows d (or_null (fills_of d.id ts os)))
                  (join ts os (rs ++ new) ds)
                  (rows-Unmeasured d (or_null (fills_of d.id ts os)) db (rw same still) these)
                  (join-Unmeasured ts os rs new ds db same others))
        ]
      ]

  resolve-Unmeasured :
      (rows : List Due) (now : Time) (n : Counts) (db : Db)
      → All Unmeasured rows
      → (n' : Counts) × (resolve_rows arith_of frame rows horizon now n db ≡ (ok n', db))
        × (n'.resolved ≡ n.resolved)
  unfolding resolve_rows
  resolve-Unmeasured [] now n db h = (n, refl, refl)
  resolve-Unmeasured (row ∷ rows) now n db (no_figures, h) =
      let n1 = absent (too_young frame.sessions row.run_date horizon) n in
      let (n', ran, count) = resolve-Unmeasured rows now n1 db h in
      (
        n',
        rw no_figures ran,
        count ∙ absent-resolved (too_young frame.sessions row.run_date horizon) n,
      )

  ran-Unmeasured :
      (now : Time) (db db1 : Db) (n : Counts)
      → Settled arith_of frame horizon (due db) no_counts db (ok n, db1)
      → All Unmeasured (due db1)
  unfolding due
  ran-Unmeasured now db db1 n (new, same, count, sum, from, settled) =
      subst (λ (d : Db). All Unmeasured (due d)) (sym same)
        (All-order_by Unmeasured by_day
          (join db.tickets db.orders (db.resolutions ++ new) db.decisions)
          (join-Unmeasured db.tickets db.orders db.resolutions new db.decisions db1
            (ap (λ (d : Db). d.resolutions) same)
            (All-order_by_inv (IsSettled arith_of frame horizon db1) by_day
              (join db.tickets db.orders db.resolutions db.decisions) settled)))

  left_over :
      (now : Time) (db db1 : Db) (n : Counts)
      → resolve_due arith_of (λ _. ok frame) horizon now db ≡ (ok n, db1)
      → All Unmeasured (due db1)
  unfolding resolve_due
  left_over now db db1 n ran = elim (Bool-cases (is_empty (due db))) [
    | inl none_due ↦
        let same : db ≡ db1 = ap (λ (m : Result Counts × Db). m.1) (rw none_due at ran) in
        subst (λ (rows : List Due). All Unmeasured rows)
          (sym (is_empty-eq (due db) none_due) ∙ ap due same) tt
    | inr some_due ↦ ran-Unmeasured now db db1 n (
        subst (Settled arith_of frame horizon (due db) no_counts db) (rw some_due at ran)
          (resolve_rows-Settled arith_of frame horizon (due db) now no_counts db))
  ]

  -- A run of the job that has returned, followed by another at any later time on the same prices: the
  -- second one returns, resolves nothing and changes nothing.
  pub resolve_due_twice :
      (now later : Time) (db db1 : Db) (n : Counts)
      → resolve_due arith_of (λ _. ok frame) horizon now db ≡ (ok n, db1)
      → (n1 : Counts) × (resolve_due arith_of (λ _. ok frame) horizon later db1 ≡ (ok n1, db1))
        × (n1.resolved ≡ 0)
  unfolding resolve_due
  resolve_due_twice now later db db1 n ran = elim (Bool-cases (is_empty (due db1))) [
    | inl none_due ↦ (no_counts, rw none_due refl, refl)
    | inr some_due ↦
        let (n1, again, count) =
          resolve-Unmeasured (due db1) later no_counts db1 (left_over now db db1 n ran) in
        (n1, rw some_due again, count)
  ]
