-- ===== src/Orchestrator/Dispatch/Sweeps.antt =====
-- What the sweep leaves on the worklist.
use fund.Orchestrator.Dispatch.Covered.{
  IsCovered, closed, closed-IsCovered, aged-IsCovered, none_waits, for_each-ok,
}
use fund.State.Worklist.{older}
use fund.State.Transition.{◌=ₛ◌}
use fund.Python.Actions.{ok, Action, Result, pure, ◌>>=◌, err}
use fund.Orchestrator.Dispatch.{
  lapse, reap, sweep_due, sweep_leases, for_each, over_lease, past_due, SweepResult, sweep,
}
use fund.State.Rows.{Status, Work, Time, Db, claimed, opened, expired, failed}
use fund.Base.{
  [], some, true, false, inl, inr, Bool-cases, refl, Bool, List, String, ◌≡◌, str_eq, ◌&&◌, arith,
  All, ◌∷◌, order_by, select, and_left, ◌++◌, count_where, ◌==◌,
}

worklist-reap :
    (now : Time) (r : Work) (db : Db)
    → (reap now r db).1.worklist ≡ closed claimed failed now r db.worklist
unfolding reap
worklist-reap now r db = ground arith

worklist-lapse :
    (now : Time) (r : Work) (db : Db)
    → (lapse now r db).1.worklist ≡ closed opened expired now r db.worklist
unfolding lapse
worklist-lapse now r db = ground arith

abbrev hits : Status → Work → List Work → Bool
hits from r ws = count_where (λ (w : Work). str_eq w.work_id r.work_id && w.status =ₛ from) ws == 1

reap-ok : (now : Time) (r : Work) (db : Db) → (ids : List String) × ((reap now r db).0 ≡ ok ids)
unfolding reap
reap-ok now r db = elim (Bool-cases (hits claimed r db.worklist)) [
  | inl one ↦ rw one (r.work_id ∷ [], refl)
  | inr other ↦ rw other ([], refl)
]

lapse-ok : (now : Time) (r : Work) (db : Db) → (ids : List String) × ((lapse now r db).0 ≡ ok ids)
unfolding lapse
lapse-ok now r db = elim (Bool-cases (hits opened r db.worklist)) [
  | inl one ↦ rw one (r.work_id ∷ [], refl)
  | inr other ↦ rw other ([], refl)
]

-- What a loop over rows does to the store, when no round of it raises.
store-after :
    (body : Work → Action Db (List String)) (r : Work) (rows : List Work)
    (m : Result (List String) × Db) (ids : List String)
    → m.0 ≡ ok ids
    → (((λ (_ : Db). m) >>= λ ids. for_each body rows >>= λ rest. pure (ids ++ rest)) m.1).1
      ≡ (for_each body rows m.1).1
store-after body r rows (err e, db) ids h = cc
store-after body r rows (ok xs, db) ids h = rest-after xs (for_each body rows db)
  where
    rest-after :
        (xs : List String) (n : Result (List String) × Db)
        → (((λ (_ : Db). n) >>= λ rest. pure (xs ++ rest)) n.1).1 ≡ n.1
    rest-after xs (ok ys, db) = refl
    rest-after xs (err e, db) = refl

module _ (p : Work → Bool) (from to : Status) (now : Time) (body : Work → Action Db (List String))
    (never_raises : (r : Work) (db : Db) → (ids : List String) × ((body r db).0 ≡ ok ids))
    (closes : (r : Work) (db : Db)
      → (body r db).1.worklist ≡ closed from to now r db.worklist) where
  for_each-IsCovered :
      (rows : List Work) (db : Db)
      → ((w : Work) → p w ≡ true → (w.status =ₛ from) ≡ true)
      → ((w : Work) → p (record w { status = to; finished_at = some now }) ≡ false)
      → All (IsCovered p rows) db.worklist
      → All (IsCovered p []) (for_each body rows db).1.worklist
  unfolding for_each
  for_each-IsCovered [] db starts ends h = h
  for_each-IsCovered (r ∷ rows) db starts ends h =
      let k = never_raises r db in
      rw (store-after body r rows (body r db) k.0 k.1) (
        for_each-IsCovered rows (body r db).1 starts ends
          (rw (closes r db) (closed-IsCovered p from to now r rows db.worklist starts ends h)))

  -- A property of rows that the CAS cannot break is kept.
  for_each-keeps :
      (q : Work → Bool) (rows : List Work) (db : Db)
      → ((w : Work) → q (record w { status = to; finished_at = some now }) ≡ false)
      → All (λ w. q w ≡ false) db.worklist
      → All (λ w. q w ≡ false) (for_each body rows db).1.worklist
  unfolding for_each
  for_each-keeps q [] db kept h = h
  for_each-keeps q (r ∷ rows) db kept h =
      let k = never_raises r db in
      rw (store-after body r rows (body r db) k.0 k.1) (
        for_each-keeps q rows (body r db).1 kept
          (rw (closes r db) (closed-keeps q r db.worklist kept h)))
    where
      closed-keeps :
          (q : Work → Bool) (r : Work) (ws : List Work)
          → ((w : Work) → q (record w { status = to; finished_at = some now }) ≡ false)
          → All (λ w. q w ≡ false) ws
          → All (λ w. q w ≡ false) (closed from to now r ws)
      closed-keeps q r [] kept h = tt
      closed-keeps q r (w ∷ ws) kept h = (
        elim (Bool-cases (str_eq w.work_id r.work_id && w.status =ₛ from)) [
          | inl hit ↦ rw hit (kept w)
          | inr miss ↦ rw miss h.0
        ],
        closed-keeps q r ws kept h.1,
      )

-- The sweep of the overdue leases leaves no claimed row whose lease is over.
sweep_leases-clears :
    (now : Time) (db : Db) → All (λ w. over_lease now w ≡ false) (sweep_leases now db).1.worklist
unfolding sweep_leases
sweep_leases-clears now db = none_waits (over_lease now) _ (
    for_each-IsCovered (over_lease now) claimed failed now (reap now) (reap-ok now)
      (worklist-reap now) (order_by older (select (over_lease now) db.worklist)) db
      (λ w h. and_left _ _ h) (λ w. refl) (aged-IsCovered (over_lease now) db.worklist))

sweep_due-clears :
    (now : Time) (db : Db) → All (λ w. past_due now w ≡ false) (sweep_due now db).1.worklist
unfolding sweep_due
sweep_due-clears now db = none_waits (past_due now) _ (
    for_each-IsCovered (past_due now) opened expired now (lapse now) (lapse-ok now)
      (worklist-lapse now) (order_by older (select (past_due now) db.worklist)) db
      (λ w h. and_left _ _ h) (λ w. refl) (aged-IsCovered (past_due now) db.worklist))

sweep_due-keeps :
    (now : Time) (db : Db)
    → All (λ w. over_lease now w ≡ false) db.worklist
    → All (λ w. over_lease now w ≡ false) (sweep_due now db).1.worklist
unfolding sweep_due
sweep_due-keeps now db h =
    for_each-keeps (past_due now) opened expired now (lapse now) (lapse-ok now) (worklist-lapse now)
      (over_lease now) (order_by older (select (past_due now) db.worklist)) db (λ w. refl) h

abbrev swept : List String → List String → SweepResult
swept reaped lapsed = record { reaped = reaped; expired_ids = lapsed }

-- Both passes of the sweep run.
sweep-both :
    (now : Time) (db : Db) (m : Result (List String) × Db) (ids : List String)
    → m.0 ≡ ok ids
    → (n : Result (List String) × Db) (jds : List String) → n.0 ≡ ok jds
    → (((λ (_ : Db). m) >>= λ reaped. (λ (_ : Db). n) >>= λ lapsed. pure (swept reaped lapsed))
        db).1
      ≡ n.1
sweep-both now db (err e, db1) ids h n jds k = cc
sweep-both now db (ok xs, db1) ids h (err e, db2) jds k = cc
sweep-both now db (ok xs, db1) ids h (ok ys, db2) jds k = refl

sweep-store : (now : Time) (db : Db) → (sweep now db).1 ≡ (sweep_due now (sweep_leases now db).1).1
unfolding sweep
sweep-store now db =
    let one =
      for_each-ok (reap now) (order_by older (select (over_lease now) db.worklist)) db
        (reap-ok now) in
    let db1 = (sweep_leases now db).1 in
    let two =
      for_each-ok (lapse now) (order_by older (select (past_due now) db1.worklist)) db1
        (lapse-ok now) in
    sweep-both now db (sweep_leases now db) one.0 (unfold sweep_leases in one.1) (sweep_due now db1)
      two.0 (unfold sweep_due in two.1)

-- After a sweep no claimed row has a lease that is over and no open row is past its expiry, whatever
-- the worklist was.
pub sweep-clears :
    (now : Time) (db : Db)
    → All (λ w. over_lease now w ≡ false) (sweep now db).1.worklist
      × All (λ w. past_due now w ≡ false) (sweep now db).1.worklist
sweep-clears now db = rw (sweep-store now db) (
  sweep_due-keeps now (sweep_leases now db).1 (sweep_leases-clears now db),
  sweep_due-clears now (sweep_leases now db).1,
)
