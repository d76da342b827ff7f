-- ===== src/Orchestrator/Dispatch/Covered.antt =====
-- Rows that a loop over a snapshot of the worklist still has to close.
use fund.State.Worklist.{older}
use fund.State.Transition.{◌=ₛ◌}
use fund.Python.Actions.{ok, Action, Result, pure, ◌>>=◌, err}
use fund.Orchestrator.Dispatch.{for_each}
use fund.State.Rows.{Status, Work, Time, Db}
use fund.Base.{
  [], some, true, false, inl, inr, Bool-cases, refl, Bool, List, String, update_where, ◌≡◌, any,
  str_eq, ◌&&◌, arith, All, ◌∷◌, order_by, select, str_eq_refl, All-imp, ◌++◌, any-if, any-order_by,
  ◌∙◌,
}

-- A row of the loop has the work's id.
abbrev pub IsCovered : (Work → Bool) → List Work → Work → Type 0
IsCovered p rows w = p w ≡ true → any (λ (r : Work). str_eq w.work_id r.work_id) rows ≡ true

-- The worklist after the CAS of one row.
abbrev pub closed : Status → Status → Time → Work → List Work → List Work
closed from to now r ws =
    update_where (λ (w : Work). str_eq w.work_id r.work_id && w.status =ₛ from)
      (λ w. record w { status = to; finished_at = some now }) ws

pub closed-IsCovered :
    (p : Work → Bool) (from to : Status) (now : Time) (r : Work) (rows ws : List Work)
    → ((w : Work) → p w ≡ true → (w.status =ₛ from) ≡ true)
    → ((w : Work) → p (record w { status = to; finished_at = some now }) ≡ false)
    → All (IsCovered p (r ∷ rows)) ws
    → All (IsCovered p rows) (closed from to now r ws)
closed-IsCovered p from to now r rows [] starts ends h = tt
closed-IsCovered p from to now r rows (w ∷ ws) starts ends h = (
  elim (Bool-cases (str_eq w.work_id r.work_id && w.status =ₛ from)) [
    | inl hit ↦ rw hit (λ waits. cc (ends w))
    | inr miss ↦ rw miss (λ waits. ground (arith, starts w waits, h.0 waits))
  ],
  closed-IsCovered p from to now r rows ws starts ends h.1,
)

snapshot-IsCovered : (p : Work → Bool) (ws : List Work) → All (IsCovered p (select p ws)) ws
snapshot-IsCovered p [] = tt
snapshot-IsCovered p (w ∷ ws) = (
  λ waits. rw waits (ground (arith, str_eq_refl w.work_id)),
  All-imp _ _ ws
      (λ u h waits. any-if (λ (r : Work). str_eq u.work_id r.work_id) w (p w) _ (h waits))
      (snapshot-IsCovered p ws),
)

pub aged-IsCovered :
    (p : Work → Bool) (ws : List Work) → All (IsCovered p (order_by older (select p ws))) ws
aged-IsCovered p ws =
    All-imp _ _ ws
      (λ u h waits.
        any-order_by older (λ (r : Work). str_eq u.work_id r.work_id) (select p ws) ∙ h waits)
      (snapshot-IsCovered p ws)

pub none_waits :
    (p : Work → Bool) (ws : List Work) → All (IsCovered p []) ws → All (λ w. p w ≡ false) ws
none_waits p [] h = tt
none_waits p (w ∷ ws) h = (
  elim (Bool-cases (p w)) [ inl waits ↦ cc (h.0 waits) | inr settled ↦ settled ],
  none_waits p ws h.1,
)

joined :
    (zs : List String) (n : Result (List String) × Db) (ys : List String)
    → n.0 ≡ ok ys
    → (ids : List String) × ((((λ (_ : Db). n) >>= λ ys. pure (zs ++ ys)) n.1).0 ≡ ok ids)
joined zs (ok us, db) ys h = (zs ++ us, refl)
joined zs (err e, db) ys h = cc

pub for_each-ok :
    (body : Work → Action Db (List String)) (rows : List Work) (db : Db)
    → ((r : Work) (db : Db) → (ids : List String) × ((body r db).0 ≡ ok ids))
    → (ids : List String) × ((for_each body rows db).0 ≡ ok ids)
unfolding for_each
for_each-ok body [] db h = ([], refl)
for_each-ok body (r ∷ rows) db h =
    both (body r db) (h r db).0 (h r db).1 (λ db'. (for_each-ok body rows db' h).0)
      (λ db'. (for_each-ok body rows db' h).1)
  where
    both :
        (m : Result (List String) × Db) (xs : List String)
        → m.0 ≡ ok xs
        → (ys : Db → List String) → ((db' : Db) → (for_each body rows db').0 ≡ ok (ys db'))
        → (ids : List String) × ((((λ (_ : Db). m) >>= λ xs.
                for_each body rows >>= λ ys. pure (xs ++ ys))
              db).0
            ≡ ok ids)
    both (err e, db1) xs h ys rest = cc
    both (ok zs, db1) xs h ys rest = joined zs (for_each body rows db1) (ys db1) (rest db1)
