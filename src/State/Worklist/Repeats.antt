-- ===== src/State/Worklist/Repeats.antt =====
-- Enqueuing the same work again.
use fund.Python.Actions.{ok}
use fund.State.Worklist.{enqueue, insert_work, allowed}
use fund.State.Rows.{Work, Db, Time}
use fund.Base.{
  true, refl, inl, inr, Bool-cases, String, ℕ, any, ◌≡◌, str_eq, Option, str_eq_refl, ap,
  any-append_last,
}

-- The row is there afterwards, whether it was before or not.
insert_work-present :
    (w : Work) (db : Db)
    → any (λ (r : Work). str_eq r.work_id w.work_id) (insert_work w db).worklist ≡ true
insert_work-present w db =
    elim (Bool-cases (any (λ (r : Work). str_eq r.work_id w.work_id) db.worklist)) [
      | inl there ↦ rw there there
      | inr fresh ↦ rw fresh (any-append_last _ db.worklist w (str_eq_refl w.work_id))
    ]

insert_work-again :
    (v : Work) (db : Db)
    → any (λ (r : Work). str_eq r.work_id v.work_id) db.worklist ≡ true
    → insert_work v db ≡ db
insert_work-again v db there = rw there refl

module _ (work_id : String → String → ℕ → String) where
  -- Work of the same kind, subject and attempt that is enqueued a second time, by the same producer
  -- and with any other seat, times and expiry, gives the same answer and changes nothing.
  pub enqueue_twice :
      (kind producer subject seat seat' : String) (expires_at now expires_at' later : Time)
      (not_before not_before' : Option Time) (attempts : ℕ) (db : Db)
      → let first =
          enqueue work_id kind producer seat subject expires_at now not_before attempts db in
        enqueue work_id kind producer seat' subject expires_at' later not_before' attempts first.1
        ≡ first
  unfolding enqueue
  enqueue_twice kind producer subject seat seat' e n e' l b b' attempts db =
      elim (Bool-cases (allowed producer kind)) [
        | inl may ↦ rw may (
            ap (λ s. (ok (work_id kind subject attempts), s))
              (insert_work-again _ _ (insert_work-present _ db)))
        | inr refused ↦ rw refused refl
      ]
