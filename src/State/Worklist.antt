-- ===== src/State/Worklist.antt =====
-- state/worklist.py: rows of scheduled work. `work_id` is a hash of the row's key, a parameter.
pub mod Repeats
use fund.Base.{
  ℕ, Bool, true, not, ◌&&◌, ◌||◌, Option, none, some, List, [], ◌∷◌, ◌++◌, String, any, select,
  find?, order_by, leb, ltb, str_eq, if◌then◌else◌, ◌==◌, str_le,
}
use fund.Python.Actions.{ok, err, Action, disallowed_work}
use fund.State.Rows.{Time, Db, Work, opened, claimed, done, failed}
use fund.State.Transition.{
  claimed_at, claim_expires_at, finished_at, work, transition, try_transition, ◌=ₛ◌,
}

-- PRODUCER_KINDS and `allowed`.
unfoldable pub allowed : (producer kind : String) → Bool
allowed producer kind =
    (str_eq producer "orchestrator" && str_eq kind "spec_review")
    || (str_eq producer "alert_filer" && str_eq kind "alert_triage")

-- INSERT OR IGNORE: a row with the same id stays as it is.
abbrev pub insert_work : Work → Db → Db
insert_work w db =
    if any (λ (r : Work). str_eq r.work_id w.work_id) db.worklist
    then db
    else record db { worklist = db.worklist ++ w ∷ [] }

unfoldable pub enqueue :
    (work_id : String → String → ℕ → String) (kind producer seat subject : String)
    (expires_at now : Time) (not_before : Option Time) (attempts : ℕ)
    → Action Db String
unfolding allowed
enqueue work_id kind producer seat subject expires_at now not_before attempts db =
    if not (allowed producer kind) then (err disallowed_work, db) else (
      ok (work_id kind subject attempts),
      insert_work
          (record {
            work_id = work_id kind subject attempts;
            kind = kind;
            producer = producer;
            seat = seat;
            subject = subject;
            status = opened;
            attempts = attempts;
            not_before = not_before;
            expires_at = expires_at;
            claim_expires_at = none;
            created_at = now;
            claimed_at = none;
            finished_at = none;
          })
          db,
    )

abbrev due : Time → Option Time → Bool
due now none = true
due now (some t) = leb t now

abbrev for_seat : Option String → Work → Bool
for_seat none w = true
for_seat (some seat) w = str_eq w.seat seat

-- The WHERE of `claim_next`.
abbrev pub claimable : Time → Option String → Work → Bool
claimable now seat w =
    w.status =ₛ opened && due now w.not_before && ltb now w.expires_at && for_seat seat w

-- ORDER BY created_at, work_id
abbrev pub older : Work → Work → Bool
older a b =
    ltb a.created_at b.created_at || (a.created_at == b.created_at && str_le a.work_id b.work_id)

abbrev pub candidates : Time → Option String → Db → List Work
candidates now seat db = order_by older (select (claimable now seat) db.worklist)

abbrev pub work_row : String → Db → Option Work
work_row id db = find? (λ (w : Work). str_eq w.work_id id) db.worklist

-- The first candidate whose CAS is won, read back.
unfoldable pub claim_first : List Work → (now lease_until : Time) → Action Db (Option Work)
unfolding try_transition
claim_first [] now lease db = (ok none, db)
claim_first (c ∷ cs) now lease db =
    let (r, db') =
      try_transition (work c.work_id) opened claimed now
        (claimed_at now ∷ claim_expires_at lease ∷ []) none db in
    let rest = claim_first cs now lease db' in
    elim r [
      | err e ↦ (err e, db')
      | ok moved ↦ if moved then (ok (work_row c.work_id db'), db') else rest
    ]

unfoldable pub claim_next : (now lease_until : Time) → Option String → Action Db (Option Work)
unfolding claim_first
claim_next now lease seat db = claim_first (candidates now seat db) now lease db

unfoldable pub finish : String → Time → Action Db (Unit {0})
unfolding transition
finish wid now = transition (work wid) claimed done now (finished_at now ∷ []) none

unfoldable pub fail : String → Time → Action Db (Unit {0})
unfolding transition
fail wid now = transition (work wid) claimed failed now (finished_at now ∷ []) none
