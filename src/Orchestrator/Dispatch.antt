-- ===== src/Orchestrator/Dispatch.antt =====
-- orchestrator/dispatch.py: the sweep of overdue work, and one cycle of the dispatcher.
pub mod Sweeps
mod Covered
use fund.Base.{
  ℕ, ◌+◌, ◌≡◌, Bool, true, false, not, ◌&&◌, ◌||◌, Option, none, some, List, [], ◌∷◌, ◌++◌, String,
  select, order_by, leb, if◌then◌else◌,
}
use fund.Python.Actions.{Result, ok, err, Action, pure, raise, modify, lift, ◌>>=◌, ◌>>◌}
use fund.State.Rows.{Time, Db, Work, opened, claimed, failed, expired}
use fund.State.Transition.{work, finished_at, try_transition, ◌=ₛ◌}
use fund.State.Worklist.{allowed, claim_next, finish, fail, older}
use fund.Slack.Outbox.{append_alert}

pub record SweepResult : Type 0 where
  pub reaped : List String
  pub expired_ids : List String

pub record DispatchResult : Type 0 where
  pub handled : Option String
  pub swept : SweepResult

abbrev lease_over : Time → Option Time → Bool
lease_over now none = true
lease_over now (some t) = leb t now

-- The two WHEREs of `sweep`.
abbrev pub over_lease : Time → Work → Bool
over_lease now w = w.status =ₛ claimed && lease_over now w.claim_expires_at

abbrev pub past_due : Time → Work → Bool
past_due now w = w.status =ₛ opened && leb w.expires_at now

-- One round of each loop: the ids that it appends.
unfoldable pub reap : Time → Work → Action Db (List String)
unfolding try_transition
reap now r = do
  moved ← try_transition (work r.work_id) claimed failed now (finished_at now ∷ []) none
  if moved
      then (do modify (append_alert "work_lease_expired" none now); pure (r.work_id ∷ []))
      else pure []

unfoldable pub lapse : Time → Work → Action Db (List String)
unfolding try_transition
lapse now r = do
  moved ← try_transition (work r.work_id) opened expired now (finished_at now ∷ []) none
  if moved
      then (do modify (append_alert "work_expired" none now); pure (r.work_id ∷ []))
      else pure []

unfoldable pub for_each : (Work → Action Db (List String)) → List Work → Action Db (List String)
for_each body [] = pure []
for_each body (r ∷ rows) = do ids ← body r; rest ← for_each body rows; pure (ids ++ rest)

abbrev by_age : List Work → List Work
by_age = order_by older

unfoldable pub sweep_leases : Time → Action Db (List String)
unfolding reap for_each
sweep_leases now db = for_each (reap now) (by_age (select (over_lease now) db.worklist)) db

unfoldable pub sweep_due : Time → Action Db (List String)
unfolding lapse for_each
sweep_due now db = for_each (lapse now) (by_age (select (past_due now) db.worklist)) db

unfoldable pub sweep : Time → Action Db SweepResult
unfolding sweep_leases sweep_due
sweep now = do
  reaped ← sweep_leases now
  lapsed ← sweep_due now
  pure (record { reaped = reaped; expired_ids = lapsed })

-- A wake runs agent code: it changes the store and may raise. `end` is the clock after it.
module _ (wake : Work → Action Db (Unit {0})) (lease : ℕ) where
  abbrev result_for : Work → SweepResult → DispatchResult
  result_for row swept = record { handled = some row.work_id; swept = swept }

  abbrev fail_with : String → Work → Time → SweepResult → Action Db DispatchResult
  fail_with code row end swept = do
    fail row.work_id end
    modify (append_alert code none end)
    pure (result_for row swept)

  -- A wake that raises fails its row and is not raised again.
  after_wake : Work → Time → SweepResult → Result (Unit {0}) → Action Db DispatchResult
  unfolding fail finish
  after_wake row end swept (ok _) = do finish row.work_id end; pure (result_for row swept)
  after_wake row end swept (err e) = fail_with "work_failed" row end swept

  unfoldable pub dispatch_row : Option Work → Time → SweepResult → Action Db DispatchResult
  unfolding after_wake allowed fail
  dispatch_row none end swept db = (ok (record { handled = none; swept = swept }), db)
  dispatch_row (some row) end swept db =
      if not (allowed row.producer row.kind)
      then fail_with "work_disallowed" row end swept db
      else let (r, db') = wake row db in after_wake row end swept r db'

  unfoldable pub dispatch_once : (now end : Time) → Action Db DispatchResult
  unfolding sweep claim_next dispatch_row
  dispatch_once now end = do
    swept ← sweep now
    row ← claim_next now (now + lease) none
    dispatch_row row end swept
