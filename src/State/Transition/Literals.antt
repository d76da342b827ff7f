-- ===== src/State/Transition/Literals.antt =====
-- Equality of status literals decides equality.
use fund.Base.{ℕ, ◌==◌, ==_iff, ==_refl, ◌≡◌, refl, sym, ap, ◌∙◌, true, if◌then◌else◌}
use fund.State.Rows.{Status}
use fund.State.Transition.{status_code, ◌=ₛ◌}

-- The literals are told apart by their numbers.
status_of : ℕ → Status
status_of n =
    if n == 0
    then Status.submitted
    else if n == 1
    then Status.approved
    else if n == 2
    then Status.rejected
    else if n == 3
    then Status.held
    else if n == 4
    then Status.executed
    else if n == 5
    then Status.failed
    else if n == 6
    then Status.expired
    else if n == 7
    then Status.opened
    else if n == 8
    then Status.consumed
    else if n == 9
    then Status.filled
    else if n == 10
    then Status.partially_filled
    else if n == 11
    then Status.canceled
    else if n == 12
    then Status.pending
    else if n == 13
    then Status.running
    else if n == 14
    then Status.done
    else if n == 15
    then Status.claimed
    else if n == 16
    then Status.spec
    else if n == 17
    then Status.backtest
    else if n == 18
    then Status.spec_rejected
    else if n == 19
    then Status.validated
    else if n == 20
    then Status.incubating
    else if n == 21
    then Status.allocated
    else if n == 22
    then Status.scaled
    else if n == 23
    then Status.probation
    else Status.retired

status_of-status_code : (s : Status) → status_of (status_code s) ≡ s
unfolding status_of
status_of-status_code Status.submitted = refl
status_of-status_code Status.approved = refl
status_of-status_code Status.rejected = refl
status_of-status_code Status.held = refl
status_of-status_code Status.executed = refl
status_of-status_code Status.failed = refl
status_of-status_code Status.expired = refl
status_of-status_code Status.opened = refl
status_of-status_code Status.consumed = refl
status_of-status_code Status.filled = refl
status_of-status_code Status.partially_filled = refl
status_of-status_code Status.canceled = refl
status_of-status_code Status.pending = refl
status_of-status_code Status.running = refl
status_of-status_code Status.done = refl
status_of-status_code Status.claimed = refl
status_of-status_code Status.spec = refl
status_of-status_code Status.backtest = refl
status_of-status_code Status.spec_rejected = refl
status_of-status_code Status.validated = refl
status_of-status_code Status.incubating = refl
status_of-status_code Status.allocated = refl
status_of-status_code Status.scaled = refl
status_of-status_code Status.probation = refl
status_of-status_code Status.retired = refl

pub =ₛ-sound : (a b : Status) → (a =ₛ b) ≡ true → a ≡ b
=ₛ-sound a b h =
    sym (status_of-status_code a) ∙ ap status_of ((==_iff _ _).0 h) ∙ status_of-status_code b

pub =ₛ-refl : (a : Status) → (a =ₛ a) ≡ true
=ₛ-refl a = ==_refl (status_code a)
