-- ===== src/Orchestrator/Daily/Gate/Waiting.antt =====
-- Which decisions still wait while the enforcement pass runs over its snapshot.
use fund.Orchestrator.Daily.Gate.{submitted_on}
use fund.State.Transition.{◌=ₛ◌}
use fund.State.Rows.{Decision, Status, submitted}
use fund.Base.{
  ◌≡◌, String, List, All, any, update_where, [], select, true, ◌==◌, ◌∷◌, arith, false, ◌&&◌,
  All-imp, Bool-cases, inl, inr, any-if,
}

-- Every submitted row with this id becomes `to`.
abbrev pub settle : Decision → Status → List Decision → List Decision
settle d to ds =
    update_where (λ (r : Decision). r.id == d.id && r.status =ₛ submitted)
      (λ r. record r { status = to }) ds

-- A waiting decision of the day is still in the rows to come.
abbrev pub IsCovered : String → List Decision → Decision → Type 0
IsCovered run_date rows x =
    submitted_on run_date x ≡ true → any (λ (r : Decision). x.id == r.id) rows ≡ true

pub settle-IsCovered :
    (run_date : String) (d : Decision) (to : Status) (rows ds : List Decision)
    → (to =ₛ submitted) ≡ false
    → All (IsCovered run_date (d ∷ rows)) ds
    → All (IsCovered run_date rows) (settle d to ds)
settle-IsCovered run_date d to rows [] waits h = tt
settle-IsCovered run_date d to rows (x ∷ ds) waits h =
    ground (arith, settle-IsCovered run_date d to rows ds waits h.1)

pub snapshot-IsCovered :
    (run_date : String) (ds : List Decision)
    → All (IsCovered run_date (select (submitted_on run_date) ds)) ds
snapshot-IsCovered run_date [] = tt
snapshot-IsCovered run_date (d ∷ ds) = (
  λ waits. rw waits (ground arith),
  All-imp _ _ ds
      (λ u h waits. any-if (λ (r : Decision). u.id == r.id) d (submitted_on run_date d) _ (h waits))
      (snapshot-IsCovered run_date ds),
)

pub none_waits :
    (run_date : String) (ds : List Decision)
    → All (IsCovered run_date []) ds
    → All (λ d. submitted_on run_date d ≡ false) ds
none_waits run_date [] h = tt
none_waits run_date (d ∷ ds) h = (
  elim (Bool-cases (submitted_on run_date d)) [
    | inl waits ↦ cc (h.0 waits)
    | inr settled ↦ settled
  ],
  none_waits run_date ds h.1,
)
