-- ===== src/Orchestrator/Reconcile/Ends.antt =====
-- The reconciliation loop ends.
use fund.Python.Floats.{Float, whole}
use fund.Base.{ℕ, ◌<◌, ◌+◌, ◌^◌, ◌≡◌}

-- Sums of whole floats below 2^53 are exact.
abbrev pub IsExact : (Float → Float → Float) → Type 0
IsExact add = (m n : ℕ) → m + n < 2 ^ 53 → add (whole m) (whole n) ≡ whole (m + n)
