-- ===== src/State/Keys.antt =====
-- The keys of the decisions table of state/schema.sql.
use fund.State.Rows.{Decision}
use fund.Base.{ℕ, List, String, Bool, ◌∷◌, if◌then◌else◌, str_eq, leb, ◌&&◌, suc, []}

-- UNIQUE (run_date, ticker)
abbrev pub is_key : (run_date ticker : String) → Decision → Bool
is_key run_date ticker d = str_eq d.run_date run_date && str_eq d.ticker ticker

-- The next INTEGER PRIMARY KEY.
unfoldable pub next_decision_id : List Decision → ℕ
next_decision_id [] = 1
next_decision_id (d ∷ ds) = let n = next_decision_id ds in if leb n d.id then suc d.id else n
