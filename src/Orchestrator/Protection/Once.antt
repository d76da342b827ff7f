-- ===== src/Orchestrator/Protection/Once.antt =====
-- A finding of the mirror is said once.
use fund.State.Rows.{Time, Db, Event, Accounting, gap, Body, cleared}
use fund.Orchestrator.Protection.Accounts.{
  account_one, last_accounting, last_of, same_gap, about, shortfall, is_open_gap,
}
use fund.Base.{
  [], some, true, false, ℕ, inl, inr, Bool-cases, refl, String, List, Option, ℤ, Bool, ◌≡◌, arith,
  leb_ℤ, ◌++◌, str_eq_refl, ◌∷◌,
}

last_of-append :
    (s : String) (es : List Event) (e : Event) (a : Accounting)
    → about s e.body ≡ some a
    → last_of s (es ++ e ∷ []) ≡ some a
unfolding last_of
last_of-append s [] e a h = h
last_of-append s (x ∷ es) e a h = rw (last_of-append s es e a h) refl

about_gap :
    (s : String) (code : String) (t : Option String) (c : Bool) (want have : ℤ)
    → about s (Body.alert code t c (some (gap s want have))) ≡ some (gap s want have)
about_gap s code t c want have = rw (str_eq_refl s) refl

about_cleared :
    (s : String) (code : String) (t : Option String) (c : Bool)
    → about s (Body.alert code t c (some (cleared s))) ≡ some (cleared s)
about_cleared s code t c = rw (str_eq_refl s) refl

last_of-gap :
    (s : String) (want have : ℤ) (now : Time) (db : Db)
    → last_accounting (shortfall s (gap s want have) false now db) s ≡ some (gap s want have)
unfolding last_accounting
last_of-gap s want have now db =
    last_of-append s db.events _ _ (about_gap s "accounting_shortfall" (some s) false want have)

last_of-cleared :
    (s : String) (now : Time) (db : Db)
    → last_accounting (shortfall s (cleared s) true now db) s ≡ some (cleared s)
unfolding last_accounting
last_of-cleared s now db =
    last_of-append s db.events _ _ (about_cleared s "accounting_shortfall" (some s) true)

same_gap_refl : (s : String) (want have : ℤ) → same_gap (some (gap s want have)) want have ≡ true
same_gap_refl s want have = ground arith

-- The accounting of one symbol, repeated on the store that it left, with the same record and the
-- same holding, appends nothing and counts nothing: a discrepancy, and its clearing, is said once.
pub account_one-once :
    (s : String) (want have : ℤ) (now later : Time) (n m : ℕ) (db : Db)
    → let after = (account_one s want have now (n, db)).1 in
      account_one s want have later (m, after) ≡ (m, after)
unfolding account_one
account_one-once s want have now later n m db = elim (Bool-cases (leb_ℤ want have)) [
  | inl held ↦ elim (Bool-cases (is_open_gap (last_accounting db s))) [
    | inl gap_open ↦ rw (held, gap_open, last_of-cleared s now db) refl
    | inr quiet ↦ rw (held, quiet, quiet) refl
  ]
  | inr missing ↦ elim (Bool-cases (same_gap (last_accounting db s) want have)) [
    | inl known ↦ rw (missing, known, known) refl
    | inr fresh ↦
        rw (missing, fresh, last_of-gap s want have now db, same_gap_refl s want have) refl
  ]
]
