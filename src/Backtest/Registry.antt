-- ===== src/Backtest/Registry.antt =====
-- fundbt/registry.py: the append-only registry of trials, and the single touch of the holdout. The
-- store enforces foreign keys, and an INSERT OR IGNORE does not ignore one that fails. The hashes,
-- the seed and the time of a trial are left out: nothing reads them back.
use fund.State.Specs.{has_spec}
use fund.State.Rows.{Trial, Db, Stats, Holdout}
use fund.Base.{
  none, some, true, false, String, Bool, List, Option, ℕ, count_where, if◌then◌else◌, any, str_eq,
  ◌∷◌, [], not, ◌&&◌, ◌++◌,
}
use fund.Python.Actions.{ok, err, Action, integrity_error}

unfoldable pub get : (run_key : String) → List Trial → Option Stats
get run_key [] = none
get run_key (t ∷ ts) =
    let rest = get run_key ts in if str_eq t.run_key run_key then some t.stats else rest

-- Logging a run key again does nothing.
unfoldable pub log : Trial → Action Db (Unit {0})
log t db =
    if any (λ (u : Trial). str_eq u.run_key t.run_key) db.trials
    then (ok tt, db)
    else if not (has_spec t.spec_id db.specs)
    then (err integrity_error, db)
    else (ok tt, record db { trials = db.trials ++ t ∷ [] })

unfoldable pub family_n : (family : String) → List Trial → ℕ
family_n family = count_where (λ (t : Trial). str_eq t.family family)

unfoldable pub spec_trial_count : (spec_id : String) → List Trial → ℕ
spec_trial_count spec_id = count_where (λ (t : Trial). str_eq t.spec_id spec_id)

-- False where the holdout of the spec was consumed before. A key that names no trial or no spec raises.
unfoldable pub consume_holdout : (spec_id run_key : String) (passed : Bool) → Action Db Bool
consume_holdout spec_id run_key passed db =
    if any (λ (h : Holdout). str_eq h.spec_id spec_id) db.holdouts
    then (ok false, db)
    else if has_spec spec_id db.specs && any (λ (t : Trial). str_eq t.run_key run_key) db.trials
    then (
      ok true,
      record db {
        holdouts =
            db.holdouts ++ record { spec_id = spec_id; run_key = run_key; passed = passed } ∷ [];
      },
    )
    else (err integrity_error, db)
