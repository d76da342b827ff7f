-- ===== src/Backtest/Runs/Touch.antt =====
-- The holdout of a spec is touched once.
use fund.State.Specs.{has_spec}
use fund.Backtest.Params.{Fault}
use fund.Backtest.Registry.{consume_holdout, log, spec_trial_count}
use fund.State.Rows.{Db, Holdout, Trial, Spec, Stats}
use fund.Backtest.Runs.Budget.{run, holdout, Attempt, attempt, run, holdout, log-cases}
use fund.Backtest.Runs.{
  Engine, Run, returned, evaluate_holdout, fresh_run, run_backtest, holdout_trial, touch_then,
  checked_run, cached_run,
}
use fund.Base.{
  none, some, true, false, inl, inr, refl, String, List, Bool, any, ℕ, ◌≡◌, ◌≤◌, arith, str_eq, ◌∷◌,
  Bool-cases, [], if◌then◌else◌, ◌&&◌, suc, Option, leb, str_eq_iff, any-append_left, sym,
  any-append_last, str_eq_refl, ap,
}
use fund.Python.Actions.{ok, err, Result}
use fund.Python.Values.{Dict}

-- Whether an answer carries a result of the holdout.
abbrev pub is_returned : Result Run → Bool
is_returned (ok (returned stats cached)) = true
is_returned _ = false

abbrev is_touched : String → List Holdout → Bool
is_touched id = any (λ (h : Holdout). str_eq h.spec_id id)

log-holdouts : (t : Trial) (db : Db) → (log t db).1.holdouts ≡ db.holdouts
log-holdouts t db = elim (log-cases t db) [ inl e ↦ rw e refl | inr e ↦ rw e refl ]

touch_then-keeps :
    (id spec_id key : String) (passed : Bool) (detail : String) (r : Result (Unit {0})) (db : Db)
    → is_touched id db.holdouts ≡ true
    → is_touched id (touch_then spec_id key passed detail r db).1.holdouts ≡ true
unfolding consume_holdout
touch_then-keeps id spec_id key passed detail (err e) db h = h
touch_then-keeps id spec_id key passed detail (ok _) db h =
    elim (Bool-cases (is_touched spec_id db.holdouts)) [
      | inl there ↦ rw there h
      | inr fresh ↦
          elim (Bool-cases
            (has_spec spec_id db.specs && any (λ (t : Trial). str_eq t.run_key key) db.trials)) [
              | inr unknown ↦ rw (fresh, unknown) h
              | inl known ↦
                  rw (fresh, known)
                    (any-append_left (λ (t : Holdout). str_eq t.spec_id id) db.holdouts _ h)
            ]
    ]

abbrev pub OnlyTrials : Db → Db → Type 0
OnlyTrials db db' = db' ≡ record db { trials = db'.trials }

log-OnlyTrials : (t : Trial) (db : Db) → OnlyTrials db (log t db).1
log-OnlyTrials t db = elim (log-cases t db) [ inl e ↦ rw e refl | inr e ↦ rw e refl ]

-- A run outside the holdout writes to the registry alone.
module _ {D : Type 0} (engine : Engine D) where
  fresh-OnlyTrials :
      (s : Spec) (params : Dict) (close : D) (seed : ℕ) (seat : String) (db : Db)
      → OnlyTrials db (fresh_run engine s params close seed seat db).1
  unfolding fresh_run
  fresh-OnlyTrials s params close seed seat db =
      elim (Bool-cases (leb s.search_budget (spec_trial_count s.spec_id db.trials))) [
        | inl spent ↦ rw spent (log-OnlyTrials _ db)
        | inr left ↦ elim (Bool-cases (engine.has_nan close)) [
          | inl missing ↦ rw (left, missing) refl
          | inr whole_data ↦ elim (Bool-cases (engine.is_short close)) [
            | inl short ↦ rw (left, whole_data, short) refl
            | inr enough ↦ rw (left, whole_data, enough) (log-OnlyTrials _ db)
          ]
        ]
      ]

  checked-OnlyTrials :
      (o : Option Fault) (c : Option Stats) (s : Spec) (params : Dict) (close : D) (seed : ℕ)
      (seat : String) (db : Db)
      → OnlyTrials db
          (checked_run o (cached_run c (fresh_run engine s params close seed seat)) db).1
  checked-OnlyTrials (some fault) c s params close seed seat db = refl
  checked-OnlyTrials none (some stats) s params close seed seat db = refl
  checked-OnlyTrials none none s params close seed seat db =
      fresh-OnlyTrials s params close seed seat db

  pub run-OnlyTrials :
      (s : Spec) (params : Dict) (close : D) (seed : ℕ) (seat : String) (db : Db)
      → OnlyTrials db (run_backtest engine s params close seed seat db).1
  unfolding run_backtest
  run-OnlyTrials s params close seed seat db = elim (Bool-cases (engine.rule_known s.content)) [
    | inr unknown ↦ rw unknown refl
    | inl known ↦ rw known (checked-OnlyTrials _ _ s params close seed seat db)
  ]

-- The evaluations of one spec's holdout that returned a result, in a sequence of runs and evaluations.
module _ {D : Type 0} (engine : Engine D) (id : String) where
  abbrev pub reveals : Attempt D → Db → Bool
  reveals (run s params close seed seat) db = false
  reveals (holdout s params close) db =
      str_eq s.spec_id id && is_returned (evaluate_holdout engine s params close db).0

  unfoldable pub revealed : List (Attempt D) → Db → ℕ
  unfolding attempt
  revealed [] db = 0
  revealed (a ∷ more) db =
      let rest = revealed more (attempt engine a db) in if reveals a db then suc rest else rest

  touch-cases :
      (s : Spec) (key : String) (passed : Bool) (detail : String) (r : Result (Unit {0})) (db : Db)
      → s.spec_id ≡ id
      → (is_touched id db.holdouts ≡ true
          → is_returned (touch_then s.spec_id key passed detail r db).0 ≡ false)
        × (is_returned (touch_then s.spec_id key passed detail r db).0 ≡ true
            → is_touched id (touch_then s.spec_id key passed detail r db).1.holdouts ≡ true)
  unfolding consume_holdout
  touch-cases s key passed detail (err e) db own = (λ h. refl, λ h. cc)
  touch-cases s key passed detail (ok _) db own =
      elim (Bool-cases (is_touched s.spec_id db.holdouts)) [
        | inl there ↦ rw there (λ h. refl, λ h. cc)
        | inr fresh ↦
            elim (Bool-cases (
              has_spec s.spec_id db.specs && any (λ (t : Trial). str_eq t.run_key key) db.trials)) [
                | inr unknown ↦ rw (fresh, unknown) (λ h. refl, λ h. cc)
                | inl known ↦
                    rw (fresh, known)
                      (
                        λ h. cc (rw (sym own) at h, fresh),
                        λ h.
                            any-append_last (λ (t : Holdout). str_eq t.spec_id id) db.holdouts _
                              (rw own (str_eq_refl id)),
                      )
              ]
      ]

  -- A result comes only of a first touch, and leaves it.
  attempt-touch :
      (a : Attempt D) (db : Db)
      → (is_touched id db.holdouts ≡ true → reveals a db ≡ false)
        × (is_touched id db.holdouts ≡ true → is_touched id (attempt engine a db).holdouts ≡ true)
        × (reveals a db ≡ true → is_touched id (attempt engine a db).holdouts ≡ true)
  unfolding attempt evaluate_holdout
  attempt-touch (run s params close seed seat) db = (
    λ h. refl,
    λ h. rw (ap (λ (d : Db). d.holdouts) (run-OnlyTrials engine s params close seed seat db)) h,
    λ h. cc,
  )
  attempt-touch (holdout s params close) db =
      let logged = log (holdout_trial engine s params close) db in
      let kept = log-holdouts (holdout_trial engine s params close) db in
      let after =
        touch_then-keeps id s.spec_id (engine.holdout_run_key s.spec_id params close)
          (engine.holdout_passes (engine.compute_holdout s.content params close))
          (engine.compute_holdout s.content params close) (logged.0) (logged.1) in
      elim (Bool-cases (str_eq s.spec_id id)) [
        | inr other ↦ (λ h. rw other refl, λ h. after (rw kept h), λ h. cc (rw other at h))
        | inl same ↦
            let cases =
              touch-cases s (engine.holdout_run_key s.spec_id params close)
                (engine.holdout_passes (engine.compute_holdout s.content params close))
                (engine.compute_holdout s.content params close) (logged.0) (logged.1)
                ((str_eq_iff s.spec_id id).0 same) in
            (
              λ h. rw same (cases.0 (rw kept h)),
              λ h. after (rw kept h),
              λ h. cases.1 (rw same at h),
            )
      ]

  none_after :
      (todo : List (Attempt D)) (db : Db) → is_touched id db.holdouts ≡ true → revealed todo db ≡ 0
  unfolding revealed
  none_after [] db h = refl
  none_after (a ∷ more) db h =
      rw ((attempt-touch a db).0 h)
        (none_after more (attempt engine a db) ((attempt-touch a db).1 h))

  -- In any sequence of runs and holdout evaluations, from any store, at most one evaluation of the
  -- holdout of a spec returns a result, whatever the points, the data and the seeds.
  pub holdout_revealed_once : (todo : List (Attempt D)) (db : Db) → revealed todo db ≤ 1
  unfolding revealed
  holdout_revealed_once [] db = omega arith
  holdout_revealed_once (a ∷ more) db = elim (Bool-cases (reveals a db)) [
    | inl shown ↦
        rw (shown, none_after more (attempt engine a db) ((attempt-touch a db).2 shown))
          (omega arith)
    | inr hidden ↦ rw hidden (holdout_revealed_once more (attempt engine a db))
  ]
