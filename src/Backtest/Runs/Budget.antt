-- ===== src/Backtest/Runs/Budget.antt =====
-- The search budget of a spec: how many of its points were ever run.
use fund.Backtest.Params.{Fault}
use fund.Python.Values.{Dict}
use fund.State.Specs.{has_spec}
use fund.Backtest.Runs.{
  Run, Engine, fresh_run, run_backtest, engine_checks, evaluate_holdout, holdout_trial, touch_then,
  cached_run, checked_run,
}
use fund.Backtest.Registry.{get, log, spec_trial_count, consume_holdout}
use fund.Base.{
  none, some, true, false, inl, inr, refl, String, Bool, List, str_eq, ℕ, ◌≡◌, ◌≤◌, count_where,
  count_where_le, ◌&&◌, ◌+◌, ◌⊎◌, and_left, if◌then◌else◌, not, ◌++◌, arith, ◌∷◌, [],
  count_where-append, Bool-cases, any, leb, All, Option, str_eq_iff,
}
use fund.Python.Actions.{ok, err, Result, Action}
use fund.State.Rows.{budget_exhausted, result, Stats, Trial, Db, Spec, Holdout}

abbrev is_result : Stats → Bool
is_result (result s) = true
is_result budget_exhausted = false

-- The trials in which the engine ran outside the holdout.
abbrev pub is_executed : String → Trial → Bool
is_executed spec_id t = str_eq t.spec_id spec_id && not t.is_holdout && is_result t.stats

unfoldable pub executed : (spec_id : String) → List Trial → ℕ
executed spec_id = count_where (is_executed spec_id)

executed_le : (id : String) (ts : List Trial) → executed id ts ≤ spec_trial_count id ts
unfolding executed spec_trial_count
executed_le id ts =
    count_where_le (is_executed id) (λ (t : Trial). str_eq t.spec_id id) ts
      (λ (t : Trial) h.
        and_left (str_eq t.spec_id id) (not t.is_holdout) (and_left _ (is_result t.stats) h))

-- Logging a trial adds at most that trial.
pub log-cases :
    (t : Trial) (db : Db)
    → ((log t db).1 ≡ db) ⊎ ((log t db).1 ≡ record db { trials = db.trials ++ t ∷ [] })
unfolding log
log-cases t db = elim (Bool-cases (any (λ (u : Trial). str_eq u.run_key t.run_key) db.trials)) [
  | inl there ↦ inl (rw there refl)
  | inr fresh ↦ elim (Bool-cases (has_spec t.spec_id db.specs)) [
    | inl known ↦ inr (rw (fresh, known) refl)
    | inr unknown ↦ inl (rw (fresh, unknown) refl)
  ]
]

log-executed :
    (id : String) (t : Trial) (db : Db) (n : ℕ)
    → executed id db.trials + (if is_executed id t then 1 else 0) ≤ n
    → executed id (log t db).1.trials ≤ n
unfolding executed
log-executed id t db n h = elim (log-cases t db) [
  | inl e ↦ rw e (ground arith)
  | inr e ↦ rw (e, count_where-append (is_executed id) db.trials t) h
]

room :
    (sid id : String) (budget n : ℕ) (ts : List Trial)
    → (str_eq sid id ≡ true → budget ≡ n)
    → leb budget (spec_trial_count sid ts) ≡ false
    → executed id ts ≤ n
    → executed id ts + (if str_eq sid id && true && true then 1 else 0) ≤ n
room sid id budget n ts own left h = elim (Bool-cases (str_eq sid id)) [
  | inr other ↦ rw other (omega (arith, h))
  | inl same ↦
      let free : leb budget (spec_trial_count id ts) ≡ false =
        rw ((str_eq_iff sid id).0 same) at left in
      let le = executed_le id ts in let all_of = own same in rw same (ground arith)
]

-- A spec that runs under the budget n, or another one than `id`.
abbrev pub Allows : String → ℕ → Spec → Type 0
Allows id n s = str_eq s.spec_id id ≡ true → s.search_budget ≡ n

module _ {D : Type 0} (engine : Engine D) (id : String) (n : ℕ) where
  checked-executed :
      (o : Option Fault) (next : Action Db Run) (db : Db)
      → executed id db.trials ≤ n
      → executed id (next db).1.trials ≤ n
      → executed id (checked_run o next db).1.trials ≤ n
  checked-executed none next db h hn = hn
  checked-executed (some fault) next db h hn = h

  cached-executed :
      (o : Option Stats) (next : Action Db Run) (db : Db)
      → executed id db.trials ≤ n
      → executed id (next db).1.trials ≤ n
      → executed id (cached_run o next db).1.trials ≤ n
  cached-executed none next db h hn = hn
  cached-executed (some stats) next db h hn = h

  fresh_run-executed :
      (s : Spec) (params : Dict) (close : D) (seed : ℕ) (seat : String) (db : Db)
      → Allows id n s
      → executed id db.trials ≤ n
      → executed id (fresh_run engine s params close seed seat db).1.trials ≤ n
  unfolding fresh_run
  fresh_run-executed s params close seed seat db own h =
      elim (Bool-cases (leb s.search_budget (spec_trial_count s.spec_id db.trials))) [
        | inl spent ↦ rw spent (log-executed id _ db n (ground arith))
        | inr left ↦ elim (Bool-cases (engine.has_nan close)) [
          | inl missing ↦ rw (left, missing) h
          | inr whole_data ↦ elim (Bool-cases (engine.is_short close)) [
            | inl short ↦ rw (left, whole_data, short) h
            | inr enough ↦
                rw (left, whole_data, enough)
                  (log-executed id _ db n
                    (room s.spec_id id s.search_budget n db.trials own left h))
          ]
        ]
      ]

  run_backtest-executed :
      (s : Spec) (params : Dict) (close : D) (seed : ℕ) (seat : String) (db : Db)
      → Allows id n s
      → executed id db.trials ≤ n
      → executed id (run_backtest engine s params close seed seat db).1.trials ≤ n
  unfolding run_backtest
  run_backtest-executed s params close seed seat db own h =
      elim (Bool-cases (engine.rule_known s.content)) [
        | inr unknown ↦ rw unknown h
        | inl known ↦ rw known (
            checked-executed (engine_checks engine s params) _ db h (
              cached-executed (get (engine.run_key s.spec_id params close seed) db.trials) _ db h
                (fresh_run-executed s params close seed seat db own h)))
      ]

consume-trials :
    (spec_id run_key : String) (passed : Bool) (db : Db)
    → (consume_holdout spec_id run_key passed db).1.trials ≡ db.trials
unfolding consume_holdout
consume-trials spec_id run_key passed db =
    elim (Bool-cases (any (λ (h : Holdout). str_eq h.spec_id spec_id) db.holdouts)) [
      | inl there ↦ rw there refl
      | inr fresh ↦
          elim (Bool-cases (
            has_spec spec_id db.specs && any (λ (t : Trial). str_eq t.run_key run_key) db.trials)) [
              | inl known ↦ rw (fresh, known) refl
              | inr unknown ↦ rw (fresh, unknown) refl
            ]
    ]

touch-trials :
    (spec_id run_key : String) (passed : Bool) (detail : String) (r : Result (Unit {0})) (db : Db)
    → (touch_then spec_id run_key passed detail r db).1.trials ≡ db.trials
touch-trials spec_id run_key passed detail (ok _) db = consume-trials spec_id run_key passed db
touch-trials spec_id run_key passed detail (err e) db = refl

unexecuted :
    (id sid : String) (n : ℕ) (ts : List Trial)
    → executed id ts ≤ n
    → executed id ts + (if str_eq sid id && false && true then 1 else 0) ≤ n
unexecuted id sid n ts h = elim (Bool-cases (str_eq sid id)) [
  | inl same ↦ rw same (ground arith)
  | inr other ↦ rw other (ground arith)
]

-- What becomes of the registry, run by run.
pub data Attempt (D : Type 0) : Type 0 where
  run : Spec → Dict → D → (seed : ℕ) → (seat : String) → Attempt D
  holdout : Spec → Dict → D → Attempt D

abbrev pub spec_of : {D : Type 0} → Attempt D → Spec
spec_of (run s params close seed seat) = s
spec_of (holdout s params close) = s

module _ {D : Type 0} (engine : Engine D) where
  unfoldable pub attempt : Attempt D → Db → Db
  unfolding run_backtest evaluate_holdout
  attempt (run s params close seed seat) db = (run_backtest engine s params close seed seat db).1
  attempt (holdout s params close) db = (evaluate_holdout engine s params close db).1

  unfoldable pub attempts : List (Attempt D) → Db → Db
  unfolding attempt
  attempts [] db = db
  attempts (a ∷ more) db = attempts more (attempt a db)

  attempt-executed :
      (id : String) (n : ℕ) (a : Attempt D) (db : Db)
      → Allows id n (spec_of a)
      → executed id db.trials ≤ n
      → executed id (attempt a db).trials ≤ n
  unfolding attempt evaluate_holdout
  attempt-executed id n (run s params close seed seat) db own h =
      run_backtest-executed engine id n s params close seed seat db own h
  attempt-executed id n (holdout s params close) db own h =
      rw
        (touch-trials s.spec_id (engine.holdout_run_key s.spec_id params close)
          (engine.holdout_passes (engine.compute_holdout s.content params close))
          (engine.compute_holdout s.content params close)
          (log (holdout_trial engine s params close) db).0
          (log (holdout_trial engine s params close) db).1)
        (log-executed id (holdout_trial engine s params close) db n
          (unexecuted id s.spec_id n db.trials h))

  -- While a spec's engine runs outside the holdout are within its search budget, they stay within it after
  -- any sequence of runs and holdout evaluations of any specs, by any seats, at any points and seeds,
  -- refused or not, where whatever carries the spec's id carries its budget.
  pub attempts_budget :
      (id : String) (n : ℕ) (todo : List (Attempt D)) (db : Db)
      → All (λ (a : Attempt D). Allows id n (spec_of a)) todo
      → executed id db.trials ≤ n
      → executed id (attempts todo db).trials ≤ n
  unfolding attempts
  attempts_budget id n [] db own h = h
  attempts_budget id n (a ∷ more) db own h =
      attempts_budget id n more (attempt a db) own.1 (attempt-executed id n a db own.0 h)
