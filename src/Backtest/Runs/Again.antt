-- ===== src/Backtest/Runs/Again.antt =====
-- A run that is asked for again comes out of the registry.
use fund.Backtest.Params.{Fault}
use fund.State.Specs.{has_spec}
use fund.Backtest.Runs.{
  Engine, Run, answer_log, returned, fresh_run, cached_run, refused_run, run_backtest, trial_of,
  checked_run, engine_checks,
}
use fund.Base.{
  none, some, true, false, inl, inr, refl, String, Bool, List, ℕ, ◌≡◌, Bool-cases, Option, any,
  ◌++◌, leb, str_eq, ◌∷◌, [], str_eq_refl, ◌∙◌, ap, ◌+◌,
}
use fund.Python.Actions.{ok, err, Result}
use fund.Python.Values.{Dict}
use fund.Backtest.Registry.{get, log, spec_trial_count, family_n}
use fund.State.Rows.{budget_exhausted, result, Stats, Trial, Db, Spec}

get-missing :
    (k : String) (ts : List Trial)
    → get k ts ≡ none
    → any (λ (u : Trial). str_eq u.run_key k) ts ≡ false
unfolding get
get-missing k [] h = refl
get-missing k (t ∷ ts) h = elim (Bool-cases (str_eq t.run_key k)) [
  | inl hit ↦ cc (rw hit at h)
  | inr miss ↦ rw miss (get-missing k ts (rw miss at h))
]

get-append :
    (t : Trial) (ts : List Trial)
    → get t.run_key ts ≡ none
    → get t.run_key (ts ++ t ∷ []) ≡ some t.stats
unfolding get
get-append t [] h = rw (str_eq_refl t.run_key) refl
get-append t (u ∷ ts) h = elim (Bool-cases (str_eq u.run_key t.run_key)) [
  | inl hit ↦ cc (rw hit at h)
  | inr miss ↦ rw miss (get-append t ts (rw miss at h))
]

log-get :
    (t : Trial) (db : Db)
    → get t.run_key db.trials ≡ none
    → (log t db).0 ≡ ok tt
    → get t.run_key (log t db).1.trials ≡ some t.stats
unfolding log
log-get t db new logged =
    let fresh = get-missing t.run_key db.trials new in
    elim (Bool-cases (has_spec t.spec_id db.specs)) [
      | inl known ↦ rw (fresh, known) (get-append t db.trials new)
      | inr unknown ↦ cc (rw (fresh, unknown) at logged)
    ]

-- An answer that comes after a log.
answer_ok :
    (answer : Run) (r : Result (Unit {0})) (stats : Stats) (cached : Bool)
    → answer_log answer r ≡ ok (returned stats cached)
    → (r ≡ ok tt) × (answer ≡ returned stats cached)
answer_ok answer (ok _) stats cached h = (refl, cc)
answer_ok answer (err e) stats cached h = cc

same_stats : (a b : Stats) (c d : Bool) → returned a c ≡ returned b d → a ≡ b
same_stats a b c d h = cc

same_ok :
    (a b : Stats) (c d : Bool)
    → ◌≡◌ {A = Result Run} (ok (returned a c)) (ok (returned b d))
    → a ≡ b
same_ok a b c d h = cc

module _ {D : Type 0} (engine : Engine D) (s : Spec) (params : Dict) (close : D) (seed : ℕ) where
  abbrev key : String
  key = engine.run_key s.spec_id params close seed

  abbrev new_trial : String → Db → Trial
  new_trial seat db =
      trial_of engine s params close seed seat
        (result (engine.compute s.content params close (family_n s.family db.trials + 1) db.trials))

  -- Of a fresh run that returns, the registry holds the statistics.
  fresh-stored :
      (seat : String) (db : Db) (stats : Stats) (cached : Bool)
      → get key db.trials ≡ none
      → (fresh_run engine s params close seed seat db).0 ≡ ok (returned stats cached)
      → get key (fresh_run engine s params close seed seat db).1.trials ≡ some stats
  unfolding fresh_run
  fresh-stored seat db stats cached new h =
      elim (Bool-cases (leb s.search_budget (spec_trial_count s.spec_id db.trials))) [
        | inl spent ↦
            cc
              (answer_ok (refused_run "budget_exhausted")
                (log (trial_of engine s params close seed seat budget_exhausted) db).0 stats cached
                (rw spent at h)).1
        | inr left ↦ elim (Bool-cases (engine.has_nan close)) [
          | inl missing ↦ cc (rw (left, missing) at h)
          | inr whole_data ↦ elim (Bool-cases (engine.is_short close)) [
            | inl short ↦ cc (rw (left, whole_data, short) at h)
            | inr enough ↦
                let t = new_trial seat db in
                let said =
                  answer_ok (returned t.stats false) (log t db).0 stats cached
                    (rw (left, whole_data, enough) at h) in
                rw (left, whole_data, enough)
                  (log-get t db new (said.0)
                    ∙ ap some (same_stats t.stats stats false cached said.1))
          ]
        ]
      ]

  cached-stored :
      (o : Option Stats) (seat : String) (db : Db) (stats : Stats) (cached : Bool)
      → get key db.trials ≡ o
      → (cached_run o (fresh_run engine s params close seed seat) db).0 ≡ ok (returned stats cached)
      → get key (cached_run o (fresh_run engine s params close seed seat) db).1.trials ≡ some stats
  cached-stored none seat db stats cached e h = fresh-stored seat db stats cached e h
  cached-stored (some old) seat db stats cached e h = e ∙ ap some (same_ok old stats true cached h)

  checked-stored :
      (o : Option Fault) (seat : String) (db : Db) (stats : Stats) (cached : Bool)
      → let next = cached_run (get key db.trials) (fresh_run engine s params close seed seat) in
        (checked_run o next db).0 ≡ ok (returned stats cached)
        → (o ≡ none) × (get key (checked_run o next db).1.trials ≡ some stats)
  checked-stored none seat db stats cached h =
      (refl, cached-stored (get key db.trials) seat db stats cached refl h)
  checked-stored (some fault) seat db stats cached h = cc

  -- A run that returned statistics, asked for again by any seat, with the same spec, point, data and
  -- seed, returns the same statistics out of the registry and changes nothing: no second trial counts.
  pub run_backtest_twice :
      (seat seat' : String) (db : Db) (stats : Stats) (cached : Bool)
      → let first = run_backtest engine s params close seed seat db in
        first.0 ≡ ok (returned stats cached)
        → run_backtest engine s params close seed seat' first.1
          ≡ (ok (returned stats true), first.1)
  unfolding run_backtest
  run_backtest_twice seat seat' db stats cached h =
      elim (Bool-cases (engine.rule_known s.content)) [
        | inr unknown ↦ cc (rw unknown at h)
        | inl known ↦
            let stored =
              checked-stored (engine_checks engine s params) seat db stats cached (rw known at h) in
            rw (known, stored.0, rw stored.0 at stored.1) refl
      ]

  -- A run that returned statistics has them in the registry.
  pub run_backtest-stored :
      (seat : String) (db : Db) (stats : Stats) (cached : Bool)
      → (run_backtest engine s params close seed seat db).0 ≡ ok (returned stats cached)
      → get key (run_backtest engine s params close seed seat db).1.trials ≡ some stats
  unfolding run_backtest
  run_backtest-stored seat db stats cached h = elim (Bool-cases (engine.rule_known s.content)) [
    | inr unknown ↦ cc (rw unknown at h)
    | inl known ↦
        rw known
          (checked-stored (engine_checks engine s params) seat db stats cached (rw known at h)).1
  ]
