-- ===== src/Orchestrator/Daily/Turns/Decide.antt =====
-- After the decision stage every active ticker carries a decision.
use fund.State.Keys.{next_decision_id}
use fund.Python.Actions.{Result, ok, Action, err}
use fund.Orchestrator.Broker.{Sys}
use fund.State.Rows.{Critique, Decision, Time, Db, hold, submitted}
use fund.Orchestrator.Daily.Turns.{
  Turn, fill_holds, insert_default_critiques, critiqued, run_decision, decided, take, after_turn,
  default_hold, open_decisions, hold_decision,
}
use fund.Base.{
  none, true, [], ◌∷◌, String, List, Grown, if◌then◌else◌, ◌≡◌, All, Bool-cases, Grown-refl, ◌++◌,
  Grown-trans, any-Grown, inl, inr, ◌⊎◌, any-append_last, refl, some, str_eq_refl, ap,
}

-- The rows that the stage adds: holds of nothing, submitted, on the day.
abbrev IsHold : String → Decision → Type 0
IsHold run_date d =
    (d.action ≡ hold)
    × (d.qty ≡ 0)
    × (d.stop_price ≡ none)
    × (d.status ≡ submitted)
    × (d.run_date ≡ run_date)

abbrev pub OnlyHolds : String → List Decision → List Decision → Type 0
OnlyHolds run_date = Grown (IsHold run_date)

abbrev step : String → Time → String → Db → Db
step run_date now t db =
    if decided run_date db.decisions t then db else default_hold run_date now t db

step-OnlyHolds :
    (run_date : String) (now : Time) (t : String) (db : Db)
    → OnlyHolds run_date db.decisions (step run_date now t db).decisions
step-OnlyHolds run_date now t db = elim (Bool-cases (decided run_date db.decisions t)) [
  | inl there ↦ rw there (Grown-refl (IsHold run_date) db.decisions)
  | inr missing ↦ rw missing (
    record (hold_decision run_date t) { id = next_decision_id db.decisions } ∷ [],
    refl,
    ((refl, refl, refl, refl, refl), tt),
  )
]

step-decided :
    (run_date : String) (now : Time) (t : String) (db : Db)
    → decided run_date (step run_date now t db).decisions t ≡ true
step-decided run_date now t db = elim (Bool-cases (decided run_date db.decisions t)) [
  | inl there ↦ rw there there
  | inr missing ↦
      rw missing (any-append_last _ db.decisions _ (rw (str_eq_refl run_date, str_eq_refl t) refl))
]

fill-OnlyHolds :
    (run_date : String) (now : Time) (ts : List String) (db : Db)
    → OnlyHolds run_date db.decisions (fill_holds run_date now ts db).decisions
unfolding fill_holds
fill-OnlyHolds run_date now [] db = Grown-refl (IsHold run_date) db.decisions
fill-OnlyHolds run_date now (t ∷ ts) db =
    Grown-trans (IsHold run_date) db.decisions (step run_date now t db).decisions _
      (step-OnlyHolds run_date now t db) (fill-OnlyHolds run_date now ts (step run_date now t db))

fill-decided :
    (run_date : String) (now : Time) (ts : List String) (db : Db)
    → All (λ t. decided run_date (fill_holds run_date now ts db).decisions t ≡ true) ts
unfolding fill_holds
fill-decided run_date now [] db = tt
fill-decided run_date now (t ∷ ts) db =
    let db1 = step run_date now t db in
    (
      any-Grown (IsHold run_date) _ db1.decisions _ (fill-OnlyHolds run_date now ts db1)
          (step-decided run_date now t db),
      fill-decided run_date now ts db1,
    )

-- Critiques that the orchestrator itself wrote are added after those that there were.
abbrev pub IsPlaceholder : String → (note : String) → Critique → Type 0
IsPlaceholder run_date note c = (c.run_date ≡ run_date) × (c.note ≡ note)

abbrev critique_step : String → String → String → List Critique → List Critique
critique_step run_date note t cs =
    if critiqued run_date cs t
    then cs
    else cs ++ record { run_date = run_date; ticker = t; note = note } ∷ []

critique-Grown :
    (run_date note t : String) (cs : List Critique)
    → Grown (IsPlaceholder run_date note) cs (critique_step run_date note t cs)
critique-Grown run_date note t cs = elim (Bool-cases (critiqued run_date cs t)) [
  | inl there ↦ rw there (Grown-refl (IsPlaceholder run_date note) cs)
  | inr missing ↦
      rw missing
        (record { run_date = run_date; ticker = t; note = note } ∷ [], refl, ((refl, refl), tt))
]

critique-there :
    (run_date note t : String) (cs : List Critique)
    → critiqued run_date (critique_step run_date note t cs) t ≡ true
critique-there run_date note t cs = elim (Bool-cases (critiqued run_date cs t)) [
  | inl there ↦ rw there there
  | inr missing ↦
      rw missing (any-append_last _ cs _ (rw (str_eq_refl run_date, str_eq_refl t) refl))
]

critiques-Grown :
    (run_date note : String) (ts : List String) (cs : List Critique)
    → Grown (IsPlaceholder run_date note) cs (insert_default_critiques run_date ts note cs)
unfolding insert_default_critiques
critiques-Grown run_date note [] cs = Grown-refl (IsPlaceholder run_date note) cs
critiques-Grown run_date note (t ∷ ts) cs =
    Grown-trans (IsPlaceholder run_date note) cs (critique_step run_date note t cs) _
      (critique-Grown run_date note t cs)
      (critiques-Grown run_date note ts (critique_step run_date note t cs))

-- After the default critiques every ticker carries one, which no submission is refused for, and the
-- critiques that there were are all kept, in front.
pub insert_default_critiques-covers :
    (run_date note : String) (ts : List String) (cs : List Critique)
    → Grown (IsPlaceholder run_date note) cs (insert_default_critiques run_date ts note cs)
      × All (λ t. critiqued run_date (insert_default_critiques run_date ts note cs) t ≡ true) ts
unfolding insert_default_critiques
insert_default_critiques-covers run_date note [] cs =
    (Grown-refl (IsPlaceholder run_date note) cs, tt)
insert_default_critiques-covers run_date note (t ∷ ts) cs =
    let cs1 = critique_step run_date note t cs in
    let rest = insert_default_critiques-covers run_date note ts cs1 in
    (
      critiques-Grown run_date note (t ∷ ts) cs,
      (
        any-Grown (IsPlaceholder run_date note) _ cs1 _ rest.0 (critique-there run_date note t cs),
        rest.1,
      ),
    )

-- How the stage ends. It is done: every active ticker is decided on, and what was added after the
-- turn is holds. Or the turn raised.
abbrev pub Decided :
    {W : Type 0} → Turn W → String → List String → Sys W → Result (Unit {0}) × Sys W → Type 0
Decided {W} turn run_date active s (ok _, s') =
    All (λ t. decided run_date s'.db.decisions t ≡ true) active
    × (ds : List Decision) × OnlyHolds run_date ds s'.db.decisions
    × ((ds ≡ s.db.decisions)
        ⊎ ((act : Action (Sys W) (Unit {0})) × (turn ≡ some act)
            × ((act (record s { db = open_decisions run_date active s.db })).1.db.decisions ≡ ds)))
Decided {W} turn run_date active s (err e, s') =
    (act : Action (Sys W) (Unit {0})) × (turn ≡ some act)
    × ((act (record s { db = open_decisions run_date active s.db })).0 ≡ err e)

module _ {W : Type 0} (run_date : String) (active : List String) (later : Time) where
  -- When the decision stage is done every active ticker carries a decision of the day, whatever the
  -- PM's turn did; the turn starts from the store with the default critiques; and the rows that the
  -- stage adds after it are submitted holds of no shares. It raises only what the turn raised.
  pub run_decision-Decided :
      (turn : Turn W) (s : Sys W)
      → Decided turn run_date active s (run_decision turn run_date active later s)
  unfolding run_decision take after_turn open_decisions
  run_decision-Decided none s = (
    fill-decided run_date later active (open_decisions run_date active s.db),
    s.db.decisions,
    fill-OnlyHolds run_date later active (open_decisions run_date active s.db),
    inl refl,
  )
  run_decision-Decided (some act) s =
      ended (act (record s { db = open_decisions run_date active s.db })) refl
    where
      ended :
          (m : Result (Unit {0}) × Sys W)
          → act (record s { db = open_decisions run_date active s.db }) ≡ m
          → Decided (some act) run_date active s (after_turn m (fill_holds run_date later active))
      ended (err e, s') did = (act, refl, ap (λ m. m.0) did)
      ended (ok tt, s') did = (
        fill-decided run_date later active s'.db,
        s'.db.decisions,
        fill-OnlyHolds run_date later active s'.db,
        inr (act, refl, ap (λ (m : Result (Unit {0}) × Sys W). m.1.db.decisions) did),
      )
