-- ===== src/Orchestrator/Daily/Turns/Research.antt =====
-- After the research stage every seat has spoken on every ticker, or is recorded as silent.
use fund.Python.Actions.{Result, err, ok, Action}
use fund.Orchestrator.Broker.{Sys}
use fund.State.Rows.{Signal, neutral, Db}
use fund.Orchestrator.Daily.Turns.{
  fill_signals, Wanted, has_signal, insert_signal, default_signal, Turn, after_turn, run_research,
  take, wanted_of,
}
use fund.Base.{
  none, true, false, [], ◌∷◌, List, String, Bool, ◌≡◌, All, Bool-cases, if◌then◌else◌, ap, inl, inr,
  refl, str_eq_refl, is_empty, some, not, all, ◌⊎◌, Grown, Grown-refl, any-Grown, Grown-trans,
  any-append_last,
}

-- Rows added, all of them neutral, with confidence 0.
abbrev IsDefault : Signal → Type 0
IsDefault s = (s.direction ≡ neutral) × (s.confidence ≡ 0)

abbrev pub OnlyDefaults : List Signal → List Signal → Type 0
OnlyDefaults = Grown IsDefault

-- One round of the loop.
abbrev step : String → List Signal → Wanted → List Signal → List Signal
step run_date covered w ss =
    if has_signal run_date covered w then ss else insert_signal run_date w ss

step-OnlyDefaults :
    (run_date : String) (covered : List Signal) (w : Wanted) (ss : List Signal)
    → OnlyDefaults ss (step run_date covered w ss)
step-OnlyDefaults run_date covered w ss = elim (Bool-cases (has_signal run_date covered w)) [
  | inl known ↦ rw known (Grown-refl IsDefault ss)
  | inr silent ↦ elim (Bool-cases (has_signal run_date ss w)) [
    | inl there ↦ rw (silent, there) (Grown-refl IsDefault ss)
    | inr missing ↦ rw (silent, missing) (default_signal run_date w ∷ [], refl, ((refl, refl), tt))
  ]
]

fill-OnlyDefaults :
    (run_date : String) (covered : List Signal) (ws : List Wanted) (ss : List Signal)
    → OnlyDefaults ss (fill_signals run_date covered ws ss)
unfolding fill_signals
fill-OnlyDefaults run_date covered [] ss = Grown-refl IsDefault ss
fill-OnlyDefaults run_date covered (w ∷ ws) ss =
    Grown-trans IsDefault ss (step run_date covered w ss) _
      (step-OnlyDefaults run_date covered w ss)
      (fill-OnlyDefaults run_date covered ws (step run_date covered w ss))

step-covers :
    (run_date : String) (covered : List Signal) (w : Wanted) (ss : List Signal)
    → OnlyDefaults covered ss
    → has_signal run_date (step run_date covered w ss) w ≡ true
step-covers run_date covered w ss grown = elim (Bool-cases (has_signal run_date covered w)) [
  | inl known ↦ rw known (any-Grown IsDefault _ covered ss grown known)
  | inr silent ↦ elim (Bool-cases (has_signal run_date ss w)) [
    | inl there ↦ rw (silent, there) there
    | inr missing ↦
        rw (silent, missing)
          (any-append_last _ ss (default_signal run_date w)
            (rw (str_eq_refl run_date, str_eq_refl w.0, str_eq_refl w.1) refl))
  ]
]

fill-covers :
    (run_date : String) (covered : List Signal) (ws : List Wanted) (ss : List Signal)
    → OnlyDefaults covered ss
    → All (λ w. has_signal run_date (fill_signals run_date covered ws ss) w ≡ true) ws
unfolding fill_signals
fill-covers run_date covered [] ss grown = tt
fill-covers run_date covered (w ∷ ws) ss grown =
    let ss1 = step run_date covered w ss in
    (
      any-Grown IsDefault _ ss1 _ (fill-OnlyDefaults run_date covered ws ss1)
          (step-covers run_date covered w ss grown),
      fill-covers run_date covered ws ss1
          (Grown-trans IsDefault covered ss ss1 grown (step-OnlyDefaults run_date covered w ss)),
    )

-- How the stage ends. It is done: every seat has a signal on every active ticker, and what was added
-- after the turn is neutral with confidence 0. Or it raised: there is no seat, or the turn raised it.
abbrev pub Reported :
    {W : Type 0}
    → Turn W
    → String
    → (seats active : List String) → Sys W
    → Result (Unit {0}) × Sys W
    → Type 0
Reported {W} turn run_date seats active s (ok _, s') =
    All (λ w. has_signal run_date s'.db.signals w ≡ true) (wanted_of seats active)
    × (ss : List Signal) × OnlyDefaults ss s'.db.signals
    × ((ss ≡ s.db.signals)
        ⊎ ((act : Action (Sys W) (Unit {0})) × (turn ≡ some act) × ((act s).1.db.signals ≡ ss)))
Reported {W} turn run_date seats active s (err e, s') =
    (is_empty seats ≡ true)
    ⊎ ((act : Action (Sys W) (Unit {0})) × (turn ≡ some act) × ((act s).0 ≡ err e))

abbrev defaults : String → (seats active : List String) → Db → Db
defaults run_date seats active db = record db {
  signals = fill_signals run_date db.signals (wanted_of seats active) db.signals;
}

module _ {W : Type 0} (run_date : String) (seats active : List String) where
  abbrev Asked : Turn W → Sys W → Result (Unit {0}) × Sys W → Type 0
  Asked turn s m =
      (m ≡ (ok tt, s)) ⊎ ((act : Action (Sys W) (Unit {0})) × (turn ≡ some act) × (act s ≡ m))

  take-Asked : (turn : Turn W) (needed : Bool) (s : Sys W) → Asked turn s (take turn needed s)
  unfolding take
  take-Asked none needed s = inl refl
  take-Asked (some act) true s = inr (act, refl, refl)
  take-Asked (some act) false s = inl refl

  after-Reported :
      (turn : Turn W) (s : Sys W) (m : Result (Unit {0}) × Sys W)
      → Asked turn s m
      → Reported turn run_date seats active s (after_turn m (defaults run_date seats active))
  unfolding after_turn
  after-Reported turn s (err e, s') (inl same) = cc
  after-Reported turn s (err e, s') (inr (act, is_turn, did)) =
      inr (act, is_turn, ap (λ m. m.0) did)
  after-Reported turn s (ok tt, s') asked = (
    fill-covers run_date s'.db.signals (wanted_of seats active) s'.db.signals
        (Grown-refl IsDefault s'.db.signals),
    s'.db.signals,
    fill-OnlyDefaults run_date s'.db.signals (wanted_of seats active) s'.db.signals,
    whence asked,
  )
    where
      whence :
          Asked turn s (ok tt, s')
          → (s'.db.signals ≡ s.db.signals)
            ⊎ ((act : Action (Sys W) (Unit {0})) × (turn ≡ some act)
                × ((act s).1.db.signals ≡ s'.db.signals))
      whence (inl same) = inl (ap (λ (m : Result (Unit {0}) × Sys W). m.1.db.signals) same)
      whence (inr (act, is_turn, did)) =
          inr (act, is_turn, ap (λ (m : Result (Unit {0}) × Sys W). m.1.db.signals) did)

  -- When the research stage is done every seat holds a signal of the day on every active ticker,
  -- whatever its turn did, and the rows that the stage itself added are neutral with confidence 0, after
  -- all the others. It raises only where there is no seat or where the turn raised the same exception.
  pub run_research-Reported :
      (turn : Turn W) (s : Sys W)
      → Reported turn run_date seats active s (run_research turn run_date seats active s)
  unfolding run_research
  run_research-Reported turn s = elim (Bool-cases (is_empty seats)) [
    | inl nobody ↦ rw nobody (inl nobody)
    | inr manned ↦ rw manned (
        after-Reported turn s
          (take turn (not (all (has_signal run_date s.db.signals) (wanted_of seats active))) s)
          (take-Asked turn (not (all (has_signal run_date s.db.signals) (wanted_of seats active)))
            s))
  ]
