-- ===== src/Orchestrator/Improve/Weights/Twice.antt =====
-- What is planned for the seats, and that nothing is planned again on the store that it left.
use fund.Calibration.{Row, scoreboard_rows}
use fund.Orchestrator.Improve.Weights.Nightly.{Hashed, IsOf, NotLater, upsert_all-Hashed}
use fund.State.Rows.{Db, Time, Weight}
use fund.Python.Floats.{Float}
use fund.Orchestrator.Improve.{Config, behaviour, window_dates}
use fund.Base.{
  ◌≡◌, String, ◌⊎◌, Option, List, inl, inr, All, Bool, refl, some, any, true, ◌∷◌, Bool-cases,
  arith, false, str_eq, All-imp, subst, str_eq_refl, not, [], not-false, none, ap, select,
}
use fund.Orchestrator.Improve.Weights.{
  Scoring, AgentScore, digest_of, Plan, row_for, add_row, is_sound, window_of, plan, has_hash,
  no_plan, latest, planned, Report, write_weights, carry_out, upsert_all, commit, scored,
}
use fund.Python.Actions.{Result, ok, Error, err}
use fund.Gate.Risk.{Arith}

Result-cases : {A : Type 0} (r : Result A) → ((x : A) × (r ≡ ok x)) ⊎ ((e : Error) × (r ≡ err e))
Result-cases (ok x) = inl (x, refl)
Result-cases (err e) = inr (e, refl)

module _ (a : Arith) (scoring_of : Scoring) (cfg : Config) (as_of : String)
    (weights : String → Option Float) where
  abbrev has_row : String → List Weight → Bool
  has_row seat rows = any (λ (w : Weight). str_eq w.agent seat) rows

  module _ (db : Db) where
    abbrev digest : String → String
    digest = digest_of a scoring_of cfg db as_of

    abbrev row_of_score : AgentScore → Float → Time → Weight
    row_of_score score weight now =
        row_for a scoring_of cfg score weight (window_of a scoring_of cfg db as_of score.seat)
          (digest score.seat) as_of now

    abbrev IsUnsound : AgentScore → Type 0
    IsUnsound score =
        (weight : Float) × (weights score.seat ≡ some weight)
        × ((now : Time) → is_sound (row_of_score score weight now) ≡ false)

    abbrev IsPlanned : List Weight → AgentScore → Type 0
    IsPlanned rows score =
        Hashed digest db.weights score.seat ⊎ IsUnsound score ⊎ (has_row score.seat rows ≡ true)

    more_rows :
        (row : Weight) (rows : List Weight) (scores : List AgentScore)
        → All (IsPlanned rows) scores
        → All (IsPlanned (row ∷ rows)) scores
    more_rows row rows scores h = All-imp (IsPlanned rows) (IsPlanned (row ∷ rows)) scores one h
      where
        one : (score : AgentScore) → IsPlanned rows score → IsPlanned (row ∷ rows) score
        one score (inl hashed) = inl hashed
        one score (inr (inl unsound)) = inr (inl unsound)
        one score (inr (inr there)) = inr (inr (ground arith))

    abbrev Planned : List AgentScore → Plan → Type 0
    Planned scores p = All (IsOf digest as_of) p.rows × All (IsPlanned p.rows) scores

    module _ (now : Time) (score : AgentScore) (scores : List AgentScore) (p0 : Plan)
        (before : Planned scores p0) where
      with_weight :
          (weight : Float) (p : Plan)
          → weights score.seat ≡ some weight
          → add_row (row_of_score score weight now) p0 ≡ p
          → Planned (score ∷ scores) p
      with_weight weight p given is_p =
          elim (Bool-cases (is_sound (row_of_score score weight now))) [
            | inl sound ↦ subst (Planned (score ∷ scores)) (rw sound at is_p) (
              ((refl, refl), before.0),
              (
                inr (inr (rw (str_eq_refl score.seat) refl)),
                more_rows (row_of_score score weight now) p0.rows scores before.1,
              ),
            )
            | inr unsound ↦
                subst (Planned (score ∷ scores)) (rw unsound at is_p)
                  (before.0, (inr (inl (weight, given, λ _. unsound)), before.1))
          ]

      one_planned :
          (weight : Option Float) (changed : Bool) (p : Plan)
          → weights score.seat ≡ weight
          → not (has_hash (latest score.seat db.weights) (digest score.seat)) ≡ changed
          → planned a scoring_of cfg db as_of now score weight changed (ok p0) ≡ ok p
          → Planned (score ∷ scores) p
      one_planned weight false p given hash is_p =
          let same : record p0 { unchanged = score.seat ∷ p0.unchanged } ≡ p = cc in
          subst (Planned (score ∷ scores)) same (before.0, (inl (not-false _ hash), before.1))
      one_planned none true p given hash is_p = cc
      one_planned (some weight) true p given hash is_p = with_weight weight p given (cc)

    plan-Planned :
        (now : Time) (scores : List AgentScore) (p : Plan)
        → plan a scoring_of cfg db as_of now weights scores ≡ ok p
        → Planned scores p
    unfolding plan
    plan-Planned now [] p is_p = let same : no_plan ≡ p = cc in subst (Planned []) same (tt, tt)
    plan-Planned now (score ∷ scores) p is_p =
        elim (Result-cases (plan a scoring_of cfg db as_of now weights scores)) [
          | inr (e, failed) ↦ cc (rw (failed, planned) at is_p)
          | inl (p0, rest) ↦
              one_planned now score scores p0 (plan-Planned now scores p0 rest) (weights score.seat)
                (not (has_hash (latest score.seat db.weights) (digest score.seat))) p refl refl
                (rw rest at is_p)
        ]

    -- The hash of a seat's inputs does not read the table of weights.
    behaviour-weights :
        (ws : List Weight) (seat : String) (days : List String)
        → behaviour a scoring_of.sum_of (record db { weights = ws }) seat days
          ≡ behaviour a scoring_of.sum_of db seat days
    unfolding behaviour
    behaviour-weights ws seat [] = refl
    behaviour-weights ws seat (day ∷ days) = refl

    digest-weights :
        (ws : List Weight) (seat : String)
        → digest_of a scoring_of cfg (record db { weights = ws }) as_of seat ≡ digest seat
    unfolding digest_of
    digest-weights ws seat =
        ap (scoring_of.inputs_hash (select (λ (r : Row). str_eq r.seat seat) (scoreboard_rows db)))
          (behaviour-weights ws seat (window_dates db as_of cfg.window_days))

    module _ (ws : List Weight) (later_on : Time) where
      abbrev next : Db
      next = record db { weights = ws }

      abbrev NoRows : Result Plan → Type 0
      NoRows r = (p : Plan) × (r ≡ ok p) × (p.rows ≡ [])

      no_row :
          (score : AgentScore) (weight : Option Float) (changed : Bool) (p : Plan)
          → weights score.seat ≡ weight
          → (changed ≡ false) ⊎ IsUnsound score
          → p.rows ≡ []
          → NoRows (planned a scoring_of cfg next as_of later_on score weight changed (ok p))
      no_row score weight false p given why h = (_, refl, h)
      no_row score weight true p given (inl same) h = cc
      no_row score none true p given (inr (w, is_w, unsound)) h = cc
      no_row score (some v) true p given (inr (w, is_w, unsound)) h =
          let same : w ≡ v = cc in
          let low : is_sound (row_of_score score v later_on) ≡ false =
            subst (λ x. is_sound (row_of_score score x later_on) ≡ false) same (unsound later_on) in
          rw low (_, refl, h)

      plan_again :
          (scores : List AgentScore)
          → All (λ score. Hashed digest ws score.seat ⊎ IsUnsound score) scores
          → NoRows (plan a scoring_of cfg next as_of later_on weights scores)
      unfolding plan
      plan_again [] h = (no_plan, refl, refl)
      plan_again (score ∷ scores) h =
          let (p, rest, empty) = plan_again scores h.1 in
          rw rest (
            no_row score (weights score.seat)
              (not (
                has_hash (latest score.seat ws) (digest_of a scoring_of cfg next as_of score.seat)))
              p refl (unchanged_or h.0) empty)
        where
          unchanged_or :
              Hashed digest ws score.seat ⊎ IsUnsound score
              → (not (
                    has_hash
                      (latest score.seat ws)
                      (digest_of a scoring_of cfg next as_of score.seat))
                  ≡ false)
                ⊎ IsUnsound score
          unchanged_or (inl hashed) = inl (rw (digest-weights ws score.seat, hashed) refl)
          unchanged_or (inr unsound) = inr unsound

-- A run that returns has planned its rows and written all of them.
carried :
    (db db1 : Db) (r : Result Plan) (done_as : Report)
    → carry_out db r ≡ (ok done_as, db1)
    → (p : Plan) × (r ≡ ok p)
      × (ws : List Weight) × (upsert_all p.rows db.weights ≡ ok ws)
      × (record db { weights = ws } ≡ db1)
carried db db1 (err e) done_as h = cc
carried db db1 (ok p) done_as h = elim (Result-cases (upsert_all p.rows db.weights)) [
  | inr (e, failed) ↦ cc (rw failed at h)
  | inl (ws, stored) ↦ (p, refl, ws, stored, ap (λ (m : Result Report × Db). m.1) (rw stored at h))
]

nothing_carried :
    (db : Db) (p : Plan)
    → p.rows ≡ []
    → (again : Report) × (carry_out db (ok p) ≡ (ok again, db)) × (again.written ≡ [])
unfolding upsert_all
nothing_carried db p empty = (
  record { written = []; unchanged = p.unchanged; skipped = p.skipped },
  no_rows p.rows empty,
  refl,
)
  where
    no_rows :
        (rows : List Weight)
        → rows ≡ []
        → commit db (record p { rows = rows }) (upsert_all rows db.weights)
          ≡ (ok (record { written = []; unchanged = p.unchanged; skipped = p.skipped }), db)
    no_rows rows e = rw e refl

module _ (a : Arith) (scoring_of : Scoring) (cfg : Config) (as_of : String) where
  rows-weights :
      (db : Db) (ws : List Weight)
      → scoreboard_rows (record db { weights = ws }) ≡ scoreboard_rows db
  unfolding scoreboard_rows
  rows-weights db ws = refl

  after :
      (now later_on : Time) (db : Db) (scores : List AgentScore) (weights : String → Option Float)
      (p : Plan) (ws : List Weight)
      → All (NotLater as_of) db.weights
      → plan a scoring_of cfg db as_of now weights scores ≡ ok p
      → upsert_all p.rows db.weights ≡ ok ws
      → (again : Report) × (scored a scoring_of cfg
            (record db { weights = ws })
            as_of
            later_on
            (ok (scores, weights))
          ≡ (ok again, record db { weights = ws }))
        × (again.written ≡ [])
  after now later_on db scores weights p ws h is_p stored =
      let (rows_of, all_planned) =
        plan-Planned a scoring_of cfg as_of weights db now scores p is_p in
      let (p2, again, empty) =
        plan_again a scoring_of cfg as_of weights db ws later_on scores (
          All-imp (IsPlanned a scoring_of cfg as_of weights db p.rows) _ scores kept all_planned) in
      rw again (nothing_carried (record db { weights = ws }) p2 empty)
    where
      stays :
          (score : AgentScore)
          → (has_row a scoring_of cfg as_of weights score.seat p.rows ≡ true)
            ⊎ Hashed (digest a scoring_of cfg as_of weights db) db.weights score.seat
          → Hashed (digest a scoring_of cfg as_of weights db) ws score.seat
      stays score known =
          upsert_all-Hashed (digest a scoring_of cfg as_of weights db) as_of score.seat p.rows
            db.weights ws (plan-Planned a scoring_of cfg as_of weights db now scores p is_p).0 h
            stored known

      kept :
          (score : AgentScore)
          → IsPlanned a scoring_of cfg as_of weights db p.rows score
          → Hashed (digest a scoring_of cfg as_of weights db) ws score.seat
            ⊎ IsUnsound a scoring_of cfg as_of weights db score
      kept score (inl hashed) = inl (stays score (inr hashed))
      kept score (inr (inl unsound)) = inr unsound
      kept score (inr (inr there)) = inl (stays score (inl there))

  -- The nightly job: once it has returned, a second run on the same night, at any later time, returns
  -- too, writes no row and changes nothing, in a store where no row is of a later night.
  pub write_weights_twice :
      (now later_on : Time) (db db1 : Db) (done_as : Report)
      → All (NotLater as_of) db.weights
      → write_weights a scoring_of cfg as_of now db ≡ (ok done_as, db1)
      → (again : Report) × (write_weights a scoring_of cfg as_of later_on db1 ≡ (ok again, db1))
        × (again.written ≡ [])
  unfolding write_weights
  write_weights_twice now later_on db db1 done_as h ran =
      elim (Result-cases (scoring_of.score_agents (scoreboard_rows db))) [
        | inr (e, failed) ↦ cc (rw failed at ran)
        | inl ((scores, weights), found) ↦
            let (p, is_p, ws, stored, same) =
              carried db db1 (plan a scoring_of cfg db as_of now weights scores) done_as
                (rw found at ran) in
            subst Repeats same (
              rw (rows-weights db ws, found)
                (after now later_on db scores weights p ws h is_p stored))
      ]
    where
      Repeats : Db → Type 0
      Repeats d =
          (again : Report) × (write_weights a scoring_of cfg as_of later_on d ≡ (ok again, d))
          × (again.written ≡ [])
