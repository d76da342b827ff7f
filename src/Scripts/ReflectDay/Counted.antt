-- ===== src/Scripts/ReflectDay/Counted.antt =====
-- What the night counts as reflected is stored.
use fund.Orchestrator.Broker.{Sys}
use fund.Orchestrator.Reflect.{
  Wording, reflection_frame, outcome_of, is_open, write_reflection, store_reflection, words,
}
use fund.Python.Actions.{Action, Result, ok, err}
use fund.Scripts.ReflectDay.{
  Job, Tally, has_words, written, recount, after_turn, on_frame, take_turns, is_silent, failing,
}
use fund.Slack.Outbox.{append_alert, insert}
use fund.State.Rows.{Time, Db, Resolution}
use fund.Base.{
  true, ℕ, suc, ◌+◌, ◌≤◌, ◌≡◌, String, Option, none, some, List, [], ◌∷◌, length, count_where, refl,
  Bool-cases, inl, inr, arith, ◌==◌, update_where, if◌then◌else◌,
}

-- One turn's entry in the tally.
unfoldable Entered : Job → Tally → Tally → Db → Type 0
Entered j n n' db =
    (n'.reflected + n'.failed ≡ suc (n.reflected + n.failed))
    × (n'.reflected ≤ n.reflected + (if written j db then 1 else 0))

failing-Entered : (j : Job) (n : Tally) (db : Db) → Entered j n (failing n) db
unfolding Entered
failing-Entered j n db = elim (Bool-cases (written j db)) [
  | inl there ↦ rw there (omega arith, omega arith)
  | inr missing ↦ rw missing (omega arith, omega arith)
]

recount-Entered :
    (j : Job) (o : Option Resolution) (n : Tally) (db : Db)
    → written j db ≡ has_words o
    → Entered j n (recount j o n) db
unfolding recount Entered
recount-Entered j none n db h = failing-Entered j n db
recount-Entered j (some r) n db h = elim (Bool-cases (is_silent r)) [
  | inl silent ↦ rw (h, silent) (omega arith, omega arith)
  | inr spoken ↦ rw (h, spoken) (omega arith, omega arith)
]

-- Writing a reflection takes none away.
outcome-kept :
    (i k : ℕ) (words : String) (rs : List Resolution)
    → has_words (outcome_of i rs) ≡ true
    → has_words
        (outcome_of i (update_where (is_open k) (λ r. record r { reflection = some words }) rs))
      ≡ true
outcome-kept i k words [] h = h
outcome-kept i k words (r ∷ rs) h = elim (Bool-cases (r.decision_id == i)) [
  | inl hit ↦ elim (Bool-cases (is_open k r)) [
    | inl opened ↦ rw (opened, hit) refl
    | inr closed ↦ rw (closed, hit) (rw hit at h)
  ]
  | inr miss ↦ elim (Bool-cases (is_open k r)) [
    | inl opened ↦ rw (opened, miss) (outcome-kept i k words rs (rw miss at h))
    | inr closed ↦ rw (closed, miss) (outcome-kept i k words rs (rw miss at h))
  ]
]

pub store_reflection-written :
    (wording : Wording) (i : Job) (k : ℕ) (frame prose : String) (db : Db)
    → written i db ≡ true
    → written i (store_reflection wording k frame prose db).1 ≡ true
unfolding store_reflection write_reflection written
store_reflection-written wording i k frame prose db h =
    outcome-kept i.decision_id k (words wording frame prose) db.resolutions h

module _ {W : Type 0} (wording : Wording) (clock : W → Time)
    (run_turn : Job → (frame : String) → Action (Sys W) (Unit {0})) where
  -- A turn takes no stored reflection away.
  abbrev pub Keeps : Type 0
  Keeps =
      (i j : Job) (frame : String) (s : Sys W)
      → written i s.db ≡ true
      → written i (run_turn j frame s).1.db ≡ true

  after_turn-Entered :
      (j : Job) (n : Tally) (r : Result (Unit {0}) × Sys W)
      → let (n', s') = after_turn wording clock run_turn j n r in Entered j n n' s'.db
  unfolding after_turn written
  after_turn-Entered j n (err e, s) =
      failing-Entered j n (append_alert "reflect_turn_failed" none (clock s.world) s.db)
  after_turn-Entered j n (ok u, s) =
      recount-Entered j (outcome_of j.decision_id s.db.resolutions) n s.db refl

  on_frame-Entered :
      (j : Job) (n : Tally) (o : Option String) (s : Sys W)
      → let (n', s') = on_frame wording clock run_turn j n o s in Entered j n n' s'.db
  unfolding on_frame
  on_frame-Entered j n none s = failing-Entered j n s.db
  on_frame-Entered j n (some frame) s = after_turn-Entered j n (run_turn j frame s)

  module _ (keeps : Keeps) where
    after_turn-keeps :
        (i j : Job) (n : Tally) (r : Result (Unit {0}) × Sys W)
        → written i r.1.db ≡ true
        → written i (after_turn wording clock run_turn j n r).1.db ≡ true
    unfolding after_turn written insert
    after_turn-keeps i j n (err e, s) h = h
    after_turn-keeps i j n (ok u, s) h = h

    on_frame-keeps :
        (i j : Job) (n : Tally) (o : Option String) (s : Sys W)
        → written i s.db ≡ true
        → written i (on_frame wording clock run_turn j n o s).1.db ≡ true
    unfolding on_frame
    on_frame-keeps i j n none s h = h
    on_frame-keeps i j n (some frame) s h =
        after_turn-keeps i j n (run_turn j frame s) (keeps i j frame s h)

    take_turns-keeps :
        (i : Job) (js : List Job) (n : Tally) (s : Sys W)
        → written i s.db ≡ true
        → written i (take_turns wording clock run_turn js n s).1.db ≡ true
    unfolding take_turns
    take_turns-keeps i [] n s h = h
    take_turns-keeps i (j ∷ js) n s h =
        let o = reflection_frame wording s.db j.decision_id in
        let (n1, s1) = on_frame wording clock run_turn j n o s in
        take_turns-keeps i js n1 s1 (on_frame-keeps i j n o s h)

    -- Whatever the turns answer, raise or leave undone, as long as none takes a stored reflection away:
    -- each job is counted once, as reflected or as failed, and no more are counted as reflected than
    -- jobs whose row carries a reflection at the end.
    pub take_turns_counted :
        (js : List Job) (n : Tally) (s : Sys W)
        → let (n', s') = take_turns wording clock run_turn js n s in
          (n'.reflected + n'.failed ≡ n.reflected + n.failed + length js)
          × (n'.reflected ≤ n.reflected + count_where (λ j. written j s'.db) js)
    unfolding take_turns Entered
    take_turns_counted [] n s = (omega arith, omega arith)
    take_turns_counted (j ∷ js) n s =
        let o = reflection_frame wording s.db j.decision_id in
        let (n1, s1) = on_frame wording clock run_turn j n o s in
        let (n', s') = take_turns wording clock run_turn js n1 s1 in
        let (once, stored) = on_frame-Entered j n o s in
        let (counted, bounded) = take_turns_counted js n1 s1 in
        elim (Bool-cases (written j s1.db)) [
          | inl there ↦
              rw (take_turns-keeps j js n1 s1 there)
                (omega arith, omega (arith, rw there at stored))
          | inr missing ↦ elim (Bool-cases (written j s'.db)) [
            | inl late ↦ rw late (omega arith, omega (arith, rw missing at stored))
            | inr never ↦ rw never (omega arith, omega (arith, rw missing at stored))
          ]
        ]
