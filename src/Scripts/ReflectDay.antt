-- ===== src/Scripts/ReflectDay.antt =====
-- scripts/reflect_day.py: the night's turns, one for each decision that is due a reflection. The bounds
-- of the lookback window, which audit_day.et_day_window computes from the time zone, are arguments; the
-- clock is a reading of the outside world.
pub mod Counted
use fund.Orchestrator.Broker.{Sys}
use fund.Orchestrator.Daily.Stage.{drain_into}
use fund.Orchestrator.Reflect.{Wording, reflection_frame, outcome_of}
use fund.Python.Actions.{Action, Result, ok, err}
use fund.Slack.Outbox.{append_alert, Delivery}
use fund.State.Rows.{Body, Db, Decision, Event, Resolution, Time}
use fund.Base.{
  Bool, true, false, ℕ, suc, ◌+◌, String, Option, none, some, List, [], ◌∷◌, ◌++◌, ◌&&◌, not, leb,
  ltb, ◌==◌, str_eq, if◌then◌else◌, length, is_empty, order_by, take,
}

pub record Job : Type 0 where
  pub decision_id : ℕ
  pub ticker : String
  pub run_date : String

abbrev pub max_turns_per_night : ℕ
max_turns_per_night = 25

abbrev pub is_silent : Resolution → Bool
is_silent r = elim r.reflection [ none ↦ true | some t ↦ false ]

-- The jobs of one decision: its outcomes without a reflection, unless the orchestrator wrote it.
abbrev pub jobs_of : (Resolution → Bool) → Decision → List Resolution → List Job
jobs_of resolved d [] = []
jobs_of resolved d (r ∷ rs) =
    let rest = jobs_of resolved d rs in
    if r.decision_id == d.id && is_silent r && resolved r && not (str_eq d.charter_version "none")
    then record { decision_id = d.id; ticker = d.ticker; run_date = d.run_date } ∷ rest
    else rest

abbrev pub jobs_in : (Resolution → Bool) → List Decision → List Resolution → List Job
jobs_in resolved [] rs = []
jobs_in resolved (d ∷ ds) rs = jobs_of resolved d rs ++ jobs_in resolved ds rs

abbrev pub by_id : Job → Job → Bool
by_id i j = leb i.decision_id j.decision_id

abbrev pub in_window : (start end : Time) → Resolution → Bool
in_window start end r = leb start r.resolved_at && ltb r.resolved_at end

unfoldable pub due_reflections : (start end : Time) → Db → List Job
due_reflections start end db =
    take max_turns_per_night
      (order_by by_id (jobs_in (in_window start end) db.decisions db.resolutions))

unfoldable pub due_count : (start end : Time) → Db → ℕ
due_count start end db = length (jobs_in (in_window start end) db.decisions db.resolutions)

-- Below the window: no later night selects them.
unfoldable pub aged_out_reflections : (start : Time) → Db → List Job
aged_out_reflections start db =
    order_by by_id (jobs_in (λ r. ltb r.resolved_at start) db.decisions db.resolutions)

pub record Tally : Type 0 where
  pub reflected : ℕ
  pub failed : ℕ
  pub wrote_nothing : List Job

abbrev pub failing : Tally → Tally
failing n = record n { failed = suc n.failed }

abbrev pub has_words : Option Resolution → Bool
has_words none = false
has_words (some r) = not (is_silent r)

-- Whether the job's row carries a reflection.
unfoldable pub written : Job → Db → Bool
written j db = has_words (outcome_of j.decision_id db.resolutions)

-- What the row says after the turn, whatever the turn said.
unfoldable pub recount : Job → Option Resolution → Tally → Tally
recount j none n = failing n
recount j (some r) n =
    if is_silent r
    then record (failing n) { wrote_nothing = n.wrote_nothing ++ j ∷ [] }
    else record n { reflected = suc n.reflected }

module _ {W : Type 0} (wording : Wording) (clock : W → Time)
    (run_turn : Job → (frame : String) → Action (Sys W) (Unit {0})) where
  abbrev pub alert : (code : String) → Sys W → Sys W
  alert code s = record s { db = append_alert code none (clock s.world) s.db }

  abbrev pub alert_if : Bool → (code : String) → Sys W → Sys W
  alert_if b code s = if b then alert code s else s

  unfoldable pub after_turn : Job → Tally → Result (Unit {0}) × Sys W → Tally × Sys W
  unfolding recount
  after_turn j n (err e, s) = (failing n, alert "reflect_turn_failed" s)
  after_turn j n (ok u, s) = (recount j (outcome_of j.decision_id s.db.resolutions) n, s)

  unfoldable pub on_frame : Job → Tally → Option String → Sys W → Tally × Sys W
  unfolding after_turn
  on_frame j n none s = (failing n, s)
  on_frame j n (some frame) s = after_turn j n (run_turn j frame s)

  unfoldable pub take_turns : List Job → Tally → Sys W → Tally × Sys W
  take_turns [] n s = (n, s)
  take_turns (j ∷ js) n s =
      let (n', s') = on_frame j n (reflection_frame wording s.db j.decision_id) s in
      take_turns js n' s'

  module _ (renders : Body → Bool) (post : Event → W → Delivery × W) where
    unfoldable pub reflect_and_log : (start end : Time) → Sys W → Tally × Sys W
    reflect_and_log start end s =
        let s1 = alert_if (not (is_empty (aged_out_reflections start s.db))) "reflect_aged_out" s in
        let due = due_reflections start end s1.db in
        let s2 =
          alert_if (ltb (length due) (due_count start end s1.db)) "reflect_backlog_capped" s1 in
        let (n, s3) =
          take_turns due (record { reflected = 0; failed = 0; wrote_nothing = [] }) s2 in
        let s4 = alert_if (not (is_empty n.wrote_nothing)) "reflect_turn_wrote_nothing" s3 in
        (n, drain_into renders post (clock s4.world) s4)
