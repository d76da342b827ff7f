-- ===== src/Orchestrator/Reflect.antt =====
-- orchestrator/reflect.py, and `submit_reflection` of agents/tools/fund_server.py: a seat's words beside
-- the facts of a resolved decision. How the facts are worded, and the joining of facts and words, are
-- parameters of texts; which rows the facts are taken from, and what is written, are modelled.
pub mod Once
use fund.Agents.Submit.{Reply, accepted, refused}
use fund.Python.Actions.{Result, Action, ok}
use fund.Python.Values.{Dict, Value, text, get}
use fund.Agents.Seats.{can}
use fund.State.Rows.{Db, Decision, Signal, Resolution}
use fund.Base.{
  Bool, String, ℕ, List, Option, count_where, if◌then◌else◌, str_le, find?, order_by, str_eq, ◌==◌,
  not, select, update_where, ◌&&◌, some, none, true, false,
}

-- What the frame of a decision is worded from: its row, its outcome, and the day's signals on it.
pub record Facts : Type 0 where
  pub decision : Decision
  pub outcome : Resolution
  pub said : List Signal

abbrev pub by_agent : Signal → Signal → Bool
by_agent a b = str_le a.agent b.agent

abbrev pub signals_on : String → String → List Signal → List Signal
signals_on run_date ticker ss =
    order_by by_agent
      (select (λ (s : Signal). str_eq s.run_date run_date && str_eq s.ticker ticker) ss)

abbrev pub outcome_of : ℕ → List Resolution → Option Resolution
outcome_of id rs = find? (λ (r : Resolution). r.decision_id == id) rs

abbrev pub joined : Db → Option Decision → Option Resolution → Option Facts
joined db (some d) (some r) =
    some (record { decision = d; outcome = r; said = signals_on d.run_date d.ticker db.signals })
joined db d r = none

-- The rows of `reflection_frame`; none if the decision has no outcome.
unfoldable pub facts_of : Db → ℕ → Option Facts
facts_of db id =
    joined db (find? (λ (d : Decision). d.id == id) db.decisions) (outcome_of id db.resolutions)

abbrev pub is_open : ℕ → Resolution → Bool
is_open id r = r.decision_id == id && elim r.reflection [ none ↦ true | some t ↦ false ]

-- UPDATE … WHERE decision_id AND reflection IS NULL, and whether its rowcount is 1.
unfoldable pub write_reflection : ℕ → String → Db → Bool × Db
write_reflection id words db = (
  count_where (is_open id) db.resolutions == 1,
  record db {
    resolutions =
        update_where (is_open id) (λ r. record r { reflection = some words }) db.resolutions;
  },
)

-- How texts are put together.
pub record Wording : Type 0 where
  pub frame : Facts → String
  pub beside : (frame prose : String) → String  -- f"{frame}\n\n{prose}".rstrip()
  pub is_blank : String → Bool  -- not s.strip()

module _ (wording : Wording) where
  unfoldable pub reflection_frame : Db → ℕ → Option String
  reflection_frame db id = elim (facts_of db id) [
    | none ↦ none
    | some facts ↦ some (wording.frame facts)
  ]

  abbrev pub words : (frame prose : String) → String
  words frame prose = if str_eq prose "" then frame else wording.beside frame prose

  -- Without prose the frame stands alone.
  unfoldable pub store_reflection : ℕ → (frame prose : String) → Db → Bool × Db
  store_reflection id frame prose db = write_reflection id (words frame prose) db

  abbrev pub replied : Bool × Db → Result Reply × Db
  replied (true, db) = (ok accepted, db)
  replied (false, db) = (ok (refused "already reflected"), db)

  abbrev pub reflect_on : ℕ → (prose : String) → Option String → Action Db Reply
  reflect_on id prose none db = (ok (refused "not resolved"), db)
  reflect_on id prose (some frame) db = replied (store_reflection id frame prose db)

  abbrev pub with_prose : ℕ → Value → Action Db Reply
  with_prose id (text prose) db =
      if wording.is_blank prose
      then (ok (refused "prose"), db)
      else reflect_on id prose (reflection_frame db id) db
  with_prose id v db = (ok (refused "prose"), db)

  -- `expected` is the decision that the turn was launched for.
  unfoldable pub handle_submit_reflection :
      (seat : String) → Dict → (expected : Option ℕ) → Action Db Reply
  handle_submit_reflection seat args none db =
      if not (can seat "submit_reflection")
      then (ok (refused "not granted"), db)
      else (ok (refused "not bound"), db)
  handle_submit_reflection seat args (some id) db =
      if not (can seat "submit_reflection")
      then (ok (refused "not granted"), db)
      else with_prose id (get args "prose") db
