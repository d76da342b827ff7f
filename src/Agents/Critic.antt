-- ===== src/Agents/Critic.antt =====
-- `handle_submit_strategy_spec`, `handle_submit_spec_critique` and `handle_get_spec_brief` of
-- agents/tools/fund_server.py, with the model SpecCritique of state/models.py. Whether a payload is a
-- StrategySpec is decided by pydantic before the modelled part: the registration starts from the
-- validated fields, `none` for a payload that is not one. `list_of` is Python's `list(v or [])`, and
-- `none` is the TypeError.
pub mod Once
pub mod Queue
use fund.Slack.Outbox.{append_event}
use fund.State.Specs.{
  insert_strategy_spec, Registration, specs_awaiting_critique, StrategySpec, has_spec, has_verdict,
}
use fund.Agents.Seats.{can}
use fund.Base.{
  none, some, true, false, List, String, Bool, Option, if◌then◌else◌, leb, length, not, ◌∷◌, [],
  ◌&&◌, all, str_eq, ◌==◌, is_empty, ◌++◌,
}
use fund.Python.Values.{text, Value, Dict, is_text, get}
use fund.State.Rows.{clear, objections, Body, SpecCall, Spec, Db, Time}
use fund.Python.Actions.{Action, ok, err, integrity_error}
use fund.Agents.Submit.{Pydantic, Reply, accepted, refused, has_keys}

pub data SpecReply : Type 0 where
  registered : (spec_id : String) (duplicate : Bool) → SpecReply
  not_registered : (why : String) → SpecReply

-- INSERT OR IGNORE, then the SELECT that confirms the row, then the event for a new one.
unfoldable pub write_spec :
    Registration → (seat : String) → Option StrategySpec → Time → Db → SpecReply × Db
unfolding insert_strategy_spec
write_spec r seat none now db = (not_registered "invalid", db)
write_spec r seat (some fields) now db =
    let (sid, db1) = insert_strategy_spec r fields now db in
    if not (has_spec sid db1.specs)
    then (not_registered "not written", db1)
    else if length db1.specs == length db.specs
    then (registered sid true, db1)
    else (registered sid false, append_event (Body.spec_registered seat sid fields.family) now db1)

-- `seat` is bound by the server, never taken from the payload.
abbrev pub bind_seat : String → Option StrategySpec → Option StrategySpec
bind_seat seat none = none
bind_seat seat (some f) = some (record f { seat = seat })

unfoldable pub handle_submit_strategy_spec :
    Registration → (seat : String) → Option StrategySpec → Time → Db → SpecReply × Db
unfolding can write_spec
handle_submit_strategy_spec r seat args now db =
    if not (can seat "submit_strategy_spec")
    then (not_registered "not granted", db)
    else write_spec r seat (bind_seat seat args) now db

abbrev call_of : Value → Option SpecCall
call_of v =
    if is_text v "clear"
    then some clear
    else if is_text v "objections"
    then some objections
    else none

abbrev is_clear : SpecCall → Bool
is_clear clear = true
is_clear objections = false

-- The CHECK on charter_version and on model_id.
abbrev pub is_attributed : String → Bool
is_attributed v = not (str_eq v "none") && not (str_eq v "unknown")

-- The verdict that a bound turn writes, unless the spec is unknown or has one. A turn without
-- attribution raises at the INSERT.
unfoldable pub write_verdict :
    (charter model seat spec_id : String) → Option SpecCall → Time → Action Db Reply
write_verdict charter model seat spec_id none now db = (ok (refused "invalid"), db)
write_verdict charter model seat spec_id (some call) now db =
    if not (has_spec spec_id db.specs)
    then (ok (refused "not registered"), db)
    else if has_verdict spec_id db.spec_verdicts
    then (ok (refused "written once"), db)
    else if not (is_attributed charter && is_attributed model)
    then (err integrity_error, db)
    else (
      ok accepted,
      append_event (Body.spec_judged seat spec_id call) now (record db {
        spec_verdicts =
            db.spec_verdicts
            ++ record {
              spec_id = spec_id;
              call = call;
              seat = seat;
              charter_version = charter;
              model_id = model;
              created_at = now;
            }
              ∷ [];
      }),
    )

module _ (p : Pydantic) (list_of : Value → Option (List Value)) where
  abbrev short_objection : Value → Bool
  short_objection (text s) = leb (p.text_length s) 200
  short_objection v = false

  -- At most three objections, and at least one exactly when the verdict is `objections`.
  abbrev check_objections : SpecCall → List Value → Option SpecCall
  check_objections call os =
      if leb (length os) 3
        && all short_objection os
        && (if is_clear call then is_empty os else not (is_empty os))
      then some call
      else none

  check_listed : Option SpecCall → Option (List Value) → Option SpecCall
  check_listed (some call) (some os) = check_objections call os
  check_listed _ _ = none

  -- SpecCritique(…): none is the KeyError, the TypeError or the ValidationError.
  unfoldable pub valid_critique : Dict → Option SpecCall
  unfolding check_listed
  valid_critique args =
      if has_keys ("spec_id" ∷ "verdict" ∷ []) args
      then check_listed (call_of (get args "verdict")) (list_of (get args "objections"))
      else none

  -- The turn is bound by its caller to the spec that it was shown.
  unfoldable pub handle_submit_spec_critique :
      (charter model seat : String)
      → Dict
      → (expected_spec_id : Option String) → Time
      → Action Db Reply
  unfolding can valid_critique write_verdict
  handle_submit_spec_critique charter model seat args none now db =
      if not (can seat "submit_spec_critique")
      then (ok (refused "not granted"), db)
      else (ok (refused "unbound turn"), db)
  handle_submit_spec_critique charter model seat args (some expected_spec_id) now db =
      if not (can seat "submit_spec_critique")
      then (ok (refused "not granted"), db)
      else if not (is_text (get args "spec_id") expected_spec_id)
      then (ok (refused "another spec"), db)
      else write_verdict charter model seat expected_spec_id (valid_critique args) now db

-- The spec in a brief, or the refusal to report an empty queue that could not be read. The journal is
-- left out.
pub data Brief : Type 0 where
  specs_shown : List Spec → Brief
  no_brief : (why : String) → Brief

unfoldable pub handle_get_spec_brief : (seat : String) → Db → Brief
unfolding can specs_awaiting_critique
handle_get_spec_brief seat db =
    if not (can seat "get_spec_brief")
    then no_brief "not granted"
    else elim (specs_awaiting_critique 1 db) [
      | ok specs ↦ specs_shown specs
      | err e ↦ no_brief "unreadable"
    ]
