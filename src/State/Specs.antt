-- ===== src/State/Specs.antt =====
-- state/specs.py: registered specifications of strategies, their lifecycle rows, and the queue that
-- the Critic reviews. The hash that names a specification (fundbt/hashing.py over sha256) is a
-- parameter, and so is which contents the CHECKs of strategy_specs accept: the columns that they read
-- are prose here. An INSERT OR IGNORE skips a taken key and a failed CHECK alike.
pub mod Register
use fund.Python.Actions.{◌>>◌, pure, Result, Action, err, ok, orphaned_specs, lookup_error}
use fund.State.Rows.{Db, Spec, Time, SpecVerdict, Strategy, spec, backtest}
use fund.Base.{
  Option, none, some, true, false, String, order_by, Bool, List, if◌then◌else◌, ℕ, any, is_empty,
  select, ◌==◌, ◌||◌, find?, not, str_eq, str_le, ◌++◌, ltb, take, ◌&&◌, ◌∷◌, [],
}
use fund.State.Transition.{Ref, transition, ◌=ₛ◌}

-- The fields that a seat commits to. `content` is those that no modelled code reads.
pub record StrategySpec : Type 0 where
  pub family : String
  pub seat : String
  pub search_budget : ℕ
  pub content : String

pub record Registration : Type 0 where
  pub compute_spec_id : StrategySpec → String
  pub satisfies_checks : StrategySpec → Bool

abbrev pub has_spec : String → List Spec → Bool
has_spec id = any (λ (s : Spec). str_eq s.spec_id id)

abbrev pub has_lifecycle : String → List Strategy → Bool
has_lifecycle id = any (λ (s : Strategy). str_eq s.strategy_id id)

abbrev pub has_verdict : String → List SpecVerdict → Bool
has_verdict id = any (λ (v : SpecVerdict). str_eq v.spec_id id)

-- INSERT OR IGNORE INTO strategies: the row in state SPEC, at version 0.
abbrev pub open_lifecycle : String → Time → List Strategy → List Strategy
open_lifecycle id now rows =
    if has_lifecycle id rows
    then rows
    else rows ++ record { strategy_id = id; state = spec; state_version = 0; updated_at = now } ∷ []

abbrev pub spec_row : String → StrategySpec → Time → Spec
spec_row id f now = record {
  spec_id = id;
  family = f.family;
  seat = f.seat;
  search_budget = f.search_budget;
  content = f.content;
  created_at = now;
}

-- The id comes back whether or not a row was written.
unfoldable pub insert_strategy_spec : Registration → StrategySpec → Time → Db → String × Db
insert_strategy_spec r f now db =
    let sid = r.compute_spec_id f in
    if has_spec sid db.specs || not (r.satisfies_checks f) then (sid, db) else (
      sid,
      record db {
        specs = db.specs ++ spec_row sid f now ∷ [];
        strategies = open_lifecycle sid now db.strategies;
      },
    )

-- The move to BACKTEST of a row, as it was read: true if the row moved, false if it was there already.
unfoldable pub advance_row :
    (spec_id : String) (expected_state_version : ℕ) → Time → Option Strategy → Action Db Bool
unfolding transition
advance_row spec_id expected_state_version now none db = (err lookup_error, db)
advance_row spec_id expected_state_version now (some row) db =
    if row.state =ₛ backtest
    then (ok false, db)
    else (transition (Ref.strategy spec_id) row.state backtest now [] (some expected_state_version)
          >> pure true)
        db

unfoldable pub advance_to_backtest :
    (spec_id : String) (expected_state_version : ℕ) → Time → Action Db Bool
unfolding advance_row
advance_to_backtest spec_id expected_state_version now db =
    advance_row spec_id expected_state_version now
      (find? (λ (s : Strategy). str_eq s.strategy_id spec_id) db.strategies) db

-- The registered specifications with no lifecycle row.
unfoldable pub orphans : Db → List Spec
orphans db = select (λ (s : Spec). not (has_lifecycle s.spec_id db.strategies)) db.specs

unfoldable pub refuse_orphaned_specs : Db → Result (Unit {0})
unfolding orphans
refuse_orphaned_specs db = if is_empty (orphans db) then ok tt else err orphaned_specs

-- In SPEC, and without a verdict.
unfoldable pub awaits : Db → Spec → Bool
awaits db s =
    any (λ (st : Strategy). str_eq st.strategy_id s.spec_id && st.state =ₛ spec) db.strategies
    && not (has_verdict s.spec_id db.spec_verdicts)

abbrev pub older : Spec → Spec → Bool
older a b =
    if a.created_at == b.created_at
    then str_le a.spec_id b.spec_id
    else ltb a.created_at b.created_at

unfoldable pub specs_awaiting_critique : (limit : ℕ) → Db → Result (List Spec)
unfolding refuse_orphaned_specs awaits order_by
specs_awaiting_critique limit db = elim (refuse_orphaned_specs db) [
  | err e ↦ err e
  | ok _ ↦ ok (take limit (order_by older (select (awaits db) db.specs)))
]
