-- ===== src/Agents/Brief.antt =====
-- `handle_get_stage_brief` of agents/tools/fund_server.py, with the readers of its sections, and
-- `latest_weights` of orchestrator/improve.py. What the snapshot holds is of a type V that the code
-- never looks into; the entries of the journal come from its reader, as a text or an exception.
pub mod Scope
pub mod Honest
use fund.Agents.Seats.{can}
use fund.Python.Actions.{Result, ok, err, Error, lookup_error, key_error}
use fund.State.Rows.{Db, Direction, Signal, Weight}
use fund.Base.{
  Bool, true, false, String, ℕ, Option, none, some, List, [], ◌∷◌, ◌++◌, ◌&&◌, ◌||◌, not, any, map,
  select, order_by, is_empty, str_eq, str_le, if◌then◌else◌,
}

-- A section that could not be built, and why.
abbrev pub Fault : Type 0
Fault = String × Error

-- The default stands in for what could not be built, and the section is named.
unfoldable pub section : {A : Type 0} → String → Result A → A → List Fault → A × List Fault
section name (ok a) default missing = (a, missing)
section name (err e) default missing = (default, missing ++ (name, e) ∷ [])

-- A section that only some seats have.
unfoldable pub section_if :
    {A : Type 0} → Bool → String → Result A → A → List Fault → Option A × List Fault
unfolding section
section_if false name r default missing = (none, missing)
section_if true name r default missing =
    let (a, missing') = section name r default missing in (some a, missing')

-- A query that the store fails with an exception, none where it answers.
abbrev pub query : {A : Type 0} → Option Error → Result A → Result A
query none r = r
query (some e) r = err e

-- A source that is not bound raises.
abbrev pub bound : {A : Type 0} → Option (Result A) → Result A
bound none = err lookup_error
bound (some r) = r

-- No scope is every seat.
abbrev pub in_scope : Option String → Weight → Bool
in_scope none w = true
in_scope (some seat) w = str_eq w.agent seat

-- A newer row of the agent of w.
abbrev pub supersedes : Weight → Weight → Bool
supersedes w v = str_eq v.agent w.agent && not (str_le v.as_of_date w.as_of_date)

abbrev pub by_agent : Weight → Weight → Bool
by_agent v w = str_le v.agent w.agent

-- Each seat's newest row, in the order of the agents.
unfoldable pub latest_weights : Option String → List Weight → List Weight
latest_weights scope ws =
    order_by by_agent (select (λ w. not (any (supersedes w) ws) && in_scope scope w) ws)

abbrev pub scope_of : (seat : String) → Option String
scope_of seat = if can seat "read_signals" then none else some seat

abbrev pub weights_from : List Weight → Result (List Weight)
weights_from [] = err lookup_error
weights_from (w ∷ ws) = ok (w ∷ ws)

-- No row in scope is a failure, and not an empty list.
unfoldable pub weights_of : Db → String → Result (List Weight)
unfolding latest_weights
weights_of db seat = weights_from (latest_weights (scope_of seat) db.weights)

pub record SignalRow : Type 0 where
  pub agent : String
  pub ticker : String
  pub direction : Direction
  pub confidence : ℕ

abbrev pub by_ticker_and_agent : Signal → Signal → Bool
by_ticker_and_agent s t =
    if str_eq s.ticker t.ticker then str_le s.agent t.agent else str_le s.ticker t.ticker

abbrev pub row_of : Signal → SignalRow
row_of s = record {
  agent = s.agent;
  ticker = s.ticker;
  direction = s.direction;
  confidence = s.confidence;
}

abbrev pub on_day : String → Signal → Bool
on_day run_date s = str_eq s.run_date run_date

unfoldable pub signal_rows : Db → String → List SignalRow
signal_rows db run_date =
    map row_of (order_by by_ticker_and_agent (select (on_day run_date) db.signals))

abbrev pub lookup : {V : Type 0} → List (String × V) → String → Option V
lookup [] k = none
lookup ((j, v) ∷ d) k = let rest = lookup d k in if str_eq j k then some v else rest

pub record Brief (V : Type 0) : Type 0 where
  pub run_date : String
  pub seat : String
  pub journal : String
  pub account : Option (Option V × V)  -- the cash and the positions
  pub weights : Option (List Weight)
  pub signals : Option (List SignalRow)
  pub allowed_actions : Option V
  pub unavailable : List Fault

pub data Answer (V : Type 0) : Type 0 where
  brief : Brief V → Answer V
  not_granted : Answer V

abbrev pub needs_snapshot : String → Bool
needs_snapshot seat = can seat "read_account" || can seat "read_allowed_actions"

-- The snapshot is only taken for a seat that has a section of it.
abbrev pub snapshot_for :
    {V : Type 0} → Bool → Option (Result (List (String × V))) → List (String × V) × List Fault
snapshot_for false snapshot = ([], [])
snapshot_for true snapshot = section "account snapshot" (bound snapshot) [] []

-- `or_empty v` is `v or {}`, and `as_dict v` is `dict(v)`.
module _ {V : Type 0} (empty_dict : V) (or_empty : Option V → V) (as_dict : V → Result V) where
  abbrev pub account_of : Bool → List (String × V) → Option (Option V × V)
  account_of false snap = none
  account_of true snap = some (lookup snap "cash", or_empty (lookup snap "positions"))

  abbrev pub actions_from : Option V → Result V
  actions_from none = err key_error
  actions_from (some v) = as_dict v

  -- `failing` is what a query of the store raises, by the section that asks.
  module _ (failing : String → Option Error) (seat run_date : String) where
    -- The sections after the snapshot, in their order.
    unfoldable pub sections_of : List (String × V) × List Fault → Result String → Db → Brief V
    sections_of (snap, missing) journal db =
        let (entries, missing1) = section "journal" journal "" missing in
        let (weights, missing2) =
          section_if (can seat "read_weights") "weights"
            (query (failing "weights") (weights_of db seat)) [] missing1 in
        let (signals, missing3) =
          section_if (can seat "read_signals") "signals"
            (query (failing "signals") (ok (signal_rows db run_date))) [] missing2 in
        let (actions, missing4) =
          section_if (can seat "read_allowed_actions") "allowed actions"
            (actions_from (lookup snap "allowed_actions")) empty_dict missing3 in
        record {
          run_date = run_date;
          seat = seat;
          journal = entries;
          account = account_of (can seat "read_account") snap;
          weights = weights;
          signals = signals;
          allowed_actions = actions;
          unavailable = missing4;
        }

    -- `snapshot` is the provider's answer and `journal` the reader's, none where it is not bound.
    unfoldable pub handle_get_stage_brief :
        (snapshot : Option (Result (List (String × V)))) (journal : Option (Result String))
        → Db
        → Answer V
    handle_get_stage_brief snapshot journal db =
        if not (can seat "get_stage_brief")
        then not_granted
        else brief (sections_of (snapshot_for (needs_snapshot seat) snapshot) (bound journal) db)
