-- ===== src/Agents/Hooks.antt =====
-- The hook before each tool call of the trader, in agents/runtime.py: `_broker_verb_policy`, `_deny` and
-- `make_order_gate`. Whether the store can be opened is an argument. The wording of an alert is not kept,
-- and an alert that fails while the store is open is not modelled: the denial would stand.
use fund.Slack.Outbox.{append_alert}
use fund.State.Rows.{Time, Db}
use fund.Python.Values.{Conversions, Dict}
pub mod Gate
use fund.Base.{
  none, some, true, false, [], ◌∷◌, Bool, List, String, Option, if◌then◌else◌, ◌||◌, any, not,
  str_eq,
}
use fund.Python.Actions.{ok, err, Result}
use fund.Gate.Tickets.Orders.{Denial, Ruling, allow, deny, validate_order}
use text.Mathlib.Text.{starts_with}

-- What the hook does with a verb.
pub data Policy : Type 0 where
  allowed gated forbidden : Policy

abbrev pub broker_prefix : String
broker_prefix = "mcp__alpaca__"

abbrev pub place_prefix : String
place_prefix = "mcp__alpaca__place_"

unfoldable pub read_verbs : List String
read_verbs =
    "mcp__alpaca__search_alpaca_api_specs" ∷ "mcp__alpaca__search_alpaca_docs"
    ∷ "mcp__alpaca__fetch_alpaca_doc" ∷ "mcp__alpaca__list_alpaca_api_endpoints" ∷ []

abbrev pub is_read : String → Bool
is_read tool = starts_with tool "mcp__alpaca__get_" || any (str_eq tool) read_verbs

unfoldable pub broker_verb_policy : String → Policy
unfolding read_verbs
broker_verb_policy tool =
    if not (starts_with tool broker_prefix)
    then allowed
    else if starts_with tool place_prefix
    then gated
    else if is_read tool
    then allowed
    else forbidden

pub data Refusal : Type 0 where
  ungated_verb : Refusal
  ruled : Denial → Refusal
  gate_error : Refusal

pub data HookAnswer : Type 0 where
  proceed : HookAnswer
  denied : Refusal → HookAnswer

-- The denial stands whether or not it can be recorded.
unfoldable pub deny_call : (opens : Bool) → Refusal → Time → Db → HookAnswer × Db
deny_call opens why now db =
    (denied why, if opens then append_alert "order_gate_denied" none now db else db)

-- Any exception of the validation denies.
abbrev pub rule_on : (opens : Bool) → Time → Result Ruling → Db → HookAnswer × Db
rule_on opens now (ok allow) db = (proceed, db)
rule_on opens now (ok (deny why)) db = deny_call opens (ruled why) now db
rule_on opens now (err e) db = deny_call opens gate_error now db

module _ (conv : Conversions) (opens : Bool) where
  abbrev pub by_policy : Policy → Option Dict → Time → Db → HookAnswer × Db
  by_policy allowed input now db = (proceed, db)
  by_policy forbidden input now db = deny_call opens ungated_verb now db
  by_policy gated input now db =
      if opens
      then rule_on opens now (validate_order conv input now db) db
      else deny_call opens gate_error now db

  -- `input` is none where the tool's input is no object.
  unfoldable pub order_gate : (tool : String) → (input : Option Dict) → Time → Db → HookAnswer × Db
  unfolding broker_verb_policy deny_call validate_order
  order_gate tool input now db = by_policy (broker_verb_policy tool) input now db
