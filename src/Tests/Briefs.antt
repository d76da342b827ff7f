-- ===== src/Tests/Briefs.antt =====
-- Examples on the brief of a stage.
use fund.Base.{String, Option, none, some, List, [], ◌∷◌, ◌≡◌, refl}
use fund.Python.Actions.{Result, ok, err, external_error}
use fund.Python.Floats.{zero_float, whole}
use fund.State.Rows.{Db, Signal, Weight, bullish}
use fund.Agents.Seats.{can}
use fund.Agents.Brief.{handle_get_stage_brief, Brief, brief}
use fund.Agents.Brief.Scope.{handle_get_stage_brief_scoped}
use fund.Agents.Brief.Honest.{Honest, handle_get_stage_brief-Honest}
use fund.Tests.Samples.{test_db}

-- A seat's row of the weights.
abbrev weight_of : String → Weight
weight_of agent = record {
  as_of_date = "d1";
  agent = agent;
  n_graded = 1;
  n_abstain = 0;
  n_eff = whole 1;
  brier = zero_float;
  bss = none;
  bss_shrunk = zero_float;
  total_skill = zero_float;
  reliability = none;
  resolution = none;
  ece = none;
  batting = none;
  slugging = none;
  window = record {
    n_signalled = 1;
    n_offered = 1;
    n_distinct_conf = 1;
    abstention_rate = zero_float;
    coverage = whole 1;
    cost_usd = zero_float;
  };
  weight = whole 1;
  inputs_hash = "h";
  created_at = 5;
}

abbrev said_by : String → Signal
said_by agent = record {
  run_date = "d2";
  agent = agent;
  ticker = "NVDA";
  direction = bullish;
  confidence = 80;
  charter_version = "v1";
}

abbrev own_db : Db
own_db = record test_db { weights = weight_of "analyst" ∷ []; signals = said_by "analyst" ∷ [] }

-- The same with a colleague's signal and weight.
abbrev shared_db : Db
shared_db = record test_db {
  weights = weight_of "news" ∷ weight_of "analyst" ∷ [];
  signals = said_by "news" ∷ said_by "analyst" ∷ [];
}

abbrev or_empty : Option String → String
or_empty none = "{}"
or_empty (some v) = v

abbrev account : Result (List (String × String))
account = ok (("cash", "10") ∷ ("positions", "{NVDA}") ∷ [])

handle_get_stage_brief_scoped_example :
    handle_get_stage_brief "{}" or_empty ok
      (λ section. none)
      "analyst"
      "d2"
      (some account)
      none
      own_db
    ≡ handle_get_stage_brief "{}" or_empty ok
        (λ section. none)
        "analyst"
        "d2"
        (some account)
        none
        shared_db
unfolding can
handle_get_stage_brief_scoped_example =
    handle_get_stage_brief_scoped "{}" or_empty ok (λ section. none) "analyst" "d2" (some account)
      (some account) none own_db shared_db refl (λ reads. (refl, refl)) (λ reads. cc) (λ reads. cc)
      (λ reads. refl)

handle_get_stage_brief-Honest_example :
    (b : Brief String) × (handle_get_stage_brief "{}" or_empty ok
        (λ section. none)
        "pm"
        "d2"
        (some (err external_error))
        (some (ok "notes"))
        shared_db
      ≡ brief b)
    × Honest "{}" or_empty ok
        (λ section. none)
        "pm"
        "d2"
        (some (err external_error))
        (some (ok "notes"))
        shared_db
        b
unfolding can
handle_get_stage_brief-Honest_example =
    handle_get_stage_brief-Honest "{}" or_empty ok (λ section. none) "pm" "d2"
      (some (err external_error)) (some (ok "notes")) shared_db refl
