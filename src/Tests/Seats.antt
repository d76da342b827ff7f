-- ===== src/Tests/Seats.antt =====
-- Examples on the seats' tools, the research and decision stages, and the Critic's queue.

use fund.Agents.Critic.Queue.{judge, after, register, move}
use fund.Agents.Critic.{handle_submit_spec_critique}
use fund.Agents.Critic.Queue.{Op, queue_readable}
use fund.State.Specs.{Registration, StrategySpec, specs_awaiting_critique, has_verdict}
use fund.Agents.Critic.Once.{Refines, asked, handle_submit_spec_critique-Refines}
use fund.Agents.Submit.Sound.{Answers, handle_submit_decision-Answers}
use fund.Orchestrator.Daily.Turns.Research.{Reported, run_research-Reported}
use fund.Orchestrator.Daily.Turns.Decide.{Decided, run_decision-Decided}
use fund.State.Rows.{Db, Spec, Status, Time}
use fund.Base.{none, some, true, false, [], ◌∷◌, refl, pos, List, Option, ℕ, ◌≡◌, All}
use fund.Python.Values.{Value, Dict, text, int, float}
use fund.Python.Actions.{ok}
use fund.Tests.Samples.{test_db, test_sys}
use fund.Agents.Submit.{Pydantic, handle_submit_decision}
use fund.Orchestrator.Daily.Turns.{Turn, run_decision, run_research}

abbrev test_pydantic : Pydantic
test_pydantic = record {
  lax_int = λ v. elim v [ int n ↦ some n | _ ↦ none ];
  lax_float = λ v. elim v [ float x ↦ some x | _ ↦ none ];
  text_length = λ s. 4;
}

abbrev decision_args : Dict
decision_args =
    ("ticker", text "NVDA")
    ∷ ("action", text "buy")
    ∷ ("qty", int (pos 4))
    ∷ ("thesis", text "t")
    ∷ ("invalidation", text "i")
    ∷ []

abbrev critiqued_db : Db
critiqued_db = record test_db {
  critiques = record { run_date = "d"; ticker = "NVDA"; note = "n" } ∷ [];
}

handle_submit_decision-Answers_example :
    Answers test_pydantic "v1" "pm" decision_args "d" critiqued_db
      (handle_submit_decision test_pydantic "v1" "pm" decision_args "d" 7 critiqued_db)
handle_submit_decision-Answers_example =
    handle_submit_decision-Answers test_pydantic "v1" "pm" decision_args "d" 7 critiqued_db

-- A turn that signals nothing and moves the outside world.
abbrev idle_turn : Turn ℕ
idle_turn = some (λ s. (ok tt, record s { world = 5 }))

run_research-Reported_example :
    Reported idle_turn "d"
      ("analyst" ∷ "news" ∷ [])
      ("NVDA" ∷ "AMD" ∷ [])
      test_sys
      (run_research idle_turn "d" ("analyst" ∷ "news" ∷ []) ("NVDA" ∷ "AMD" ∷ []) test_sys)
run_research-Reported_example =
    run_research-Reported "d" ("analyst" ∷ "news" ∷ []) ("NVDA" ∷ "AMD" ∷ []) idle_turn test_sys

run_decision-Decided_example :
    Decided idle_turn "d"
      ("NVDA" ∷ "AMD" ∷ [])
      test_sys
      (run_decision idle_turn "d" ("NVDA" ∷ "AMD" ∷ []) 9 test_sys)
run_decision-Decided_example = run_decision-Decided "d" ("NVDA" ∷ "AMD" ∷ []) 9 idle_turn test_sys

abbrev test_registration : Registration
test_registration = record { compute_spec_id = λ f. f.content; satisfies_checks = λ f. true }

abbrev test_fields : StrategySpec
test_fields = record { family = "F1"; seat = "quant"; search_budget = 2; content = "spec_1" }

abbrev spec_db : Db
spec_db = record test_db {
  specs =
      record {
        spec_id = "spec_1";
        family = "F1";
        seat = "quant";
        search_budget = 2;
        content = "c";
        created_at = 1;
      }
      ∷ [];
  strategies =
      record { strategy_id = "spec_1"; state = Status.spec; state_version = 0; updated_at = 1 }
      ∷ [];
}

abbrev verdict_args : Dict
verdict_args = ("spec_id", text "spec_1") ∷ ("verdict", text "clear") ∷ []

abbrev no_list : Value → Option (List Value)
no_list v = some []

handle_submit_spec_critique-Refines_example :
    Refines
      (asked test_pydantic no_list "v1" "opus" "critic" verdict_args (some "spec_1") spec_db.specs)
      spec_db
      (handle_submit_spec_critique test_pydantic no_list "v1" "opus" "critic" verdict_args
        (some "spec_1")
        4
        spec_db)
handle_submit_spec_critique-Refines_example =
    handle_submit_spec_critique-Refines test_pydantic no_list "v1" "opus" "critic" verdict_args 4
      spec_db (some "spec_1")

abbrev queue_ops : List (Op × Time)
queue_ops =
    (register "quant" (some test_fields), 5)
    ∷ (judge "v1" "opus" "critic" verdict_args (some "spec_1"), 6)
    ∷ (move "spec_1" Status.spec Status.backtest (some 0), 7)
    ∷ []

queue_readable_example :
    (specs : List Spec) × (specs_awaiting_critique 1
        (after test_registration test_pydantic no_list queue_ops spec_db)
      ≡ ok specs)
    × All
        (λ (s : Spec).
          has_verdict s.spec_id
            (after test_registration test_pydantic no_list queue_ops spec_db).spec_verdicts
          ≡ false)
        specs
queue_readable_example =
    queue_readable test_registration test_pydantic no_list 1 queue_ops spec_db (refl, tt)
