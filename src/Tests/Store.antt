-- ===== src/Tests/Store.antt =====
-- Examples on the store: state machines, outbox and worklist.

use fund.Orchestrator.Dispatch.Sweeps.{sweep-clears}
use fund.State.Rows.{opened, consumed}
use fund.Slack.Outbox.{drain}
use fund.Tests.Samples.{test_renders, test_db, test_post}
use fund.State.Transition.{tickets, ticket, Column}
use fund.Orchestrator.Dispatch.{over_lease, sweep, past_due}
use fund.State.Transition.Lifecycle.{Evolves, Call, statuses, after, after-Evolves}
use fund.Slack.Outbox.Drain.{Finished, drain-Finished}
use fund.Base.{[], none, false, All, List, ◌≡◌, refl, ◌∷◌}

abbrev calls : List Call
calls =
    record {
      ref = ticket "t1";
      from_status = opened;
      to_status = consumed;
      now = 3;
      extra = Column.of_ticket (λ t. record t { max_qty = 4 }) ∷ [];
      expected_version = none;
    }
    ∷ []

after-Evolves_example :
    Evolves tickets (statuses tickets test_db) (statuses tickets (after calls test_db))
after-Evolves_example = after-Evolves tickets calls test_db (((λ t. refl), tt), tt)

drain-Finished_example : Finished test_renders test_post (drain test_renders test_post 5 test_db 0)
drain-Finished_example = drain-Finished test_renders test_post 5 test_db 0

sweep-clears_example :
    All (λ w. over_lease 50 w ≡ false) (sweep 50 test_db).1.worklist
    × All (λ w. past_due 50 w ≡ false) (sweep 50 test_db).1.worklist
sweep-clears_example = sweep-clears 50 test_db
