-- ===== src/Lib.antt =====
-- A model of the fund's trading core and the theorems that make it correct.
--
-- The program runs a trading day as a sequence of stages over one SQLite store. Desks propose
-- decisions; a deterministic gate sizes each of them and issues a ticket; a trader's order is allowed
-- by a hook only if its ticket authorizes it; reconciliation drives each submitted order to a state
-- that the broker confirms; every finding is an event in an outbox, which is drained to Slack. Beside
-- the day, seats register strategies, a critic judges them once, backtests of them are logged within a
-- budget, and two gates judge the figures. After the close a job resolves the decisions that have come
-- of age against the benchmark, the calls behind them are graded, each seat's weight is written once a
-- night, and the seats reflect on what became of their decisions. A guard checks what a development
-- loop has changed.
--
-- Base/ and Python/ are the shared ground: Boolean tests, lists and integers over the native numbers,
-- then Python's floats, dynamically typed values, and code that changes a state and may raise.
-- State/Rows.antt is the tables of state/schema.sql as records, a whole store as `Db`.
--
-- State/Transition.antt      state/transition.py: EDGES, try_transition, transition
-- State/Worklist.antt        state/worklist.py: allowed, enqueue, claim_next, finish, fail
-- Gate/Risk.antt             gate/risk.py: GateInputs, size
-- Gate/Tickets.antt          gate/tickets.py: the life of a ticket
-- Gate/Tickets/Orders.antt   gate/tickets.py: validate_order
-- State/Migrations.antt      state/migrations.py: pending, apply
-- State/Specs.antt           state/specs.py: registration, lifecycle and the Critic's queue
-- Agents/                    agents/tools/fund_server.py: Seats (SEAT_CAPS), Submit (submit_signal,
--                            submit_decision), Critic (submit_strategy_spec, submit_spec_critique,
--                            get_spec_brief), Brief (get_stage_brief), Backtests (run_backtest);
--                            Hooks and Recorder (agents/runtime.py: make_order_gate,
--                            make_order_recorder)
-- Backtest/                  Registry (fundbt/registry.py), Runs (run_backtest and evaluate_holdout of
--                            fundbt/run_backtest.py), Params (_check_params)
-- Stratgate.antt             stratgate/gate.py: evaluate_g2, evaluate_g3
-- Devloop.antt               devloop/tamper_guard.py
-- Calibration.antt           calibration/: scoreboard_rows, grade_rows, signal_probability
-- Slack/Outbox.antt          slackkit/outbox.py: append_event, append_alert, drain
-- Orchestrator/Broker.antt   the injected broker, clock and sleep, as a parameter
-- Orchestrator/Reconcile/    orchestrator/reconcile.py: Fills (_parse_fill, _apply, _dead_fill), Timeout
--                            (_timeout_close), Poll (reconcile_orders), Recover (recover_lost_orders),
--                            Pass (reconcile_stage)
-- Orchestrator/Dispatch.antt orchestrator/dispatch.py: sweep, dispatch_once
-- Orchestrator/Daily/        orchestrator/daily.py: Stage (run_stage), Turns (run_research,
--                            run_decision, and state/critiques.py), Sizing (allowed_actions,
--                            run_pre_gate, _pre_gate_stage), Gate (run_gate), Execution
--                            (run_execution), Day (run_close, run_day)
-- Orchestrator/Ingest.antt   orchestrator/ingest_guard.py
-- Orchestrator/Protection/   orchestrator/protection.py and state/protection.py: Cover (live stops),
--                            Checks (assert_positions_protected, log_observed), Accounts
--                            (assert_positions_accounted)
-- Orchestrator/Preconditions.antt
--                            orchestrator/preconditions.py: assert_account_config_unchanged
-- Orchestrator/Resolve.antt  orchestrator/resolve.py: resolve_due
-- Orchestrator/Pnl.antt      orchestrator/pnl.py: eod_pnl
-- Orchestrator/Reflect.antt  orchestrator/reflect.py, and submit_reflection of
--                            agents/tools/fund_server.py
-- Orchestrator/Improve.antt  orchestrator/improve.py: window_dates, behaviour; Weights (write_weights)
-- Scripts/ReflectDay.antt     scripts/reflect_day.py: the selection of what is due, reflect_and_log
-- Tests/                     each theorem applied to concrete data
--
-- An operation is a function from a store to a result and a store: what was written before a raise
-- stays written. A query is a selection of a list, in the order that ORDER BY names, and an UPDATE with
-- its WHERE is a pass over the table whose rowcount is counted. Times are numbers of seconds. A float
-- is a nan, an infinity or a whole number of the smallest unit; its comparisons are exact and its
-- arithmetic is the parameter `Arith`. CPython's text conversions are the parameter `Conversions`, and
-- pydantic's are `Pydantic`. The backtest engine and the hashes are the parameter `Engine`, the scores
-- and the hash of a seat's inputs are `Scoring`, and the texts of a reflection are `Wording`.
--
-- Two loops have no structural measure and run on fuel. `drain` has three passes: the second one only
-- sees the projection errors of the first, which append no more, so the third finds nothing. The poll
-- loop of `reconcile_orders` has as many rounds as its cap plus two: each round waits at least one
-- unit, so the cap is met before the fuel is used up.
--
-- Not modelled: prose (the wording of alerts and posts, and the journal files that the close appends
-- to), the turns of the language models, the Slack and broker transports, market data, the backtest
-- engine with its statistics and the calibration scores, which are pandas and numpy, the endless loop
-- of `run_dispatcher`, and most of the tooling.
pub mod Base
pub mod Python
pub mod State
pub mod Calibration
pub mod Gate
pub mod Slack
pub mod Agents
pub mod Backtest
pub mod Stratgate
pub mod Devloop
pub mod Orchestrator
pub mod Scripts
pub mod Tests
