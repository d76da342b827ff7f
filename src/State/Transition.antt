-- ===== src/State/Transition.antt =====
-- state/transition.py: compare-and-swap changes of status.
pub mod Literals
pub mod Lifecycle
use fund.Base.{
  ℕ, ◌+◌, ◌==◌, Bool, true, false, not, ◌&&◌, Option, none, some, List, [], ◌∷◌, String, str_eq,
  any, all, update_where, count_where, if◌then◌else◌,
}
use fund.Python.Actions.{
  ok, err, Action, pure, raise, ◌>>=◌, illegal_transition, stale_transition, value_error,
  operational_error,
}
use fund.State.Rows.{
  Time, Status, Db, Decision, Ticket, Order, Checkpoint, Work, Strategy, submitted, approved,
  rejected, held, executed, failed, expired, opened, consumed, filled, partially_filled, canceled,
  pending, running, done, claimed, spec, backtest, spec_rejected, validated, incubating, allocated,
  scaled, probation, retired,
}

abbrev pub status_code : Status → ℕ
status_code submitted = 0
status_code approved = 1
status_code rejected = 2
status_code held = 3
status_code executed = 4
status_code failed = 5
status_code expired = 6
status_code opened = 7
status_code consumed = 8
status_code filled = 9
status_code partially_filled = 10
status_code canceled = 11
status_code pending = 12
status_code running = 13
status_code done = 14
status_code claimed = 15
status_code spec = 16
status_code backtest = 17
status_code spec_rejected = 18
status_code validated = 19
status_code incubating = 20
status_code allocated = 21
status_code scaled = 22
status_code probation = 23
status_code retired = 24

-- Equality of two status literals.
infix 50 ◌=ₛ◌
abbrev pub ◌=ₛ◌ : Status → Status → Bool
a =ₛ b = status_code a == status_code b

abbrev pub Edge : Type 0
Edge = Status × Status

-- A row by its table and the columns of KEYS; `other_table` is a table with no state machine.
pub data Ref : Type 0 where
  decision : ℕ → Ref
  ticket : String → Ref
  order : String → Ref
  checkpoint : (run_date stage ticker : String) → Ref
  work : String → Ref
  strategy : String → Ref
  other_table : String → Ref

pub data Table : Type 0 where
  decisions tickets orders checkpoints worklist strategies unknown : Table

abbrev pub table_of : Ref → Table
table_of (decision _) = decisions
table_of (ticket _) = tickets
table_of (order _) = orders
table_of (checkpoint _ _ _) = checkpoints
table_of (work _) = worklist
table_of (strategy _) = strategies
table_of (other_table _) = unknown

abbrev pub edges : Table → List Edge
edges decisions =
    (submitted, approved)
    ∷ (submitted, rejected)
    ∷ (submitted, held)
    ∷ (approved, executed)
    ∷ (approved, failed)
    ∷ (approved, expired)
    ∷ []
edges tickets = (opened, consumed) ∷ (opened, expired) ∷ []
edges orders =
    (submitted, filled)
    ∷ (submitted, partially_filled)
    ∷ (submitted, canceled)
    ∷ (submitted, rejected)
    ∷ (partially_filled, filled)
    ∷ (partially_filled, canceled)
    ∷ []
edges checkpoints = (pending, running) ∷ (running, done) ∷ (running, failed) ∷ []
edges worklist = (opened, claimed) ∷ (opened, expired) ∷ (claimed, done) ∷ (claimed, failed) ∷ []
edges strategies =
    (spec, backtest)
    ∷ (spec, spec_rejected)
    ∷ (backtest, spec_rejected)
    ∷ (backtest, validated)
    ∷ (validated, incubating)
    ∷ (incubating, allocated)
    ∷ (incubating, spec_rejected)
    ∷ (allocated, scaled)
    ∷ (allocated, probation)
    ∷ (scaled, probation)
    ∷ (probation, allocated)
    ∷ (probation, scaled)
    ∷ (probation, retired)
    ∷ []
edges unknown = []

abbrev pub has_edge : Table → Status → Status → Bool
has_edge table from to = any (λ e. e.0 =ₛ from && e.1 =ₛ to) (edges table)

abbrev is_versioned : Table → Bool
is_versioned strategies = true
is_versioned _ = false

-- `extra`: columns that the same UPDATE writes after the status. Any column of the table may stand
-- there, the status itself too, as what its assignment does to a row; the three that the worklist's
-- callers write are spelled out. Values are taken to be ones that the table's CHECKs admit.
pub data Column : Type 0 where
  claimed_at claim_expires_at finished_at : Time → Column
  of_decision : (Decision → Decision) → Column
  of_ticket : (Ticket → Ticket) → Column
  of_order : (Order → Order) → Column
  of_checkpoint : (Checkpoint → Checkpoint) → Column
  of_work : (Work → Work) → Column
  of_strategy : (Strategy → Strategy) → Column
  not_identifier : Column
  no_column : Column

abbrev pub write_decision : List Column → Decision → Decision
write_decision [] r = r
write_decision (of_decision f ∷ cs) r = write_decision cs (f r)
write_decision (c ∷ cs) r = write_decision cs r

abbrev pub write_ticket : List Column → Ticket → Ticket
write_ticket [] r = r
write_ticket (of_ticket f ∷ cs) r = write_ticket cs (f r)
write_ticket (c ∷ cs) r = write_ticket cs r

abbrev pub write_order : List Column → Order → Order
write_order [] r = r
write_order (of_order f ∷ cs) r = write_order cs (f r)
write_order (c ∷ cs) r = write_order cs r

abbrev pub write_checkpoint : List Column → Checkpoint → Checkpoint
write_checkpoint [] r = r
write_checkpoint (of_checkpoint f ∷ cs) r = write_checkpoint cs (f r)
write_checkpoint (c ∷ cs) r = write_checkpoint cs r

abbrev pub write_work : List Column → Work → Work
write_work [] r = r
write_work (claimed_at t ∷ cs) r = write_work cs (record r { claimed_at = some t })
write_work (claim_expires_at t ∷ cs) r = write_work cs (record r { claim_expires_at = some t })
write_work (finished_at t ∷ cs) r = write_work cs (record r { finished_at = some t })
write_work (of_work f ∷ cs) r = write_work cs (f r)
write_work (c ∷ cs) r = write_work cs r

abbrev pub write_strategy : List Column → Strategy → Strategy
write_strategy [] r = r
write_strategy (of_strategy f ∷ cs) r = write_strategy cs (f r)
write_strategy (c ∷ cs) r = write_strategy cs r

abbrev is_identifier : Column → Bool
is_identifier not_identifier = false
is_identifier _ = true

abbrev is_column_of : Table → Column → Bool
is_column_of decisions (of_decision f) = true
is_column_of tickets (of_ticket f) = true
is_column_of orders (of_order f) = true
is_column_of checkpoints (of_checkpoint f) = true
is_column_of worklist (claimed_at t) = true
is_column_of worklist (claim_expires_at t) = true
is_column_of worklist (finished_at t) = true
is_column_of worklist (of_work f) = true
is_column_of strategies (of_strategy f) = true
is_column_of _ _ = false

abbrev identifiers : List Column → Bool
identifiers cs = all is_identifier cs

abbrev columns_exist : Table → List Column → Bool
columns_exist table cs = all (is_column_of table) cs

-- The token that the WHERE of a versioned table matches.
abbrev at_version : Option ℕ → ℕ → Bool
at_version none v = true
at_version (some e) v = v == e

-- The UPDATE: its rowcount, and the store after it.
abbrev pub update_status : Ref → Status → Status → Time → List Column → Option ℕ → Db → ℕ × Db
update_status (decision k) from to now cols v db =
    let hit = λ (r : Decision). r.id == k && r.status =ₛ from in
    (
      count_where hit db.decisions,
      record db {
        decisions =
            update_where hit (λ r. write_decision cols (record r { status = to })) db.decisions;
      },
    )
update_status (ticket k) from to now cols v db =
    let hit = λ (r : Ticket). str_eq r.id k && r.status =ₛ from in
    (
      count_where hit db.tickets,
      record db {
        tickets = update_where hit (λ r. write_ticket cols (record r { status = to })) db.tickets;
      },
    )
update_status (order k) from to now cols v db =
    let hit = λ (r : Order). str_eq r.client_order_id k && r.status =ₛ from in
    (
      count_where hit db.orders,
      record db {
        orders = update_where hit (λ r. write_order cols (record r { status = to })) db.orders;
      },
    )
update_status (checkpoint d s t) from to now cols v db =
    let hit = λ (r : Checkpoint).
      str_eq r.run_date d && str_eq r.stage s && str_eq r.ticker t && r.status =ₛ from in
    (
      count_where hit db.checkpoints,
      record db {
        checkpoints =
            update_where hit
              (λ r. write_checkpoint cols (record r { status = to; updated_at = now }))
              db.checkpoints;
      },
    )
update_status (work k) from to now cols v db =
    let hit = λ (r : Work). str_eq r.work_id k && r.status =ₛ from in
    (
      count_where hit db.worklist,
      record db {
        worklist = update_where hit (λ r. write_work cols (record r { status = to })) db.worklist;
      },
    )
update_status (strategy k) from to now cols v db =
    let hit =
      λ (r : Strategy). str_eq r.strategy_id k && r.state =ₛ from && at_version v r.state_version in
    (
      count_where hit db.strategies,
      record db {
        strategies =
            update_where hit
              (λ r.
                write_strategy cols
                  (record r { state = to; state_version = r.state_version + 1; updated_at = now }))
              db.strategies;
      },
    )
update_status (other_table _) from to now cols v db = (0, db)

-- The token is required for a versioned table and refused for any other.
abbrev version_wrong : Table → Option ℕ → Bool
version_wrong table none = is_versioned table
version_wrong table (some v) = not (is_versioned table)

-- True if the row moved, false if no row with that key is in `from` (at that version).
unfoldable pub try_transition :
    Ref → Status → Status → Time → List Column → Option ℕ → Action Db Bool
try_transition ref from to now extra expected_version db =
    if not (has_edge (table_of ref) from to)
    then (err illegal_transition, db)
    else if version_wrong (table_of ref) expected_version
    then (err value_error, db)
    else if not (identifiers extra)
    then (err value_error, db)
    else if not (columns_exist (table_of ref) extra)
    then (err operational_error, db)
    else let (rowcount, db') = update_status ref from to now extra expected_version db in
      (ok (rowcount == 1), db')

-- The same, raising where the row did not move.
unfoldable pub transition :
    Ref → Status → Status → Time → List Column → Option ℕ → Action Db (Unit {0})
unfolding try_transition
transition ref from to now extra expected_version = do
  moved ← try_transition ref from to now extra expected_version
  if moved then pure tt else raise stale_transition
