-- ===== src/State/Transition/Lifecycle.antt =====
-- Whatever calls of state/transition.py are made, in whatever order, each row of each table keeps to
-- the edges of its state machine.
use fund.State.Transition.Literals.{=ₛ-sound}
use fund.Base.{
  All, ◌∙◌, ℕ, ◌==◌, ◌≡◌, refl, Bool, true, false, ◌&&◌, Option, some, List, [], ◌∷◌, inl, inr, map,
  update_where, Bool-cases, if◌then◌else◌, and_right, str_eq, and_left, ◌+◌,
}
use fund.State.Rows.{Time, Status, Db, Decision, Ticket, Order, Checkpoint, Work, Strategy}
use fund.State.Transition.{
  Ref, Table, Column, decision, ticket, order, checkpoint, work, strategy, decisions, tickets,
  orders, checkpoints, worklist, strategies, unknown, table_of, has_edge, ◌=ₛ◌, write_decision,
  write_ticket, write_order, write_checkpoint, write_work, write_strategy, identifiers, at_version,
  update_status, try_transition, version_wrong, columns_exist,
}

-- `s` is `t`, or leads to it along legal edges of the table.
pub data Reaches (table : Table) (s : Status) : Status → Type 0 where
  here : Reaches table s s
  next : {t u : Status} → Reaches table s t → has_edge table t u ≡ true → Reaches table s u

-- The statuses of a table's rows, in row order.
abbrev pub statuses : Table → Db → List Status
statuses decisions db = map (λ (r : Decision). r.status) db.decisions
statuses tickets db = map (λ (r : Ticket). r.status) db.tickets
statuses orders db = map (λ (r : Order). r.status) db.orders
statuses checkpoints db = map (λ (r : Checkpoint). r.status) db.checkpoints
statuses worklist db = map (λ (r : Work). r.status) db.worklist
statuses strategies db = map (λ (r : Strategy). r.state) db.strategies
statuses unknown db = []

-- Row by row, the later status is reached from the earlier one.
abbrev pub Evolves : Table → List Status → List Status → Type 0
Evolves table [] [] = Unit
Evolves table (s ∷ ss) (t ∷ ts) = Reaches table s t × Evolves table ss ts
Evolves table _ _ = ⊥

Reaches-trans :
    {table : Table} {s t u : Status} → Reaches table s t → Reaches table t u → Reaches table s u
Reaches-trans r here = r
Reaches-trans r (next q e) = next (Reaches-trans r q) e

pub Evolves-refl : (table : Table) (ss : List Status) → Evolves table ss ss
Evolves-refl table [] = tt
Evolves-refl table (s ∷ ss) = (here, Evolves-refl table ss)

pub Evolves-trans :
    (table : Table) (xs ys zs : List Status)
    → Evolves table xs ys
    → Evolves table ys zs
    → Evolves table xs zs
Evolves-trans table [] [] zs p q = q
Evolves-trans table (x ∷ xs) (y ∷ ys) (z ∷ zs) p q =
    (Reaches-trans p.0 q.0, Evolves-trans table xs ys zs p.1 q.1)
Evolves-trans table [] (y ∷ ys) zs p q = absurd p
Evolves-trans table (x ∷ xs) [] zs p q = absurd p
Evolves-trans table (x ∷ xs) (y ∷ ys) [] p q = absurd q

-- An UPDATE whose WHERE tests for `from` and whose SET writes `to` moves rows along that one edge.
module _ {R : Type 0} (table : Table) (status : R → Status) (hit : R → Bool) (write : R → R)
    (from to : Status) (legal : has_edge table from to ≡ true)
    (at_from : (r : R) → hit r ≡ true → status r ≡ from)
    (at_to : (r : R) → status (write r) ≡ to) where
  moved_row :
      (r : R) (b : Bool) → hit r ≡ b → Reaches table (status r) (status (if b then write r else r))
  moved_row r true h = rw (at_from r h) (rw (at_to r) (next here legal))
  moved_row r false h = here

  update_where-Evolves :
      (rows : List R) → Evolves table (map status rows) (map status (update_where hit write rows))
  update_where-Evolves [] = tt
  update_where-Evolves (r ∷ rows) = (moved_row r (hit r) refl, update_where-Evolves rows)

-- A column of a call that does not write the status itself.
abbrev pub KeepsStatus : Column → Type 0
KeepsStatus (Column.of_decision f) = (r : Decision) → (f r).status ≡ r.status
KeepsStatus (Column.of_ticket f) = (r : Ticket) → (f r).status ≡ r.status
KeepsStatus (Column.of_order f) = (r : Order) → (f r).status ≡ r.status
KeepsStatus (Column.of_checkpoint f) = (r : Checkpoint) → (f r).status ≡ r.status
KeepsStatus (Column.of_work f) = (r : Work) → (f r).status ≡ r.status
KeepsStatus (Column.of_strategy f) = (r : Strategy) → (f r).state ≡ r.state
KeepsStatus c = Unit

write_decision_lem :
    (cs : List Column) (r : Decision) → All KeepsStatus cs → (write_decision cs r).status ≡ r.status
write_decision_lem [] r h = refl
write_decision_lem (Column.claimed_at t ∷ cs) r h = write_decision_lem cs r h.1
write_decision_lem (Column.claim_expires_at t ∷ cs) r h = write_decision_lem cs r h.1
write_decision_lem (Column.finished_at t ∷ cs) r h = write_decision_lem cs r h.1
write_decision_lem (Column.of_decision f ∷ cs) r h = write_decision_lem cs (f r) h.1 ∙ h.0 r
write_decision_lem (Column.of_ticket f ∷ cs) r h = write_decision_lem cs r h.1
write_decision_lem (Column.of_order f ∷ cs) r h = write_decision_lem cs r h.1
write_decision_lem (Column.of_checkpoint f ∷ cs) r h = write_decision_lem cs r h.1
write_decision_lem (Column.of_work f ∷ cs) r h = write_decision_lem cs r h.1
write_decision_lem (Column.of_strategy f ∷ cs) r h = write_decision_lem cs r h.1
write_decision_lem (Column.not_identifier ∷ cs) r h = write_decision_lem cs r h.1
write_decision_lem (Column.no_column ∷ cs) r h = write_decision_lem cs r h.1

write_ticket_lem :
    (cs : List Column) (r : Ticket) → All KeepsStatus cs → (write_ticket cs r).status ≡ r.status
write_ticket_lem [] r h = refl
write_ticket_lem (Column.claimed_at t ∷ cs) r h = write_ticket_lem cs r h.1
write_ticket_lem (Column.claim_expires_at t ∷ cs) r h = write_ticket_lem cs r h.1
write_ticket_lem (Column.finished_at t ∷ cs) r h = write_ticket_lem cs r h.1
write_ticket_lem (Column.of_decision f ∷ cs) r h = write_ticket_lem cs r h.1
write_ticket_lem (Column.of_ticket f ∷ cs) r h = write_ticket_lem cs (f r) h.1 ∙ h.0 r
write_ticket_lem (Column.of_order f ∷ cs) r h = write_ticket_lem cs r h.1
write_ticket_lem (Column.of_checkpoint f ∷ cs) r h = write_ticket_lem cs r h.1
write_ticket_lem (Column.of_work f ∷ cs) r h = write_ticket_lem cs r h.1
write_ticket_lem (Column.of_strategy f ∷ cs) r h = write_ticket_lem cs r h.1
write_ticket_lem (Column.not_identifier ∷ cs) r h = write_ticket_lem cs r h.1
write_ticket_lem (Column.no_column ∷ cs) r h = write_ticket_lem cs r h.1

write_order_lem :
    (cs : List Column) (r : Order) → All KeepsStatus cs → (write_order cs r).status ≡ r.status
write_order_lem [] r h = refl
write_order_lem (Column.claimed_at t ∷ cs) r h = write_order_lem cs r h.1
write_order_lem (Column.claim_expires_at t ∷ cs) r h = write_order_lem cs r h.1
write_order_lem (Column.finished_at t ∷ cs) r h = write_order_lem cs r h.1
write_order_lem (Column.of_decision f ∷ cs) r h = write_order_lem cs r h.1
write_order_lem (Column.of_ticket f ∷ cs) r h = write_order_lem cs r h.1
write_order_lem (Column.of_order f ∷ cs) r h = write_order_lem cs (f r) h.1 ∙ h.0 r
write_order_lem (Column.of_checkpoint f ∷ cs) r h = write_order_lem cs r h.1
write_order_lem (Column.of_work f ∷ cs) r h = write_order_lem cs r h.1
write_order_lem (Column.of_strategy f ∷ cs) r h = write_order_lem cs r h.1
write_order_lem (Column.not_identifier ∷ cs) r h = write_order_lem cs r h.1
write_order_lem (Column.no_column ∷ cs) r h = write_order_lem cs r h.1

write_checkpoint_lem :
    (cs : List Column) (r : Checkpoint)
    → All KeepsStatus cs
    → (write_checkpoint cs r).status ≡ r.status
write_checkpoint_lem [] r h = refl
write_checkpoint_lem (Column.claimed_at t ∷ cs) r h = write_checkpoint_lem cs r h.1
write_checkpoint_lem (Column.claim_expires_at t ∷ cs) r h = write_checkpoint_lem cs r h.1
write_checkpoint_lem (Column.finished_at t ∷ cs) r h = write_checkpoint_lem cs r h.1
write_checkpoint_lem (Column.of_decision f ∷ cs) r h = write_checkpoint_lem cs r h.1
write_checkpoint_lem (Column.of_ticket f ∷ cs) r h = write_checkpoint_lem cs r h.1
write_checkpoint_lem (Column.of_order f ∷ cs) r h = write_checkpoint_lem cs r h.1
write_checkpoint_lem (Column.of_checkpoint f ∷ cs) r h = write_checkpoint_lem cs (f r) h.1 ∙ h.0 r
write_checkpoint_lem (Column.of_work f ∷ cs) r h = write_checkpoint_lem cs r h.1
write_checkpoint_lem (Column.of_strategy f ∷ cs) r h = write_checkpoint_lem cs r h.1
write_checkpoint_lem (Column.not_identifier ∷ cs) r h = write_checkpoint_lem cs r h.1
write_checkpoint_lem (Column.no_column ∷ cs) r h = write_checkpoint_lem cs r h.1

write_work_lem :
    (cs : List Column) (r : Work) → All KeepsStatus cs → (write_work cs r).status ≡ r.status
write_work_lem [] r h = refl
write_work_lem (Column.claimed_at t ∷ cs) r h =
    write_work_lem cs (record r { claimed_at = some t }) h.1
write_work_lem (Column.claim_expires_at t ∷ cs) r h =
    write_work_lem cs (record r { claim_expires_at = some t }) h.1
write_work_lem (Column.finished_at t ∷ cs) r h =
    write_work_lem cs (record r { finished_at = some t }) h.1
write_work_lem (Column.of_decision f ∷ cs) r h = write_work_lem cs r h.1
write_work_lem (Column.of_ticket f ∷ cs) r h = write_work_lem cs r h.1
write_work_lem (Column.of_order f ∷ cs) r h = write_work_lem cs r h.1
write_work_lem (Column.of_checkpoint f ∷ cs) r h = write_work_lem cs r h.1
write_work_lem (Column.of_work f ∷ cs) r h = write_work_lem cs (f r) h.1 ∙ h.0 r
write_work_lem (Column.of_strategy f ∷ cs) r h = write_work_lem cs r h.1
write_work_lem (Column.not_identifier ∷ cs) r h = write_work_lem cs r h.1
write_work_lem (Column.no_column ∷ cs) r h = write_work_lem cs r h.1

write_strategy_lem :
    (cs : List Column) (r : Strategy) → All KeepsStatus cs → (write_strategy cs r).state ≡ r.state
write_strategy_lem [] r h = refl
write_strategy_lem (Column.claimed_at t ∷ cs) r h = write_strategy_lem cs r h.1
write_strategy_lem (Column.claim_expires_at t ∷ cs) r h = write_strategy_lem cs r h.1
write_strategy_lem (Column.finished_at t ∷ cs) r h = write_strategy_lem cs r h.1
write_strategy_lem (Column.of_decision f ∷ cs) r h = write_strategy_lem cs r h.1
write_strategy_lem (Column.of_ticket f ∷ cs) r h = write_strategy_lem cs r h.1
write_strategy_lem (Column.of_order f ∷ cs) r h = write_strategy_lem cs r h.1
write_strategy_lem (Column.of_checkpoint f ∷ cs) r h = write_strategy_lem cs r h.1
write_strategy_lem (Column.of_work f ∷ cs) r h = write_strategy_lem cs r h.1
write_strategy_lem (Column.of_strategy f ∷ cs) r h = write_strategy_lem cs (f r) h.1 ∙ h.0 r
write_strategy_lem (Column.not_identifier ∷ cs) r h = write_strategy_lem cs r h.1
write_strategy_lem (Column.no_column ∷ cs) r h = write_strategy_lem cs r h.1

update_status-Evolves :
    (table : Table) (ref : Ref) (from to : Status) (now : Time) (cols : List Column) (v : Option ℕ)
    (db : Db)
    → All KeepsStatus cols
    → has_edge (table_of ref) from to ≡ true
    → Evolves table (statuses table db) (statuses table (update_status ref from to now cols v db).1)
update_status-Evolves decisions (decision k) from to now cols v db keeps legal =
    update_where-Evolves decisions (λ r. r.status) _ _ from to legal
      (λ r h. =ₛ-sound _ _ (and_right (r.id == k) _ h))
      (λ r. write_decision_lem cols (record r { status = to }) keeps) db.decisions
update_status-Evolves tickets (ticket k) from to now cols v db keeps legal =
    update_where-Evolves tickets (λ r. r.status) _ _ from to legal
      (λ r h. =ₛ-sound _ _ (and_right (str_eq r.id k) _ h))
      (λ r. write_ticket_lem cols (record r { status = to }) keeps) db.tickets
update_status-Evolves orders (order k) from to now cols v db keeps legal =
    update_where-Evolves orders (λ r. r.status) _ _ from to legal
      (λ r h. =ₛ-sound _ _ (and_right (str_eq r.client_order_id k) _ h))
      (λ r. write_order_lem cols (record r { status = to }) keeps) db.orders
update_status-Evolves checkpoints (checkpoint d s t) from to now cols v db keeps legal =
    update_where-Evolves checkpoints (λ r. r.status) _ _ from to legal
      (λ r h.
        =ₛ-sound _ _ (and_right (str_eq r.run_date d && str_eq r.stage s && str_eq r.ticker t) _ h))
      (λ r. write_checkpoint_lem cols (record r { status = to; updated_at = now }) keeps)
      db.checkpoints
update_status-Evolves worklist (work k) from to now cols v db keeps legal =
    update_where-Evolves worklist (λ r. r.status) _ _ from to legal
      (λ r h. =ₛ-sound _ _ (and_right (str_eq r.work_id k) _ h))
      (λ r. write_work_lem cols (record r { status = to }) keeps) db.worklist
update_status-Evolves strategies (strategy k) from to now cols v db keeps legal =
    let hit =
      λ (r : Strategy). str_eq r.strategy_id k && r.state =ₛ from && at_version v r.state_version in
    let moved = λ (r : Strategy). record r {
      state = to;
      state_version = r.state_version + 1;
      updated_at = now;
    } in
    update_where-Evolves strategies (λ r. r.state) hit (λ r. write_strategy cols (moved r)) from to
      legal
      (λ r h. =ₛ-sound _ _ (
        and_right (str_eq r.strategy_id k) _
          (and_left (str_eq r.strategy_id k && r.state =ₛ from) _ h)))
      (λ r. write_strategy_lem cols (moved r) keeps) db.strategies
update_status-Evolves table ref from to now cols v db keeps legal =
    Evolves-refl table (statuses table db)

try_transition-Evolves :
    (table : Table) (ref : Ref) (from to : Status) (now : Time) (cols : List Column) (v : Option ℕ)
    (db : Db)
    → All KeepsStatus cols
    → Evolves table
        (statuses table db)
        (statuses table (try_transition ref from to now cols v db).1)
unfolding try_transition
try_transition-Evolves table ref from to now cols v db keeps =
    elim (Bool-cases (has_edge (table_of ref) from to)) [
      | inr illegal ↦ rw illegal (Evolves-refl table _)
      | inl legal ↦ elim (Bool-cases (version_wrong (table_of ref) v)) [
        | inl wrong ↦ rw (legal, wrong) (Evolves-refl table _)
        | inr right ↦ elim (Bool-cases (identifiers cols)) [
          | inr odd ↦ rw (legal, right, odd) (Evolves-refl table _)
          | inl named ↦ elim (Bool-cases (columns_exist (table_of ref) cols)) [
            | inr absent ↦ rw (legal, right, named, absent) (Evolves-refl table _)
            | inl present ↦
                rw (legal, right, named, present)
                  (update_status-Evolves table ref from to now cols v db keeps legal)
          ]
        ]
      ]
    ]

-- One call of `try_transition`, with all its arguments.
pub record Call : Type 0 where
  pub ref : Ref
  pub from_status : Status
  pub to_status : Status
  pub now : Time
  pub extra : List Column
  pub expected_version : Option ℕ

-- The store after a sequence of calls; a call that raises leaves its caller to go on.
abbrev pub after : List Call → Db → Db
after [] db = db
after (c ∷ cs) db =
    after cs (try_transition c.ref c.from_status c.to_status c.now c.extra c.expected_version db).1

-- Whatever calls are made, with whatever extra columns as long as none of them is the status column
-- itself: every row of every table moves along legal edges of its machine only, and no row appears or
-- disappears.
pub after-Evolves :
    (table : Table) (calls : List Call) (db : Db)
    → All (λ (c : Call). All KeepsStatus c.extra) calls
    → Evolves table (statuses table db) (statuses table (after calls db))
after-Evolves table [] db keeps = Evolves-refl table _
after-Evolves table (c ∷ cs) db keeps =
    Evolves-trans table _ _ _
      (try_transition-Evolves table c.ref c.from_status c.to_status c.now c.extra c.expected_version
        db keeps.0)
      (after-Evolves table cs _ keeps.1)
