-- ===== src/Agents/Critic/Queue.antt =====
-- The queue of the Critic under any sequence of registrations, lifecycle moves and verdicts.
use fund.Slack.Outbox.{append_event}
use fund.State.Specs.Register.{
  Complete, insert-cases, insert-Complete, refuse_orphaned_specs-Complete,
}
use fund.State.Transition.{try_transition, Ref}
use fund.Agents.Critic.{
  handle_submit_spec_critique, handle_submit_strategy_spec, write_spec, write_verdict,
  not_registered, bind_seat, registered, valid_critique,
}
use fund.Python.Values.{Value, Dict}
use fund.Agents.Submit.{Pydantic, refused}
use fund.State.Rows.{Strategy, Status, Db, Time, Spec, SpecCall, Body, SpecVerdict}
use fund.State.Specs.{
  older, Registration, StrategySpec, has_lifecycle, insert_strategy_spec, has_verdict, awaits,
  specs_awaiting_critique, refuse_orphaned_specs,
}
use fund.Base.{
  none, some, true, false, inl, inr, refl, String, Option, Bool, List, ℕ, ◌≡◌, [], update_where,
  ◌∷◌, Bool-cases, if◌then◌else◌, All, arith, str_eq, All-imp, All-take, any-append_left,
  All-order_by, All-select, ◌++◌, subst, sym, take, order_by, str_eq_iff, select, ap,
}
use fund.Python.Actions.{integrity_error, ok, err, illegal_transition, value_error, Result}

-- Whatever writes the tables that the queue is read from.
pub data Op : Type 0 where
  register : (seat : String) (payload : Option StrategySpec) → Op
  move : (spec_id : String) (from to : Status) (expected_state_version : Option ℕ) → Op
  judge : (charter model seat : String) → Dict → (expected_spec_id : Option String) → Op

any-update :
    (k : String) (hit : Strategy → Bool) (f : Strategy → Strategy) (rows : List Strategy)
    → ((row : Strategy) → (f row).strategy_id ≡ row.strategy_id)
    → has_lifecycle k (update_where hit f rows) ≡ has_lifecycle k rows
any-update k hit f [] same = refl
any-update k hit f (row ∷ rows) same = elim (Bool-cases (hit row)) [
  | inl moved ↦ rw (moved, same row, any-update k hit f rows same) refl
  | inr left ↦ rw (left, any-update k hit f rows same) refl
]

-- No lifecycle row is missing, and the verdict on `id` is there.
unfoldable Kept : String → Db → Db → Type 0
Kept id db db' =
    (Complete db → Complete db')
    × (has_verdict id db.spec_verdicts ≡ true → has_verdict id db'.spec_verdicts ≡ true)

Kept-refl : (id : String) (db : Db) → Kept id db db
unfolding Kept
Kept-refl id db = (λ h. h, λ h. h)

if-Kept :
    {A : Type 0} (id : String) (db : Db) (test : Bool) (x y : A × Db)
    → Kept id db x.1
    → Kept id db y.1
    → Kept id db (if test then x else y).1
if-Kept id db true x y hx hy = hx
if-Kept id db false x y hx hy = hy

-- Changes that keep the keys of the lifecycle rows, and changes that add a verdict.
update-Kept :
    (id : String) (hit : Strategy → Bool) (f : Strategy → Strategy) (db : Db)
    → ((row : Strategy) → (f row).strategy_id ≡ row.strategy_id)
    → Kept id db (record db { strategies = update_where hit f db.strategies })
unfolding Kept
update-Kept id hit f db same = (
  λ h.
      All-imp _ _ db.specs
        (λ (s : Spec) there. rw (any-update s.spec_id hit f db.strategies same) there) h,
  λ h. h,
)

verdict-Kept :
    (id : String) (v : SpecVerdict) (db : Db) (b : Body) (now : Time)
    → Kept id db (append_event b now (record db { spec_verdicts = db.spec_verdicts ++ v ∷ [] }))
unfolding Kept
verdict-Kept id v db b now = (λ h. h, λ h. any-append_left _ db.spec_verdicts (v ∷ []) h)

event-Kept :
    (id : String) (db db1 : Db) (b : Body) (now : Time)
    → Kept id db db1
    → Kept id db (append_event b now db1)
unfolding Kept
event-Kept id db db1 b now h = h

Kept-trans : (id : String) (a b c : Db) → Kept id a b → Kept id b c → Kept id a c
unfolding Kept
Kept-trans id a b c f g = (λ h. g.0 (f.0 h), λ h. g.1 (f.1 h))

move-Kept :
    (id spec_id : String) (from to : Status) (v : Option ℕ) (now : Time) (db : Db)
    → Kept id db (try_transition (Ref.strategy spec_id) from to now [] v db).1
unfolding try_transition
move-Kept id spec_id from to v now db =
    let nothing = Kept-refl id db in
    if-Kept {A = Result Bool} id db _ (err illegal_transition, db) _ nothing
      (if-Kept {A = Result Bool} id db _ (err value_error, db) _ nothing
        (update-Kept id _ _ db (λ row. refl)))

judge-Kept :
    (id charter model seat spec_id : String) (o : Option SpecCall) (now : Time) (db : Db)
    → Kept id db (write_verdict charter model seat spec_id o now db).1
unfolding write_verdict
judge-Kept id charter model seat spec_id none now db = Kept-refl id db
judge-Kept id charter model seat spec_id (some call) now db =
    let nothing = Kept-refl id db in
    if-Kept id db _ (ok (refused "not registered"), db) _ nothing
      (if-Kept id db _ (ok (refused "written once"), db) _ nothing
        (if-Kept {A = Result fund.Agents.Submit.Reply} id db _ (err integrity_error, db) _ nothing
          (verdict-Kept id _ db _ now)))

unjudged :
    (db : Db) (s : Spec) → awaits db s ≡ true → has_verdict s.spec_id db.spec_verdicts ≡ false
unfolding awaits
unjudged db s waits = ground arith

queue_unjudged :
    (limit : ℕ) (db : Db)
    → All
        (λ (s : Spec). has_verdict s.spec_id db.spec_verdicts ≡ false)
        (take limit (order_by older (select (awaits db) db.specs)))
queue_unjudged limit db = All-take _ limit _ (
    All-order_by _ _ _
      (All-imp _ _ _ (λ (s : Spec) waits. unjudged db s waits) (All-select (awaits db) db.specs)))

read_lem :
    (o : Result (Unit {0})) (queue specs : List Spec)
    → elim o [ err e ↦ err e | ok _ ↦ ok queue ] ≡ ok specs
    → queue ≡ specs
read_lem (ok _) queue specs h = cc
read_lem (err e) queue specs h = cc

read_unjudged :
    (limit : ℕ) (db : Db) (specs : List Spec)
    → specs_awaiting_critique limit db ≡ ok specs
    → All (λ (s : Spec). has_verdict s.spec_id db.spec_verdicts ≡ false) specs
unfolding specs_awaiting_critique
read_unjudged limit db specs h =
    subst (All (λ (s : Spec). has_verdict s.spec_id db.spec_verdicts ≡ false))
      (read_lem (refuse_orphaned_specs db) _ specs h) (queue_unjudged limit db)

read_complete :
    (limit : ℕ) (db : Db)
    → refuse_orphaned_specs db ≡ ok tt
    → specs_awaiting_critique limit db
      ≡ ok (take limit (order_by older (select (awaits db) db.specs)))
unfolding specs_awaiting_critique
read_complete limit db h =
    ap
      (λ (o : Result (Unit {0})). elim o [
        | err e ↦ err e
        | ok _ ↦ ok (take limit (order_by older (select (awaits db) db.specs)))
      ])
      h

other_id :
    (id k : String) (vs : List SpecVerdict)
    → has_verdict id vs ≡ true
    → has_verdict k vs ≡ false
    → str_eq k id ≡ false
other_id id k vs there missing = elim (Bool-cases (str_eq k id)) [
  | inr differs ↦ differs
  | inl same ↦ cc (rw (sym ((str_eq_iff k id).0 same)) at there, missing)
]

module _ (r : Registration) (p : Pydantic) (list_of : Value → Option (List Value)) where
  unfoldable pub step : Op → Time → Db → Db
  unfolding handle_submit_strategy_spec handle_submit_spec_critique try_transition
  step (register seat payload) now db = (handle_submit_strategy_spec r seat payload now db).1
  step (move spec_id from to v) now db =
      (try_transition (Ref.strategy spec_id) from to now [] v db).1
  step (judge charter model seat args expected) now db =
      (handle_submit_spec_critique p list_of charter model seat args expected now db).1

  -- The operations in their order, each with its time.
  unfoldable pub after : List (Op × Time) → Db → Db
  unfolding step
  after [] db = db
  after ((op, now) ∷ ops) db = after ops (step op now db)

  insert-Kept :
      (id : String) (f : StrategySpec) (now : Time) (db : Db)
      → Kept id db (insert_strategy_spec r f now db).1
  unfolding Kept
  insert-Kept id f now db = (
    insert-Complete r f now db,
    λ h. elim (insert-cases r f now db) [ inl e ↦ rw e h | inr (e, fresh) ↦ rw e h ],
  )

  write-Kept :
      (id seat : String) (o : Option StrategySpec) (now : Time) (db : Db)
      → Kept id db (write_spec r seat o now db).1
  unfolding write_spec
  write-Kept id seat none now db = Kept-refl id db
  write-Kept id seat (some f) now db =
      let db1 = (insert_strategy_spec r f now db).1 in
      let inserted = insert-Kept id f now db in
      if-Kept id db _ (not_registered "not written", db1) _ inserted
        (if-Kept id db _ (registered _ true, db1) _ inserted (event-Kept id db db1 _ now inserted))

  step-Kept : (id : String) (op : Op) (now : Time) (db : Db) → Kept id db (step op now db)
  unfolding step handle_submit_strategy_spec handle_submit_spec_critique
  step-Kept id (register seat payload) now db =
      if-Kept id db _ (not_registered "not granted", db) _ (Kept-refl id db)
        (write-Kept id seat (bind_seat seat payload) now db)
  step-Kept id (move spec_id from to v) now db = move-Kept id spec_id from to v now db
  step-Kept id (judge charter model seat args none) now db =
      if-Kept id db _ (ok (refused "not granted"), db) (ok (refused "unbound turn"), db)
        (Kept-refl id db) (Kept-refl id db)
  step-Kept id (judge charter model seat args (some spec_id)) now db =
      if-Kept id db _ (ok (refused "not granted"), db) _ (Kept-refl id db)
        (if-Kept id db _ (ok (refused "another spec"), db) _ (Kept-refl id db)
          (judge-Kept id charter model seat spec_id (valid_critique p list_of args) now db))

  after-Kept : (id : String) (ops : List (Op × Time)) (db : Db) → Kept id db (after ops db)
  unfolding after
  after-Kept id [] db = Kept-refl id db
  after-Kept id ((op, now) ∷ ops) db =
      Kept-trans id db (step op now db) _ (step-Kept id op now db)
        (after-Kept id ops (step op now db))

  -- In a store with every lifecycle row in place, after any sequence of registrations, lifecycle moves
  -- and verdicts, by any seats, the queue can be read, with any limit, and no spec in it carries a
  -- verdict.
  pub queue_readable :
      (limit : ℕ) (ops : List (Op × Time)) (db : Db)
      → Complete db
      → (specs : List Spec) × (specs_awaiting_critique limit (after ops db) ≡ ok specs)
        × All (λ (s : Spec). has_verdict s.spec_id (after ops db).spec_verdicts ≡ false) specs
  unfolding Kept specs_awaiting_critique
  queue_readable limit ops db complete =
      let db' = after ops db in
      let readable = refuse_orphaned_specs-Complete db' ((after-Kept "" ops db).0 complete) in
      (
        take limit (order_by older (select (awaits db') db'.specs)),
        read_complete limit db' readable,
        queue_unjudged limit db',
      )

  -- Once a spec carries a verdict, then after any sequence of registrations, lifecycle moves and verdicts
  -- the Critic's queue, where it can be read, does not hold that spec.
  pub judged_once :
      (id : String) (limit : ℕ) (ops : List (Op × Time)) (db : Db) (specs : List Spec)
      → has_verdict id db.spec_verdicts ≡ true
      → specs_awaiting_critique limit (after ops db) ≡ ok specs
      → All (λ (s : Spec). str_eq s.spec_id id ≡ false) specs
  unfolding Kept
  judged_once id limit ops db specs judged read =
      let db' = after ops db in
      All-imp _ _ specs
        (λ (s : Spec) unseen.
          other_id id s.spec_id db'.spec_verdicts ((after-Kept id ops db).1 judged) unseen)
        (read_unjudged limit db' specs read)
