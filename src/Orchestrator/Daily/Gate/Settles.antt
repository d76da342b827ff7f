-- ===== src/Orchestrator/Daily/Gate/Settles.antt =====
-- The gate leaves no decision of its day waiting.
use fund.Orchestrator.Daily.Gate.Waiting.{
  settle, IsCovered, settle-IsCovered, snapshot-IsCovered, none_waits,
}
use fund.Base.{
  ◌≡◌, refl, ◌==◌, false, none, some, List, [], ◌∷◌, String, select, All, arith, Option, ℤ,
  Bool-cases, ltb_ℤ, ◌∙◌, ap, pos, inl, inr, All-imp, order_by, leb, ◌+◌, any-order_by,
}
use fund.Python.Values.{Conversions}
use fund.Python.Actions.{Result, ok, err, ◌>>◌, catch}
use fund.State.Rows.{Time, Db, Decision, Ticket, Status, Side, Intent, submitted, held, trade, hold}
use fund.State.Transition.{◌=ₛ◌}
use fund.Gate.Risk.{Arith}
use fund.Orchestrator.Daily.Sizing.{MarketInputs, sized}
use fund.Orchestrator.Daily.Gate.{
  gate_reject, close_open_ticket, mint, approve_trade, handle_trade, handle_intent, gate_handle,
  gate_one, gate_rows, run_gate, submitted_on, ticket_for, id_or, approve_decision, inputs_of, why,
  capped_qty, ticket_ttl,
}

decisions-close_open_ticket :
    (o : Option Ticket) (now : Time) (db : Db)
    → (close_open_ticket o now db).1.decisions ≡ db.decisions
unfolding close_open_ticket
decisions-close_open_ticket none now db = refl
decisions-close_open_ticket (some t) now db = refl

gate_reject-settles :
    (d : Decision) (reason : String) (now : Time) (db : Db)
    → ((gate_reject d reason now db).0 ≡ ok tt)
      × ((gate_reject d reason now db).1.decisions ≡ settle d Status.rejected db.decisions)
unfolding gate_reject
gate_reject-settles d reason now db = ground arith

approve_decision-settles :
    (d : Decision) (id : String) (side : Side) (q : ℤ) (now : Time) (db : Db)
    → ((approve_decision d id side q now db).0 ≡ ok tt)
      × ((approve_decision d id side q now db).1.decisions ≡ settle d Status.approved db.decisions)
unfolding approve_decision
approve_decision-settles d id side q now db = ground arith

module _ (conv : Conversions) (a : Arith) (inputs : MarketInputs) (new_id : Db → String) where
  -- Either the step was raised and left the decisions alone, or it settled this one.
  abbrev Settles : Decision → Db → Result (Unit {0}) × Db → Type 0
  Settles d db (err e, db') = db'.decisions ≡ db.decisions
  Settles d db (ok _, db') =
      (to : Status) × ((to =ₛ submitted) ≡ false) × (db'.decisions ≡ settle d to db.decisions)

  mint-decisions :
      (o : Option Ticket) (id : String) (d : Decision) (side : Side) (q : ℤ) (now e : Time)
      (db : Db)
      → (mint conv a inputs new_id o id d side q now e db).1.decisions ≡ db.decisions
  unfolding mint
  mint-decisions none id d side q now e db = ground arith
  mint-decisions (some t) id d side q now e db = refl

  Settles-of_ok :
      (d : Decision) (db : Db) (m : Result (Unit {0}) × Db) (to : Status)
      → m.0 ≡ ok tt
      → (to =ₛ submitted) ≡ false
      → m.1.decisions ≡ settle d to db.decisions
      → Settles d db m
  Settles-of_ok d db (ok _, db') to e waits h = (to, waits, h)
  Settles-of_ok d db (err x, db') to e waits h = cc

  -- Approving what a first step leaves.
  then_approve-Settles :
      (d : Decision) (id : String) (side : Side) (q : ℤ) (now : Time) (db : Db)
      (m : Result (Unit {0}) × Db)
      → m.1.decisions ≡ db.decisions
      → Settles d db (((λ (_ : Db). m) >> approve_decision d id side q now) db)
  then_approve-Settles d id side q now db (err x, db1) same = same
  then_approve-Settles d id side q now db (ok _, db1) same =
      let r = approve_decision-settles d id side q now db1 in
      Settles-of_ok d db _ Status.approved r.0 refl (r.1 ∙ ap (settle d Status.approved) same)

  approve_trade-Settles :
      (d : Decision) (side : Side) (q : ℤ) (now e : Time) (db : Db)
      → Settles d db (approve_trade conv a inputs new_id d side q now e db)
  unfolding approve_trade
  approve_trade-Settles d side q now e db =
      then_approve-Settles d (id_or (ticket_for d.id db) (new_id db)) side q now db
        (mint conv a inputs new_id (ticket_for d.id db) (id_or (ticket_for d.id db) (new_id db)) d
          side q now e db)
        (mint-decisions (ticket_for d.id db) (id_or (ticket_for d.id db) (new_id db)) d side q now e
          db)

  handle_trade-Settles :
      (d : Decision) (side : Side) (now e : Time) (db : Db)
      → Settles d db (handle_trade conv a inputs new_id d side now e db)
  unfolding handle_trade
  handle_trade-Settles d side now e db =
      elim (Bool-cases
        (ltb_ℤ (capped_qty d.qty (sized conv a (inputs_of d.ticker inputs) side)) (pos 1))) [
          | inl refused ↦ rw refused (
              let r =
                gate_reject-settles d (why (sized conv a (inputs_of d.ticker inputs) side)) now
                  db in
              Settles-of_ok d db _ Status.rejected r.0 refl r.1)
          | inr fits ↦ rw fits (approve_trade-Settles d side _ now e db)
        ]

  gate_handle-Settles :
      (intent : Intent) (d : Decision) (now e : Time) (db : Db)
      → Settles d db (handle_intent conv a inputs new_id intent d now e db)
  unfolding handle_intent
  gate_handle-Settles hold d now e db = (held, refl, refl)
  gate_handle-Settles (trade side) d now e db = handle_trade-Settles d side now e db

  -- Whatever happens to it, the row is settled in the end.
  after_catch :
      (d : Decision) (now : Time) (db : Db) (m : Result (Unit {0}) × Db)
      → Settles d db m
      → (to : Status) × ((to =ₛ submitted) ≡ false)
        × ((catch (λ (_ : Db). m) (λ x. gate_reject d "gate_error" now) db).1.decisions
            ≡ settle d to db.decisions)
  after_catch d now db (ok _, db1) h = h
  after_catch d now db (err x, db1) h = (
    Status.rejected,
    refl,
    (gate_reject-settles d "gate_error" now db1).1 ∙ ap (settle d Status.rejected) h,
  )

  gate_one-settles :
      (d : Decision) (now e : Time) (db : Db)
      → (to : Status) × ((to =ₛ submitted) ≡ false)
        × ((gate_one conv a inputs new_id d now e db).1.decisions ≡ settle d to db.decisions)
  unfolding gate_one
  gate_one-settles d now e db =
      after_catch d now db (gate_handle conv a inputs new_id d now e db)
        (unfold gate_handle in gate_handle-Settles d.action d now e db)

  gate_rows-cons :
      (d : Decision) (rows : List Decision) (now e : Time) (db : Db)
      → (gate_one conv a inputs new_id d now e db).0 ≡ ok tt
      → (gate_rows conv a inputs new_id (d ∷ rows) now e db).1
        ≡ (gate_rows conv a inputs new_id rows now e (gate_one conv a inputs new_id d now e db).1).1
  unfolding gate_rows
  gate_rows-cons d rows now e db h = ground arith

  catch-ok :
      (d : Decision) (now : Time) (db : Db) (m : Result (Unit {0}) × Db)
      → (catch (λ (_ : Db). m) (λ x. gate_reject d "gate_error" now) db).0 ≡ ok tt
  catch-ok d now db (ok tt, db1) = refl
  catch-ok d now db (err x, db1) = (gate_reject-settles d "gate_error" now db1).0

  gate_one-ok :
      (d : Decision) (now e : Time) (db : Db) → (gate_one conv a inputs new_id d now e db).0 ≡ ok tt
  unfolding gate_one
  gate_one-ok d now e db = catch-ok d now db (gate_handle conv a inputs new_id d now e db)

  gate_rows-IsCovered :
      (run_date : String) (rows : List Decision) (now e : Time) (db : Db)
      → All (IsCovered run_date rows) db.decisions
      → All (IsCovered run_date []) (gate_rows conv a inputs new_id rows now e db).1.decisions
  unfolding gate_rows
  gate_rows-IsCovered run_date [] now e db h = h
  gate_rows-IsCovered run_date (d ∷ rows) now e db h =
      let s = gate_one-settles d now e db in
      rw (gate_rows-cons d rows now e db (gate_one-ok d now e db)) (
        gate_rows-IsCovered run_date rows now e (gate_one conv a inputs new_id d now e db).1
          (rw s.2 (settle-IsCovered run_date d s.0 rows db.decisions s.1 h)))

  -- After the pass of a day, whatever the market data, the sizing and the store were, no decision of
  -- that day is still submitted.
  pub run_gate-settles :
      (run_date : String) (now : Time) (db : Db)
      → All
          (λ d. submitted_on run_date d ≡ false)
          (run_gate conv a inputs new_id run_date now db).1.decisions
  unfolding run_gate
  run_gate-settles run_date now db = none_waits run_date _ (
      gate_rows-IsCovered run_date
        (order_by (λ (d e : Decision). leb d.id e.id) (select (submitted_on run_date) db.decisions))
        now (now + ticket_ttl) db
        (All-imp _ _ db.decisions
          (λ u h waits. any-order_by _ (λ (r : Decision). u.id == r.id) _ ∙ h waits)
          (snapshot-IsCovered run_date db.decisions)))
