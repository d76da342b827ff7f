-- ===== src/Orchestrator/Daily/Gate/Caps.antt =====
-- No live ticket authorizes more than its decision asked for.
use fund.State.Transition.{◌=ₛ◌}
use fund.Python.Actions.{Result, ◌>>◌, err, ok}
use fund.Orchestrator.Daily.Sizing.{MarketInputs, sized}
use fund.Gate.Risk.{Arith, Verdict}
use fund.Gate.Tickets.{create_ticket, bad_price, violates}
use fund.Orchestrator.Daily.Gate.{
  approve_decision, close_open_ticket, gate_reject, approve_trade, capped_qty, handle_trade, mint,
  open_ticket_of, id_or, inputs_of, ticket_for, why,
}
use fund.State.Rows.{Decision, Db, Ticket, Side, Time, opened, Status}
use fund.Python.Values.{Conversions}
use fund.Base.{
  none, some, [], ◌∷◌, true, inl, inr, Bool-cases, ℕ, Option, String, All, Bool, List, pos_part, ℤ,
  not, ◌≡◌, ◌≤◌, arith, ltb_ℤ, update_where, ◌==◌, pos, str_eq, ◌&&◌, ◌||◌, leb, All-append,
}

-- A live ticket of the decision is for no more than the decision asked.
abbrev pub is_within : Decision → Ticket → Bool
is_within d t = not (t.decision_id == d.id && t.status =ₛ opened) || leb t.max_qty d.qty

abbrev pub IsWithin : Decision → Db → Type 0
IsWithin d db = All (λ t. is_within d t ≡ true) db.tickets

capped_at_most : (asked : ℕ) (v : Verdict) → pos_part (capped_qty asked v) ≤ asked
capped_at_most asked (Verdict.approved q p side) = ground arith
capped_at_most asked (Verdict.rejected reason) = ground arith

refresh-IsWithin :
    (d : Decision) (id : String) (q : ℤ) (expires_at : Time) (ts : List Ticket)
    → pos_part q ≤ d.qty
    → All (λ t. is_within d t ≡ true) ts
    → All
        (λ t. is_within d t ≡ true)
        (update_where
          (λ (t : Ticket). str_eq t.id id && t.status =ₛ opened)
          (λ t. record t { max_qty = pos_part q; expires_at = expires_at })
          ts)
refresh-IsWithin d id q e [] small h = tt
refresh-IsWithin d id q e (t ∷ ts) small h = ground (arith, refresh-IsWithin d id q e ts small h.1)

close-IsWithin :
    (d : Decision) (id : String) (ts : List Ticket)
    → All (λ t. is_within d t ≡ true) ts
    → All
        (λ t. is_within d t ≡ true)
        (update_where
          (λ (t : Ticket). str_eq t.id id && t.status =ₛ opened)
          (λ t. record t { status = Status.expired })
          ts)
close-IsWithin d id [] h = tt
close-IsWithin d id (t ∷ ts) h = ground (arith, close-IsWithin d id ts h.1)

close_open_ticket-IsWithin :
    (d : Decision) (o : Option Ticket) (now : Time) (db : Db)
    → IsWithin d db
    → IsWithin d (close_open_ticket o now db).1
unfolding close_open_ticket
close_open_ticket-IsWithin d none now db h = h
close_open_ticket-IsWithin d (some t) now db h = close-IsWithin d t.id db.tickets h

tickets-gate_reject :
    (d : Decision) (reason : String) (now : Time) (db : Db)
    → (gate_reject d reason now db).1.tickets
      ≡ (close_open_ticket (open_ticket_of d.id db) now db).1.tickets
unfolding gate_reject
tickets-gate_reject d reason now db = ground arith

gate_reject-IsWithin :
    (d : Decision) (reason : String) (now : Time) (db : Db)
    → IsWithin d db
    → IsWithin d (gate_reject d reason now db).1
gate_reject-IsWithin d reason now db h =
    rw (tickets-gate_reject d reason now db)
      (close_open_ticket-IsWithin d (open_ticket_of d.id db) now db h)

tickets-approve_decision :
    (d : Decision) (id : String) (side : Side) (q : ℤ) (now : Time) (db : Db)
    → (approve_decision d id side q now db).1.tickets ≡ db.tickets
unfolding approve_decision
tickets-approve_decision d id side q now db = ground arith

create-IsWithin :
    (id : String) (d : Decision) (side : Side) (q : ℤ) (now e : Time) (db : Db)
    → pos_part q ≤ d.qty
    → IsWithin d db
    → IsWithin d (create_ticket id d.id d.ticker side q d.stop_price e now db).1
unfolding create_ticket
create-IsWithin id d side q now e db small h =
    elim (Bool-cases (ltb_ℤ q (pos 1) || bad_price d.stop_price)) [
      | inl bad ↦ rw bad h
      | inr good ↦ elim (Bool-cases (violates id d.id db)) [
        | inl clash ↦ rw (good, clash) h
        | inr fits ↦ rw (good, fits) (All-append _ db.tickets _ h (ground arith, tt))
      ]
    ]

module _ (conv : Conversions) (a : Arith) (inputs : MarketInputs) (new_id : Db → String) where
  mint-IsWithin :
      (o : Option Ticket) (id : String) (d : Decision) (side : Side) (q : ℤ) (now e : Time)
      (db : Db)
      → pos_part q ≤ d.qty
      → IsWithin d db
      → IsWithin d (mint conv a inputs new_id o id d side q now e db).1
  unfolding mint
  mint-IsWithin (some t) id d side q now e db small h = refresh-IsWithin d id q e db.tickets small h
  mint-IsWithin none id d side q now e db small h = create-IsWithin id d side q now e db small h

  -- Approving touches no ticket, whatever the first step gave.
  then_approve-tickets :
      (d : Decision) (id : String) (side : Side) (q : ℤ) (now : Time) (db : Db)
      (m : Result (Unit {0}) × Db)
      → IsWithin d m.1
      → IsWithin d (((λ (_ : Db). m) >> approve_decision d id side q now) db).1
  then_approve-tickets d id side q now db (err x, db1) h = h
  then_approve-tickets d id side q now db (ok _, db1) h =
      rw (tickets-approve_decision d id side q now db1) h

  approve_trade-IsWithin :
      (d : Decision) (side : Side) (q : ℤ) (now e : Time) (db : Db)
      → pos_part q ≤ d.qty
      → IsWithin d db
      → IsWithin d (approve_trade conv a inputs new_id d side q now e db).1
  unfolding approve_trade
  approve_trade-IsWithin d side q now e db small h =
      let id = id_or (ticket_for d.id db) (new_id db) in
      then_approve-tickets d id side q now db
        (mint conv a inputs new_id (ticket_for d.id db) id d side q now e db)
        (mint-IsWithin (ticket_for d.id db) id d side q now e db small h)

  -- Gating a trade, sized on any market data, keeps every live ticket of its decision within the
  -- quantity that the decision asked for, whether the trade is approved, rejected or raises.
  pub handle_trade-IsWithin :
      (d : Decision) (side : Side) (now e : Time) (db : Db)
      → IsWithin d db
      → IsWithin d (handle_trade conv a inputs new_id d side now e db).1
  unfolding handle_trade
  handle_trade-IsWithin d side now e db h =
      let v = sized conv a (inputs_of d.ticker inputs) side in
      elim (Bool-cases (ltb_ℤ (capped_qty d.qty v) (pos 1))) [
        | inl refused ↦ rw refused (gate_reject-IsWithin d (why v) now db h)
        | inr fits ↦
            rw fits (
              approve_trade-IsWithin d side (capped_qty d.qty v) now e db (capped_at_most d.qty v)
                h)
      ]
