-- ===== src/Orchestrator/Reconcile/Raises.antt =====
-- A broker payload that does not parse writes nothing.
use fund.Slack.Outbox.{append_event}
use fund.State.Transition.{try_transition, order}
use fund.Python.Floats.{Float}
use fund.Python.Values.{Conversions, Dict, is_text, get}
use fund.Python.Actions.{Result, ok, Action, err, lift, ◌>>=◌, pure}
use fund.Orchestrator.Reconcile.Fills.{
  settle_decision, apply_filled, apply_partial, parse_fill, apply, record_filled, record_partial,
  write_fill, announce_fill, move_partial, fill_event, ticket_of,
}
use fund.State.Rows.{Db, Order, Ticket, Time, submitted, filled}
use fund.Base.{false, true, none, refl, ℕ, Option, ◌≡◌, some, arith, Bool-cases, inl, inr, Bool, []}

-- A raise leaves the store as it was.
abbrev pub KeepsOnRaise : {A : Type 0} → Db → Result A × Db → Type 0
KeepsOnRaise db (ok a, db') = Unit
KeepsOnRaise db (err e, db') = db' ≡ db

abbrev IsOk : {A : Type 0} → Result A × Db → Type 0
IsOk (ok a, db') = Unit
IsOk (err e, db') = ⊥

IsOk-keeps : {A : Type 0} (db : Db) (m : Result A × Db) → IsOk m → KeepsOnRaise db m
IsOk-keeps db (ok a, db') h = tt
IsOk-keeps db (err e, db') h = absurd h

lift-keeps :
    {A : Type 0} (r : Result (ℕ × Float)) (k : ℕ × Float → Action Db A) (db : Db)
    → ((fill : ℕ × Float) → IsOk (k fill db))
    → KeepsOnRaise db ((lift r >>= k) db)
lift-keeps (err e) k db h = refl
lift-keeps (ok fill) k db h = IsOk-keeps db _ (h fill)

bind-IsOk :
    {A B : Type 0} (m : Result A × Db) (k : A → Action Db B)
    → IsOk m
    → ((a : A) (db : Db) → IsOk (k a db))
    → IsOk (((λ (_ : Db). m) >>= k) m.1)
bind-IsOk (ok a, db) k h next = next a db
bind-IsOk (err e, db) k h next = absurd h

settle_decision-IsOk : (t : Option Ticket) (now : Time) (db : Db) → IsOk (settle_decision t now db)
unfolding settle_decision
settle_decision-IsOk none now db = tt
settle_decision-IsOk (some t) now db = ground arith

announce_fill-IsOk :
    (row : Order) (now : Time) (fill : ℕ × Float) (moved : Bool) (db : Db)
    → IsOk (announce_fill row now fill moved db)
unfolding announce_fill
announce_fill-IsOk row now fill false db = tt
announce_fill-IsOk row now fill true db =
    let db' = append_event (fill_event row fill) now db in
    bind-IsOk (settle_decision (ticket_of row.client_order_id db') now db') (λ _. pure true)
      (settle_decision-IsOk (ticket_of row.client_order_id db') now db') (λ _ _. tt)

move_partial-IsOk :
    (row : Order) (now : Time) (first : Bool) (db : Db) → IsOk (move_partial row now first db)
unfolding move_partial
move_partial-IsOk row now true db = tt
move_partial-IsOk row now false db = tt

then-IsOk :
    (row : Order) (now : Time) (fill : ℕ × Float) (first : Bool) (db : Db)
    → IsOk ((move_partial row now first >>= announce_fill row now fill) db)
then-IsOk row now fill first db =
    bind-IsOk (move_partial row now first db) (announce_fill row now fill)
      (move_partial-IsOk row now first db) (announce_fill-IsOk row now fill)

record_filled-IsOk :
    (row : Order) (now : Time) (fill : ℕ × Float) (db : Db) → IsOk (record_filled row now fill db)
unfolding record_filled
record_filled-IsOk row now fill db =
    bind-IsOk
      (try_transition (order row.client_order_id) submitted filled now [] none
        (write_fill row.client_order_id fill (some now) db))
      (λ first. move_partial row now first >>= announce_fill row now fill) tt
      (then-IsOk row now fill)

record_partial-IsOk :
    (row : Order) (now : Time) (fill : ℕ × Float) (db : Db) → IsOk (record_partial row now fill db)
unfolding record_partial
record_partial-IsOk row now fill db = ground arith

module _ (conv : Conversions) where
  -- A payload on which the mirroring of an order raises, malformed as it is, has changed nothing: no
  -- row, no event and no decision.
  pub apply-keeps :
      (row : Order) (o : Dict) (now : Time) (db : Db) → KeepsOnRaise db (apply conv row o now db)
  unfolding apply apply_filled apply_partial
  apply-keeps row o now db = elim (Bool-cases (is_text (get o "status") "filled")) [
    | inl full ↦ rw full (
        lift-keeps (parse_fill conv o) (record_filled row now) db
          λ fill. record_filled-IsOk row now fill db)
    | inr differs ↦ elim (Bool-cases (is_text (get o "status") "partially_filled")) [
      | inl part ↦
          rw (differs, part)
            (lift-keeps (parse_fill conv o) (record_partial row now) db
              λ fill. record_partial-IsOk row now fill db)
      | inr neither ↦ rw (differs, neither) tt
    ]
  ]
