-- ===== src/Orchestrator/Reconcile/Recover.antt =====
-- `recover_lost_orders` of orchestrator/reconcile.py: an order that landed at the broker and whose
-- row was never written. (`int` of a text is below the interpreter's limit on digits.)
use Prim.Native.Char.{code}
use fund.Base.{
  ℕ, suc, ◌+◌, ◌-◌, ◌*◌, ◌==◌, leb, Bool, true, false, not, ◌&&◌, ◌||◌, Option, none, some, List,
  [], ◌∷◌, ◌++◌, String, ℤ, pos, ltb_ℤ, pos_part, any, str_eq, if◌then◌else◌,
}
use fund.Python.Values.{Value, Dict, null, int, text, other, get, is_text}
use fund.Python.Actions.{
  Result, ok, err, Action, pure, lift, modify, catch, integrity_error, operational_error, ◌>>=◌,
  ◌>>◌,
}
use fund.State.Rows.{Time, Db, Ticket, Order, opened, consumed, submitted}
use fund.State.Transition.{try_transition, ticket}
use fund.Gate.Tickets.{open_tickets_without_orders}
use fund.Gate.Tickets.Orders.{side_text}
use fund.Slack.Outbox.{append_alert}
use fund.Orchestrator.Broker.{Env, Sys}

abbrev pub codes : String → List ℕ
codes String.[] = []
codes (String.◌∷◌ c s) = code c ∷ codes s

-- A text that `[0-9]+(?:\.[0-9]+)?` matches and whose fractional part is all zeros, as the number
-- before the point.
scan_zeros : Bool → ℕ → List ℕ → Option ℕ
scan_zeros seen acc [] = if seen then some acc else none
scan_zeros seen acc (c ∷ cs) = let rest = scan_zeros true acc cs in if c == b'0' then rest else none

scan_whole : Bool → ℕ → List ℕ → Option ℕ
unfolding scan_zeros
scan_whole seen acc [] = if seen then some acc else none
scan_whole seen acc (c ∷ cs) =
    let rest = scan_whole true (acc * 10 + (c - b'0')) cs in
    if leb b'0' c && leb c b'9'
    then rest
    else if c == b'.' && seen
    then scan_zeros false acc cs
    else none

unfoldable pub decimal_qty : String → Option ℕ
unfolding scan_whole
decimal_qty s = scan_whole false 0 (codes s)

-- The share count that the wire spells, before the bounds.
unfoldable pub wire_qty : Value → Option ℤ
unfolding decimal_qty
wire_qty (int n) = some n
wire_qty (text s) = elim (decimal_qty s) [ none ↦ none | some n ↦ some (pos n) ]
wire_qty _ = none

abbrev pub in_ticket : Ticket → Option ℤ → Option ℕ
in_ticket t none = none
in_ticket t (some n) =
    if ltb_ℤ n (pos 1) || ltb_ℤ (pos t.max_qty) n then none else some (pos_part n)

unfoldable pub recoverable_qty : Dict → Ticket → Option ℕ
unfolding wire_qty
recoverable_qty o t =
    if not (is_text (get o "symbol") t.ticker) || not (is_text (get o "side") (side_text t.side))
    then none
    else if not (is_text (get o "client_order_id") t.id)
    then none
    else in_ticket t (wire_qty (get o "qty"))

-- What is bound to the column alpaca_order_id; `text_of` is str() of a number.
abbrev bind_text : (Value → String) → Value → Result (Option String)
bind_text text_of null = ok none
bind_text text_of (text s) = ok (some s)
bind_text text_of other = err operational_error
bind_text text_of v = ok (some (text_of v))

abbrev same_id : Option String → Option String → Bool
same_id (some a) (some b) = str_eq a b
same_id _ _ = false

-- INSERT OR IGNORE INTO orders: its rowcount. A clash with a unique column drops the row; a ticket
-- that does not exist raises, which OR IGNORE does not catch.
unfoldable pub insert_order : Ticket → Option String → ℕ → Time → Action Db Bool
insert_order t alpaca qty now db =
    if not (any (λ (u : Ticket). str_eq u.id t.id) db.tickets)
    then (err integrity_error, db)
    else if any (λ (o : Order). str_eq o.client_order_id t.id || same_id o.alpaca_order_id alpaca)
        db.orders
    then (ok false, db)
    else (
      ok true,
      record db {
        orders =
            db.orders
            ++ record {
              client_order_id = t.id;
              alpaca_order_id = alpaca;
              symbol = t.ticker;
              side = t.side;
              qty = qty;
              status = submitted;
              filled_qty = 0;
              filled_avg_price = none;
              submitted_at = now;
              closed_at = none;
            }
              ∷ [];
      },
    )

abbrev alert_for : Ticket → String → Time → Action Db (Unit {0})
alert_for t code now = modify (append_alert code (some t.ticker) now)

module _ (text_of : Value → String) where
  unfoldable pub record_recovered : Ticket → Dict → ℕ → Time → Action Db Bool
  unfolding insert_order try_transition
  record_recovered t o qty now = do
    alpaca ← lift (bind_text text_of (get o "id"))
    written ← insert_order t alpaca qty now
    if not written then (do alert_for t "order_recovery_unwritable" now; pure false) else (do
      moved ← try_transition (ticket t.id) opened consumed now [] none
      if moved then (do alert_for t "order_recovered" now; pure true) else pure false)

  -- The body of the try, on what the lookup answered: whether this call recovered the ticket.
  unfoldable pub recover_answer : Ticket → Time → Result (Option Dict) → Action Db Bool
  unfolding record_recovered recoverable_qty
  recover_answer t now (err e) = lift (err e)
  recover_answer t now (ok none) = pure false
  recover_answer t now (ok (some [])) = pure false
  recover_answer t now (ok (some (e ∷ o))) = elim (recoverable_qty (e ∷ o) t) [
    | none ↦ (do alert_for t "order_recovery_mismatch" now; pure false)
    | some qty ↦ record_recovered t (e ∷ o) qty now
  ]

  unfoldable pub recover_ticket : Ticket → Time → Result (Option Dict) → Action Db Bool
  unfolding recover_answer
  recover_ticket t now reply =
      catch (recover_answer t now reply)
        (λ e. do alert_for t "order_recovery_failed" now; pure false)

  abbrev count_recovered : Result Bool → ℕ → ℕ
  count_recovered (ok true) n = suc n
  count_recovered _ n = n

  module _ {W : Type 0} (env : Env W) where
    unfoldable pub recover_rows : List Ticket → Time → ℕ → Sys W → ℕ × Sys W
    unfolding recover_ticket
    recover_rows [] now n s = (n, s)
    recover_rows (t ∷ rest) now n s =
        let (reply, w') = env.get_order t.id s.world in
        let (r, db') = recover_ticket t now reply s.db in
        recover_rows rest now (count_recovered r n) (record { db = db'; world = w' })

    unfoldable pub recover_lost_orders : Sys W → ℕ × Sys W
    unfolding recover_rows
    recover_lost_orders s =
        if env.has_lookup
        then recover_rows (open_tickets_without_orders s.db) (env.now s.world) 0 s
        else (0, s)
