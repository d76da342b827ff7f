-- ===== src/Orchestrator/Reconcile/Numbers.antt =====
-- The numbers that the code accepts from a broker's payload.
use fund.Gate.Tickets.Orders.{side_text}
use fund.Python.Actions.{ok, Result, err}
use fund.Python.Floats.{Float, float_eq_int, float_le, truncate, zero_float}
use fund.Orchestrator.Reconcile.Fills.{
  parse_fill, bind_result, checked_fill, index, or_raise, to_float,
}
use fund.Orchestrator.Reconcile.Recover.{recoverable_qty, wire_qty, in_ticket}
use fund.Python.Values.{Conversions, Dict, get, text, is_text, is_text-eq}
use fund.State.Rows.{Ticket}
use fund.Base.{
  arith, true, false, none, inl, inr, Bool-cases, Option, ℕ, ℤ, ◌≡◌, some, pos, ◌≤◌, negsuc,
}

module _ (conv : Conversions) where
  -- What an accepted fill says of the two numbers of the payload, as they were read.
  abbrev pub Reads : Result Float → Result Float → ℕ → Float → Type 0
  Reads (ok raw) (ok read) qty price =
      (float_eq_int raw (pos qty) ≡ true)
      × (1 ≤ qty)
      × (price ≡ read)
      × (float_le price zero_float ≡ false)
  Reads _ _ qty price = ⊥

  not_negative :
      (raw read : Float) (q : ℕ) (qty : ℕ) (price : Float)
      → ¬ (checked_fill conv raw read (negsuc q) ≡ ok (qty, price))
  unfolding checked_fill
  not_negative raw read q qty price h = ground arith

  checked_fill-Reads :
      (raw read : Float) (q : ℤ) (qty : ℕ) (price : Float)
      → checked_fill conv raw read q ≡ ok (qty, price)
      → Reads (ok raw) (ok read) qty price
  unfolding checked_fill
  checked_fill-Reads raw read (pos q) qty price h = ground arith
  checked_fill-Reads raw read (negsuc q) qty price h = absurd (not_negative raw read q qty price h)

  with_qty :
      (raw read : Float) (t : Option ℤ) (qty : ℕ) (price : Float)
      → bind_result (or_raise t) (λ q. checked_fill conv raw read q) ≡ ok (qty, price)
      → Reads (ok raw) (ok read) qty price
  with_qty raw read none qty price h = cc
  with_qty raw read (some q) qty price h = checked_fill-Reads raw read q qty price h

  reads :
      (rq rp : Result Float) (qty : ℕ) (price : Float)
      → bind_result rq (λ raw.
        bind_result rp
          (λ read. bind_result (or_raise (truncate raw)) (λ q. checked_fill conv raw read q)))
        ≡ ok (qty, price)
      → Reads rq rp qty price
  reads (err e) rp qty price h = cc
  reads (ok raw) (err e) qty price h = cc
  reads (ok raw) (ok read) qty price h = with_qty raw read (truncate raw) qty price h

  -- A fill that parses is a whole number of at least one share, exactly the one that the payload
  -- states, at the payload's own price, and that price is not at or below zero.
  pub parse_fill_sound :
      (o : Dict) (qty : ℕ) (price : Float)
      → parse_fill conv o ≡ ok (qty, price)
      → Reads
          (bind_result (index o "filled_qty") (to_float conv))
          (bind_result (index o "filled_avg_price") (to_float conv))
          qty
          price
  unfolding parse_fill
  parse_fill_sound o qty price h =
      reads (bind_result (index o "filled_qty") (to_float conv))
        (bind_result (index o "filled_avg_price") (to_float conv)) qty price h

-- What a recovered order says of the ticket.
abbrev pub Fits : Dict → Ticket → ℕ → Type 0
Fits o t n =
    (get o "symbol" ≡ text t.ticker)
    × (get o "side" ≡ text (side_text t.side))
    × (get o "client_order_id" ≡ text t.id)
    × (wire_qty (get o "qty") ≡ some (pos n))
    × (1 ≤ n)
    × (n ≤ t.max_qty)

in_ticket_sound :
    (t : Ticket) (q : Option ℤ) (n : ℕ)
    → in_ticket t q ≡ some n
    → (q ≡ some (pos n)) × (1 ≤ n) × (n ≤ t.max_qty)
in_ticket_sound t none n h = cc
in_ticket_sound t (some (pos q)) n h = ground arith
in_ticket_sound t (some (negsuc q)) n h = absurd (ground arith)

-- An order is recovered under a ticket only with the ticket's symbol, side and id, and with a whole
-- number of shares from one up to what the ticket authorizes, the number that the payload spells.
pub recoverable_qty_sound :
    (o : Dict) (t : Ticket) (n : ℕ) → recoverable_qty o t ≡ some n → Fits o t n
unfolding recoverable_qty
recoverable_qty_sound o t n h = elim (Bool-cases (is_text (get o "symbol") t.ticker)) [
  | inr differs ↦ cc (rw differs at h)
  | inl symbol ↦ elim (Bool-cases (is_text (get o "side") (side_text t.side))) [
    | inr differs ↦ cc (rw (symbol, differs) at h)
    | inl side ↦ elim (Bool-cases (is_text (get o "client_order_id") t.id)) [
      | inr differs ↦ cc (rw (symbol, side, differs) at h)
      | inl id ↦
          let q = in_ticket_sound t (wire_qty (get o "qty")) n (rw (symbol, side, id) at h) in
          (is_text-eq _ _ symbol, is_text-eq _ _ side, is_text-eq _ _ id, q.0, q.1, q.2)
    ]
  ]
]
