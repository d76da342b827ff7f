-- ===== src/Gate/Tickets/Orders/Complete.antt =====
-- The hook denies nothing that the ticket authorizes, and where it raises instead of denying.
use fund.Gate.Tickets.{is_expired}
use fund.Base.{
  ◌≡◌, refl, true, none, some, arith, Option, String, str_eq_refl, ℤ, ◌<◌, pos, ℕ, ◌≢◌, false,
  str_eq, ◌≤ℤ◌, Bool-cases, ltb_ℤ, inl, str_eq_iff, inr,
}
use fund.Python.Floats.{Float}
use fund.Python.Values.{Conversions, Dict, get, null, text}
use fund.Python.Actions.{ok, err, value_error}
use fund.State.Rows.{Time, Db, Ticket, opened}
use fund.Gate.Tickets.Orders.{
  allow, check_leg, check_qty, qty_ruling, check_ticket, ruling_for, validate_order, as_share_count,
  side_text,
}
use fund.Gate.Tickets.Orders.Sound.{LegMatches, IsAuthorized, Names}

not_low : (n : ℤ) → pos 1 ≤ℤ n → ltb_ℤ n (pos 1) ≡ false
not_low n h = ground arith

not_high : (n : ℤ) (m : ℕ) → n ≤ℤ pos m → ltb_ℤ (pos m) n ≡ false
not_high n m h = ground arith

not_expired : (e now : Time) → now < e → is_expired e now ≡ false
not_expired e now h = ground arith

not_empty : (s : String) → s ≢ "" → str_eq s "" ≡ false
not_empty s h = elim (Bool-cases (str_eq s "")) [
  | inl e ↦ absurd (h ((str_eq_iff s "").0 e))
  | inr e ↦ e
]

module _ (conv : Conversions) where
  check_leg_complete :
      (d : Dict) (o : Option Float) → LegMatches conv d o → check_leg conv d o ≡ ok allow
  unfolding check_leg
  check_leg_complete d none (a, b, c) = rw (a, b, c)
  check_leg_complete d (some stop) (a, b, leg, p, q, r, u) = rw (a, b, p, q, r, u) refl

  check_qty_complete :
      (d : Dict) (t : Ticket) (n : ℤ)
      → pos 1 ≤ℤ n
      → n ≤ℤ pos t.max_qty
      → get d "stop_loss" ≡ null
      → get d "take_profit" ≡ null
      → LegMatches conv d t.stop_price
      → check_qty conv d t (some n) ≡ ok allow
  unfolding check_qty
  check_qty_complete d t n low high a b leg =
      rw (not_low n low, not_high n t.max_qty high, a, b) (check_leg_complete d t.stop_price leg)

  check_ticket_complete :
      (d : Dict) (now : Time) (t : Ticket)
      → IsAuthorized conv d now t
      → check_ticket conv d now (some t) ≡ ok allow
  unfolding check_ticket
  check_ticket_complete d now t h =
      let (n, counted, low, high) = h.qty in
      rw
        (
          h.still_open,
          not_expired t.expires_at now h.live,
          h.symbol,
          h.side,
          str_eq_refl,
          str_eq_refl,
          counted,
        )
        (unfold qty_ruling in
          check_qty_complete d t n low high h.no_nested_stop h.no_nested_profit h.leg)

  -- An order that its ticket authorizes is allowed: the hook denies nothing legitimate.
  pub validate_order_complete :
      (d : Dict) (now : Time) (db : Db) (t : Ticket)
      → Names conv d db t
      → IsAuthorized conv d now t
      → validate_order conv (some d) now db ≡ ok allow
  unfolding validate_order
  validate_order_complete d now db t (coid, named, nonempty, found) h =
      rw (named, found)
        (unfold ruling_for in rw (not_empty coid nonempty) (check_ticket_complete d now t h))

  -- On an order that names an open, unexpired ticket and has its symbol and side, a quantity text for
  -- which isdigit() holds and on which int() raises makes the hook raise ValueError, not deny.
  pub validate_order_raises :
      (d : Dict) (now : Time) (db : Db) (t : Ticket) (s : String)
      → Names conv d db t
      → t.status ≡ opened
      → now < t.expires_at
      → get d "symbol" ≡ text t.ticker
      → get d "side" ≡ text (side_text t.side)
      → get d "qty" ≡ text s
      → conv.is_digit s ≡ true
      → conv.int_of_text s ≡ none
      → validate_order conv (some d) now db ≡ err value_error
  unfolding validate_order
  validate_order_raises d now db t s (coid, named, nonempty, found) o l y z q digit unreadable =
      rw (named, found)
        (unfold ruling_for in
          rw (not_empty coid nonempty) (
            unfold check_ticket in
            rw (o, not_expired t.expires_at now l, y, z, str_eq_refl, str_eq_refl, q)
              (unfold as_share_count qty_ruling in rw (digit, unreadable))))
