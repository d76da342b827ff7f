-- ===== src/Gate/Tickets/Orders/Sound.antt =====
-- An order is allowed exactly when its ticket authorizes it.
use fund.Base.{
  ℕ, ◌≡◌, ◌≢◌, refl, ◌<◌, ◌≤ℤ◌, Bool, true, false, Option, none, some, String, ℤ, pos, ltb_ℤ,
  str_eq, if◌then◌else◌, arith, or_left, or_right, not-false, ap, str_eq_iff,
}
use fund.Python.Floats.{Float, float_eq}
use fund.Python.Values.{
  Value, Dict, Conversions, null, bool, int, float, text, other, get, is_null-eq, is_text-eq,
}
use fund.Python.Actions.{Result, ok, err}
use fund.State.Rows.{Time, Db, Ticket, opened}
use fund.State.Transition.Literals.{=ₛ-sound}
use fund.Gate.Tickets.{get_ticket, is_expired}
use fund.Gate.Tickets.Orders.{
  side_text, allow, deny, as_share_count, as_price, as_time_in_force, check_leg, check_qty,
  check_ticket, validate_order, is_some_text, leg_ruling, Denial, Ruling, qty_ruling, ruling_for,
}

-- A guard that denies was not met.
passes :
    (b : Bool) (r : Denial) (rest : Result Ruling)
    → (if b then ok (deny r) else rest) ≡ ok allow
    → (b ≡ false) × (rest ≡ ok allow)
passes true r rest h = cc
passes false r rest h = (refl, h)

passes_ok :
    (b : Bool) (r : Denial) (rest : Ruling)
    → ok (if b then deny r else rest) ≡ ok allow
    → (b ≡ false) × (ok rest ≡ ok allow)
passes_ok true r rest h = cc
passes_ok false r rest h = (refl, h)

is_some_text-eq : (o : Option String) (s : String) → is_some_text o s ≡ true → o ≡ some s
is_some_text-eq none s h = cc
is_some_text-eq (some u) s h = ap some ((str_eq_iff u s).0 h)

not_empty : (s : String) → str_eq s "" ≡ false → s ≢ ""
not_empty s h e = cc ((str_eq_iff s "").1 e)

one_le : (n : ℤ) → ltb_ℤ n (pos 1) ≡ false → pos 1 ≤ℤ n
one_le n h = ground arith

at_most : (n : ℤ) (m : ℕ) → ltb_ℤ (pos m) n ≡ false → n ≤ℤ pos m
at_most n m h = ground arith

not_yet : (e now : Time) → is_expired e now ≡ false → now < e
not_yet e now h = ground arith

module _ (conv : Conversions) where
  -- The exit leg that the ticket authorizes: none at all, or its stop, as a gtc oto order.
  abbrev pub LegMatches : Dict → Option Float → Type 0
  LegMatches d none =
      (get d "stop_loss_stop_price" ≡ null)
      × (get d "stop_loss_limit_price" ≡ null)
      × (get d "take_profit_limit_price" ≡ null)
  LegMatches d (some stop) =
      (get d "stop_loss_limit_price" ≡ null)
      × (get d "take_profit_limit_price" ≡ null)
      × (leg : Float) × (as_price conv (get d "stop_loss_stop_price") ≡ ok (some leg))
      × (float_eq leg stop ≡ true)
      × (get d "order_class" ≡ text "oto")
      × (as_time_in_force conv (get d "time_in_force") ≡ some "gtc")

  pub record IsAuthorized (d : Dict) (now : Time) (t : Ticket) : Type 0 where
    pub still_open : t.status ≡ opened
    pub live : now < t.expires_at
    pub symbol : get d "symbol" ≡ text t.ticker
    pub side : get d "side" ≡ text (side_text t.side)
    pub qty :
        (n : ℤ) × (as_share_count conv (get d "qty") ≡ ok (some n))
        × (pos 1 ≤ℤ n)
        × (n ≤ℤ pos t.max_qty)
    pub no_nested_stop : get d "stop_loss" ≡ null
    pub no_nested_profit : get d "take_profit" ≡ null
    pub leg : LegMatches d t.stop_price

  leg_ruling_sound :
      (d : Dict) (stop : Float) (r : Result (Option Float))
      → leg_ruling conv d stop r ≡ ok allow
      → (leg : Float) × (r ≡ ok (some leg))
        × (float_eq leg stop ≡ true)
        × (get d "order_class" ≡ text "oto")
        × (as_time_in_force conv (get d "time_in_force") ≡ some "gtc")
  unfolding leg_ruling
  leg_ruling_sound d stop (err e) h = cc
  leg_ruling_sound d stop (ok none) h = cc
  leg_ruling_sound d stop (ok (some leg)) h =
      let (price, h1) = passes_ok _ _ _ h in
      let (class, h2) = passes_ok _ _ _ h1 in
      let (lifetime, _) = passes_ok _ _ _ h2 in
      (
        leg,
        refl,
        not-false _ price,
        is_text-eq _ _ (not-false _ class),
        is_some_text-eq _ _ (not-false _ lifetime),
      )

  check_leg_sound : (d : Dict) (o : Option Float) → check_leg conv d o ≡ ok allow → LegMatches d o
  unfolding check_leg
  check_leg_sound d none h =
      let (e, _) = passes _ _ _ h in
      let e2 = or_left _ _ e in
      (
        is_null-eq _ (not-false _ (or_left _ _ e2)),
        is_null-eq _ (not-false _ (or_right _ _ e2)),
        is_null-eq _ (not-false _ (or_right _ _ e)),
      )
  check_leg_sound d (some stop) h =
      let (e, r) = passes _ _ _ h in
      let q = leg_ruling_sound d stop _ r in
      (
        is_null-eq _ (not-false _ (or_left _ _ e)),
        is_null-eq _ (not-false _ (or_right _ _ e)),
        q.0,
        q.1,
        q.2,
        q.3,
        q.4,
      )

  check_qty_sound :
      (d : Dict) (t : Ticket) (o : Option ℤ)
      → check_qty conv d t o ≡ ok allow
      → (n : ℤ) × (o ≡ some n)
        × (pos 1 ≤ℤ n)
        × (n ≤ℤ pos t.max_qty)
        × (get d "stop_loss" ≡ null)
        × (get d "take_profit" ≡ null)
        × LegMatches d t.stop_price
  unfolding check_qty
  check_qty_sound d t none h = cc
  check_qty_sound d t (some n) h =
      let (low, h1) = passes _ _ _ h in
      let (high, h2) = passes _ _ _ h1 in
      let (nested, h3) = passes _ _ _ h2 in
      (
        n,
        refl,
        one_le n low,
        at_most n t.max_qty high,
        is_null-eq _ (not-false _ (or_left _ _ nested)),
        is_null-eq _ (not-false _ (or_right _ _ nested)),
        check_leg_sound d t.stop_price h3,
      )

  qty_ruling_sound :
      (d : Dict) (t : Ticket) (r : Result (Option ℤ))
      → qty_ruling conv d t r ≡ ok allow
      → (n : ℤ) × (r ≡ ok (some n))
        × (pos 1 ≤ℤ n)
        × (n ≤ℤ pos t.max_qty)
        × (get d "stop_loss" ≡ null)
        × (get d "take_profit" ≡ null)
        × LegMatches d t.stop_price
  unfolding qty_ruling
  qty_ruling_sound d t (err e) h = cc
  qty_ruling_sound d t (ok o) h =
      let q = check_qty_sound d t o h in (q.0, ap ok q.1, q.2, q.3, q.4, q.5, q.6)

  check_ticket_sound :
      (d : Dict) (now : Time) (o : Option Ticket)
      → check_ticket conv d now o ≡ ok allow
      → (t : Ticket) × (o ≡ some t) × IsAuthorized d now t
  unfolding check_ticket
  check_ticket_sound d now none h = cc
  check_ticket_sound d now (some t) h =
      let (open_now, h1) = passes _ _ _ h in
      let (fresh, h2) = passes _ _ _ h1 in
      let (symbol, h3) = passes _ _ _ h2 in
      let (side, h4) = passes _ _ _ h3 in
      let q = qty_ruling_sound d t _ h4 in
      (
        t,
        refl,
        record {
          still_open = =ₛ-sound _ _ (not-false _ open_now);
          live = not_yet t.expires_at now fresh;
          symbol = is_text-eq _ _ (not-false _ symbol);
          side = is_text-eq _ _ (not-false _ side);
          qty = (q.0, q.1, q.2, q.3);
          no_nested_stop = q.4;
          no_nested_profit = q.5;
          leg = q.6;
        },
      )

  -- The ticket that an order names.
  abbrev pub Names : Dict → Db → Ticket → Type 0
  Names d db t =
      (coid : String) × (get d "client_order_id" ≡ text coid)
      × (coid ≢ "")
      × (get_ticket coid db ≡ some t)

  ruling_for_sound :
      (d : Dict) (now : Time) (db : Db) (v : Value)
      → ruling_for conv d now db v ≡ ok allow
      → (t : Ticket) × (coid : String) × (v ≡ text coid)
        × (coid ≢ "")
        × (get_ticket coid db ≡ some t)
        × IsAuthorized d now t
  unfolding ruling_for
  ruling_for_sound d now db (text coid) h =
      let (named, h1) = passes _ _ _ h in
      let q = check_ticket_sound d now _ h1 in (q.0, coid, refl, not_empty coid named, q.1, q.2)
  ruling_for_sound d now db null h = cc
  ruling_for_sound d now db (bool b) h = cc
  ruling_for_sound d now db (int n) h = cc
  ruling_for_sound d now db (float x) h = cc
  ruling_for_sound d now db other h = cc

  -- An allowed order names a ticket in the store that is open, has not expired, has the order's
  -- symbol and side, covers its whole-share quantity, and carries exactly the order's exit leg; the
  -- leg of a ticket with a stop is a gtc oto order at that stop, and no nested leg is ever allowed.
  pub validate_order_sound :
      (d : Dict) (now : Time) (db : Db)
      → validate_order conv (some d) now db ≡ ok allow
      → (t : Ticket) × Names d db t × IsAuthorized d now t
  unfolding validate_order
  validate_order_sound d now db h =
      let q = ruling_for_sound d now db _ h in (q.0, (q.1, q.2, q.3, q.4), q.5)
