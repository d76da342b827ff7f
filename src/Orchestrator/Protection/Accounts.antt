-- ===== src/Orchestrator/Protection/Accounts.antt =====
-- The mirror of orchestrator/protection.py: shares that the records account for and the broker does not
-- hold. A position's symbol is a text or missing; the alert's wording is not kept.
use fund.Python.Actions.{Result, err, ok}
use fund.Slack.Outbox.{append_alert, append_event}
use fund.Orchestrator.Protection.Cover.{qty_of, map_option}
use fund.Python.Values.{Conversions, Dict, Value, text, get}
use fund.State.Rows.{Db, Order, Time, Accounting, Body, Event, gap, cleared}
use fund.State.Rows.{buy, sell}
use fund.Base.{
  if◌then◌else◌, [], none, some, true, false, ℕ, List, Option, String, [], select, some, ℤ, ◌∷◌,
  Bool, none, pos, leb_ℤ, ltb_ℤ, order_by, true, ◌+ℤ◌, false, str_le, ◌&&◌, eqb_ℤ, ◌-ℤ◌, any,
  is_empty, str_eq, suc, ◌==◌,
}

-- A dict from symbols to whole numbers, with the order of its keys.
abbrev pub Book : Type 0
Book = List (String × ℤ)

abbrev pub shares : Book → String → ℤ
shares [] s = pos 0
shares ((k, n) ∷ b) s = let rest = shares b s in if str_eq k s then n else rest

-- d[s] = d.get(s, 0) + n
unfoldable pub add : String → ℤ → Book → Book
add s n [] = (s, pos 0 +ℤ n) ∷ []
add s n ((k, m) ∷ b) = let rest = add s n b in if str_eq k s then (k, m +ℤ n) ∷ b else (k, m) ∷ rest

abbrev pub signed : Order → ℤ
signed o = elim o.side [ buy ↦ pos o.filled_qty | sell ↦ pos 0 -ℤ pos o.filled_qty ]

unfoldable pub net_of : List Order → Book → Book
unfolding add
net_of [] net = net
net_of (o ∷ os) net =
    if o.filled_qty == 0 then net_of os net else net_of os (add o.symbol (signed o) net)

unfoldable pub recorded_holdings : Db → Book
unfolding net_of
recorded_holdings db = net_of db.orders []

-- The newest accounting finding about a symbol: the events are in the order of their ids.
abbrev pub about : String → Body → Option Accounting
about s (Body.alert code ticker clears (some (gap symbol want held))) =
    if str_eq symbol s then some (gap symbol want held) else none
about s (Body.alert code ticker clears (some (cleared symbol))) =
    if str_eq symbol s then some (cleared symbol) else none
about s _ = none

unfoldable pub last_of : String → List Event → Option Accounting
last_of s [] = none
last_of s (e ∷ es) = elim (last_of s es) [ none ↦ about s e.body | some a ↦ some a ]

unfoldable pub last_accounting : Db → String → Option Accounting
unfolding last_of
last_accounting db s = last_of s db.events

abbrev pub is_open_gap : Option Accounting → Bool
is_open_gap (some (gap symbol want held)) = true
is_open_gap _ = false

-- The same gap, with nothing written off since it was reported.
abbrev pub same_gap : Option Accounting → (want have : ℤ) → Bool
same_gap (some (gap symbol standing held)) want have =
    leb_ℤ standing want && eqb_ℤ (standing -ℤ held) (want -ℤ have)
same_gap _ want have = false

abbrev pub shortfall : String → Accounting → Bool → Time → Db → Db
shortfall s a clears now db =
    append_event (Body.alert "accounting_shortfall" (some s) clears (some a)) now db

-- One symbol of the loop: the alerts that it appends.
unfoldable pub account_one : String → (want have : ℤ) → Time → ℕ × Db → ℕ × Db
unfolding last_accounting
account_one s want have now (n, db) =
    if leb_ℤ want have
    then if is_open_gap (last_accounting db s)
      then (suc n, shortfall s (cleared s) true now db)
      else (n, db)
    else if same_gap (last_accounting db s) want have
    then (n, db)
    else (suc n, shortfall s (gap s want have) false now db)

unfoldable pub account_rows : Book → (held : Book) → Time → ℕ × Db → ℕ × Db
unfolding account_one
account_rows [] held now acc = acc
account_rows ((s, want) ∷ rest) held now acc =
    account_rows rest held now (account_one s want (shares held s) now acc)

abbrev is_held : String × ℤ → Bool
is_held (s, q) = ltb_ℤ (pos 0) q

abbrev pub open_holdings : Db → Book
open_holdings db = select is_held (recorded_holdings db)

abbrev is_short : Book → String × ℤ → Bool
is_short held (s, q) = ltb_ℤ (shares held s) q

-- What the broker answers: a list of lines, or a raise.
pub record Holdings (W : Type 0) : Type 0 where
  pub open_positions : W → Result (List (Option Dict)) × W
  pub nap : W → W

abbrev unverified : Time → Db → ℕ × Db
unverified now db = (1, append_alert "accounting_unverified" none now db)

module _ (conv : Conversions) where
  abbrev line_of : Option Dict → Dict
  line_of none = []
  line_of (some d) = d

  -- One line more; an empty or missing symbol, or an unreadable count, makes the whole answer unknown.
  abbrev add_line : Value → Result (Option ℕ) → Result (Option Book) → Result (Option Book)
  add_line (text s) (ok (some n)) rest =
      if str_eq s ""
      then ok none
      else elim rest [ err e ↦ err e | ok b ↦ ok (map_option (add s (pos n)) b) ]
  add_line v (err e) rest = err e
  add_line v q rest = ok none

  -- From the last line to the first: the caller only looks symbols up.
  unfoldable pub held_by_symbol : List (Option Dict) → Result (Option Book)
  unfolding add qty_of
  held_by_symbol [] = ok (some [])
  held_by_symbol (p ∷ ps) =
      let rest = held_by_symbol ps in
      add_line (get (line_of p) "symbol") (qty_of conv (get (line_of p) "qty")) rest

  module _ {W : Type 0} (broker : Option (Holdings W)) where
    abbrev read : Holdings W → W → Result (Option Book) × W
    read h w =
        let (r, w') = h.open_positions w in
        (elim r [ err e ↦ err e | ok ps ↦ held_by_symbol ps ], w')

    -- The first read, when nothing is missing; otherwise one wait and a fresh one.
    abbrev settle_read : Holdings W → Book → Result (Option Book) × W → Result (Option Book) × W
    settle_read h recorded (err e, w) = (err e, w)
    settle_read h recorded (ok none, w) = read h (h.nap w)
    settle_read h recorded (ok (some held), w) =
        if any (is_short held) recorded then read h (h.nap w) else (ok (some held), w)

    report : Book → Time → Db → Result (Option Book) → ℕ × Db
    unfolding account_rows
    report recorded now db (err e) = unverified now db
    report recorded now db (ok none) = unverified now db
    report recorded now db (ok (some held)) =
        account_rows (order_by (λ (a b : String × ℤ). str_le a.0 b.0) recorded) held now (0, db)

    account_with : Option (Holdings W) → Book → Time → W → Db → (ℕ × Db) × W
    unfolding report held_by_symbol
    account_with none recorded now w db = (unverified now db, w)
    account_with (some h) recorded now w db =
        let (r, w') = settle_read h recorded (read h w) in (report recorded now db r, w')

    unfoldable pub assert_positions_accounted : Time → W → Db → (ℕ × Db) × W
    unfolding account_with recorded_holdings
    assert_positions_accounted now w db =
        if is_empty (open_holdings db)
        then ((0, db), w)
        else account_with broker (open_holdings db) now w db
