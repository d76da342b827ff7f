-- ===== src/Agents/Recorder/Spent.antt =====
-- A ticket whose order was recorded is spent.
use fund.Gate.Tickets.{get_ticket}
use fund.Orchestrator.Reconcile.Fills.{ticket_of}
use fund.Python.Floats.{Float}
use fund.Agents.Recorder.{
  parse_fill, Landed, record_order, record_landed, read_landed, insert_landed, mirror_fill,
  after_insert, announce, clashes, execute_decision,
}
use fund.Base.{
  none, some, true, false, [], ◌∷◌, inl, inr, refl, String, List, Bool, any, find?, update_where,
  Bool-cases, Option, str_eq, ◌≡◌, or_left, ℕ, ◌&&◌, ◌≢◌, or_right, and_left, ap, subst, sym, ◌∙◌,
}
use fund.Python.Actions.{ok, err, Result}
use fund.State.Rows.{opened, consumed, submitted, filled, Ticket, Time, Db}
use fund.State.Transition.{◌=ₛ◌, order, try_transition}
use fund.Gate.Tickets.Orders.{allow, validate_order}
use fund.Gate.Tickets.Orders.Sound.{validate_order_sound}
use fund.Python.Values.{Value, Dict, Conversions, get, text}

abbrev pub is_live : String → Ticket → Bool
is_live id t = str_eq t.id id && t.status =ₛ opened

-- No ticket of that id is open.
abbrev IsSpent : String → List Ticket → Type 0
IsSpent id ts = any (is_live id) ts ≡ false

consumed-IsSpent :
    (id : String) (ts : List Ticket)
    → IsSpent id (update_where (is_live id) (λ t. record t { status = consumed }) ts)
consumed-IsSpent id [] = refl
consumed-IsSpent id (t ∷ ts) = elim (Bool-cases (is_live id t)) [
  | inl live ↦
      let own = and_left (str_eq t.id id) (t.status =ₛ opened) live in
      rw (live, own) (consumed-IsSpent id ts)
  | inr dead ↦ rw (dead, dead) (consumed-IsSpent id ts)
]

missing-IsSpent :
    (id : String) (ts : List Ticket)
    → any (λ (t : Ticket). str_eq t.id id) ts ≡ false
    → IsSpent id ts
missing-IsSpent id [] h = refl
missing-IsSpent id (t ∷ ts) h =
    rw (or_left (str_eq t.id id) _ h) (missing-IsSpent id ts (or_right (str_eq t.id id) _ h))

some_ticket : (a b : Ticket) → some a ≡ some b → a ≡ b
some_ticket a b h = cc

unfoldable Holds : Bool → Type 0
Holds true = Unit
Holds false = ⊥

true≢false : true ≢ false
unfolding Holds
true≢false h = subst Holds h tt

found_live :
    (id : String) (ts : List Ticket) (t : Ticket)
    → find? (λ (t : Ticket). str_eq t.id id) ts ≡ some t
    → t.status ≡ opened
    → IsSpent id ts
    → true ≡ false
found_live id [] t h live spent = cc
found_live id (u ∷ ts) t h live spent = elim (Bool-cases (str_eq u.id id)) [
  | inl own ↦
      let same : u ≡ t = some_ticket u t (rw own at h) in
      let is_open : u.status ≡ opened = ap (λ (x : Ticket). x.status) same ∙ live in
      let still : is_live id u ≡ true = rw (own, is_open) refl in
      cc (still, or_left (is_live id u) (any (is_live id) ts) spent)
  | inr other ↦
      found_live id ts t (rw other at h) live (or_right (is_live id u) (any (is_live id) ts) spent)
]

same_text : (a b : String) → text a ≡ text b → a ≡ b
same_text a b h = cc

module _ (conv : Conversions) (o : Landed) (now : Time) where
  execute-tickets :
      (t : Option Ticket) (db : Db) → (execute_decision t now db).1.tickets ≡ db.tickets
  unfolding try_transition
  execute-tickets none db = refl
  execute-tickets (some t) db = refl

  announce-tickets :
      (fill : ℕ × Float) (r : Result Bool) (db : Db)
      → (announce o now fill r db).1.tickets ≡ db.tickets
  announce-tickets fill (err e) db = refl
  announce-tickets fill (ok false) db = refl
  announce-tickets fill (ok true) db = execute-tickets (ticket_of o.client_order_id db) _

  mirror-tickets :
      (r : Result (Option (ℕ × Float))) (db : Db) → (mirror_fill o now r db).1.tickets ≡ db.tickets
  unfolding try_transition
  mirror-tickets (err e) db = refl
  mirror-tickets (ok none) db = refl
  mirror-tickets (ok (some fill)) db =
      let m = try_transition (order o.client_order_id) submitted filled now [] none db in
      announce-tickets fill m.0 m.1

  after-IsSpent :
      (db : Db) → IsSpent o.client_order_id (after_insert conv o now (ok tt) db).1.tickets
  unfolding try_transition
  after-IsSpent db =
      let spent = consumed-IsSpent o.client_order_id db.tickets in
      elim (Bool-cases o.is_filled) [
        | inr waiting ↦ rw waiting spent
        | inl is_filled ↦ rw (is_filled, mirror-tickets (parse_fill conv o.payload) _) spent
      ]

  record-IsSpent : (db : Db) → IsSpent o.client_order_id (record_landed conv o now db).1.tickets
  unfolding record_landed insert_landed
  record-IsSpent db = elim (Bool-cases (any (clashes o) db.orders)) [
    | inl there ↦ rw there (after-IsSpent db)
    | inr fresh ↦
        elim (Bool-cases (any (λ (t : Ticket). str_eq t.id o.client_order_id) db.tickets)) [
          | inl known ↦ rw (fresh, known) (after-IsSpent _)
          | inr unknown ↦ rw (fresh, unknown) (missing-IsSpent o.client_order_id db.tickets unknown)
        ]
  ]

  read_ticket :
      (db : Db) (t : Ticket)
      → get_ticket o.client_order_id db ≡ some t
      → find? (λ (t : Ticket). str_eq t.id o.client_order_id) db.tickets ≡ some t
  unfolding get_ticket
  read_ticket db t h = h

  allowed_not :
      (db : Db) (d : Dict) (later : Time)
      → get d "client_order_id" ≡ text o.client_order_id
      → validate_order conv (some d) later (record_landed conv o now db).1 ≢ ok allow
  allowed_not db d later names h =
      let db' = (record_landed conv o now db).1 in
      let (t, (coid, named, full, found), is_authorized) =
        validate_order_sound conv d later db' h in
      let same : coid ≡ o.client_order_id = same_text coid o.client_order_id (sym named ∙ names) in
      true≢false (
        found_live o.client_order_id db'.tickets t (read_ticket db' t (rw same at found))
          is_authorized.still_open (record-IsSpent db))

-- After the recorder has run on an order whose columns could be read, to whatever end, an exception of
-- the INSERT or of the fill included, no order that names the same ticket is allowed any more.
pub recorded_once :
    (conv : Conversions) (text_of : Value → String) (reply : Dict) (now : Time) (o : Landed)
    (db : Db) (d : Dict) (later : Time)
    → read_landed conv text_of reply ≡ ok o
    → get d "client_order_id" ≡ text o.client_order_id
    → validate_order conv (some d) later (record_order conv text_of reply now db).1 ≢ ok allow
unfolding record_order
recorded_once conv text_of reply now o db d later reads names =
    rw reads (allowed_not conv o now db d later names)
