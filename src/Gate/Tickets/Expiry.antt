-- ===== src/Gate/Tickets/Expiry.antt =====
-- What expire_open_tickets leaves behind.
use fund.Base.{
  ◌≡◌, Bool, true, false, ◌&&◌, List, [], ◌∷◌, str_eq, any, select, All, update_where, arith,
  if◌then◌else◌, str_eq_refl, Bool-cases, inl, inr, All-imp,
}
use mathlib.Core.Bool.{false≢true}
use fund.State.Rows.{Time, Db, Ticket, opened, expired}
use fund.State.Transition.{◌=ₛ◌}
use fund.Gate.Tickets.{is_expired, expire_row, expire_rows, expire_open_tickets}

-- Open, past its expiry.
abbrev pub is_stale : Time → Ticket → Bool
is_stale now t = t.status =ₛ opened && is_expired t.expires_at now

abbrev after_row : Time → Ticket → List Ticket → List Ticket
after_row now r ts =
    if is_expired r.expires_at now
    then update_where (λ t. str_eq t.id r.id && t.status =ₛ opened)
        (λ t. record t { status = expired }) ts
    else ts

tickets-expire_row :
    (now : Time) (r : Ticket) (db : Db)
    → (expire_row r now db).1.tickets ≡ after_row now r db.tickets
unfolding expire_row
tickets-expire_row now r db = ground arith

-- Some row of the loop has the ticket's id and has expired.
abbrev is_due : Time → List Ticket → Ticket → Bool
is_due now rows t = any (λ (r : Ticket). str_eq t.id r.id && is_expired r.expires_at now) rows

abbrev IsCovered : Time → List Ticket → Ticket → Type 0
IsCovered now rows t = is_stale now t ≡ true → is_due now rows t ≡ true

after_row-IsCovered :
    (now : Time) (r : Ticket) (rows ts : List Ticket)
    → All (IsCovered now (r ∷ rows)) ts
    → All (IsCovered now rows) (after_row now r ts)
after_row-IsCovered now r rows [] h = ground arith
after_row-IsCovered now r rows (t ∷ ts) h = ground (arith, after_row-IsCovered now r rows ts h.1)

expire_rows-cons :
    (now : Time) (r : Ticket) (rows : List Ticket) (db : Db)
    → (expire_rows (r ∷ rows) now db).1 ≡ (expire_rows rows now (expire_row r now db).1).1
unfolding expire_rows
expire_rows-cons now r rows db = ground arith

expire_rows-IsCovered :
    (now : Time) (rows : List Ticket) (db : Db)
    → All (IsCovered now rows) db.tickets
    → All (IsCovered now []) (expire_rows rows now db).1.tickets
unfolding expire_rows
expire_rows-IsCovered now [] db h = h
expire_rows-IsCovered now (r ∷ rows) db h = rw (expire_rows-cons now r rows db) (
    expire_rows-IsCovered now rows (expire_row r now db).1
      (rw (tickets-expire_row now r db) (after_row-IsCovered now r rows db.tickets h)))

-- Every open row is in the snapshot that the loop runs over.
module _ (now : Time) where
  is_due-cons :
      (t r : Ticket) (rows : List Ticket)
      → is_due now rows t ≡ true
      → is_due now (r ∷ rows) t ≡ true
  is_due-cons t r rows h = ground arith

  IsCovered-more :
      (t r : Ticket) (b : Bool) (rows : List Ticket)
      → IsCovered now rows t
      → IsCovered now (if b then r ∷ rows else rows) t
  IsCovered-more t r true rows h stale = is_due-cons t r rows (h stale)
  IsCovered-more t r false rows h stale = h stale

  snapshot-IsCovered :
      (rest : List Ticket)
      → All (IsCovered now (select (λ (t : Ticket). t.status =ₛ opened) rest)) rest
  snapshot-IsCovered [] = tt
  snapshot-IsCovered (t ∷ rest) = (
    λ stale. ground (arith, str_eq_refl t.id),
    All-imp _ _ rest (λ u h. IsCovered-more u t (t.status =ₛ opened) _ h) (snapshot-IsCovered rest),
  )

  fresh_of_covered :
      (ts : List Ticket) → All (IsCovered now []) ts → All (λ t. is_stale now t ≡ false) ts
  fresh_of_covered [] h = tt
  fresh_of_covered (t ∷ ts) h = (
    elim (Bool-cases (is_stale now t)) [
      | inl stale ↦ absurd (false≢true (h.0 stale))
      | inr fresh ↦ fresh
    ],
    fresh_of_covered ts h.1,
  )

  -- After the sweep no ticket is both open and past its expiry, whatever the store held.
  pub expire_open_tickets-fresh :
      (db : Db) → All (λ t. is_stale now t ≡ false) (expire_open_tickets now db).1.tickets
  unfolding expire_open_tickets
  expire_open_tickets-fresh db = fresh_of_covered _ (
      expire_rows-IsCovered now (select (λ (t : Ticket). t.status =ₛ opened) db.tickets) db
        (snapshot-IsCovered db.tickets))
