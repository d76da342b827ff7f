-- ===== src/Slack/Outbox.antt =====
-- slackkit/outbox.py: the events outbox. `render` and the Slack port are parameters: rendering is
-- the message's wording, and what the port does with a post is outside the program. An alert's text
-- is prose and is not kept; its code, its ticker, `clears` and `accounting` are.
pub mod Drain
use fund.Base.{
  zero, ℕ, suc, ◌+◌, ◌==◌, Bool, true, false, Option, none, some, List, [], ◌∷◌, ◌++◌, String,
  str_eq, not, select, update_where, if◌then◌else◌, leb, is_empty,
}
use fund.State.Rows.{Time, Db, Event, Body, Accounting}

-- INTEGER PRIMARY KEY: one more than the largest id in the table.
unfoldable pub next_id : List Event → ℕ
next_id [] = 1
next_id (e ∷ es) = let n = next_id es in if leb n e.id then suc e.id else n

abbrev pub insert : Body → Time → Db → Db
insert body now db = record db {
  events =
      db.events
      ++ record { id = next_id db.events; body = body; created_at = now; posted_at = none } ∷ [];
}

abbrev pub append_event : Body → Time → Db → Db
append_event body now db = insert body now db

-- An alert with no accounting payload.
abbrev pub append_alert : (code : String) → (ticker : Option String) → Time → Db → Db
append_alert code ticker now db = insert (Body.alert code ticker false none) now db

abbrev pub is_unposted : Event → Bool
is_unposted e = elim e.posted_at [ none ↦ true | some t ↦ false ]

-- UPDATE events SET posted_at WHERE id
abbrev pub mark_posted : ℕ → Time → Db → Db
mark_posted id now db = record db {
  events =
      update_where (λ (e : Event). e.id == id) (λ e. record e { posted_at = some now }) db.events;
}

-- What became of one call of the port: posted, refused for good, or failed for now.
pub data Delivery : Type 0 where
  posted permanent transient : Delivery

abbrev pub is_projection_error : Body → Bool
is_projection_error (Body.projection_error id) = true
is_projection_error _ = false

unfoldable pub dead_letter : Event → Time → Db → Db
dead_letter row now db =
    let db' = mark_posted row.id now db in
    if is_projection_error row.body
    then db'
    else append_event (Body.projection_error row.id) now db'

-- How far a drain has come: the count, whether it stopped, the states, and the events that the port
-- accepted, in the order of the calls.
pub record Pass (W : Type 0) : Type 0 where
  pub count : ℕ
  pub stopped : Bool
  pub db : Db
  pub port : W
  pub sent : List Event

abbrev pub first_pass : {W : Type 0} → Db → W → Pass W
first_pass db w = record { count = 0; stopped = false; db = db; port = w; sent = [] }

-- `renders` is whether render() succeeds on an event; `post` is the port, whose state is `W`.
module _ {W : Type 0} (renders : Body → Bool) (post : Event → W → Delivery × W) where
  deliver : Event → Time → Delivery × W → Pass W → Pass W
  deliver row now (posted, w) p = record p {
    count = p.count + 1;
    db = mark_posted row.id now p.db;
    port = w;
    sent = p.sent ++ row ∷ [];
  }
  deliver row now (permanent, w) p = record p { db = dead_letter row now p.db; port = w }
  deliver row now (transient, w) p = record p { stopped = true; port = w }

  unfoldable pub drain_row : Event → Time → Pass W → Pass W
  unfolding deliver dead_letter
  drain_row row now p =
      if renders row.body
      then deliver row now (post row p.port) p
      else record p { db = dead_letter row now p.db }

  unfoldable pub drain_rows : List Event → Time → Pass W → Pass W
  unfolding drain_row
  drain_rows [] now p = p
  drain_rows (row ∷ rows) now p =
      let p' = drain_row row now p in
      let rest = drain_rows rows now p' in if p'.stopped then p' else rest

  -- `while True`, on fuel; `none` is fuel that ran out.
  unfoldable pub drain_loop : ℕ → Time → Pass W → Option (Pass W)
  unfolding drain_rows
  drain_loop zero now p = none
  drain_loop (suc fuel) now p =
      let p' = drain_rows (select is_unposted p.db.events) now p in
      let rest = drain_loop fuel now p' in
      if is_empty (select is_unposted p.db.events)
      then some p
      else if p'.stopped
      then some p'
      else rest

  unfoldable pub drain : Time → Db → W → Option (Pass W)
  unfolding drain_loop
  drain now db w = drain_loop 3 now (first_pass db w)
