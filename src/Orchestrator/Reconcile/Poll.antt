-- ===== src/Orchestrator/Reconcile/Poll.antt =====
-- `reconcile_orders` of orchestrator/reconcile.py. Durations are floats, and their sum is a parameter.
use fund.Base.{
  ℕ, zero, suc, Bool, true, false, not, ◌||◌, Option, none, some, List, [], ◌∷◌, String, select,
  str_eq, if◌then◌else◌, is_empty,
}
use fund.Python.Floats.{Float, float_le, zero_float}
use fund.Python.Values.{Dict, Conversions, get, is_text}
use fund.Python.Actions.{Result, ok, err, Action, value_error}
use fund.State.Rows.{Time, Db, Order}
use fund.Slack.Outbox.{append_alert}
use fund.Orchestrator.Broker.{Env, Sys}
use fund.Orchestrator.Reconcile.Fills.{apply, pending_orders}
use fund.Orchestrator.Reconcile.Timeout.{timeout_close}

-- What the loop holds: the fill count, the orders that the broker confirmed as working, and those
-- whose last poll failed.
pub record Polled (W : Type 0) : Type 0 where
  pub sys : Sys W
  pub filled : ℕ
  pub confirmed_open : List Order
  pub problem : List String

-- d.pop(coid, None), and d[coid] = row on a dict that keeps the place of a key that it has
abbrev pub drop_row : String → List Order → List Order
drop_row coid rows = select (λ (r : Order). not (str_eq r.client_order_id coid)) rows

abbrev pub put_row : Order → List Order → List Order
put_row row [] = row ∷ []
put_row row (r ∷ rows) =
    let rest = put_row row rows in
    if str_eq r.client_order_id row.client_order_id then row ∷ rows else r ∷ rest

abbrev pub drop_key : String → List String → List String
drop_key coid keys = select (λ k. not (str_eq k coid)) keys

abbrev pub put_key : String → List String → List String
put_key coid [] = coid ∷ []
put_key coid (k ∷ keys) =
    let rest = put_key coid keys in if str_eq k coid then k ∷ keys else k ∷ rest

abbrev settled_status : Option Dict → Bool
settled_status none = false
settled_status (some o) =
    is_text (get o "status") "filled" || is_text (get o "status") "partially_filled"

module _ (conv : Conversions) (add : Float → Float → Float) {W : Type 0} (env : Env W) where
  -- The body of the try: whether the order filled, or an exception, with the store after it.
  abbrev attempt : Order → Time → Result (Option Dict) → Action Db Bool
  attempt row now (err e) db = (err e, db)
  attempt row now (ok none) db = (ok false, db)
  attempt row now (ok (some [])) db = (ok false, db)
  attempt row now (ok (some (e ∷ o))) db = apply conv row (e ∷ o) now db

  abbrev payload : Result (Option Dict) → Option Dict
  payload (ok (some (e ∷ o))) = some (e ∷ o)
  payload _ = none

  -- The bookkeeping after the try.
  note_poll : Order → Result Bool → Option Dict → Polled W → Polled W
  note_poll row (err e) o p = record p {
    confirmed_open = drop_row row.client_order_id p.confirmed_open;
    problem = put_key row.client_order_id p.problem;
  }
  note_poll row (ok moved) o p = record p {
    filled = if moved then suc p.filled else p.filled;
    confirmed_open =
        if settled_status o
        then drop_row row.client_order_id p.confirmed_open
        else put_row row p.confirmed_open;
    problem = drop_key row.client_order_id p.problem;
  }

  unfoldable pub poll_row : Order → Time → Polled W → Polled W
  unfolding note_poll apply
  poll_row row now p =
      let (reply, w') = env.get_order row.client_order_id p.sys.world in
      let (r, db') = attempt row now reply p.sys.db in
      note_poll row r (payload reply) (record p { sys = record { db = db'; world = w' } })

  unfoldable pub poll_rows : List Order → Time → Polled W → Polled W
  unfolding poll_row
  poll_rows [] now p = p
  poll_rows (row ∷ rows) now p = poll_rows rows now (poll_row row now p)

  -- The loops after the cap.
  abbrev count_true : Result Bool → ℕ → ℕ
  count_true (ok true) n = suc n
  count_true _ n = n

  unfoldable pub close_rows : List Order → Time → ℕ → Sys W → ℕ × Sys W
  unfolding timeout_close
  close_rows [] now n s = (n, s)
  close_rows (row ∷ rows) now n s =
      let (r, s') = timeout_close conv env row now s in close_rows rows now (count_true r n) s'

  abbrev alert_problems : List String → Time → Db → Db
  alert_problems [] now db = db
  alert_problems (coid ∷ rest) now db =
      alert_problems rest now (append_alert "order_unresolved_at_cap" none now db)

  unfoldable pub at_cap : Polled W → ℕ × Sys W
  unfolding close_rows
  at_cap p =
      let now = env.now p.sys.world in
      let (n, s) = close_rows p.confirmed_open now p.filled p.sys in
      (n, record s { db = alert_problems p.problem now s.db })

  -- `while True`, on fuel; `none` is fuel that ran out.
  unfoldable pub poll_loop : ℕ → (poll max_wait waited : Float) → Polled W → Option (ℕ × Sys W)
  unfolding poll_rows at_cap
  poll_loop zero poll max_wait waited p = none
  poll_loop (suc fuel) poll max_wait waited p =
      let p' = poll_rows (pending_orders p.sys.db) (env.now p.sys.world) p in
      let asleep = record p' { sys = record (p'.sys) { world = env.sleep poll p'.sys.world } } in
      let rest = poll_loop fuel poll max_wait (add waited poll) asleep in
      if is_empty (pending_orders p.sys.db)
      then some (p.filled, p.sys)
      else if float_le max_wait waited
      then some (at_cap p')
      else rest

  unfoldable pub reconcile_orders :
      (rounds : ℕ) (poll max_wait : Float) → Sys W → Result (Option (ℕ × Sys W))
  unfolding poll_loop
  reconcile_orders rounds poll max_wait s =
      if float_le poll zero_float
      then err value_error
      else ok (
          poll_loop rounds poll max_wait zero_float
            (record { sys = s; filled = 0; confirmed_open = []; problem = [] }))
