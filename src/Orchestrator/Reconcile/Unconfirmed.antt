-- ===== src/Orchestrator/Reconcile/Unconfirmed.antt =====
-- Past the cap, an order whose death or fill the broker does not confirm is left as it is.
use fund.Orchestrator.Broker.{Env, Sys}
use fund.Python.Actions.{Result, ok}
use fund.Orchestrator.Reconcile.Timeout.{
  timeout_close, confirmed_dead, answer, close_reply, close_answered,
}
use fund.Python.Values.{Conversions, Dict, is_text, get}
use fund.State.Rows.{Db, Order, Time}
use fund.Base.{true, false, none, refl, Option, Bool, some, ◌≡◌, not, ◌&&◌, arith}

-- Neither a fill nor a confirmed death: an answer that fails, that is empty, or whose status is none of
-- the five that settle an order.
abbrev pub is_unconfirmed : Option Dict → Bool
is_unconfirmed none = true
is_unconfirmed (some o) =
    not (is_text (get o "status") "filled")
    && not (is_text (get o "status") "partially_filled")
    && not (is_text (get o "status") "canceled")
    && not (is_text (get o "status") "expired")
    && not (is_text (get o "status") "rejected")

-- The call reports no fill, and the tables of the book are what they were.
abbrev pub IsUntouched : Db → Result Bool × Db → Type 0
IsUntouched db (r, db') =
    (r ≡ ok false)
    × (db'.orders ≡ db.orders)
    × (db'.decisions ≡ db.decisions)
    × (db'.tickets ≡ db.tickets)

module _ (conv : Conversions) where
  close_reply-IsUntouched :
      (row : Order) (now : Time) (reply : Option Dict) (db : Db)
      → is_unconfirmed reply ≡ true
      → IsUntouched db (close_reply conv row now reply db)
  unfolding close_reply close_answered confirmed_dead
  close_reply-IsUntouched row now none db h = (refl, refl, refl, refl)
  close_reply-IsUntouched row now (some o) db h = ground arith

  -- An order whose answer from the broker, after the cancel, has none of the five statuses that settle
  -- an order (filled, partially filled, canceled, expired, rejected), or fails, is not counted as filled, and the call changes no order, no decision and no ticket.
  pub timeout_close-unconfirmed :
      {W : Type 0} (env : Env W) (row : Order) (now : Time) (s : Sys W)
      → is_unconfirmed (
          answer conv
            (env.get_order row.client_order_id (env.cancel_order row.client_order_id s.world).1).0)
        ≡ true
      → let after = timeout_close conv env row now s in IsUntouched s.db (after.0, after.1.db)
  unfolding timeout_close
  timeout_close-unconfirmed env row now s h =
      close_reply-IsUntouched row now
        (answer conv
          (env.get_order row.client_order_id (env.cancel_order row.client_order_id s.world).1).0)
        s.db h
