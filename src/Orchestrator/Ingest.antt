-- ===== src/Orchestrator/Ingest.antt =====
-- orchestrator/ingest_guard.py: whether the day may be sized from the positions that the broker listed.
-- An account is what the guard reads of it: whether the list of positions is empty, and the market value.
-- The broker and the nap are parameters; a broker that raises is not caught.
use fund.Python.Values.{bool}
use fund.Slack.Outbox.{append_alert}
use fund.Orchestrator.Broker.{Sys}
use fund.State.Rows.{Time}
use fund.Orchestrator.Protection.Accounts.{Book, recorded_holdings}
use fund.Python.Floats.{Float, float_eq, is_nan, zero_float, whole}
use fund.Python.Values.{Conversions, Value}
pub mod Trusted
use fund.Base.{
  none, some, true, false, [], ◌∷◌, Bool, Option, any, if◌then◌else◌, String, ℤ, ltb_ℤ, pos,
}
use fund.Python.Actions.{ok, err, overflow_error, Result, Action}
use fund.Orchestrator.Protection.Cover.{as_float, raises_overflow}

pub record Account : Type 0 where
  pub lists_positions : Bool
  pub long_market_value : Value

-- Positions that the account still values, and a book that nothing confirms.
pub data Fault : Type 0 where
  lost : (held_value : Float) → Fault
  unconfirmed : Fault

pub record Source (W : Type 0) : Type 0 where
  pub account_state : W → Result Account × W
  pub nap : W → W

abbrev pub holds : Book → Bool
holds = any (λ (e : String × ℤ). ltb_ℤ (pos 0) e.1)

abbrev pub readable : Option Float → Option Float
readable none = none
readable (some x) = if is_nan x then none else some x

abbrev pub fault_of : Option Float → Book → Option Fault
fault_of (some x) recorded = if float_eq x zero_float then none else some (lost x)
fault_of none recorded = if holds recorded then some unconfirmed else none

module _ (conv : Conversions) where
  -- float(value); none is a TypeError or a ValueError.
  abbrev pub float_of : Value → Option Float
  float_of (bool true) = some (whole 1)
  float_of (bool false) = some zero_float
  float_of v = as_float conv v

  -- A dollar figure; an int that is too large for a float raises.
  unfoldable pub as_dollars : Value → Result (Option Float)
  as_dollars v = if raises_overflow conv v then err overflow_error else ok (readable (float_of v))

  abbrev pub judged : Result (Option Float) → Book → Result (Option Fault)
  judged (ok value) recorded = ok (fault_of value recorded)
  judged (err e) recorded = err e

  unfoldable pub payload_fault : Account → Book → Result (Option Fault)
  unfolding as_dollars
  payload_fault account recorded =
      if account.lists_positions
      then ok none
      else judged (as_dollars account.long_market_value) recorded

  -- The account with what the guard says of it.
  abbrev pub checked : Book → Result Account → Result (Account × Option Fault)
  checked recorded (err e) = err e
  checked recorded (ok account) = elim (payload_fault account recorded) [
    | ok fault ↦ ok (account, fault)
    | err e ↦ err e
  ]

  module _ {W : Type 0} (source : Source W) where
    abbrev pub read : Book → W → Result (Account × Option Fault) × W
    read recorded w = let (r, w') = source.account_state w in (checked recorded r, w')

    -- The second reading decides; a fault is alerted, and there is no account.
    abbrev pub second : Time → Result (Account × Option Fault) → Action (Sys W) (Option Account)
    second now (err e) s = (err e, s)
    second now (ok (account, none)) s = (ok (some account), s)
    second now (ok (account, some fault)) s =
        (ok none, record s { db = append_alert "positions_payload_lost" none now s.db })

    -- The first reading decides unless it has a fault: then there is one nap and one more reading.
    abbrev pub first :
        Time → Book → Result (Account × Option Fault) → Action (Sys W) (Option Account)
    first now recorded (err e) s = (err e, s)
    first now recorded (ok (account, none)) s = (ok (some account), s)
    first now recorded (ok (account, some fault)) s =
        let (r, w) = read recorded (source.nap s.world) in second now r (record s { world = w })

    unfoldable pub account_snapshot : Time → Action (Sys W) (Option Account)
    unfolding payload_fault recorded_holdings
    account_snapshot now s =
        let recorded = recorded_holdings s.db in
        let (r, w) = read recorded s.world in first now recorded r (record s { world = w })
