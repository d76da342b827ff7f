-- ===== src/Orchestrator/Ingest/Trusted.antt =====
-- The day is sized only from a payload that can be trusted.
use fund.Slack.Outbox.{append_alert}
use fund.Orchestrator.Broker.{Sys}
use fund.Python.Floats.{Float, float_eq, zero_float}
use fund.State.Rows.{Time, Db}
use fund.Orchestrator.Protection.Accounts.{Book, recorded_holdings}
use fund.Python.Values.{Conversions}
use fund.Base.{none, some, true, false, inl, inr, refl, Option, ◌≡◌, Bool-cases, ◌⊎◌}
use fund.Python.Actions.{ok, err, Result}
use fund.Orchestrator.Ingest.{
  Fault, Account, judged, checked, first, second, Source, payload_fault, account_snapshot,
  as_dollars, holds,
}

-- The list says something; or the account is worth nothing; or its worth cannot be read and the fund's
-- own records hold nothing.
abbrev pub Credible : Conversions → Account → Book → Type 0
Credible conv account recorded =
    (account.lists_positions ≡ true)
    ⊎ ((x : Float) × (as_dollars conv account.long_market_value ≡ ok (some x))
        × (float_eq x zero_float ≡ true))
    ⊎ ((as_dollars conv account.long_market_value ≡ ok none) × (holds recorded ≡ false))

-- How the guard ends: with an account that is credible by the records, and the store untouched; or with
-- none, and one alert; or with the exception of a reading, and the store untouched.
abbrev pub Snapshot :
    {W : Type 0} → Conversions → Time → Db → Result (Option Account) × Sys W → Type 0
Snapshot {W} conv now db (ok (some account), s') =
    Credible conv account (recorded_holdings db) × (s'.db ≡ db)
Snapshot {W} conv now db (ok none, s') = s'.db ≡ append_alert "positions_payload_lost" none now db
Snapshot {W} conv now db (err e, s') = s'.db ≡ db

module _ (conv : Conversions) where
  value-Credible :
      (r : Result (Option Float)) (account : Account) (recorded : Book)
      → as_dollars conv account.long_market_value ≡ r
      → judged conv r recorded ≡ ok none
      → Credible conv account recorded
  value-Credible (err e) account recorded d h = cc
  value-Credible (ok none) account recorded d h = elim (Bool-cases (holds recorded)) [
    | inl held ↦ cc (rw held at h)
    | inr nothing ↦ inr (inr (d, nothing))
  ]
  value-Credible (ok (some x)) account recorded d h = elim (Bool-cases (float_eq x zero_float)) [
    | inl flat ↦ inr (inl (x, d, flat))
    | inr valued ↦ cc (rw valued at h)
  ]

  fault-Credible :
      (account : Account) (recorded : Book)
      → payload_fault conv account recorded ≡ ok none
      → Credible conv account recorded
  unfolding payload_fault
  fault-Credible account recorded h = elim (Bool-cases account.lists_positions) [
    | inl listed ↦ inl listed
    | inr empty_list ↦
        value-Credible (as_dollars conv account.long_market_value) account recorded refl
          (rw empty_list at h)
  ]

  -- What a reading that has been checked is worth.
  abbrev Read : Book → Result (Account × Option Fault) → Type 0
  Read recorded (ok (account, none)) = Credible conv account recorded
  Read recorded (ok (account, some fault)) = Unit
  Read recorded (err e) = Unit

  fault-Read :
      (account : Account) (recorded : Book) (r : Result (Option Fault))
      → payload_fault conv account recorded ≡ r
      → Read recorded (elim r [ ok fault ↦ ok (account, fault) | err e ↦ err e ])
  fault-Read account recorded (ok none) e = fault-Credible account recorded e
  fault-Read account recorded (ok (some fault)) e = tt
  fault-Read account recorded (err x) e = tt

  checked-Read : (recorded : Book) (r : Result Account) → Read recorded (checked conv recorded r)
  checked-Read recorded (err e) = tt
  checked-Read recorded (ok account) =
      fault-Read account recorded (payload_fault conv account recorded) refl

  module _ {W : Type 0} (source : Source W) (now : Time) where
    second-Snapshot :
        (r : Result (Account × Option Fault)) (s : Sys W)
        → Read (recorded_holdings s.db) r
        → Snapshot conv now s.db (second conv source now r s)
    second-Snapshot (err e) s h = refl
    second-Snapshot (ok (account, none)) s h = (h, refl)
    second-Snapshot (ok (account, some fault)) s h = refl

    first-Snapshot :
        (r : Result (Account × Option Fault)) (s : Sys W)
        → Read (recorded_holdings s.db) r
        → Snapshot conv now s.db (first conv source now (recorded_holdings s.db) r s)
    first-Snapshot (err e) s h = refl
    first-Snapshot (ok (account, none)) s h = (h, refl)
    first-Snapshot (ok (account, some fault)) s h =
        let again = source.account_state (source.nap s.world) in
        second-Snapshot (checked conv (recorded_holdings s.db) again.0)
          (record s { world = again.1 }) (checked-Read (recorded_holdings s.db) again.0)

    -- For any broker: an account that the guard returns lists positions, or is readably worth nothing, or
    -- has an unreadable worth while the fund's records hold nothing, and it is a reading that was checked
    -- against the records. No account means exactly one alert, and a raise leaves the store as it was.
    pub account_snapshot-Snapshot :
        (s : Sys W) → Snapshot conv now s.db (account_snapshot conv source now s)
    unfolding account_snapshot
    account_snapshot-Snapshot s =
        let got = source.account_state s.world in
        first-Snapshot (checked conv (recorded_holdings s.db) got.0) (record s { world = got.1 })
          (checked-Read (recorded_holdings s.db) got.0)
