-- ===== src/Orchestrator/Daily/Turns.antt =====
-- `run_research` and `run_decision` of orchestrator/daily.py, and state/critiques.py. A seat's turn is a
-- parameter: agent code that changes the store and the outside world, and may raise.
use fund.Slack.Outbox.{append_alert}
use fund.Orchestrator.Broker.{Sys}
use fund.State.Rows.{Critique, Db, Decision, Signal, Time, hold, neutral, submitted}
use fund.Python.Actions.{Result, Action, err, ok, value_error}
pub mod Research
pub mod Decide
use fund.State.Keys.{is_key, next_decision_id}
use fund.Base.{
  ℕ, if◌then◌else◌, [], none, some, true, false, Bool, List, Option, String, ◌∷◌, any, is_empty,
  ◌++◌, str_eq, not, ◌&&◌, all,
}

abbrev pub Turn : Type 0 → Type 0
Turn W = Option (Action (Sys W) (Unit {0}))

-- A seat and a ticker.
abbrev pub Wanted : Type 0
Wanted = String × String

abbrev pairs_of : String → List String → List Wanted
pairs_of seat [] = []
pairs_of seat (t ∷ ts) = (seat, t) ∷ pairs_of seat ts

abbrev pub wanted_of : (seats active : List String) → List Wanted
wanted_of [] active = []
wanted_of (seat ∷ seats) active = pairs_of seat active ++ wanted_of seats active

-- Whether a seat holds a signal row on the ticker today.
abbrev pub has_signal : String → List Signal → Wanted → Bool
has_signal run_date ss (seat, ticker) =
    any
      (λ (s : Signal). str_eq s.run_date run_date && str_eq s.agent seat && str_eq s.ticker ticker)
      ss

abbrev pub default_signal : String → Wanted → Signal
default_signal run_date (seat, ticker) = record {
  run_date = run_date;
  agent = seat;
  ticker = ticker;
  direction = neutral;
  confidence = 0;
  charter_version = "none";
}

-- INSERT OR IGNORE.
abbrev pub insert_signal : String → Wanted → List Signal → List Signal
insert_signal run_date w ss =
    if has_signal run_date ss w then ss else ss ++ default_signal run_date w ∷ []

-- The defaults for what `covered`, read before the loop, does not hold.
unfoldable pub fill_signals :
    String → (covered : List Signal) → List Wanted → List Signal → List Signal
fill_signals run_date covered [] ss = ss
fill_signals run_date covered (w ∷ ws) ss =
    fill_signals run_date covered ws
      (if has_signal run_date covered w then ss else insert_signal run_date w ss)

abbrev pub critiqued : String → List Critique → String → Bool
critiqued run_date cs ticker =
    any (λ (c : Critique). str_eq c.run_date run_date && str_eq c.ticker ticker) cs

unfoldable pub insert_default_critiques :
    String → List String → (note : String) → List Critique → List Critique
insert_default_critiques run_date [] note cs = cs
insert_default_critiques run_date (t ∷ ts) note cs = insert_default_critiques run_date ts note (
    if critiqued run_date cs t
    then cs
    else cs ++ record { run_date = run_date; ticker = t; note = note } ∷ [])

abbrev pub decided : String → List Decision → String → Bool
decided run_date ds ticker = any (is_key run_date ticker) ds

-- A timed-out hold: the alert first, then the row.
abbrev pub hold_decision : String → String → Decision
hold_decision run_date ticker = record {
  id = 0;
  run_date = run_date;
  ticker = ticker;
  action = hold;
  qty = 0;
  stop_price = none;
  status = submitted;
  charter_version = "none";
}

abbrev pub default_hold : String → Time → String → Db → Db
default_hold run_date now ticker db =
    let told = append_alert "pm_timeout" none now db in
    record told {
      decisions =
          told.decisions
          ++ record (hold_decision run_date ticker) { id = next_decision_id told.decisions } ∷ [];
    }

unfoldable pub fill_holds : String → Time → List String → Db → Db
unfolding next_decision_id
fill_holds run_date now [] db = db
fill_holds run_date now (t ∷ ts) db =
    fill_holds run_date now ts
      (if decided run_date db.decisions t then db else default_hold run_date now t db)

unfoldable pub open_decisions : String → List String → Db → Db
unfolding insert_default_critiques
open_decisions run_date active db = record db {
  critiques = insert_default_critiques run_date active "no_critic_seat" db.critiques;
}

module _ {W : Type 0} where
  unfoldable pub take : Turn W → Bool → Action (Sys W) (Unit {0})
  take none needed s = (ok tt, s)
  take (some act) needed s = if needed then act s else (ok tt, s)

  unfoldable pub after_turn : Result (Unit {0}) × Sys W → (Db → Db) → Result (Unit {0}) × Sys W
  after_turn (err e, s) f = (err e, s)
  after_turn (ok _, s) f = (ok tt, record s { db = f s.db })

  unfoldable pub run_research :
      Turn W → String → (seats active : List String) → Action (Sys W) (Unit {0})
  unfolding take after_turn fill_signals
  run_research turn run_date seats active s =
      if is_empty seats
      then (err value_error, s)
      else after_turn
          (take turn (not (all (has_signal run_date s.db.signals) (wanted_of seats active))) s)
          (λ db. record db {
            signals = fill_signals run_date db.signals (wanted_of seats active) db.signals;
          })

  -- `later` is the clock after the turn.
  unfoldable pub run_decision :
      Turn W → String → List String → (later : Time) → Action (Sys W) (Unit {0})
  unfolding take after_turn open_decisions fill_holds
  run_decision turn run_date active later s =
      after_turn (take turn true (record s { db = open_decisions run_date active s.db }))
        (fill_holds run_date later active)
