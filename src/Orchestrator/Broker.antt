-- ===== src/Orchestrator/Broker.antt =====
-- The injected broker, clock and sleep, over a state `W` of the outside world. What they answer is
-- not the program's: they are a parameter, and each call may change `W`.
use fund.Base.{Bool, Option, String}
use fund.Python.Floats.{Float}
use fund.Python.Values.{Dict}
use fund.Python.Actions.{Result, Action, ok}
use fund.State.Rows.{Time, Db}

pub record Env (W : Type 0) : Type 0 where
  pub now : W → Time
  pub sleep : Float → W → W
  pub has_lookup : Bool  -- whether the port has get_order_by_client_order_id
  pub get_order : String → W → Result (Option Dict) × W
  pub cancel_order : String → W → Result (Unit {0}) × W

pub record Sys (W : Type 0) : Type 0 where
  pub db : Db
  pub world : W

-- Code on the store alone, and code on the outside world alone.
abbrev pub on_db : {W A : Type 0} → Action Db A → Action (Sys W) A
on_db m s = let (r, db') = m s.db in (r, record s { db = db' })

abbrev pub on_world : {W A : Type 0} → (W → Result A × W) → Action (Sys W) A
on_world m s = let (r, w') = m s.world in (r, record s { world = w' })

abbrev pub change_db : {W : Type 0} → (Db → Db) → Action (Sys W) (Unit {0})
change_db f s = (ok tt, record s { db = f s.db })
