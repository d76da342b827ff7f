-- ===== src/Tests/Samples.antt =====
-- Concrete conversions, arithmetic, rows and a broker for the examples.
use fund.Python.Floats.{whole, zero_float, finite, float_max}
use fund.Python.Actions.{ok}
use fund.Slack.Outbox.{Delivery, permanent, posted}
use fund.Orchestrator.Broker.{Env, Sys}
use fund.State.Rows.{Body, Db, Decision, Event, Order, Ticket, Work, buy, hold, opened, submitted}
use fund.Python.Values.{Conversions, Dict, Value, text, float}
use fund.Gate.Risk.{Arith, GateInputs}
use fund.Base.{
  if◌then◌else◌, [], none, some, true, ℕ, Bool, pos, str_eq, ◌∷◌, ◌==◌, ◌||◌, negsuc, pos_part, suc,
}

-- Conversions that read one digit, and a superscript two that is a digit and no decimal.
abbrev pub test_conv : Conversions
test_conv = record {
  is_digit = λ s. str_eq s "5" || str_eq s "²";
  int_of_text = λ s. if str_eq s "5" then some (pos 5) else none;
  strip_lower = λ s. s;
  lower = λ s. s;
  float_of_text = λ s. if str_eq s "5" then some (whole 5) else none;
  float_of_int = λ n. some (whole (pos_part n));
}

-- Any fixed operations will do: division keeps order, as it must.
abbrev pub test_arith : Arith
test_arith = record {
  literal = λ m e. elim m [ pos n ↦ whole 100 | negsuc n ↦ finite (negsuc 0) ];
  mul = λ x y. float_max x y;
  sub = λ x y. x;
  div = λ x y. x;
}

abbrev pub test_inputs : GateInputs
test_inputs = record {
  ticker = "NVDA";
  side = buy;
  equity = whole 1000;
  cash = whole 50;
  price = whole 10;
  vol_60d = zero_float;
  avg_corr = zero_float;
  held_qty = pos 0;
  position_count = pos 0;
  sector = "tech";
  sector_value = zero_float;
  daily_pnl_pct = zero_float;
}

abbrev pub test_ticket : Ticket
test_ticket = record {
  id = "t1";
  decision_id = 1;
  ticker = "NVDA";
  side = buy;
  max_qty = 10;
  stop_price = none;
  expires_at = 100;
  status = opened;
  created_at = 0;
}

abbrev pub test_decision : Decision
test_decision = record {
  id = 1;
  run_date = "d";
  ticker = "NVDA";
  action = hold;
  qty = 3;
  stop_price = none;
  status = submitted;
  charter_version = "v1";
}

abbrev pub test_order : Order
test_order = record {
  client_order_id = "t1";
  alpaca_order_id = some "a1";
  symbol = "NVDA";
  side = buy;
  qty = 5;
  status = submitted;
  filled_qty = 0;
  filled_avg_price = none;
  submitted_at = 0;
  closed_at = none;
}

abbrev pub test_work : Work
test_work = record {
  work_id = "w1";
  kind = "alert_triage";
  producer = "alert_filer";
  seat = "ops";
  subject = "s";
  status = opened;
  attempts = 0;
  not_before = none;
  expires_at = 10;
  claim_expires_at = none;
  created_at = 0;
  claimed_at = none;
  finished_at = none;
}

abbrev pub test_db : Db
test_db = record {
  decisions = test_decision ∷ [];
  tickets = test_ticket ∷ [];
  orders = test_order ∷ [];
  checkpoints = [];
  worklist = test_work ∷ [];
  strategies = [];
  events = record { id = 1; body = Body.digest "d"; created_at = 0; posted_at = none } ∷ [];
  protection = [];
  offered = [];
  signals = [];
  critiques = [];
  specs = [];
  spec_verdicts = [];
  trials = [];
  holdouts = [];
  resolutions = [];
  costs = [];
  weights = [];
}

-- The order that the ticket authorizes, and the same with a quantity text.
abbrev pub order_with : Value → Dict
order_with q =
    ("client_order_id", text "t1")
    ∷ ("symbol", text "NVDA")
    ∷ ("side", text "buy")
    ∷ ("qty", q)
    ∷ []

abbrev pub fill_payload : Dict
fill_payload =
    ("status", text "filled")
    ∷ ("filled_qty", text "5")
    ∷ ("filled_avg_price", float (whole 3))
    ∷ []

-- A broker whose lookup answers what the world holds, and a clock that the sleep moves.
abbrev pub test_env : Env ℕ
test_env = record {
  now = λ w. w;
  sleep = λ x w. suc w;
  has_lookup = true;
  get_order = λ id w. (ok (some (("status", text "new") ∷ [])), w);
  cancel_order = λ id w. (ok tt, w);
}

abbrev pub test_sys : Sys ℕ
test_sys = record { db = test_db; world = 0 }

abbrev pub test_post : Event → ℕ → Delivery × ℕ
test_post e w = (if e.id == 1 then permanent else posted, suc w)

abbrev pub test_renders : Body → Bool
test_renders b = true
