-- ===== src/State/Rows.antt =====
-- The tables of state/schema.sql that the modelled code reads or writes, as records. A column that
-- holds prose, an attribution string or a Slack pointer is left out: no modelled code reads it. A
-- timestamp is the number of seconds that it stands for (orchestrator/clock.py's `iso` has a fixed
-- width, so the order of its texts is the order of time).
use fund.Base.{ℕ, Bool, Option, List, String, ℤ}
use fund.Python.Floats.{Float}

abbrev pub Time : Type 0
Time = ℕ

-- Every status literal of the state machines. `opened` is 'open'; the upper-case states of a
-- strategy are other literals than the lower-case ones.
pub data Status : Type 0 where
  submitted approved rejected held executed failed expired : Status
  opened consumed : Status
  filled partially_filled canceled : Status
  pending running done : Status
  claimed : Status
  spec backtest spec_rejected validated incubating allocated scaled probation retired : Status

pub data Side : Type 0 where
  buy sell : Side

pub data Intent : Type 0 where
  trade : Side → Intent
  hold : Intent

pub record Decision : Type 0 where
  pub id : ℕ
  pub run_date : String
  pub ticker : String
  pub action : Intent
  pub qty : ℕ
  pub stop_price : Option Float
  pub status : Status
  pub charter_version : String

pub record Ticket : Type 0 where
  pub id : String
  pub decision_id : ℕ
  pub ticker : String
  pub side : Side
  pub max_qty : ℕ
  pub stop_price : Option Float
  pub expires_at : Time
  pub status : Status
  pub created_at : Time

pub record Order : Type 0 where
  pub client_order_id : String
  pub alpaca_order_id : Option String
  pub symbol : String
  pub side : Side
  pub qty : ℕ
  pub status : Status
  pub filled_qty : ℕ
  pub filled_avg_price : Option Float
  pub submitted_at : Time
  pub closed_at : Option Time

pub record Checkpoint : Type 0 where
  pub run_date : String
  pub stage : String
  pub ticker : String
  pub status : Status
  pub updated_at : Time

pub record Work : Type 0 where
  pub work_id : String
  pub kind : String
  pub producer : String
  pub seat : String
  pub subject : String
  pub status : Status
  pub attempts : ℕ
  pub not_before : Option Time
  pub expires_at : Time
  pub claim_expires_at : Option Time
  pub created_at : Time
  pub claimed_at : Option Time
  pub finished_at : Option Time

pub record Strategy : Type 0 where
  pub strategy_id : String
  pub state : Status
  pub state_version : ℕ
  pub updated_at : Time

-- `accounting` in the payload of an accounting_shortfall alert.
pub data Accounting : Type 0 where
  gap : (symbol : String) (recorded held : ℤ) → Accounting
  cleared : (symbol : String) → Accounting

pub data Direction : Type 0 where
  bullish bearish neutral : Direction

-- The Critic's verdict on a strategy's specification.
pub data SpecCall : Type 0 where
  clear objections : SpecCall

-- How an account setting differs from the pinned baseline, or why that is not known.
pub data Drift : Type 0 where
  empty_baseline unreadable malformed : Drift
  unreported unpinned changed : (field : String) → Drift

-- An event's kind with the fields of its payload that are not prose.
pub data Body : Type 0 where
  alert : (code : String) (ticker : Option String) (clears : Bool) → Option Accounting → Body
  fill :
      (ticker : String) (side : Side) (filled_qty : ℕ) (price : Float) (ticket_id : String) → Body
  gate_rejected : (ticker : String) (side : Intent) (reason : String) → Body
  gate_approved : (ticket_id ticker : String) (side : Side) (max_qty : ℕ) → Body
  config_alert : Drift → Body
  digest : (run_date : String) → Body
  projection_error : (event_id : ℕ) → Body
  signal_call : (agent ticker : String) → Direction → (confidence : ℕ) → Body
  decision_call : (seat ticker : String) → Intent → (qty : ℕ) → Body
  spec_registered : (seat spec_id family : String) → Body
  spec_judged : (seat spec_id : String) → SpecCall → Body
  budget_spent : (seat spec_id family : String) (search_budget : ℕ) → Body

pub record Event : Type 0 where
  pub id : ℕ
  pub body : Body
  pub created_at : Time
  pub posted_at : Option Time

-- An observation of a live protective order.
pub record Protection : Type 0 where
  pub alpaca_order_id : String
  pub observed_at : Time
  pub symbol : String
  pub qty : ℕ
  pub stop_price : Option Float

-- A ticker that the desks were asked about on a day.
pub record Offered : Type 0 where
  pub run_date : String
  pub ticker : String

pub record Signal : Type 0 where
  pub run_date : String
  pub agent : String
  pub ticker : String
  pub direction : Direction
  pub confidence : ℕ
  pub charter_version : String

pub record Critique : Type 0 where
  pub run_date : String
  pub ticker : String
  pub note : String

-- A registered specification: its fields are written once. `content` holds those that no modelled
-- code reads.
pub record Spec : Type 0 where
  pub spec_id : String
  pub family : String
  pub seat : String
  pub search_budget : ℕ
  pub content : String
  pub created_at : Time

pub record SpecVerdict : Type 0 where
  pub spec_id : String
  pub call : SpecCall
  pub seat : String
  pub charter_version : String
  pub model_id : String
  pub created_at : Time

-- The stats column: a refusal for want of budget, or the result of a run as a text.
pub data Stats : Type 0 where
  budget_exhausted : Stats
  result : String → Stats

pub record Trial : Type 0 where
  pub run_key : String
  pub spec_id : String
  pub family : String
  pub seat : String
  pub stats : Stats
  pub is_holdout : Bool

pub record Holdout : Type 0 where
  pub spec_id : String
  pub run_key : String
  pub passed : Bool

-- The outcome of one decision after its horizon.
pub record Resolution : Type 0 where
  pub decision_id : ℕ
  pub horizon_days : ℕ
  pub realized_return : Float
  pub alpha_vs_spy : Float
  pub invalidated : Bool
  pub reflection : Option String
  pub resolved_at : Time

-- What a seat's turn cost on a day.
pub record Cost : Type 0 where
  pub run_date : String
  pub agent : String
  pub usd_estimate : Float

-- How a seat behaved over a window of days.
pub record Behaviour : Type 0 where
  pub n_signalled : ℕ
  pub n_offered : ℕ
  pub n_distinct_conf : ℕ
  pub abstention_rate : Float
  pub coverage : Float
  pub cost_usd : Float

-- A seat's row of one night; a figure that the sample cannot define is NULL.
pub record Weight : Type 0 where
  pub as_of_date : String
  pub agent : String
  pub n_graded : ℕ
  pub n_abstain : ℕ
  pub n_eff : Float
  pub brier : Float
  pub bss : Option Float
  pub bss_shrunk : Float
  pub total_skill : Float
  pub reliability : Option Float
  pub resolution : Option Float
  pub ece : Option Float
  pub batting : Option Float
  pub slugging : Option Float
  pub window : Behaviour
  pub weight : Float
  pub inputs_hash : String
  pub created_at : Time

pub record Db : Type 0 where
  pub decisions : List Decision
  pub tickets : List Ticket
  pub orders : List Order
  pub checkpoints : List Checkpoint
  pub worklist : List Work
  pub strategies : List Strategy
  pub events : List Event
  pub protection : List Protection
  pub offered : List Offered
  pub signals : List Signal
  pub critiques : List Critique
  pub specs : List Spec
  pub spec_verdicts : List SpecVerdict
  pub trials : List Trial
  pub holdouts : List Holdout
  pub resolutions : List Resolution
  pub costs : List Cost
  pub weights : List Weight
