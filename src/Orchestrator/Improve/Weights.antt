-- ===== src/Orchestrator/Improve/Weights.antt =====
-- `write_weights` and `latest_weights` of orchestrator/improve.py. What the scoring over numpy arrays
-- gives, and the hash of what feeds a row, are parameters.
use fund.Orchestrator.Improve.{Config, behaviour, window_dates}
use fund.Python.Actions.{Result, ok, Action, err, integrity_error, key_error}
use fund.Calibration.{Row, scoreboard_rows}
use fund.Gate.Risk.{Arith}
use fund.State.Rows.{Weight, Behaviour, Db, Time}
use fund.Base.{
  List, Option, String, [], Bool, if◌then◌else◌, none, some, ℕ, ◌∷◌, false, str_eq, str_le, map,
  not, ◌&&◌, select, true,
}
use fund.Python.Floats.{Float, float_le, is_finite, whole, zero_float}
pub mod Nightly
pub mod Twice

pub record AgentScore : Type 0 where
  pub seat : String
  pub n_graded : ℕ
  pub n_abstain : ℕ
  pub brier : Float
  pub bss : Float
  pub bss_shrunk : Float
  pub total_skill : Float
  pub reliability : Float
  pub resolution : Float
  pub ece : Float
  pub batting : Float
  pub slugging : Float

pub record Scoring : Type 0 where
  pub score_agents : List Row → Result (List AgentScore × (String → Option Float))
  pub inputs_hash : List Row → Behaviour → String
  pub sum_of : List Float → Float

-- What the job reports.
pub record Report : Type 0 where
  pub written : List String
  pub unchanged : List String
  pub skipped : List String

abbrev later : Weight → Option Weight → Option Weight
later w none = some w
later w (some v) = if str_le v.as_of_date w.as_of_date then some w else some v

-- MAX(as_of_date) of one agent.
abbrev pub latest : String → List Weight → Option Weight
latest seat [] = none
latest seat (w ∷ ws) =
    let rest = latest seat ws in if str_eq w.agent seat then later w rest else rest

abbrev pub has_hash : Option Weight → String → Bool
has_hash none digest = false
has_hash (some w) digest = str_eq w.inputs_hash digest

abbrev pub descriptive : Float → Option Float
descriptive x = if is_finite x then some x else none

abbrev pub is_sound : Weight → Bool
is_sound w =
    is_finite w.n_eff
    && is_finite w.brier
    && is_finite w.bss_shrunk
    && is_finite w.total_skill
    && is_finite w.weight

abbrev pub same_key : Weight → Weight → Bool
same_key row w = str_eq w.as_of_date row.as_of_date && str_eq w.agent row.agent

-- INSERT … ON CONFLICT DO UPDATE of every other column.
unfoldable pub upsert : Weight → List Weight → List Weight
upsert row [] = row ∷ []
upsert row (w ∷ ws) = let rest = upsert row ws in if same_key row w then row ∷ ws else w ∷ rest

-- CHECK (weight >= 0 AND weight <= 1)
abbrev pub in_unit : Float → Bool
in_unit x = float_le zero_float x && float_le x (whole 1)

unfoldable pub upsert_all : List Weight → List Weight → Result (List Weight)
upsert_all [] ws = ok ws
upsert_all (row ∷ rows) ws =
    let rest = upsert_all rows (upsert row ws) in
    if in_unit row.weight then rest else err integrity_error

-- What is planned for the seats, before anything is written.
pub record Plan : Type 0 where
  pub rows : List Weight
  pub unchanged : List String
  pub skipped : List String

abbrev pub no_plan : Plan
no_plan = record { rows = []; unchanged = []; skipped = [] }

abbrev pub add_row : Weight → Plan → Plan
add_row row p =
    if is_sound row
    then record p { rows = row ∷ p.rows }
    else record p { skipped = row.agent ∷ p.skipped }

abbrev agents : List Weight → List String
agents rows = map (λ (w : Weight). w.agent) rows

-- One commit, or a rollback.
abbrev pub commit : Db → Plan → Result (List Weight) → Result Report × Db
commit db p (err e) = (err e, db)
commit db p (ok ws) = (
  ok (record { written = agents p.rows; unchanged = p.unchanged; skipped = p.skipped }),
  record db { weights = ws },
)

abbrev pub carry_out : Db → Result Plan → Result Report × Db
carry_out db (err e) = (err e, db)
carry_out db (ok p) = commit db p (upsert_all p.rows db.weights)

module _ (a : Arith) (scoring_of : Scoring) (cfg : Config) where
  abbrev pub row_for :
      AgentScore → Float → Behaviour → (digest as_of : String) → (now : Time) → Weight
  row_for score weight window digest as_of now = record {
    as_of_date = as_of;
    agent = score.seat;
    n_graded = score.n_graded;
    n_abstain = score.n_abstain;
    n_eff = a.div (whole score.n_graded) (whole cfg.horizon_days);
    brier = score.brier;
    bss = descriptive score.bss;
    bss_shrunk = score.bss_shrunk;
    total_skill = score.total_skill;
    reliability = descriptive score.reliability;
    resolution = descriptive score.resolution;
    ece = descriptive score.ece;
    batting = descriptive score.batting;
    slugging = descriptive score.slugging;
    window = window;
    weight = weight;
    inputs_hash = digest;
    created_at = now;
  }

  module _ (db : Db) (as_of : String) where
    abbrev pub window_of : String → Behaviour
    window_of seat = behaviour a scoring_of.sum_of db seat (window_dates db as_of cfg.window_days)

    unfoldable pub digest_of : String → String
    unfolding behaviour window_dates scoreboard_rows
    digest_of seat =
        scoring_of.inputs_hash (select (λ (r : Row). str_eq r.seat seat) (scoreboard_rows db))
          (window_of seat)

    module _ (now : Time) where
      abbrev pub planned :
          AgentScore → (weight : Option Float) → (changed : Bool) → Result Plan → Result Plan
      planned score weight changed (err e) = err e
      planned score weight false (ok p) = ok (record p { unchanged = score.seat ∷ p.unchanged })
      planned score none true (ok p) = err key_error
      planned score (some weight) true (ok p) =
          ok (
            add_row (row_for score weight (window_of score.seat) (digest_of score.seat) as_of now)
              p)

      -- A seat whose inputs hash to its latest row's hash is not written again.
      unfoldable pub plan : (String → Option Float) → List AgentScore → Result Plan
      plan weights [] = ok no_plan
      plan weights (score ∷ scores) =
          planned score (weights score.seat)
            (not (has_hash (latest score.seat db.weights) (digest_of score.seat)))
            (plan weights scores)

      abbrev pub scored : Result (List AgentScore × (String → Option Float)) → Result Report × Db
      scored (err e) = (err e, db)
      scored (ok (scores, weights)) = carry_out db (plan weights scores)

  unfoldable pub write_weights : (as_of : String) → Time → Action Db Report
  write_weights as_of now db = scored db as_of now (scoring_of.score_agents (scoreboard_rows db))
