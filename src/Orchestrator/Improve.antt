-- ===== src/Orchestrator/Improve.antt =====
-- orchestrator/improve.py: the window of days and how a seat behaved over it, for the nightly `weights`
-- rows. The scores of the seats, the hash of what feeds
-- a row, SQLite's SUM and the arithmetic of floats are parameters.
pub mod Weights
pub mod Rates
use fund.Python.Floats.{Float, zero_float, whole}
use fund.Gate.Risk.{Arith}
use fund.Python.Actions.{Result, err, value_error, ok}
use fund.State.Rows.{Behaviour, Db, Direction, Signal, Cost, Offered, neutral}
use fund.Base.{
  Bool, List, String, ℕ, any, count_where, if◌then◌else◌, order_by, str_eq, true, ◌&&◌, ◌∷◌, [],
  false, length, ltb, map, not, str_le, ◌+◌, ◌==◌, select, take, ◌||◌,
}

pub record Config : Type 0 where
  pub window_days : ℕ
  pub horizon_days : ℕ

-- A config of no days raises where it is built.
pub post_init : Config → Result Config
post_init cfg = if ltb cfg.window_days 1 || ltb cfg.horizon_days 1 then err value_error else ok cfg

abbrev add_date : String → List String → List String
add_date day days = if any (str_eq day) days then days else day ∷ days

-- SELECT DISTINCT run_date … WHERE run_date <= as_of
abbrev days_until : String → List Signal → List String
days_until as_of [] = []
days_until as_of (s ∷ ss) =
    let rest = days_until as_of ss in
    if str_le s.run_date as_of then add_date s.run_date rest else rest

-- The last days, oldest first.
unfoldable pub window_dates : Db → String → ℕ → List String
window_dates db as_of days =
    order_by str_le (take days (order_by (λ a b. str_le b a) (days_until as_of db.signals)))

abbrev pub within : List String → String → Bool
within days day = any (str_eq day) days

-- A signal that the seat itself wrote in the window.
abbrev pub spoke : String → List String → Signal → Bool
spoke seat days s =
    str_eq s.agent seat && not (str_eq s.charter_version "none") && within days s.run_date

abbrev pub is_neutral : Direction → Bool
is_neutral neutral = true
is_neutral _ = false

abbrev pub abstained : String → List String → Signal → Bool
abstained seat days s = spoke seat days s && is_neutral s.direction

abbrev add_number : ℕ → List ℕ → List ℕ
add_number n ns = if any (λ m. m == n) ns then ns else n ∷ ns

-- COUNT(DISTINCT confidence)
abbrev pub confidences : (Signal → Bool) → List Signal → List ℕ
confidences p [] = []
confidences p (s ∷ ss) =
    let rest = confidences p ss in if p s then add_number s.confidence rest else rest

-- A signal joined to the ticker that was offered.
abbrev pub covers : String → List String → Signal → Offered → Bool
covers seat days s o = spoke seat days s && str_eq o.run_date s.run_date && str_eq o.ticker s.ticker

abbrev pub join_count : {A B : Type 0} → (A → B → Bool) → List A → List B → ℕ
join_count m [] bs = 0
join_count m (a ∷ as_) bs = count_where (m a) bs + join_count m as_ bs

abbrev pub n_covered : Db → String → List String → ℕ
n_covered db seat days = join_count (covers seat days) db.signals db.offered

abbrev pub n_offered_in : Db → List String → ℕ
n_offered_in db days = count_where (λ (o : Offered). within days o.run_date) db.offered

abbrev spent : String → List String → List Cost → List Float
spent seat days cs =
    map (λ (c : Cost). c.usd_estimate)
      (select (λ (c : Cost). str_eq c.agent seat && within days c.run_date) cs)

abbrev no_window : Behaviour
no_window = record {
  n_signalled = 0;
  n_offered = 0;
  n_distinct_conf = 0;
  abstention_rate = zero_float;
  coverage = zero_float;
  cost_usd = zero_float;
}

abbrev pub rate : Arith → ℕ → ℕ → Float
rate a part all_of = if all_of == 0 then zero_float else a.div (whole part) (whole all_of)

module _ (a : Arith) (sum_of : List Float → Float) where
  unfoldable pub behaviour : Db → String → List String → Behaviour
  behaviour db seat [] = no_window
  behaviour db seat (day ∷ days) =
      let n = count_where (spoke seat (day ∷ days)) db.signals in
      record {
        n_signalled = n;
        n_offered = n_offered_in db (day ∷ days);
        n_distinct_conf = length (confidences (spoke seat (day ∷ days)) db.signals);
        abstention_rate = rate a (count_where (abstained seat (day ∷ days)) db.signals) n;
        coverage = rate a (n_covered db seat (day ∷ days)) (n_offered_in db (day ∷ days));
        cost_usd = sum_of (spent seat (day ∷ days) db.costs);
      }
