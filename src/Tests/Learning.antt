-- ===== src/Tests/Learning.antt =====
-- Examples on the account settings, the resolutions, the reflections, the weights, the migrations and
-- the composition of the day.
use fund.Orchestrator.Improve.Weights.Twice.{write_weights_twice}
use fund.Orchestrator.Broker.{Sys}
use fund.Orchestrator.Improve.Rates.{is_rate, behaviour-bounds}
use fund.Orchestrator.Improve.Weights.{
  AgentScore, Report, Scoring, write_weights, plan, digest_of, upsert_all, upsert,
}
use fund.Orchestrator.Improve.{Config, behaviour, n_covered, n_offered_in, window_dates}
use fund.Gate.Risk.{Arith}
use fund.Orchestrator.Preconditions.Told.{IsPlain, IsTold, Tells, assert_account_config-Tells}
use fund.Orchestrator.Resolve.Again.{resolve_due_twice}
use fund.Python.Actions.{Action, ok}
use fund.State.Migrations.{migrations, apply}
use fund.Python.Floats.{finite, whole, one_unit, Float, zero_float, nan, inf}
use fund.Python.Values.{text}
use fund.Tests.Samples.{test_arith, test_db, test_decision}
use native.Mathlib.Nat.{div-le_of_le-mul}
use fund.Base.{
  Option-cases, inl, inr, count_where, pos, ◌*◌, ◌/◌, String, arith, str_eq, ◌∷◌, [], false, ℕ,
  none, some, ◌+◌, ◌≡◌, List, refl, length, order_by, insert_by, ◌≤◌, ◌<◌, true,
}
use fund.State.Migrations.Current.{Brought, apply-Brought}
use fund.Orchestrator.Reflect.{
  Wording, handle_submit_reflection, store_reflection, write_reflection, reflection_frame, facts_of,
}
use fund.Scripts.ReflectDay.{
  Job, Tally, due_reflections, take_turns, written, on_frame, after_turn, recount,
}
use fund.Scripts.ReflectDay.Counted.{take_turns_counted, store_reflection-written}
use fund.Orchestrator.Resolve.{Counts, Frame, resolve_due, due, resolve_rows, measure, refuses}
use fund.Orchestrator.Preconditions.{
  can_tell, setting, Settings, assert_account_config_unchanged, drift_of,
}
use fund.State.Rows.{Status, Db, Decision, Resolution, Signal, bullish, Drift, Weight}
use fund.Orchestrator.Reflect.Once.{IsUnique, Once, handle_submit_reflection-Once}

abbrev learned_decision : Decision
learned_decision = record test_decision { run_date = "d1"; status = Status.held }

abbrev learned_signal : Signal
learned_signal = record {
  run_date = "d1";
  agent = "analyst";
  ticker = "NVDA";
  direction = bullish;
  confidence = 80;
  charter_version = "v1";
}

abbrev learned_resolution : Resolution
learned_resolution = record {
  decision_id = 1;
  horizon_days = 1;
  realized_return = whole 1;
  alpha_vs_spy = whole 1;
  invalidated = false;
  reflection = none;
  resolved_at = 9;
}

-- Decided and not yet resolved.
abbrev young_db : Db
young_db = record test_db {
  decisions = learned_decision ∷ [];
  tickets = [];
  orders = [];
  offered = record { run_date = "d1"; ticker = "NVDA" } ∷ [];
  signals = learned_signal ∷ [];
}

abbrev learned_db : Db
learned_db = record young_db { resolutions = learned_resolution ∷ [] }

abbrev test_frame : Frame
test_frame = record {
  sessions = "d1" ∷ "d2" ∷ [];
  columns = "NVDA" ∷ "SPY" ∷ [];
  close = λ ticker i. whole (i + 3);
}

abbrev resolved_counts : Counts
resolved_counts = record { resolved = 1; skipped = 0; pending = 0 }

abbrev resolved_db : Db
resolved_db = record young_db {
  resolutions =
      record learned_resolution { realized_return = whole 4; alpha_vs_spy = whole 4 } ∷ [];
}

resolve_due_twice_example :
    (n : Counts) × (resolve_due test_arith (λ _. ok test_frame) 1 12 resolved_db
      ≡ (ok n, resolved_db))
    × (n.resolved ≡ 0)
unfolding resolve_due due resolve_rows measure refuses whole one_unit order_by insert_by
resolve_due_twice_example =
    resolve_due_twice test_arith test_frame 1 9 12 young_db resolved_db resolved_counts refl

abbrev pinned : Settings String
pinned = ("dtbp_check", "entry") ∷ ("no_shorting", "true") ∷ []

abbrev drifted : Settings String
drifted = ("dtbp_check", "both") ∷ ("fractional", "true") ∷ []

always-IsPlain : (s : Settings String) → IsPlain str_eq (λ v. true) s
always-IsPlain s f = elim (Option-cases (setting s f)) [
  | inl gone ↦ rw gone refl
  | inr (v, there) ↦ rw there refl
]

assert_account_config-Tells_example :
    let ((n, db'), w') =
      assert_account_config_unchanged str_eq
        (λ v. true)
        {W = ℕ}
        (λ w. (ok (some drifted), w))
        pinned
        7
        0
        test_db in
    (ds : List Drift) × (n ≡ ok (length ds))
    × IsTold ds test_db db'
    × Tells str_eq (λ v. true) pinned (ok (some drifted)) ds
assert_account_config-Tells_example =
    assert_account_config-Tells str_eq (λ v. true) {W = ℕ} (λ w. (ok (some drifted), w)) pinned 7 0
      test_db (λ f. always-IsPlain pinned f) (λ f. always-IsPlain drifted f)

-- The counts of the check are computed: three fields differ.
drifted_count :
    (assert_account_config_unchanged str_eq
      (λ v. true)
      {W = ℕ}
      (λ w. (ok (some drifted), w))
      pinned
      7
      0
      test_db).0.0
    ≡ ok 3
unfolding can_tell assert_account_config_unchanged drift_of order_by
drifted_count = refl

abbrev test_wording : Wording
test_wording = record {
  frame = λ facts. "facts";
  beside = λ frame prose. prose;
  is_blank = λ s. str_eq s "";
}

one_each : IsUnique learned_db.resolutions
one_each id = ground arith

handle_submit_reflection-Once_example :
    Once test_wording "reflect" (("prose", text "words") ∷ []) (some 1) learned_db (
      handle_submit_reflection test_wording "reflect"
        (("prose", text "words") ∷ [])
        (some 1)
        learned_db)
handle_submit_reflection-Once_example =
    handle_submit_reflection-Once test_wording "reflect" (("prose", text "words") ∷ []) (some 1)
      learned_db one_each

apply-Brought_example :
    Brought migrations
      (record { tables = "signals" ∷ []; columns = [] })
      (apply migrations (record { tables = "signals" ∷ []; columns = [] }))
apply-Brought_example = apply-Brought migrations (record { tables = "signals" ∷ []; columns = [] })

-- Whole quotients of finite floats, rounded down.
abbrev exact_div : Float → Float → Float
exact_div (finite (pos x)) (finite (pos y)) = finite (pos (x * one_unit / y))
exact_div x y = nan

abbrev exact_arith : Arith
exact_arith = record {
  literal = λ m e. zero_float;
  mul = λ x y. x;
  sub = λ x y. x;
  div = exact_div;
}

quotient_le : (part all_of unit : ℕ) → part ≤ all_of → part * unit * unit / (all_of * unit) ≤ unit
quotient_le part all_of unit le = div-le_of_le-mul (all_of * unit) (grind arith)

exact_rate :
    (part all_of : ℕ)
    → part ≤ all_of
    → 0 < all_of
    → is_rate (exact_div (whole part) (whole all_of)) ≡ true
unfolding whole
exact_rate part all_of le up = let bound = quotient_le part all_of one_unit le in ground arith

one_call : fund.Orchestrator.Improve.Rates.IsUnique learned_db.signals
one_call run_date agent ticker = ground arith

behaviour-bounds_example :
    let b = behaviour exact_arith (λ xs. zero_float) learned_db "analyst" ("d1" ∷ []) in
    (is_rate b.coverage ≡ true)
    × (is_rate b.abstention_rate ≡ true)
    × (b.n_distinct_conf ≤ b.n_signalled)
    × (n_covered learned_db "analyst" ("d1" ∷ []) ≤ n_offered_in learned_db ("d1" ∷ []))
behaviour-bounds_example =
    behaviour-bounds exact_arith (λ xs. zero_float) exact_rate learned_db "analyst" ("d1" ∷ [])
      one_call

abbrev test_score : AgentScore
test_score = record {
  seat = "analyst";
  n_graded = 1;
  n_abstain = 0;
  brier = zero_float;
  bss = nan;
  bss_shrunk = zero_float;
  total_skill = zero_float;
  reliability = nan;
  resolution = nan;
  ece = nan;
  batting = whole 1;
  slugging = inf;
}

abbrev test_scoring : Scoring
test_scoring = record {
  score_agents = λ rows. ok (test_score ∷ [], λ seat. some (whole 1));
  inputs_hash = λ rows window. "h";
  sum_of = λ xs. zero_float;
}

abbrev test_config : Config
test_config = record { window_days = 20; horizon_days = 5 }

abbrev test_weight : Weight
test_weight = record {
  as_of_date = "d9";
  agent = "analyst";
  n_graded = 1;
  n_abstain = 0;
  n_eff = exact_div (whole 1) (whole 5);
  brier = zero_float;
  bss = none;
  bss_shrunk = zero_float;
  total_skill = zero_float;
  reliability = none;
  resolution = none;
  ece = none;
  batting = some (whole 1);
  slugging = none;
  window = record {
    n_signalled = 1;
    n_offered = 1;
    n_distinct_conf = 1;
    abstention_rate = exact_div (whole 0) (whole 1);
    coverage = exact_div (whole 1) (whole 1);
    cost_usd = zero_float;
  };
  weight = whole 1;
  inputs_hash = "h";
  created_at = 5;
}

abbrev weighed_db : Db
weighed_db = record learned_db { weights = test_weight ∷ [] }

abbrev weighed : Report
weighed = record { written = "analyst" ∷ []; unchanged = []; skipped = [] }

write_weights_twice_example :
    (again : Report) × (write_weights exact_arith test_scoring test_config "d9" 8 weighed_db
      ≡ (ok again, weighed_db))
    × (again.written ≡ [])
unfolding write_weights plan digest_of upsert_all upsert whole one_unit window_dates order_by
    insert_by behaviour
write_weights_twice_example =
    write_weights_twice exact_arith test_scoring test_config "d9" 5 8 learned_db weighed_db weighed
      tt refl

-- A turn that writes its reflection.
abbrev writing_turn : Job → String → Action (Sys ℕ) (Unit {0})
writing_turn j frame s =
    (ok tt, record s { db = (store_reflection test_wording j.decision_id frame "late" s.db).1 })

abbrev night : Sys ℕ
night = record { db = learned_db; world = 0 }

abbrev no_tally : Tally
no_tally = record { reflected = 0; failed = 0; wrote_nothing = [] }

take_turns_counted_example :
    let js = due_reflections 0 100 learned_db in
    let (n, s) = take_turns test_wording (λ k. k) writing_turn js no_tally night in
    (n.reflected + n.failed ≡ 0 + 0 + length js)
    × (n.reflected ≤ 0 + count_where (λ j. written j s.db) js)
take_turns_counted_example =
    take_turns_counted test_wording (λ k. k) writing_turn
      (λ i j frame s h. store_reflection-written test_wording i j.decision_id frame "late" s.db h)
      (due_reflections 0 100 learned_db) no_tally night

-- The turn of the one decision that is due is counted.
one_reflected :
    (take_turns test_wording
      (λ (k : ℕ). k)
      writing_turn
      (due_reflections 0 100 learned_db)
      no_tally
      night).0
    ≡ record no_tally { reflected = 1 }
unfolding take_turns due_reflections order_by insert_by reflection_frame facts_of on_frame
    after_turn recount store_reflection write_reflection
one_reflected = refl
