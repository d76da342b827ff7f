-- ===== src/Orchestrator/Preconditions.antt =====
-- orchestrator/preconditions.py: whether the broker's account settings are the pinned ones. A setting
-- is a value of any type with Python's `==`, and `dumps` is whether json.dumps takes it: an alert quotes
-- the values and raises where it does not. The values are not kept. The keys are texts.
use fund.Slack.Outbox.{insert}
use fund.Python.Actions.{Action, type_error, Result, err, ok}
use fund.State.Rows.{
  Drift, Time, Db, empty_baseline, unreported, Body, unpinned, unreadable, changed, malformed,
}
use fund.Base.{
  Bool, List, String, Option, if◌then◌else◌, order_by, ℕ, any, none, some, str_le, [], str_eq, suc,
  ◌∷◌, ◌&&◌, true, false,
}
pub mod Fields
pub mod Told

-- A dict: its items, with each key once.
abbrev pub Settings : Type 0 → Type 0
Settings V = List (String × V)

abbrev pub setting : {V : Type 0} → Settings V → String → Option V
setting [] field = none
setting ((k, v) ∷ d) field = let rest = setting d field in if str_eq k field then some v else rest

abbrev pub add_name : String → List String → List String
add_name field names = if any (λ g. str_eq g field) names then names else field ∷ names

abbrev pub with_names : {V : Type 0} → Settings V → List String → List String
with_names [] names = names
with_names ((k, v) ∷ d) names = add_name k (with_names d names)

-- sorted(set(baseline) | set(actual))
abbrev pub fields_of : {V : Type 0} → Settings V → Settings V → List String
fields_of baseline actual = order_by str_le (with_names baseline (with_names actual []))

abbrev pub tell : Drift → Time → Db → Db
tell d now db = insert (Body.config_alert d) now db

module _ {V : Type 0} (same : V → V → Bool) (dumps : V → Bool) where
  unfoldable pub drift_of : Settings V → Settings V → String → Option Drift
  drift_of baseline actual field = elim (setting actual field) [
    | none ↦ some (unreported field)
    | some v ↦ elim (setting baseline field) [
      | none ↦ some (unpinned field)
      | some w ↦ if same v w then none else some (changed field)
    ]
  ]

  abbrev pub dumps_at : Option V → Bool
  dumps_at none = true
  dumps_at (some v) = dumps v

  -- Whether the alert on a field can be written.
  unfoldable pub can_tell : Settings V → Settings V → String → Bool
  can_tell baseline actual field =
      dumps_at (setting baseline field) && dumps_at (setting actual field)

  -- One field of the loop: an alert that cannot be written raises.
  abbrev on_drift : Option Drift → Bool → (ℕ → Action Db ℕ) → ℕ → Time → Action Db ℕ
  on_drift none can rest n now db = rest n db
  on_drift (some d) true rest n now db = rest (suc n) (tell d now db)
  on_drift (some d) false rest n now db = (err type_error, db)

  unfoldable pub compare_fields : Settings V → Settings V → List String → ℕ → Time → Action Db ℕ
  compare_fields baseline actual [] n now db = (ok n, db)
  compare_fields baseline actual (field ∷ fields) n now db =
      on_drift (drift_of baseline actual field) (can_tell baseline actual field)
        (λ k db'. compare_fields baseline actual fields k now db') n now db

  unfoldable pub compare_answer : Settings V → Result (Option (Settings V)) → Time → Action Db ℕ
  unfolding compare_fields
  compare_answer baseline (err e) now db = (ok 1, tell unreadable now db)
  compare_answer baseline (ok none) now db = (ok 1, tell malformed now db)
  compare_answer baseline (ok (some actual)) now db =
      compare_fields baseline actual (fields_of baseline actual) 0 now db

  -- `account_config` is the broker's port; with no broker the call raises inside the try.
  unfoldable pub assert_account_config_unchanged :
      {W : Type 0}
      → (account_config : W → Result (Option (Settings V)) × W) → Settings V
      → Time
      → W
      → Db
      → (Result ℕ × Db) × W
  unfolding compare_answer
  assert_account_config_unchanged account_config [] now w db =
      ((ok 1, tell empty_baseline now db), w)
  assert_account_config_unchanged account_config (s ∷ baseline) now w db =
      let (answer, w') = account_config w in (compare_answer (s ∷ baseline) answer now db, w')
