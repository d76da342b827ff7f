-- ===== src/Orchestrator/Preconditions/Told.antt =====
-- The check of the account's settings tells exactly the fields that differ, each once.
use fund.Orchestrator.Preconditions.Fields.{All-counted, held, times, times-with_names}
use fund.Python.Actions.{Result, err, ok}
use fund.Slack.Outbox.{next_id}
use fund.Orchestrator.Preconditions.{
  Settings, compare_fields, drift_of, setting, tell, fields_of, with_names,
  assert_account_config_unchanged, compare_answer, can_tell, dumps_at,
}
use fund.State.Rows.{
  Drift, Db, Time, unreported, Event, unpinned, changed, Body, empty_baseline, unreadable,
  malformed,
}
use fund.Base.{
  Bool, List, String, Option, ap, not, str_eq, true, ◌∷◌, sym, ℕ, ◌≡◌, [], append-nil, ◌++◌, ◌+◌,
  false, length, map, none, some, ◌∙◌, append_assoc, refl, arith, count_where, Option-cases,
  Bool-cases, if◌then◌else◌, inl, inr, str_eq_iff, suc, All, count_where-order_by, ◌<◌, str_le,
  ◌&&◌, count_where_append, All-append, All-imp,
}

abbrev pub is_about : String → Drift → Bool
is_about field (unreported f) = str_eq f field
is_about field (unpinned f) = str_eq f field
is_about field (changed f) = str_eq f field
is_about field _ = false

abbrev pub names_field : Drift → Bool
names_field (unreported f) = true
names_field (unpinned f) = true
names_field (changed f) = true
names_field _ = false

abbrev pub tell_all : List Drift → Time → Db → Db
tell_all [] now db = db
tell_all (d ∷ ds) now db = tell_all ds now (tell d now db)

-- The store with more events at its end, whose bodies are the alerts.
abbrev pub IsTold : List Drift → Db → Db → Type 0
IsTold ds db db' =
    (new : List Event) × (db' ≡ record db { events = db.events ++ new })
    × (map (λ (e : Event). e.body) new ≡ map Body.config_alert ds)

tell_all-IsTold : (ds : List Drift) (now : Time) (db : Db) → IsTold ds db (tell_all ds now db)
tell_all-IsTold [] now db =
    ([], ap (λ es. record db { events = es }) (sym (append-nil db.events)), refl)
tell_all-IsTold (d ∷ ds) now db =
    let (new, e, b) = tell_all-IsTold ds now (tell d now db) in
    let row : Event = record {
      id = next_id db.events;
      body = Body.config_alert d;
      created_at = now;
      posted_at = none;
    } in
    (
      row ∷ new,
      e ∙ ap (λ es. record db { events = es }) (append_assoc db.events (row ∷ []) new),
      ap (λ bs. Body.config_alert d ∷ bs) b,
    )

module _ {V : Type 0} (same : V → V → Bool) (dumps : V → Bool) (baseline actual : Settings V) where
  -- What an observer of the two dicts says of a field.
  abbrev pub agree : Option V → Option V → Bool
  agree none none = true
  agree (some w) (some v) = same v w
  agree _ _ = false

  abbrev pub differs : String → Bool
  differs field = not (agree (setting baseline field) (setting actual field))

  one : String → List Drift
  one f = elim (drift_of same dumps baseline actual f) [ none ↦ [] | some d ↦ d ∷ [] ]

  drifts : List String → List Drift
  drifts [] = []
  drifts (f ∷ fs) = one f ++ drifts fs

  one-none : (f : String) → drift_of same dumps baseline actual f ≡ none → one f ≡ []
  unfolding one
  one-none f even = rw (even, one) refl

  one-some :
      (f : String) (d : Drift) → drift_of same dumps baseline actual f ≡ some d → one f ≡ d ∷ []
  unfolding one
  one-some f d odd = rw (odd, one) refl

  compare_fields-drifts :
      (fs : List String) (n : ℕ) (now : Time) (db : Db)
      → ((f : String) → can_tell same dumps baseline actual f ≡ true)
      → compare_fields same dumps baseline actual fs n now db
        ≡ (ok (n + length (drifts fs)), tell_all (drifts fs) now db)
  unfolding compare_fields drifts
  compare_fields-drifts [] n now db plain = ap (λ k. (ok k, db)) (omega arith)
  compare_fields-drifts (f ∷ fs) n now db plain =
      elim (Option-cases (drift_of same dumps baseline actual f)) [
        | inl even ↦ rw (even, one-none f even) (compare_fields-drifts fs n now db plain)
        | inr (d, odd) ↦
            rw (odd, one-some f d odd, plain f)
              (compare_fields-drifts fs (suc n) now (tell d now db) plain
                ∙ ap (λ k. (ok k, tell_all (drifts fs) now (tell d now db))) (omega arith))
      ]

  abbrev holds : String → ℕ
  holds field = held (setting baseline field) (held (setting actual field) 0)

  module _ (field : String) where
    times-fields_of : times field (fields_of baseline actual) ≡ holds field
    times-fields_of =
        let from_actual = times-with_names field actual [] (omega arith) in
        let from_both = times-with_names field baseline (with_names actual []) from_actual.0 in
        count_where-order_by str_le (λ g. str_eq g field)
          (with_names baseline (with_names actual []))
        ∙ from_both.1
        ∙ ap (held (setting baseline field)) from_actual.1

    -- The alerts of one field.
    about_self :
        (f : String)
        → 0 < holds f
        → count_where (is_about field) (one f) ≡ (if str_eq f field && differs f then 1 else 0)
    unfolding one drift_of
    about_self f known = elim (Option-cases (setting actual f)) [
      | inl gone ↦ elim (Option-cases (setting baseline f)) [
        | inl neither ↦ absurd (omega (arith, (rw (gone, neither) at known)))
        | inr (w, pinned) ↦ rw (gone, pinned) (ground arith)
      ]
      | inr (v, there) ↦ elim (Option-cases (setting baseline f)) [
        | inl new ↦ rw (there, new) (ground arith)
        | inr (w, pinned) ↦ rw (there, pinned) (ground arith)
      ]
    ]

    same_name : (f : String) → (str_eq f field && differs f) ≡ (str_eq f field && differs field)
    same_name f = elim (Bool-cases (str_eq f field)) [
      | inl hit ↦ rw ((str_eq_iff f field).0 hit) refl
      | inr miss ↦ rw miss refl
    ]

    about-drifts :
        (fs : List String)
        → All (λ f. 0 < holds f) fs
        → count_where (is_about field) (drifts fs) ≡ (if differs field then times field fs else 0)
    unfolding drifts
    about-drifts [] known = ground arith
    about-drifts (f ∷ fs) known =
        count_where_append (is_about field) (one f) (drifts fs)
        ∙ rw (about_self f known.0, same_name f, about-drifts fs known.1) (ground arith)

  one-named : (f : String) → All (λ d. names_field d ≡ true) (one f)
  unfolding one drift_of
  one-named f = elim (Option-cases (setting actual f)) [
    | inl gone ↦ rw (gone, All) (refl, tt)
    | inr (v, there) ↦ elim (Option-cases (setting baseline f)) [
      | inl new ↦ rw (there, new, All) (refl, tt)
      | inr (w, pinned) ↦ elim (Bool-cases (same v w)) [
        | inl even ↦ rw (there, pinned, even, All) tt
        | inr odd ↦ rw (there, pinned, odd, All) (refl, tt)
      ]
    ]
  ]

  All-named : (fs : List String) → All (λ d. names_field d ≡ true) (drifts fs)
  unfolding drifts
  All-named [] = tt
  All-named (f ∷ fs) =
      All-append (λ d. names_field d ≡ true) (one f) (drifts fs) (one-named f) (All-named fs)

  fields_held : All (λ f. 0 < holds f) (fields_of baseline actual)
  fields_held =
      All-imp (λ f. 0 < count_where (λ g. str_eq g f) (fields_of baseline actual))
        (λ f. 0 < holds f) (fields_of baseline actual) (λ f h. rw (← times-fields_of f) h)
        (All-counted (fields_of baseline actual))

  -- Exactly the fields on which the dicts disagree, each once.
  abbrev pub Exactly : List Drift → Type 0
  Exactly ds =
      All (λ d. names_field d ≡ true) ds
      × ((field : String) → count_where (is_about field) ds ≡ (if differs field then 1 else 0))

  differing :
      (field : String)
      → (if differs field then holds field else 0) ≡ (if differs field then 1 else 0)
  differing field = elim (Option-cases (setting actual field)) [
    | inl gone ↦ elim (Option-cases (setting baseline field)) [
      | inl neither ↦ rw (gone, neither) refl
      | inr (w, pinned) ↦ rw (gone, pinned) refl
    ]
    | inr (v, there) ↦ elim (Option-cases (setting baseline field)) [
      | inl new ↦ rw (there, new) refl
      | inr (w, pinned) ↦ rw (there, pinned) refl
    ]
  ]

  drifts-Exactly : Exactly (drifts (fields_of baseline actual))
  drifts-Exactly = (All-named (fields_of baseline actual), λ field. counted field)
    where
      counted :
          (field : String)
          → count_where (is_about field) (drifts (fields_of baseline actual))
            ≡ (if differs field then 1 else 0)
      counted field =
          about-drifts field (fields_of baseline actual) fields_held
          ∙ rw (times-fields_of field) (differing field)

module _ {V : Type 0} (same : V → V → Bool) (dumps : V → Bool) where
  -- What the check tells, by what the baseline is and what the broker answered.
  abbrev pub Tells : Settings V → Result (Option (Settings V)) → List Drift → Type 0
  Tells [] answer ds = ds ≡ empty_baseline ∷ []
  Tells (s ∷ baseline) (err e) ds = ds ≡ unreadable ∷ []
  Tells (s ∷ baseline) (ok none) ds = ds ≡ malformed ∷ []
  Tells (s ∷ baseline) (ok (some actual)) ds = Exactly same dumps (s ∷ baseline) actual ds

  abbrev Checked : Settings V → Result (Option (Settings V)) → Db → Result ℕ × Db → Type 0
  Checked baseline answer db (n, db') =
      (ds : List Drift) × (n ≡ ok (length ds)) × IsTold ds db db' × Tells baseline answer ds

  -- Each value of a dict can be quoted in an alert.
  abbrev pub IsPlain : Settings V → Type 0
  IsPlain s = (field : String) → dumps_at same dumps (setting s field) ≡ true

  abbrev pub HasPlain : Result (Option (Settings V)) → Type 0
  HasPlain (ok (some actual)) = IsPlain actual
  HasPlain answer = Unit

  plain_both :
      (baseline actual : Settings V)
      → IsPlain baseline
      → IsPlain actual
      → (f : String) → can_tell same dumps baseline actual f ≡ true
  unfolding can_tell
  plain_both baseline actual plain plain' f = rw (plain f, plain' f) refl

  answered-Checked :
      (s : String × V) (baseline : Settings V) (answer : Result (Option (Settings V))) (now : Time)
      (db : Db)
      → IsPlain (s ∷ baseline)
      → HasPlain answer
      → Checked (s ∷ baseline) answer db (compare_answer same dumps (s ∷ baseline) answer now db)
  unfolding compare_answer
  answered-Checked s baseline (err e) now db plain plain' =
      (unreadable ∷ [], refl, tell_all-IsTold (unreadable ∷ []) now db, refl)
  answered-Checked s baseline (ok none) now db plain plain' =
      (malformed ∷ [], refl, tell_all-IsTold (malformed ∷ []) now db, refl)
  answered-Checked s baseline (ok (some actual)) now db plain plain' =
      let ds = drifts same dumps (s ∷ baseline) actual (fields_of (s ∷ baseline) actual) in
      rw
        (compare_fields-drifts same dumps (s ∷ baseline) actual (fields_of (s ∷ baseline) actual) 0
          now db (plain_both (s ∷ baseline) actual plain plain'))
        (
          ds,
          ap ok (omega arith),
          tell_all-IsTold ds now db,
          drifts-Exactly same dumps (s ∷ baseline) actual,
        )

  -- Where json.dumps takes every setting of the baseline and of the answer, the check of the account
  -- settings returns, whether or not the broker raises. It counts the alerts that it appends, and nothing
  -- else in the store changes. With settings to compare there is exactly one alert for each field on
  -- which the baseline and the broker disagree, one of them holding it alone included, and none for
  -- the others; an empty baseline, a broker that raises and an answer that is no dict are one alert.
  pub assert_account_config-Tells :
      {W : Type 0} (account_config : W → Result (Option (Settings V)) × W) (baseline : Settings V)
      (now : Time) (w : W) (db : Db)
      → IsPlain baseline
      → HasPlain (account_config w).0
      → let ((n, db'), w') =
          assert_account_config_unchanged same dumps account_config baseline now w db in
        (ds : List Drift) × (n ≡ ok (length ds))
        × IsTold ds db db'
        × Tells baseline (account_config w).0 ds
  unfolding assert_account_config_unchanged
  assert_account_config-Tells account_config [] now w db plain plain' =
      (empty_baseline ∷ [], refl, tell_all-IsTold (empty_baseline ∷ []) now db, refl)
  assert_account_config-Tells account_config (s ∷ baseline) now w db plain plain' =
      answered-Checked s baseline (account_config w).0 now db plain plain'
