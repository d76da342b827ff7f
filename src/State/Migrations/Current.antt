-- ===== src/State/Migrations/Current.antt =====
-- After the migrations the database is current, and it has lost nothing.
use fund.Python.Actions.{Result, err, operational_error, ok, ◌>>◌, >>=_err, >>=_ok, pure}
use fund.Base.{
  Grown-refl, List, ◌≡◌, Grown, ◌∷◌, [], false, true, Bool-cases, refl, str_eq_refl, inl, All,
  any-Grown, inr, any, str_eq, Grown-trans, ◌++◌, any-append_left, any-append_last, not-false,
  All-imp, String, or_left, subst, map, or_right, sym,
}
use fund.State.Migrations.{
  apply, Schema, Column, has_column, is_column, is_missing, add_missing, Migration, apply_all,
  apply_columns, pending,
}

abbrev Has : Schema → Column → Type 0
Has schema c = has_column schema c ≡ true

module _ (start : Schema) where
  -- The start with columns added that it had not got.
  abbrev pub Since : Schema → Type 0
  Since s =
      (s.tables ≡ start.tables) × Grown (λ c. is_missing start c ≡ true) start.columns s.columns

  Since-refl : Since start
  Since-refl = (refl, Grown-refl (λ c. is_missing start c ≡ true) start.columns)

  -- A run of ALTERs from s that ends by the columns, or at a table that is not there.
  abbrev Ends : Schema → List Column → Result (Unit {0}) × Schema → Type 0
  Ends s cs (err e, s') = (e ≡ operational_error) × Since s'
  Ends s cs (ok _, s') = Since s' × ((c : Column) → Has s c → Has s' c) × All (Has s') cs

  was_missing :
      (s : Schema) (c : Column) → Since s → has_column s c ≡ false → is_missing start c ≡ true
  was_missing s c since missing = elim (Bool-cases (has_column start c)) [
    | inl there ↦ cc (
        any-Grown (λ d. is_missing start d ≡ true) (is_column c) start.columns s.columns since.1
          there)
    | inr gone ↦ rw gone refl
  ]

  self_column : (c : Column) → is_column c c ≡ true
  self_column (table, name) = rw (str_eq_refl table, str_eq_refl name) refl

  add_missing-Ends : (s : Schema) (c : Column) → Since s → Ends s (c ∷ []) (add_missing c s)
  add_missing-Ends s (table, name) since = elim (Bool-cases (has_column s (table, name))) [
    | inl there ↦ rw (there, Ends) (since, (λ d h. h), (there, tt))
    | inr missing ↦ elim (Bool-cases (any (str_eq table) s.tables)) [
      | inr no_table ↦ rw (missing, no_table, Ends) (refl, since)
      | inl table_there ↦
          rw (missing, table_there, Ends)
            (
              (
                since.0,
                Grown-trans (λ d. is_missing start d ≡ true) start.columns s.columns
                    (s.columns ++ (table, name) ∷ []) since.1
                    ((table, name) ∷ [], refl, (was_missing s (table, name) since missing, tt)),
              ),
              (λ d h. any-append_left (is_column d) s.columns ((table, name) ∷ []) h),
              (
                any-append_last (is_column (table, name)) s.columns (table, name)
                    (self_column (table, name)),
                tt,
              ),
            )
    ]
  ]

  -- What has been kept and added so far, and what the rest adds.
  and_then :
      (s s1 : Schema) (c : Column) (cs : List Column) (m : Result (Unit {0}) × Schema)
      → ((d : Column) → Has s d → Has s1 d)
      → Has s1 c
      → Ends s1 cs m
      → Ends s (c ∷ cs) m
  and_then s s1 c cs (err e, s') keep has h = h
  and_then s s1 c cs (ok _, s') keep has (since, kept, all_there) =
      (since, (λ d h. kept d (keep d h)), (kept c has, all_there))

  bind_Ends :
      (s : Schema) (c : Column) (cs : List Column) (m : Result (Unit {0}) × Schema)
      → add_missing c s ≡ m
      → Ends s (c ∷ []) m
      → ((s1 : Schema) → Since s1 → Ends s1 cs (apply_columns cs s1))
      → Ends s (c ∷ cs) ((add_missing c >> apply_columns cs) s)
  bind_Ends s c cs (err e, s1) ran h rest =
      subst (Ends s (c ∷ cs))
        (sym (>>=_err (add_missing c) (λ _. apply_columns cs) s {e = e} {s' = s1} ran)) h
  bind_Ends s c cs (ok tt, s1) ran (since, keep, (has, _)) rest =
      subst (Ends s (c ∷ cs))
        (sym (>>=_ok (add_missing c) (λ _. apply_columns cs) s {a = tt} {s' = s1} ran))
        (and_then s s1 c cs (apply_columns cs s1) keep has (rest s1 since))

  apply_columns-Ends : (cs : List Column) (s : Schema) → Since s → Ends s cs (apply_columns cs s)
  unfolding apply_columns
  apply_columns-Ends [] s since = (since, (λ c h. h), tt)
  apply_columns-Ends (c ∷ cs) s since =
      bind_Ends s c cs (add_missing c s) refl (add_missing-Ends s c since)
        (λ s1 since1. apply_columns-Ends cs s1 since1)

  abbrev AllEnds : Schema → List Migration → Result (Unit {0}) × Schema → Type 0
  AllEnds s ms (err e, s') = (e ≡ operational_error) × Since s'
  AllEnds s ms (ok _, s') =
      Since s' × ((c : Column) → Has s c → Has s' c) × All (λ m. All (Has s') m.1) ms

  and_then-All :
      (s s1 : Schema) (m : Migration) (ms : List Migration) (r : Result (Unit {0}) × Schema)
      → ((d : Column) → Has s d → Has s1 d)
      → All (Has s1) m.1
      → AllEnds s1 ms r
      → AllEnds s (m ∷ ms) r
  and_then-All s s1 m ms (err e, s') keep has h = h
  and_then-All s s1 m ms (ok _, s') keep has (since, kept, all_there) =
      (since, (λ d h. kept d (keep d h)), (All-imp (Has s1) (Has s') m.1 kept has, all_there))

  bind_AllEnds :
      (s : Schema) (m : Migration) (ms : List Migration) (r : Result (Unit {0}) × Schema)
      → apply_columns m.1 s ≡ r
      → Ends s m.1 r
      → ((s1 : Schema) → Since s1 → AllEnds s1 ms (apply_all ms s1))
      → AllEnds s (m ∷ ms) ((apply_columns m.1 >> apply_all ms) s)
  bind_AllEnds s m ms (err e, s1) ran h rest =
      subst (AllEnds s (m ∷ ms))
        (sym (>>=_err (apply_columns m.1) (λ _. apply_all ms) s {e = e} {s' = s1} ran)) h
  bind_AllEnds s m ms (ok tt, s1) ran (since, keep, has) rest =
      subst (AllEnds s (m ∷ ms))
        (sym (>>=_ok (apply_columns m.1) (λ _. apply_all ms) s {a = tt} {s' = s1} ran))
        (and_then-All s s1 m ms (apply_all ms s1) keep has (rest s1 since))

  apply_all-AllEnds : (ms : List Migration) (s : Schema) → Since s → AllEnds s ms (apply_all ms s)
  unfolding apply_all
  apply_all-AllEnds [] s since = (since, (λ c h. h), tt)
  apply_all-AllEnds (m ∷ ms) s since =
      bind_AllEnds s m ms (apply_columns m.1 s) refl (apply_columns-Ends m.1 s since)
        (λ s1 since1. apply_all-AllEnds ms s1 since1)

abbrev names : List Migration → List String
names ms = map (λ (m : Migration). m.0) ms

-- All columns are there.
none_missing : (s : Schema) (cs : List Column) → All (Has s) cs → any (is_missing s) cs ≡ false
none_missing s [] h = refl
none_missing s (c ∷ cs) h = rw (h.0, none_missing s cs h.1) refl

still_there :
    (s s' : Schema) (cs : List Column)
    → ((c : Column) → Has s c → Has s' c)
    → any (is_missing s) cs ≡ false
    → All (Has s') cs
still_there s s' [] keep h = tt
still_there s s' (c ∷ cs) keep h = (
  keep c (not-false (has_column s c) (or_left (is_missing s c) (any (is_missing s) cs) h)),
  still_there s s' cs keep (or_right (is_missing s c) (any (is_missing s) cs) h),
)

-- A migration that was pending is complete now, and the others were.
none_pending :
    (s s' : Schema) (ms : List Migration)
    → ((c : Column) → Has s c → Has s' c)
    → All (λ (m : Migration). All (Has s') m.1) (pending s ms)
    → pending s' ms ≡ []
unfolding pending
none_pending s s' [] keep h = refl
none_pending s s' (m ∷ ms) keep h = elim (Bool-cases (any (is_missing s) m.1)) [
  | inl was_pending ↦
      let (here, rest) : All (Has s') m.1
          × All (λ (k : Migration). All (Has s') k.1) (pending s ms) =
        rw (was_pending, All) at h in
      rw (none_missing s' m.1 here) (none_pending s s' ms keep rest)
  | inr was_current ↦
      rw (none_missing s' m.1 (still_there s s' m.1 keep was_current))
        (none_pending s s' ms keep (rw (was_current, All) at h))
]

-- How an application of migrations ends: the database is current, or a table is not there.
abbrev pub Brought : List Migration → Schema → Result (List String) × Schema → Type 0
Brought ms s (err e, s') = (e ≡ operational_error) × Since s s'
Brought ms s (ok applied, s') =
    (applied ≡ names (pending s ms))
    × Since s s'
    × (pending s' ms ≡ [])
    × (apply ms s' ≡ (ok [], s'))

ended :
    (ms : List Migration) (s : Schema) (m : Result (Unit {0}) × Schema)
    → apply_all (pending s ms) s ≡ m
    → AllEnds s s (pending s ms) m
    → Brought ms s (apply ms s)
unfolding apply apply_all
ended ms s (err e, s') ran h =
    subst (Brought ms s)
      (sym (
        >>=_err (apply_all (pending s ms)) (λ _. pure (names (pending s ms))) s {e = e} {s' = s'}
          ran))
      h
ended ms s (ok tt, s') ran (since, keep, all_there) =
    let current = none_pending s s' ms keep all_there in
    subst (Brought ms s)
      (sym (
        >>=_ok (apply_all (pending s ms)) (λ _. pure (names (pending s ms))) s {a = tt} {s' = s'}
          ran))
      (refl, since, current, rw current refl)

-- Applying any migrations to any schema loses no table and no column, and adds only columns that were
-- missing. If it returns, the names are those of the migrations that were pending, none is pending any
-- more, and applying them again returns no name and changes nothing; it raises only OperationalError.
pub apply-Brought : (ms : List Migration) (s : Schema) → Brought ms s (apply ms s)
apply-Brought ms s =
    ended ms s (apply_all (pending s ms) s) refl
      (apply_all-AllEnds s (pending s ms) s (Since-refl s))
