-- ===== src/Devloop/Clean.antt =====
-- What a run that the guard lets through has changed.
use fund.Devloop.{
  main, violation, violations, Change, is_in, checkbox_only_diff, devloop_scratch, changes_of,
  checkbox_file, is_protected, untracked, is_frozen, Violation, report,
}
use fund.Base.{
  none, some, true, false, [], ◌∷◌, inl, inr, refl, Bool, List, String, ◌≡◌, All, Bool-cases,
  is_empty, str_eq, ◌⊎◌, ◌++◌, ◌&&◌, str_eq_iff, and_left, and_right, if◌then◌else◌, Option, ℕ,
}

-- The notes; ticks in the acceptance file; or a file that is not protected, and that is new where the
-- baseline's evidence is.
abbrev pub Allowed : (ticked : Bool) → (baseline_files : List String) → Change → Type 0
Allowed ticked baseline_files (status, path) =
    (is_in devloop_scratch path ≡ true)
    ⊎ ((path ≡ checkbox_file) × (status ≡ "M") × (ticked ≡ true))
    ⊎ ((is_protected path ≡ false) × (is_frozen baseline_files path ≡ true → status ≡ "A"))

violation-Allowed :
    (ticked : Bool) (files : List String) (c : Change)
    → violation ticked files c ≡ none
    → Allowed ticked files c
unfolding violation
violation-Allowed ticked files (status, path) h = elim (Bool-cases (is_in devloop_scratch path)) [
  | inl scratch ↦ inl scratch
  | inr real ↦ elim (Bool-cases (str_eq path checkbox_file && str_eq status "M")) [
    | inl boxes ↦ elim (Bool-cases ticked) [
      | inr more ↦ cc (rw (real, boxes, more) at h)
      | inl only ↦ inr (
          inl (
            (str_eq_iff path checkbox_file).0 (and_left _ (str_eq status "M") boxes),
            (str_eq_iff status "M").0 (and_right (str_eq path checkbox_file) _ boxes),
            only,
          ))
    ]
    | inr other ↦ elim (Bool-cases (is_protected path)) [
      | inl shielded ↦ cc (rw (real, other, shielded) at h)
      | inr open_path ↦ elim (Bool-cases (str_eq status "A")) [
        | inl added ↦ inr (inr (open_path, λ frozen. (str_eq_iff status "A").0 added))
        | inr changed ↦ elim (Bool-cases (is_frozen files path)) [
          | inl frozen ↦ cc (rw (real, other, open_path, frozen, changed) at h)
          | inr free ↦ inr (inr (open_path, λ frozen. cc))
        ]
      ]
    ]
  ]
]

report-is_empty :
    (o : Option Violation) (rest : List Violation)
    → is_empty (report o rest) ≡ true
    → (o ≡ none) × (is_empty rest ≡ true)
report-is_empty none rest h = (refl, h)
report-is_empty (some v) rest h = cc

clean-Allowed :
    (ticked : Bool) (files : List String) (cs : List Change)
    → is_empty (violations ticked files cs) ≡ true
    → All (Allowed ticked files) cs
unfolding violations
clean-Allowed ticked files [] h = tt
clean-Allowed ticked files (c ∷ cs) h =
    let (e, rest) = report-is_empty (violation ticked files c) (violations ticked files cs) h in
    (violation-Allowed ticked files c e, clean-Allowed ticked files cs rest)

exit_code : (b : Bool) → ◌≡◌ {A = ℕ} (if b then 0 else 1) 0 → b ≡ true
exit_code true h = refl
exit_code false h = cc

-- A run of the guard that exits with 0 has seen only allowed changes: the loop's own notes, ticks in the
-- acceptance file, and files that are not protected, which are additions where they lie in a guarded
-- directory and existed at the baseline.
pub main_clean :
    (strip : String → String) (baseline_files diff fields others : List String)
    → main strip baseline_files diff fields others ≡ 0
    → All
        (Allowed (checkbox_only_diff strip diff) baseline_files)
        (changes_of fields ++ untracked others)
unfolding main
main_clean strip baseline_files diff fields others h =
    clean-Allowed (checkbox_only_diff strip diff) baseline_files
      (changes_of fields ++ untracked others) (exit_code _ h)
