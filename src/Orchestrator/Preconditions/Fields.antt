-- ===== src/Orchestrator/Preconditions/Fields.antt =====
-- The names of two dicts, collected without repetition: how often a name occurs among them.
use fund.Orchestrator.Preconditions.{add_name, with_names, setting}
use fund.Base.{
  List, Option, String, All, ℕ, ◌≡◌, ◌≤◌, count_where, some, str_eq, ◌<◌, if◌then◌else◌, none, true,
  ◌∷◌, Bool-cases, str_eq_refl, any, arith, inl, All-imp, count_where-any, inr, str_eq_iff, [], ap,
  refl, suc, count_where_not_any,
}

-- How often a field is counted that a dict may hold, n times in the others.
abbrev pub held : {V : Type 0} → Option V → ℕ → ℕ
held none n = n
held (some v) n = 1

-- A list counts each of its members.
pub All-counted : (names : List String) → All (λ f. 0 < count_where (λ g. str_eq g f) names) names
All-counted [] = tt
All-counted (f ∷ names) = (
  rw (str_eq_refl f) (omega arith),
  All-imp (λ k. 0 < count_where (λ g. str_eq g k) names)
      (λ k. 0 < count_where (λ g. str_eq g k) (f ∷ names)) names (λ k h. ground arith)
      (All-counted names),
)

module _ (field : String) where
  abbrev pub times : List String → ℕ
  times = count_where (λ g. str_eq g field)

  times-add_field :
      (k : String) (names : List String)
      → k ≡ field
      → str_eq k field ≡ true
      → times names ≤ 1
      → times (add_name k names) ≡ (if str_eq k field then 1 else times names)
  times-add_field k names same_name hit once = elim (Bool-cases (any (λ g. str_eq g k) names)) [
    | inl old ↦
        rw (old, hit)
          (let some_row = count_where-any (λ g. str_eq g field) names (rw same_name at old) in
            omega arith)
    | inr new ↦
        rw (new, hit)
          (ap suc (count_where_not_any (λ g. str_eq g field) names (rw same_name at new)))
  ]

  times-add_name :
      (k : String) (names : List String)
      → times names ≤ 1
      → times (add_name k names) ≡ (if str_eq k field then 1 else times names)
  times-add_name k names once = elim (Bool-cases (str_eq k field)) [
    | inl hit ↦ times-add_field k names ((str_eq_iff k field).0 hit) hit once
    | inr miss ↦ elim (Bool-cases (any (λ g. str_eq g k) names)) [
      | inl old ↦ rw (old, miss) refl
      | inr new ↦ rw (new, miss) refl
    ]
  ]

  pub times-with_names :
      {U : Type 0} (d : List (String × U)) (names : List String)
      → times names ≤ 1
      → (times (with_names d names) ≤ 1)
        × (times (with_names d names) ≡ held (setting d field) (times names))
  times-with_names [] names once = (once, refl)
  times-with_names ((k, v) ∷ d) names once =
      let (bound, count) = times-with_names d names once in
      let step = times-add_name k (with_names d names) bound in
      elim (Bool-cases (str_eq k field)) [
        | inl hit ↦ rw (step, hit) (omega arith, refl)
        | inr miss ↦ rw (step, miss) (bound, count)
      ]
