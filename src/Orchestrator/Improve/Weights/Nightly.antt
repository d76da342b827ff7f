-- ===== src/Orchestrator/Improve/Weights/Nightly.antt =====
-- The nightly job twice in one night: the second run writes nothing.
use fund.Python.Actions.{ok}
use fund.Orchestrator.Improve.Weights.{
  has_hash, upsert, latest, same_key, later, upsert_all, in_unit,
}
use fund.State.Rows.{Weight}
use fund.Base.{
  String, List, Option, str_le, ◌≡◌, All, some, str_eq, true, false, none, ◌∷◌, Bool-cases, [], inl,
  inr, ap, if◌then◌else◌, refl, Bool, str_eq_iff, str_eq_refl, subst, ◌⊎◌, and_right, sym, ◌∙◌,
  str_le_refl, any,
}

-- A row that is not of a later night.
abbrev pub NotLater : String → Weight → Type 0
NotLater as_of w =
    (str_le w.as_of_date as_of ≡ true) × (str_le as_of w.as_of_date ≡ true → w.as_of_date ≡ as_of)

-- Whether a seat's newest row carries the hash.
abbrev pub Hashed : (String → String) → List Weight → String → Type 0
Hashed digest ws seat = has_hash (latest seat ws) (digest seat) ≡ true

abbrev pub IsOf : (String → String) → String → Weight → Type 0
IsOf digest as_of row = (row.as_of_date ≡ as_of) × (row.inputs_hash ≡ digest row.agent)

true_and_false : (b : Bool) → b ≡ true → b ≡ false → ⊥
true_and_false b h k = cc

module _ (digest : String → String) (as_of : String) (row : Weight)
    (of_tonight : IsOf digest as_of row) where
  latest-upsert_ne :
      (seat : String) (ws : List Weight)
      → str_eq row.agent seat ≡ false
      → latest seat (upsert row ws) ≡ latest seat ws
  unfolding upsert
  latest-upsert_ne seat [] ne = rw ne refl
  latest-upsert_ne seat (w ∷ ws) ne = elim (Bool-cases (same_key row w)) [
    | inl hit ↦
        let same : w.agent ≡ row.agent =
          (str_eq_iff w.agent row.agent).0
            (and_right (str_eq w.as_of_date row.as_of_date) (str_eq w.agent row.agent) hit) in
        let miss : str_eq w.agent seat ≡ false = subst (λ x. str_eq x seat ≡ false) (sym same) ne in
        rw (hit, ne, miss) refl
    | inr miss ↦ rw miss (
        ap (λ rest. if str_eq w.agent seat then later w rest else rest)
          (latest-upsert_ne seat ws ne))
  ]

  -- The newest row of a seat after its row of tonight is written.
  abbrev IsTonight : Option Weight → Type 0
  IsTonight none = ⊥
  IsTonight (some w) = (w.as_of_date ≡ as_of) × (w.inputs_hash ≡ digest row.agent)

  abbrev AllOf : Option Weight → Type 0
  AllOf none = Unit
  AllOf (some w) = NotLater as_of w

  latest-NotLater :
      (seat : String) (ws : List Weight) → All (NotLater as_of) ws → AllOf (latest seat ws)
  latest-NotLater seat [] h = tt
  latest-NotLater seat (w ∷ ws) h = elim (Bool-cases (str_eq w.agent seat)) [
    | inr other_seat ↦ rw other_seat (latest-NotLater seat ws h.1)
    | inl hit ↦ rw hit (of_later (latest seat ws) (latest-NotLater seat ws h.1))
  ]
    where
      of_later : (o : Option Weight) → AllOf o → AllOf (later w o)
      of_later none g = h.0
      of_later (some v) g = elim (Bool-cases (str_le v.as_of_date w.as_of_date)) [
        | inl newer ↦ rw newer (h.0)
        | inr older ↦ rw older g
      ]

  -- The row of tonight is at least as new as any that is not of a later night.
  later_row : (o : Option Weight) → AllOf o → IsTonight (later row o)
  later_row none h = of_tonight
  later_row (some v) h =
      let newer : str_le v.as_of_date row.as_of_date ≡ true =
        subst (λ x. str_le v.as_of_date x ≡ true) (sym of_tonight.0) h.0 in
      rw newer of_tonight

  -- A row of another key leaves it the newest.
  later_other :
      (w : Weight) (o : Option Weight)
      → NotLater as_of w
      → same_key row w ≡ false
      → str_eq w.agent row.agent ≡ true
      → IsTonight o
      → IsTonight (later w o)
  later_other w none h miss agent g = elim g [ ]
  later_other w (some r) h miss agent g = elim (Bool-cases (str_le r.as_of_date w.as_of_date)) [
    | inr older ↦ rw older g
    | inl newer ↦
        let as_new : w.as_of_date ≡ as_of =
          h.1 (subst (λ x. str_le x w.as_of_date ≡ true) g.0 newer) in
        let same : str_eq w.as_of_date row.as_of_date ≡ true =
          (str_eq_iff w.as_of_date row.as_of_date).1 (as_new ∙ sym of_tonight.0) in
        absurd (true_and_false (same_key row w) (rw (same, agent) refl) miss)
  ]

  latest-upsert_self :
      (ws : List Weight) → All (NotLater as_of) ws → IsTonight (latest row.agent (upsert row ws))
  unfolding upsert
  latest-upsert_self [] h = rw (str_eq_refl row.agent) of_tonight
  latest-upsert_self (w ∷ ws) h = elim (Bool-cases (same_key row w)) [
    | inl hit ↦
        rw (hit, str_eq_refl row.agent)
          (later_row (latest row.agent ws) (latest-NotLater row.agent ws h.1))
    | inr miss ↦ elim (Bool-cases (str_eq w.agent row.agent)) [
      | inl agent ↦
          rw (miss, agent)
            (later_other w (latest row.agent (upsert row ws)) h.0 miss agent
              (latest-upsert_self ws h.1))
      | inr other_seat ↦ rw (miss, other_seat) (latest-upsert_self ws h.1)
    ]
  ]

  row_NotLater : NotLater as_of row
  row_NotLater =
      (subst (λ x. str_le x as_of ≡ true) (sym of_tonight.0) (str_le_refl as_of), λ _. of_tonight.0)

  upsert-NotLater :
      (ws : List Weight) → All (NotLater as_of) ws → All (NotLater as_of) (upsert row ws)
  unfolding upsert
  upsert-NotLater [] h = (row_NotLater, tt)
  upsert-NotLater (w ∷ ws) h = elim (Bool-cases (same_key row w)) [
    | inl hit ↦ rw (hit, All) (row_NotLater, h.1)
    | inr miss ↦ rw (miss, All) (h.0, upsert-NotLater ws h.1)
  ]

  tonight_hashed : (o : Option Weight) → IsTonight o → has_hash o (digest row.agent) ≡ true
  tonight_hashed none g = elim g [ ]
  tonight_hashed (some r) g = (str_eq_iff r.inputs_hash (digest row.agent)).1 g.1

  -- A seat whose newest row carries its hash keeps such a row.
  upsert-Hashed :
      (seat : String) (ws : List Weight)
      → All (NotLater as_of) ws
      → (str_eq row.agent seat ≡ true) ⊎ Hashed digest ws seat
      → Hashed digest (upsert row ws) seat
  upsert-Hashed seat ws h known = elim (Bool-cases (str_eq row.agent seat)) [
    | inl hit ↦
        subst (Hashed digest (upsert row ws)) ((str_eq_iff row.agent seat).0 hit)
          (tonight_hashed (latest row.agent (upsert row ws)) (latest-upsert_self ws h))
    | inr miss ↦ rw (latest-upsert_ne seat ws miss) (before miss known)
  ]
    where
      before :
          str_eq row.agent seat ≡ false
          → (str_eq row.agent seat ≡ true) ⊎ Hashed digest ws seat
          → Hashed digest ws seat
      before miss (inl hit) = absurd (true_and_false (str_eq row.agent seat) hit miss)
      before miss (inr hashed) = hashed

-- Writing the rows of tonight: each seat that has one carries its hash, and no seat loses it.
pub upsert_all-Hashed :
    (digest : String → String) (as_of seat : String) (rows ws ws' : List Weight)
    → All (IsOf digest as_of) rows
    → All (NotLater as_of) ws
    → upsert_all rows ws ≡ ok ws'
    → (any (λ (w : Weight). str_eq w.agent seat) rows ≡ true) ⊎ Hashed digest ws seat
    → Hashed digest ws' seat
unfolding upsert_all
upsert_all-Hashed digest as_of seat [] ws ws' of_rows h done_as (inl there) = cc
upsert_all-Hashed digest as_of seat [] ws ws' of_rows h done_as (inr hashed) =
    let same : ws ≡ ws' = cc in subst (λ l. Hashed digest l seat) same hashed
upsert_all-Hashed digest as_of seat (row ∷ rows) ws ws' of_rows h done_as known =
    elim (Bool-cases (in_unit row.weight)) [
      | inr out ↦ cc (rw out at done_as)
      | inl within ↦
          upsert_all-Hashed digest as_of seat rows (upsert row ws) ws' of_rows.1
            (upsert-NotLater digest as_of row of_rows.0 ws h) (rw within at done_as) (next known)
    ]
  where
    next :
        (any (λ (w : Weight). str_eq w.agent seat) (row ∷ rows) ≡ true) ⊎ Hashed digest ws seat
        → (any (λ (w : Weight). str_eq w.agent seat) rows ≡ true)
          ⊎ Hashed digest (upsert row ws) seat
    next (inr hashed) = inr (upsert-Hashed digest as_of row of_rows.0 seat ws h (inr hashed))
    next (inl there) = elim (Bool-cases (str_eq row.agent seat)) [
      | inl hit ↦ inr (upsert-Hashed digest as_of row of_rows.0 seat ws h (inl hit))
      | inr miss ↦ inl (rw miss at there)
    ]
