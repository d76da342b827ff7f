-- ===== src/Orchestrator/Reflect/Once.antt =====
-- A reflection is written at most once, by the seat and on the decision that the turn is for.
use fund.Agents.Submit.{Reply, refused, accepted}
use fund.Agents.Seats.{can}
use fund.Python.Actions.{Result, err, ok}
use fund.Python.Values.{Value, text, Dict, get, bool, int, float, null, other}
use fund.Orchestrator.Reflect.{
  is_open, outcome_of, Wording, reflection_frame, store_reflection, write_reflection, words,
  replied, handle_submit_reflection, with_prose,
}
use fund.State.Rows.{Resolution, Db}
use fund.Base.{
  List, String, ℕ, Bool, Option, any, count_where, map, none, update_where, ◌≢◌, ◌==◌, ◌≡◌, ◌≤◌,
  false, some, true, ◌∷◌, Bool-cases, [], not, inl, refl, ap, inr, arith, ◌<◌, count_where-any,
  count_where_le, and_left, if◌then◌else◌, ◌&&◌, count_where_not_any, subst, Option-cases, sym,
  ==_refl,
}

abbrev pub is_of : ℕ → Resolution → Bool
is_of id r = r.decision_id == id

-- UNIQUE (decision_id)
abbrev pub IsUnique : List Resolution → Type 0
IsUnique rs = (id : ℕ) → count_where (is_of id) rs ≤ 1

-- What a reader sees: no outcome, an outcome without words, or the words.
abbrev pub reading : List Resolution → ℕ → Option (Option String)
reading rs id = elim (outcome_of id rs) [ none ↦ none | some r ↦ some r.reflection ]

abbrev pub bare : Resolution → Resolution
bare r = record r { reflection = none }

abbrev pub is_prose : (String → Bool) → Value → Bool
is_prose is_blank (text s) = not (is_blank s)
is_prose is_blank v = false

module _ (id : ℕ) (words : String) where
  abbrev rewrite : List Resolution → List Resolution
  rewrite = update_where (is_open id) (λ r. record r { reflection = some words })

  rewrite_closed : (rs : List Resolution) → any (is_open id) rs ≡ false → rewrite rs ≡ rs
  rewrite_closed [] h = refl
  rewrite_closed (r ∷ rs) h = elim (Bool-cases (is_open id r)) [
    | inl is_first ↦ cc (rw is_first at h)
    | inr closed ↦ rw closed (ap (λ l. r ∷ l) (rewrite_closed rs (rw closed at h)))
  ]

  rewrite-bare : (rs : List Resolution) → map bare (rewrite rs) ≡ map bare rs
  rewrite-bare [] = refl
  rewrite-bare (r ∷ rs) = elim (Bool-cases (is_open id r)) [
    | inl is_first ↦ rw is_first (ap (λ l. bare r ∷ l) (rewrite-bare rs))
    | inr closed ↦ rw closed (ap (λ l. bare r ∷ l) (rewrite-bare rs))
  ]

  open_counted : (rs : List Resolution) → any (is_open id) rs ≡ true → 0 < count_where (is_of id) rs
  open_counted [] h = cc
  open_counted (r ∷ rs) h = ground (arith, open_counted rs)

  reading-rewrite_ne :
      (rs : List Resolution) (j : ℕ) → j ≢ id → reading (rewrite rs) j ≡ reading rs j
  reading-rewrite_ne [] j ne = refl
  reading-rewrite_ne (r ∷ rs) j ne = ground (arith, reading-rewrite_ne rs j ne)

  reading-rewrite_self :
      (rs : List Resolution)
      → count_where (is_of id) rs ≤ 1
      → any (is_open id) rs ≡ true
      → reading (rewrite rs) id ≡ some (some words)
  reading-rewrite_self [] one h = cc
  reading-rewrite_self (r ∷ rs) one h = elim (Bool-cases (is_open id r)) [
    | inl is_first ↦ ground arith
    | inr closed ↦ ground (arith, open_counted rs, reading-rewrite_self rs)
  ]

reading-rewrite :
    (id : ℕ) (words_of : String) (rs : List Resolution)
    → count_where (is_of id) rs ≤ 1
    → any (is_open id) rs ≡ true
    → (j : ℕ)
    → reading (rewrite id words_of rs) j ≡ (if j == id then some (some words_of) else reading rs j)
reading-rewrite id words_of rs one h j = elim (Bool-cases (j == id)) [
  | inl same ↦
      let e : j ≡ id = ground arith in
      subst
        (λ (k : ℕ).
          reading (rewrite id words_of rs) k
          ≡ (if k == id then some (some words_of) else reading rs k))
        (sym e) (rw (==_refl id) (reading-rewrite_self id words_of rs one h))
  | inr differs ↦ rw differs (reading-rewrite_ne id words_of rs j (ground arith))
]

-- An open row of a decision is its only row.
one_open :
    (id : ℕ) (rs : List Resolution)
    → count_where (is_of id) rs ≤ 1
    → any (is_open id) rs ≡ true
    → count_where (is_open id) rs ≡ 1
one_open id rs one h =
    let some_row = count_where-any (is_open id) rs h in
    let no_more =
      count_where_le (is_open id) (is_of id) rs
        (λ r p. and_left (is_of id r) (elim r.reflection [ none ↦ true | some t ↦ false ]) p) in
    omega arith

abbrev is_there : Option String → Bool
is_there none = false
is_there (some f) = true

module _ (wording : Wording) where
  -- Whether a call is granted: the seat may, the turn is bound, there are words and facts, and no
  -- reflection yet.
  abbrev pub granted : (seat : String) → Dict → (expected : Option ℕ) → Db → Bool
  granted seat args none db = false
  granted seat args (some id) db =
      can seat "submit_reflection"
      && is_prose wording.is_blank (get args "prose")
      && is_there (reflection_frame wording db id)
      && any (is_open id) db.resolutions

  -- What was written: the words of this turn on the decision of this turn, and nothing else.
  abbrev pub Written : ℕ → Value → Db → Db → Type 0
  Written id given db db' =
      (frame prose : String) × (reflection_frame wording db id ≡ some frame)
      × (given ≡ text prose)
      × (db' ≡ record db { resolutions = db'.resolutions })
      × (map bare db'.resolutions ≡ map bare db.resolutions)
      × ((j : ℕ)
          → reading db'.resolutions j ≡ (
              if j == id
              then some (some (words wording frame prose))
              else reading db.resolutions j))

  abbrev pub Once : (seat : String) → Dict → (expected : Option ℕ) → Db → Result Reply × Db → Type 0
  Once seat args expected db (err e, db') = ⊥
  Once seat args expected db (ok (refused why), db') =
      (db' ≡ db) × (granted seat args expected db ≡ false)
  Once seat args expected db (ok accepted, db') =
      (granted seat args expected db ≡ true)
      × (id : ℕ) × (expected ≡ some id)
      × Written id (get args "prose") db db'

  module _ (seat : String) (args : Dict) (id : ℕ) (db : Db) (unique : IsUnique db.resolutions) where
    stored :
        (frame prose : String)
        → can seat "submit_reflection" ≡ true
        → get args "prose" ≡ text prose
        → wording.is_blank prose ≡ false
        → reflection_frame wording db id ≡ some frame
        → Once seat args (some id) db (replied wording (store_reflection wording id frame prose db))
    unfolding store_reflection write_reflection
    stored frame prose may given filled framed =
        elim (Bool-cases (any (is_open id) db.resolutions)) [
          | inr closed ↦ rw (count_where_not_any (is_open id) db.resolutions closed) (
            ap (λ rs. record db { resolutions = rs })
                (rewrite_closed id (words wording frame prose) db.resolutions closed),
            rw (may, given, filled, framed, closed) refl,
          )
          | inl unwritten ↦ rw (one_open id db.resolutions (unique id) unwritten) (
            rw (may, given, filled, framed, unwritten) refl,
            id,
            refl,
            (
              frame,
              prose,
              framed,
              given,
              refl,
              rewrite-bare id (words wording frame prose) db.resolutions,
              reading-rewrite id (words wording frame prose) db.resolutions (unique id) unwritten,
            ),
          )
        ]

    -- A call whose words are a text.
    answered :
        (prose : String)
        → can seat "submit_reflection" ≡ true
        → get args "prose" ≡ text prose
        → Once seat args (some id) db (with_prose wording id (text prose) db)
    answered prose may given = elim (Bool-cases (wording.is_blank prose)) [
      | inl blank ↦ rw blank (refl, rw (may, given, blank) refl)
      | inr filled ↦ rw filled (elim (Option-cases (reflection_frame wording db id)) [
        | inl unresolved ↦ rw unresolved (refl, rw (may, given, filled, unresolved) refl)
        | inr (frame, framed) ↦ rw framed (stored frame prose may given filled framed)
      ])
    ]

    by_value :
        (v : Value)
        → can seat "submit_reflection" ≡ true
        → get args "prose" ≡ v
        → Once seat args (some id) db (with_prose wording id v db)
    by_value (text prose) may given = answered prose may given
    by_value null may given = (refl, rw (may, given) refl)
    by_value (bool b) may given = (refl, rw (may, given) refl)
    by_value (int n) may given = (refl, rw (may, given) refl)
    by_value (float x) may given = (refl, rw (may, given) refl)
    by_value other may given = (refl, rw (may, given) refl)

  -- In a store where each decision has at most one outcome: any call of submit_reflection, by any seat,
  -- with any arguments, in a turn bound to any decision or to none, is accepted exactly if it is
  -- granted. Then the decision of the turn reads back as the frame of its facts beside the words of the
  -- call, every other decision reads as before, and nothing else changes; else nothing changes at all.
  pub handle_submit_reflection-Once :
      (seat : String) (args : Dict) (expected : Option ℕ) (db : Db)
      → IsUnique db.resolutions
      → Once seat args expected db (handle_submit_reflection wording seat args expected db)
  unfolding handle_submit_reflection
  handle_submit_reflection-Once seat args none db unique =
      elim (Bool-cases (can seat "submit_reflection")) [
        | inl may ↦ rw may (refl, refl)
        | inr may_not ↦ rw may_not (refl, refl)
      ]
  handle_submit_reflection-Once seat args (some id) db unique =
      elim (Bool-cases (can seat "submit_reflection")) [
        | inl may ↦ rw may (by_value seat args id db unique (get args "prose") may refl)
        | inr may_not ↦ rw may_not (refl, rw may_not refl)
      ]
