-- ===== src/State/Specs/Register.antt =====
-- Registering a specification: once is enough, and its lifecycle row is written with it.
use fund.Python.Actions.{ok}
use fund.State.Rows.{Db, Time, Spec, Strategy}
use fund.State.Specs.{
  Registration, insert_strategy_spec, refuse_orphaned_specs, StrategySpec, orphans, has_spec,
  has_lifecycle, spec_row, open_lifecycle,
}
use fund.Base.{
  true, false, inl, inr, refl, String, All, All-append, List, ◌≡◌, Bool-cases, ◌⊎◌, any-append_last,
  is_empty, ◌++◌, ◌∷◌, [], any-append_left, select, str_eq_refl, All-imp, not,
}

lifecycle-opened :
    (id : String) (now : Time) (rows : List Strategy)
    → has_lifecycle id (open_lifecycle id now rows) ≡ true
lifecycle-opened id now rows = elim (Bool-cases (has_lifecycle id rows)) [
  | inl there ↦ rw there there
  | inr fresh ↦ rw fresh (any-append_last _ rows _ (str_eq_refl id))
]

lifecycle-kept :
    (k id : String) (now : Time) (rows : List Strategy)
    → has_lifecycle k rows ≡ true
    → has_lifecycle k (open_lifecycle id now rows) ≡ true
lifecycle-kept k id now rows h = elim (Bool-cases (has_lifecycle id rows)) [
  | inl there ↦ rw there h
  | inr fresh ↦ rw fresh (any-append_left _ rows _ h)
]

-- Every registered specification has its lifecycle row.
abbrev pub Complete : Db → Type 0
Complete db = All (λ (s : Spec). has_lifecycle s.spec_id db.strategies ≡ true) db.specs

-- How a registration ends: with nothing changed, or with the specification in the table.
pub insert-cases :
    (r : Registration) (f : StrategySpec) (now : Time) (db : Db)
    → (insert_strategy_spec r f now db ≡ (r.compute_spec_id f, db))
      ⊎ ((insert_strategy_spec r f now db ≡ (
        r.compute_spec_id f,
        record db {
          specs = db.specs ++ spec_row (r.compute_spec_id f) f now ∷ [];
          strategies = open_lifecycle (r.compute_spec_id f) now db.strategies;
        },
      ))
          × (has_spec (r.compute_spec_id f) db.specs ≡ false))
unfolding insert_strategy_spec
insert-cases r f now db = elim (Bool-cases (has_spec (r.compute_spec_id f) db.specs)) [
  | inl there ↦ inl (rw there refl)
  | inr fresh ↦ elim (Bool-cases (r.satisfies_checks f)) [
    | inl fits ↦ inr (rw (fresh, fits) refl, fresh)
    | inr unfit ↦ inl (rw (fresh, unfit) refl)
  ]
]

pub insert-Complete :
    (r : Registration) (f : StrategySpec) (now : Time) (db : Db)
    → Complete db
    → Complete (insert_strategy_spec r f now db).1
insert-Complete r f now db h = elim (insert-cases r f now db) [
  | inl e ↦ rw e h
  | inr (e, fresh) ↦
      let id = r.compute_spec_id f in
      rw e (
        All-append _ db.specs (spec_row id f now ∷ [])
          (All-imp _ _ db.specs
            (λ (s : Spec) there. lifecycle-kept s.spec_id id now db.strategies there) h)
          (lifecycle-opened id now db.strategies, tt))
]

insert-again :
    (r : Registration) (f : StrategySpec) (now : Time) (db : Db)
    → has_spec (r.compute_spec_id f) db.specs ≡ true
    → insert_strategy_spec r f now db ≡ (r.compute_spec_id f, db)
unfolding insert_strategy_spec
insert-again r f now db there = rw there refl

insert-unfit :
    (r : Registration) (f : StrategySpec) (now : Time) (db : Db)
    → r.satisfies_checks f ≡ false
    → insert_strategy_spec r f now db ≡ (r.compute_spec_id f, db)
unfolding insert_strategy_spec
insert-unfit r f now db unfit = elim (Bool-cases (has_spec (r.compute_spec_id f) db.specs)) [
  | inl there ↦ rw there refl
  | inr fresh ↦ rw (fresh, unfit) refl
]

insert-present :
    (r : Registration) (f : StrategySpec) (now : Time) (db : Db)
    → r.satisfies_checks f ≡ true
    → has_spec (r.compute_spec_id f) (insert_strategy_spec r f now db).1.specs ≡ true
unfolding insert_strategy_spec
insert-present r f now db fits = elim (Bool-cases (has_spec (r.compute_spec_id f) db.specs)) [
  | inl there ↦ rw there there
  | inr fresh ↦ rw (fresh, fits) (any-append_last _ db.specs _ (str_eq_refl (r.compute_spec_id f)))
]

-- Registering the same fields again, at any later time, gives the same id and changes nothing: no
-- second row, and the lifecycle row and its version stay as they were.
pub insert_strategy_spec_twice :
    (r : Registration) (f : StrategySpec) (now later : Time) (db : Db)
    → let first = insert_strategy_spec r f now db in
      insert_strategy_spec r f later first.1 ≡ (r.compute_spec_id f, first.1)
insert_strategy_spec_twice r f now later db = elim (Bool-cases (r.satisfies_checks f)) [
  | inl fits ↦
      insert-again r f later (insert_strategy_spec r f now db).1 (insert-present r f now db fits)
  | inr unfit ↦ insert-unfit r f later (insert_strategy_spec r f now db).1 unfit
]

-- With every lifecycle row in place the queue can be read.
pub refuse_orphaned_specs-Complete : (db : Db) → Complete db → refuse_orphaned_specs db ≡ ok tt
unfolding refuse_orphaned_specs orphans
refuse_orphaned_specs-Complete db h = rw (none_missing db.specs h) refl
  where
    none_missing :
        (ss : List Spec)
        → All (λ (s : Spec). has_lifecycle s.spec_id db.strategies ≡ true) ss
        → is_empty (select (λ (s : Spec). not (has_lifecycle s.spec_id db.strategies)) ss) ≡ true
    none_missing [] h = refl
    none_missing (s ∷ ss) h = rw (h.0) (none_missing ss h.1)
