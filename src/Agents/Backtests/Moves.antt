-- ===== src/Agents/Backtests/Moves.antt =====
-- The move of a spec's lifecycle row to BACKTEST.

use fund.State.Transition.Literals.{=ₛ-sound}
use fund.Agents.Backtests.{is_backtestable}
use fund.State.Specs.{advance_to_backtest, advance_row}
use fund.Base.{
  some, true, false, [], ◌∷◌, inl, inr, refl, String, Bool, List, ◌≡◌, Option, find?, str_eq,
  update_where, Bool-cases, ℕ, ◌+◌, ◌&&◌, ◌==◌, ==_refl, if◌then◌else◌, ◌||◌, arith, subst, sym,
}
use fund.Python.Actions.{ok, err, Result, ◌>>◌, pure, ◌>>=◌, raise, stale_transition}
use fund.State.Rows.{spec, backtest, Strategy, Db, Time, Status}
use fund.State.Transition.{◌=ₛ◌, strategy, transition, try_transition}

abbrev pub row_of : String → List Strategy → Option Strategy
row_of id = find? (λ (st : Strategy). str_eq st.strategy_id id)

-- The lifecycle row of the spec is in BACKTEST.
abbrev pub InBacktest : String → Db → Type 0
InBacktest id db =
    (row : Strategy) × (find? (λ (st : Strategy). str_eq st.strategy_id id) db.strategies
      ≡ some row)
    × (row.state ≡ backtest)

some_row : (a b : Strategy) → some a ≡ some b → a ≡ b
some_row a b h = cc

find-update :
    (id : String) (hit : Strategy → Bool) (f : Strategy → Strategy) (rows : List Strategy)
    (row : Strategy)
    → row_of id rows ≡ some row
    → hit row ≡ true
    → ((r : Strategy) → (f r).strategy_id ≡ r.strategy_id)
    → row_of id (update_where hit f rows) ≡ some (f row)
find-update id hit f [] row h hits keeps = cc
find-update id hit f (r ∷ rows) row h hits keeps = elim (Bool-cases (str_eq r.strategy_id id)) [
  | inl own ↦
      let same : r ≡ row = some_row r row (rw own at h) in
      rw (same, hits, keeps row, rw same at own) refl
  | inr other ↦
      let rest = find-update id hit f rows row (rw other at h) hits keeps in
      elim (Bool-cases (hit r)) [
        | inl moved ↦ rw (moved, keeps r, other) rest
        | inr left ↦ rw (left, other) rest
      ]
]

found :
    (id : String) (rows : List Strategy) (row : Strategy)
    → row_of id rows ≡ some row
    → str_eq row.strategy_id id ≡ true
found id [] row h = cc
found id (r ∷ rows) row h = elim (Bool-cases (str_eq r.strategy_id id)) [
  | inl own ↦ rw (some_row r row (rw own at h)) at own
  | inr other ↦ found id rows row (rw other at h)
]

-- The rows of a spec in SPEC at a version, and what the move makes of them.
abbrev at_token : String → ℕ → Strategy → Bool
at_token id v r = str_eq r.strategy_id id && r.state =ₛ spec && r.state_version == v

abbrev advanced : Time → Strategy → Strategy
advanced now r = record r {
  state = backtest;
  state_version = r.state_version + 1;
  updated_at = now;
}

-- Raising after a call of try_transition changes nothing more.
then_store :
    (m : Result Bool × Db) (db : Db)
    → (((λ (s : Db). m)
          >>= (λ moved. if moved then pure tt else raise stale_transition)
          >> pure true)
        db).1
      ≡ m.1
then_store (ok true, d) db = refl
then_store (ok false, d) db = refl
then_store (err e, d) db = refl

move_lem :
    (id : String) (v : ℕ) (now : Time) (db : Db)
    → ((transition (strategy id) spec backtest now [] (some v) >> pure true) db).1
      ≡ record db { strategies = update_where (at_token id v) (advanced now) db.strategies }
unfolding transition try_transition
move_lem id v now db = then_store (try_transition (strategy id) spec backtest now [] (some v) db) db

still_spec : (s : Status) → is_backtestable s ≡ true → s =ₛ backtest ≡ false → s ≡ spec
still_spec s able before = =ₛ-sound s spec (spec_only (s =ₛ spec) (s =ₛ backtest) able before)
  where
    spec_only : (a b : Bool) → (a || b) ≡ true → b ≡ false → a ≡ true
    spec_only a b h k = ground arith

advance-InBacktest :
    (id : String) (now : Time) (db : Db) (row : Strategy) (b : Bool)
    → row_of id db.strategies ≡ some row
    → is_backtestable row.state ≡ true
    → (advance_row id row.state_version now (some row) db).0 ≡ ok b
    → InBacktest id (advance_row id row.state_version now (some row) db).1
      × ((advance_row id row.state_version now (some row) db).1.trials ≡ db.trials)
unfolding advance_row
advance-InBacktest id now db row b e able h = elim (Bool-cases (row.state =ₛ backtest)) [
  | inl there ↦ rw there ((row, e, =ₛ-sound row.state backtest there), refl)
  | inr before ↦
      let in_spec : row.state ≡ spec = still_spec row.state able before in
      let own = found id db.strategies row e in
      let token : at_token id row.state_version row ≡ true =
        rw (own, in_spec, ==_refl row.state_version) refl in
      rw (before, in_spec, move_lem id row.state_version now db)
        (
          (
            advanced now row,
            find-update id (at_token id row.state_version) (advanced now) db.strategies row e token
                (λ r. refl),
            refl,
          ),
          refl,
        )
]

-- The same of the whole operation, on a store in which the row is found.
pub advance_to-InBacktest :
    (id : String) (now : Time) (db : Db) (row : Strategy) (b : Bool)
    → row_of id db.strategies ≡ some row
    → is_backtestable row.state ≡ true
    → (advance_to_backtest id row.state_version now db).0 ≡ ok b
    → InBacktest id (advance_to_backtest id row.state_version now db).1
      × ((advance_to_backtest id row.state_version now db).1.trials ≡ db.trials)
unfolding advance_to_backtest
advance_to-InBacktest id now db row b e able h =
    subst
      (λ (o : Option Strategy).
        InBacktest id (advance_row id row.state_version now o db).1
        × ((advance_row id row.state_version now o db).1.trials ≡ db.trials))
      (sym e)
      (advance-InBacktest id now db row b e able
        (subst (λ (o : Option Strategy). (advance_row id row.state_version now o db).0 ≡ ok b) e h))
