-- ===== src/Python/Actions.antt =====
-- Code that changes a state and may raise. What was written before a raise stays written, so the
-- state comes back beside the exception too.
use fund.Base.{◌≡◌, ap}

pub data Error : Type 0 where
  illegal_transition stale_transition value_error type_error key_error overflow_error : Error
  integrity_error operational_error disallowed_work permanent_post_error external_error : Error
  orphaned_specs lookup_error backtest_error holdout_wiring_error pnl_unavailable : Error

pub data Result (A : Type 0) : Type 0 where
  ok : A → Result A
  err : Error → Result A

abbrev pub Action : Type 0 → Type 0 → Type 0
Action S A = S → Result A × S

module _ {S A : Type 0} where
  abbrev pub pure : A → Action S A
  pure a s = (ok a, s)

  abbrev pub raise : Error → Action S A
  raise e s = (err e, s)

  abbrev pub lift : Result A → Action S A
  lift r s = (r, s)

  abbrev pub gets : (S → A) → Action S A
  gets f s = (ok (f s), s)

abbrev pub modify : {S : Type 0} → (S → S) → Action S (Unit {0})
modify f s = (ok tt, f s)

infixl 5 ◌>>=◌ ◌>>◌
abbrev pub ◌>>=◌ : {S A B : Type 0} → Action S A → (A → Action S B) → Action S B
◌>>=◌ m f s = let (r, s') = m s in elim r [ ok a ↦ f a s' | err e ↦ (err e, s') ]

abbrev pub ◌>>◌ : {S A B : Type 0} → Action S A → Action S B → Action S B
m >> k = m >>= λ _. k

-- try: m  except Exception as e: handler e
abbrev pub catch : {S A : Type 0} → Action S A → (Error → Action S A) → Action S A
catch m handler s = let (r, s') = m s in elim r [ ok a ↦ (ok a, s') | err e ↦ handler e s' ]

-- A bind after a call whose end is known.
module _ {S A B : Type 0} (m : Action S A) (k : A → Action S B) (s : S) where
  abbrev goes_on : Result A × S → Result B × S
  goes_on (ok a, s') = k a s'
  goes_on (err e, s') = (err e, s')

  bind_by_end : (r : Result A × S) → m s ≡ r → (m >>= k) s ≡ goes_on r
  bind_by_end (ok a, s') h =
      ap (λ (p : Result A × S). elim p.0 [ ok b ↦ k b p.1 | err e ↦ (err e, p.1) ]) h
  bind_by_end (err e, s') h =
      ap (λ (p : Result A × S). elim p.0 [ ok b ↦ k b p.1 | err e ↦ (err e, p.1) ]) h

  pub >>=_ok : {a : A} {s' : S} → m s ≡ (ok a, s') → (m >>= k) s ≡ k a s'
  >>=_ok {a} {s'} h = bind_by_end (ok a, s') h

  pub >>=_err : {e : Error} {s' : S} → m s ≡ (err e, s') → (m >>= k) s ≡ (err e, s')
  >>=_err {e} {s'} h = bind_by_end (err e, s') h
