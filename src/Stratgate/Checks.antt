-- ===== src/Stratgate/Checks.antt =====
-- What the checks of a verdict come to, and what `_bad` lets through.
use fund.Base.{
  pos, negsuc, none, some, true, false, [], ◌∷◌, inl, inr, refl, Bool, List, String, All, Option,
  ◌≡◌, Bool-cases, Option-cases, sym, ap, not-false,
}
use fund.Python.Values.{null, bool, int, float, text, other, Dict, get, Value}
use fund.Python.Actions.{ok, err, Result}
use fund.Python.Floats.{whole, Float, is_finite}
use fund.Stratgate.{
  Check, Verdict, first_bad, number, test, bad, judge, outcomes, verdict_of, first_failed,
}

abbrev pub passes : Result Verdict → Bool
passes (ok v) = v.passed
passes (err e) = false

-- The statistic is a number that is finite and within its limit.
abbrev pub Within : (Float → Bool) → Dict → String → Type 0
Within limit stats key =
    (x : Float) × (number (get stats key) ≡ some x) × (is_finite x ≡ true) × (limit x ≡ true)

same_number : (y x : Float) → some y ≡ some x → y ≡ x
same_number y x h = cc

finite_number : (y x : Float) → is_finite y ≡ true → some y ≡ some x → is_finite x ≡ true
finite_number y x f h = rw (sym (same_number y x h)) f

-- What `_bad` lets through, and what it must not.
finite_of : (v : Value) (x : Float) → bad v ≡ false → number v ≡ some x → is_finite x ≡ true
unfolding whole
finite_of (bool true) x b h = finite_number _ x refl h
finite_of (bool false) x b h = finite_number _ x refl h
finite_of (int (pos n)) x b h = finite_number _ x refl h
finite_of (int (negsuc n)) x b h = finite_number _ x refl h
finite_of (float y) x b h = finite_number y x (not-false (is_finite y) b) h
finite_of null x b h = cc
finite_of (text s) x b h = cc
finite_of other x b h = cc

fine_of : (v : Value) (x : Float) → number v ≡ some x → is_finite x ≡ true → bad v ≡ false
fine_of null x h f = cc
fine_of (float y) x h f = rw (same_number y x h, f) refl
fine_of (bool b) x h f = refl
fine_of (int n) x h f = refl
fine_of (text s) x h f = refl
fine_of other x h f = refl

pub some-true : (b : Bool) → some b ≡ some true → b ≡ true
some-true b h = cc

pub test-Within :
    (limit : Float → Bool) (stats : Dict) (key : String)
    → bad (get stats key) ≡ false
    → test limit (number (get stats key)) ≡ some true
    → Within limit stats key
test-Within limit stats key fine h = elim (Option-cases (number (get stats key))) [
  | inl e ↦ cc (rw e at h)
  | inr (x, e) ↦ (x, e, finite_of (get stats key) x fine e, some-true (limit x) (rw e at h))
]

pub Within-test :
    (limit : Float → Bool) (stats : Dict) (key : String)
    → Within limit stats key
    → test limit (number (get stats key)) ≡ some true
Within-test limit stats key (x, e, f, h) = rw (e, h) refl

pub Within-fine :
    (limit : Float → Bool) (stats : Dict) (key : String)
    → Within limit stats key
    → bad (get stats key) ≡ false
Within-fine limit stats key (x, e, f, h) = fine_of (get stats key) x e f

abbrev pub AllHold : List (String × Option Bool) → Type 0
AllHold = All (λ (e : String × Option Bool). e.1 ≡ some true)

judge-passed : (cs : List Check) → (o : Option String) → (judge cs o).passed ≡ true → o ≡ none
judge-passed cs none h = refl
judge-passed cs (some name) h = cc

outcomes_hold :
    (tests : List (String × Option Bool)) (cs : List Check)
    → outcomes tests ≡ some cs
    → first_failed cs ≡ none
    → AllHold tests
outcomes_hold [] cs h f = tt
outcomes_hold ((name, none) ∷ tests) cs h f = cc
outcomes_hold ((name, some b) ∷ tests) cs h f = elim (Option-cases (outcomes tests)) [
  | inl e ↦ cc (rw e at h)
  | inr (ds, e) ↦
      let same : record { name = name; is_ok = b } ∷ ds ≡ cs = some_list _ cs (rw e at h) in
      let g : first_failed (record { name = name; is_ok = b } ∷ ds) ≡ none = rw (sym same) at f in
      elim (Bool-cases b) [
        | inl yes_b ↦ (ap some yes_b, outcomes_hold tests ds e (rw yes_b at g))
        | inr no_b ↦ cc (rw no_b at g)
      ]
]
  where
    some_list : (a b : List Check) → some a ≡ some b → a ≡ b
    some_list a b h = cc

hold_outcomes :
    (tests : List (String × Option Bool))
    → AllHold tests
    → (cs : List Check) × (outcomes tests ≡ some cs) × (first_failed cs ≡ none)
hold_outcomes [] h = ([], refl, refl)
hold_outcomes ((name, o) ∷ tests) h =
    let (cs, e, f) = hold_outcomes tests (h.1) in
    (record { name = name; is_ok = true } ∷ cs, rw (h.0, e) refl, f)

pub verdict_passes :
    (tests : List (String × Option Bool))
    → passes (verdict_of (outcomes tests)) ≡ true
    → AllHold tests
verdict_passes tests h = elim (Option-cases (outcomes tests)) [
  | inl e ↦ cc (rw e at h)
  | inr (cs, e) ↦ outcomes_hold tests cs e (judge-passed cs (first_failed cs) (rw e at h))
]

pub hold_verdict :
    (tests : List (String × Option Bool))
    → AllHold tests
    → passes (verdict_of (outcomes tests)) ≡ true
hold_verdict tests h = let (cs, e, f) = hold_outcomes tests h in rw (e, f) refl

pub first_bad-none :
    (stats : Dict) (ks : List String)
    → first_bad stats ks ≡ none
    → All (λ k. bad (get stats k) ≡ false) ks
first_bad-none stats [] h = tt
first_bad-none stats (k ∷ ks) h = elim (Bool-cases (bad (get stats k))) [
  | inl poor ↦ cc (rw poor at h)
  | inr fine ↦ (fine, first_bad-none stats ks (rw fine at h))
]

pub none-first_bad :
    (stats : Dict) (ks : List String)
    → All (λ k. bad (get stats k) ≡ false) ks
    → first_bad stats ks ≡ none
none-first_bad stats [] h = refl
none-first_bad stats (k ∷ ks) h = rw (h.0) (none-first_bad stats ks (h.1))
