-- ===== src/Base/Lists.antt =====
-- Lists: lengths over the native numbers, selection by a Boolean test, and predicates by recursion.
use Prim.Native.Nat.{ℕ, zero, suc, ◌+◌, ◌≤◌, ◌<◌}
use mathlib.Core.Path.{◌≡◌, refl, ap, ◌∙◌, sym}
use mathlib.Core.Logic.{inl, inr}
use mathlib.Core.Bool.{Bool, true, false, ◌&&◌, ◌||◌}
use mathlib.Core.List.{List, [], ◌∷◌, ◌++◌, append-nil, append_assoc}
use mathlib.Core.Option.{Option, none, some}
use native.Mathlib.Omega.{arith}
use fund.Base.Tests.{Bool-cases, if◌then◌else◌}

module _ {ℓ} {A : Type ℓ} where
  abbrev pub length : List A → ℕ
  length [] = 0
  length (x ∷ xs) = suc (length xs)

  pub length-append : (xs ys : List A) → length (xs ++ ys) ≡ length xs + length ys
  length-append [] ys = omega arith
  length-append (x ∷ xs) ys = omega (arith, length-append xs ys)

  -- The rows of a SELECT: those that pass the test, in order.
  abbrev pub select : (A → Bool) → List A → List A
  select p [] = []
  select p (x ∷ xs) = let rest = select p xs in if p x then x ∷ rest else rest

  -- The first row of a SELECT.
  abbrev pub find? : (A → Bool) → List A → Option A
  find? p [] = none
  find? p (x ∷ xs) = let rest = find? p xs in if p x then some x else rest

  abbrev pub any : (A → Bool) → List A → Bool
  any p [] = false
  any p (x ∷ xs) = p x || any p xs

  abbrev pub all : (A → Bool) → List A → Bool
  all p [] = true
  all p (x ∷ xs) = p x && all p xs

  abbrev pub All {κ} : (A → Type κ) → List A → Type κ
  All P [] = Unit
  All P (x ∷ xs) = P x × All P xs

  pub All-append {κ} : (P : A → Type κ) (xs ys : List A) → All P xs → All P ys → All P (xs ++ ys)
  All-append P [] ys hx hy = hy
  All-append P (x ∷ xs) ys hx hy = (hx.0, All-append P xs ys hx.1 hy)

  -- UPDATE … WHERE: the rows after it, and its rowcount.
  abbrev pub update_where : (A → Bool) → (A → A) → List A → List A
  update_where p f [] = []
  update_where p f (x ∷ xs) = (if p x then f x else x) ∷ update_where p f xs

  abbrev pub count_where : (A → Bool) → List A → ℕ
  count_where p [] = 0
  count_where p (x ∷ xs) = let rest = count_where p xs in if p x then suc rest else rest

  pub count_where-append :
      (p : A → Bool) (xs : List A) (x : A)
      → count_where p (xs ++ x ∷ []) ≡ count_where p xs + (if p x then 1 else 0)
  count_where-append p [] x = ground arith
  count_where-append p (y ∷ xs) x = ground (arith, count_where-append p xs x)

  pub count_where_le :
      (p q : A → Bool) (xs : List A)
      → ((x : A) → p x ≡ true → q x ≡ true)
      → count_where p xs ≤ count_where q xs
  count_where_le p q [] imp = omega arith
  count_where_le p q (x ∷ xs) imp = elim (Bool-cases (p x)) [
    | inl hit ↦ rw (hit, imp x hit) (omega (arith, count_where_le p q xs imp))
    | inr miss ↦ rw miss (ground (arith, count_where_le p q xs imp))
  ]

  -- ORDER BY: `before x y` is whether x may stand before y; rows that tie keep their order.
  unfoldable pub insert_by : (A → A → Bool) → A → List A → List A
  insert_by before x [] = x ∷ []
  insert_by before x (y ∷ ys) =
      let rest = insert_by before x ys in if before x y then x ∷ y ∷ ys else y ∷ rest

  unfoldable pub order_by : (A → A → Bool) → List A → List A
  unfolding insert_by
  order_by before [] = []
  order_by before (x ∷ xs) = insert_by before x (order_by before xs)

  pub All-imp {κ μ} :
      (P : A → Type κ) (Q : A → Type μ) (xs : List A) → ((x : A) → P x → Q x) → All P xs → All Q xs
  All-imp P Q [] f h = tt
  All-imp P Q (x ∷ xs) f h = (f x h.0, All-imp P Q xs f h.1)

  abbrev pub take : ℕ → List A → List A
  take zero xs = []
  take (suc n) [] = []
  take (suc n) (x ∷ xs) = x ∷ take n xs

  pub All-take {κ} : (P : A → Type κ) (n : ℕ) (xs : List A) → All P xs → All P (take n xs)
  All-take P zero xs h = tt
  All-take P (suc n) [] h = tt
  All-take P (suc n) (x ∷ xs) h = (h.0, All-take P n xs h.1)

  pub All-insert_by {κ} :
      (P : A → Type κ) (before : A → A → Bool) (x : A) (xs : List A)
      → P x
      → All P xs
      → All P (insert_by before x xs)
  unfolding insert_by
  All-insert_by P before x [] hx h = (hx, tt)
  All-insert_by P before x (y ∷ ys) hx h = elim (Bool-cases (before x y)) [
    | inl first ↦ rw first (hx, h)
    | inr later ↦ rw later (h.0, All-insert_by P before x ys hx h.1)
  ]

  pub All-order_by {κ} :
      (P : A → Type κ) (before : A → A → Bool) (xs : List A) → All P xs → All P (order_by before xs)
  unfolding order_by
  All-order_by P before [] h = tt
  All-order_by P before (x ∷ xs) h =
      All-insert_by P before x (order_by before xs) h.0 (All-order_by P before xs h.1)

  pub All-select : (p : A → Bool) (xs : List A) → All (λ x. p x ≡ true) (select p xs)
  All-select p [] = tt
  All-select p (x ∷ xs) = elim (Bool-cases (p x)) [
    | inl kept ↦ rw kept (kept, All-select p xs)
    | inr dropped ↦ rw dropped (All-select p xs)
  ]

  abbrev pub is_empty : List A → Bool
  is_empty [] = true
  is_empty _ = false

  pub select-is_empty :
      (p : A → Bool) (xs : List A) → is_empty (select p xs) ≡ true → All (λ x. p x ≡ false) xs
  select-is_empty p [] h = tt
  select-is_empty p (x ∷ xs) h = elim (Bool-cases (p x)) [
    | inl kept ↦ cc (rw kept at h)
    | inr dropped ↦ (dropped, select-is_empty p xs (rw dropped at h))
  ]

  pub any-insert_by :
      (before : A → A → Bool) (p : A → Bool) (x : A) (xs : List A)
      → any p (insert_by before x xs) ≡ (p x || any p xs)
  unfolding insert_by
  any-insert_by before p x [] = refl
  any-insert_by before p x (y ∷ ys) = ground (arith, any-insert_by before p x ys)

  pub any-order_by :
      (before : A → A → Bool) (p : A → Bool) (xs : List A) → any p (order_by before xs) ≡ any p xs
  unfolding order_by
  any-order_by before p [] = refl
  any-order_by before p (x ∷ xs) =
      any-insert_by before p x (order_by before xs) ∙ ap (λ b. p x || b) (any-order_by before p xs)

  pub any-if :
      (p : A → Bool) (d : A) (b : Bool) (rows : List A)
      → any p rows ≡ true
      → any p (if b then d ∷ rows else rows) ≡ true
  any-if p d true rows h = ground arith
  any-if p d false rows h = h

  pub any-append_left : (p : A → Bool) (xs ys : List A) → any p xs ≡ true → any p (xs ++ ys) ≡ true
  any-append_left p [] ys h = cc
  any-append_left p (x ∷ xs) ys h = elim (Bool-cases (p x)) [
    | inl hit ↦ rw hit refl
    | inr miss ↦ rw miss (any-append_left p xs ys (rw miss at h))
  ]

  pub any-append_last :
      (p : A → Bool) (xs : List A) (x : A) → p x ≡ true → any p (xs ++ x ∷ []) ≡ true
  any-append_last p [] x h = rw h refl
  any-append_last p (y ∷ xs) x h = rw (any-append_last p xs x h) (ground arith)

  -- ys is xs with more rows at its end, all of which P holds of.
  abbrev pub Grown {κ} : (P : A → Type κ) → List A → List A → Type (ℓ ⊔ κ)
  Grown P xs ys = (more : List A) × (ys ≡ xs ++ more) × All P more

  pub Grown-refl {κ} : (P : A → Type κ) (xs : List A) → Grown P xs xs
  Grown-refl P xs = ([], sym (append-nil xs), tt)

  pub Grown-trans {κ} : (P : A → Type κ) (a b c : List A) → Grown P a b → Grown P b c → Grown P a c
  Grown-trans P a b c (xs, e, hx) (ys, f, hy) = (
    xs ++ ys,
    f ∙ ap (λ (l : List A). l ++ ys) e ∙ append_assoc a xs ys,
    All-append P xs ys hx hy,
  )

  pub any-Grown {κ} :
      (P : A → Type κ) (p : A → Bool) (xs ys : List A)
      → Grown P xs ys
      → any p xs ≡ true
      → any p ys ≡ true
  any-Grown P p xs ys (more, e, d) h = rw e (any-append_left p xs more h)

  pub count_where-insert_by :
      (before : A → A → Bool) (p : A → Bool) (x : A) (xs : List A)
      → count_where p (insert_by before x xs) ≡ count_where p (x ∷ xs)
  unfolding insert_by
  count_where-insert_by before p x [] = refl
  count_where-insert_by before p x (y ∷ ys) = ground (arith, count_where-insert_by before p x ys)

  pub count_where-order_by :
      (before : A → A → Bool) (p : A → Bool) (xs : List A)
      → count_where p (order_by before xs) ≡ count_where p xs
  unfolding order_by
  count_where-order_by before p [] = refl
  count_where-order_by before p (x ∷ xs) =
      count_where-insert_by before p x (order_by before xs)
      ∙ ground (arith, count_where-order_by before p xs)

  pub count_where-any : (p : A → Bool) (xs : List A) → any p xs ≡ true → 0 < count_where p xs
  count_where-any p [] h = cc
  count_where-any p (x ∷ xs) h = ground (arith, count_where-any p xs)

  pub count_where_not_any : (p : A → Bool) (xs : List A) → any p xs ≡ false → count_where p xs ≡ 0
  count_where_not_any p [] h = refl
  count_where_not_any p (x ∷ xs) h = ground (arith, count_where_not_any p xs)

  pub count_where_append :
      (p : A → Bool) (xs ys : List A)
      → count_where p (xs ++ ys) ≡ count_where p xs + count_where p ys
  count_where_append p [] ys = omega arith
  count_where_append p (x ∷ xs) ys = ground (arith, count_where_append p xs ys)

  pub All-insert_by_inv {κ} :
      (P : A → Type κ) (before : A → A → Bool) (x : A) (xs : List A)
      → All P (insert_by before x xs)
      → P x × All P xs
  unfolding insert_by
  All-insert_by_inv P before x [] h = h
  All-insert_by_inv P before x (y ∷ ys) h = elim (Bool-cases (before x y)) [
    | inl first ↦ rw (first, All) at h
    | inr later ↦
        let (hy, rest) : P y × All P (insert_by before x ys) = rw (later, All) at h in
        let (hx, others) = All-insert_by_inv P before x ys rest in (hx, (hy, others))
  ]

  pub All-order_by_inv {κ} :
      (P : A → Type κ) (before : A → A → Bool) (xs : List A) → All P (order_by before xs) → All P xs
  unfolding order_by
  All-order_by_inv P before [] h = tt
  All-order_by_inv P before (x ∷ xs) h =
      let (hx, rest) = All-insert_by_inv P before x (order_by before xs) h in
      (hx, All-order_by_inv P before xs rest)

  pub All-append_inv {κ} :
      (P : A → Type κ) (xs ys : List A) → All P (xs ++ ys) → All P xs × All P ys
  All-append_inv P [] ys h = (tt, h)
  All-append_inv P (x ∷ xs) ys (hx, h) =
      let (left, right) = All-append_inv P xs ys h in ((hx, left), right)
