-- ===== src/Base/Sums.antt =====
-- Sums of integers over lists, and the sum over a partition by keys.
use Prim.Native.Nat.{ℕ}
use mathlib.Core.Path.{◌≡◌, refl}
use mathlib.Core.Bool.{true, false}
use mathlib.Core.List.{List, [], ◌∷◌, ◌++◌}
use mathlib.Core.Logic.{inl, inr}
use native.Mathlib.Omega.{arith}
use cashfo_backend.Base.Int.{ℤ, pos, ◌+ℤ◌, ◌-ℤ◌, int_laws}
use cashfo_backend.Base.Tests.{◌==◌, if◌then◌else◌, Bool-cases}
use cashfo_backend.Base.Lists.{elem, All}

module _ {ℓ} {A : Type ℓ} where
  -- The sum of `f` over a list.
  abbrev pub sum_of : (A → ℤ) → List A → ℤ
  sum_of f [] = pos 0
  sum_of f (x ∷ xs) = f x +ℤ sum_of f xs

  pub sum_of-append :
      (f : A → ℤ) (xs ys : List A) → sum_of f (xs ++ ys) ≡ sum_of f xs +ℤ sum_of f ys
  sum_of-append f [] ys = omega int_laws
  sum_of-append f (x ∷ xs) ys = rw (sum_of-append f xs ys) (omega int_laws)

  pub sum_of-+ℤ :
      (f g : A → ℤ) (xs : List A) → sum_of (λ x. f x +ℤ g x) xs ≡ sum_of f xs +ℤ sum_of g xs
  sum_of-+ℤ f g [] = omega int_laws
  sum_of-+ℤ f g (x ∷ xs) = rw (sum_of-+ℤ f g xs) (omega int_laws)

  pub sum_of--ℤ :
      (f g : A → ℤ) (xs : List A) → sum_of (λ x. f x -ℤ g x) xs ≡ sum_of f xs -ℤ sum_of g xs
  sum_of--ℤ f g [] = omega int_laws
  sum_of--ℤ f g (x ∷ xs) = rw (sum_of--ℤ f g xs) (omega int_laws)

  pub sum_of-zero : (xs : List A) → sum_of (λ x. pos 0) xs ≡ pos 0
  sum_of-zero [] = refl
  sum_of-zero (x ∷ xs) = rw (sum_of-zero xs) (omega int_laws)

-- No id stands twice.
abbrev pub UniqueIds : List ℕ → Type 0
UniqueIds [] = Unit
UniqueIds (k ∷ ks) = (elem k ks ≡ false) × UniqueIds ks

-- A value that one key alone holds.
pub sum_of-single_absent :
    (k : ℕ) (v : ℤ) (ks : List ℕ)
    → elem k ks ≡ false
    → sum_of (λ j. if k == j then v else pos 0) ks ≡ pos 0
sum_of-single_absent k v [] h = refl
sum_of-single_absent k v (j ∷ ks) h =
    let rest = sum_of-single_absent k v ks (ground arith) in
    let here : (k == j) ≡ false = ground arith in rw (here, rest) (omega int_laws)

pub sum_of-single :
    (k : ℕ) (v : ℤ) (ks : List ℕ)
    → UniqueIds ks
    → elem k ks ≡ true
    → sum_of (λ j. if k == j then v else pos 0) ks ≡ v
sum_of-single k v [] u h = absurd (ground arith)
sum_of-single k v (j ∷ ks) u h = elim (Bool-cases (k == j)) [
  | inl e ↦
      let out : elem k ks ≡ false = ground arith in
      rw (e, sum_of-single_absent k v ks out) (omega int_laws)
  | inr e ↦ rw (e, sum_of-single k v ks u.1 (ground arith)) (omega int_laws)
]

module _ {ℓ} {A : Type ℓ} (key : A → ℕ) (f : A → ℤ) where
  -- What the items with one key add up to.
  abbrev pub sum_at : List A → ℕ → ℤ
  sum_at xs k = sum_of (λ x. if key x == k then f x else pos 0) xs

  abbrev pub HasKeyIn : List ℕ → A → Type 0
  HasKeyIn ks x = elem (key x) ks ≡ true

  -- The sums by key add up to the whole sum, where every item has one of the keys.
  pub sum_of-sum_at :
      (ks : List ℕ) (xs : List A)
      → UniqueIds ks
      → All (HasKeyIn ks) xs
      → sum_of (sum_at xs) ks ≡ sum_of f xs
  sum_of-sum_at ks [] u h = sum_of-zero ks
  sum_of-sum_at ks (x ∷ xs) u h = rw (
    sum_of-+ℤ (λ k. if key x == k then f x else pos 0) (sum_at xs) ks,
    sum_of-single (key x) (f x) ks u h.0,
    sum_of-sum_at ks xs u h.1,
  )
