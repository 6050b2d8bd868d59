-- ===== src/Base/Unique.antt =====
-- What holds of every row, and lookups of it; in a table whose keys are unique a row is found by
-- its own key.
use Prim.Native.Nat.{ℕ}
use mathlib.Core.Path.{◌≡◌, sym, subst}
use mathlib.Core.Logic.{inl, inr}
use mathlib.Core.Bool.{Bool, true, false}
use mathlib.Core.Option.{some}
use mathlib.Core.List.{List, [], ◌∷◌, map}
use native.Mathlib.Omega.{arith}
use cashfo_backend.Base.Tests.{◌==◌, Bool-cases}
use cashfo_backend.Base.Lists.{All, filter, elem}
use cashfo_backend.Base.Table.{find_where, find_unique}
use cashfo_backend.Base.Sums.{UniqueIds}

module _ {ℓ κ} {A : Type ℓ} (P : A → Type κ) where
  pub All-find : (p : A → Bool) (xs : List A) (x : A) → All P xs → find_where p xs ≡ some x → P x
  All-find p [] x h e = absurd (ground arith)
  All-find p (y ∷ xs) x h e = elim (Bool-cases (p y)) [
    | inl here ↦ let same : y ≡ x = ground arith in subst P same h.0
    | inr there ↦ All-find p xs x h.1 (ground arith)
  ]

  pub All-map {μ} : (Q : A → Type μ) → ((x : A) → P x → Q x) → (xs : List A) → All P xs → All Q xs
  All-map Q f [] h = tt
  All-map Q f (x ∷ xs) h = (f x h.0, All-map Q f xs h.1)

  pub All-filter : (p : A → Bool) (xs : List A) → All P xs → All P (filter p xs)
  All-filter p [] h = tt
  All-filter p (x ∷ xs) h = elim (Bool-cases (p x)) [
    | inl kept ↦ rw kept (h.0, All-filter p xs h.1)
    | inr dropped ↦ rw dropped (All-filter p xs h.1)
  ]

pub All-pair {ℓ κ μ} :
    {A : Type ℓ} (P : A → Type κ) (Q : A → Type μ) (xs : List A)
    → All P xs
    → All Q xs
    → All (λ x. P x × Q x) xs
All-pair P Q [] h k = tt
All-pair P Q (x ∷ xs) h k = ((h.0, k.0), All-pair P Q xs h.1 k.1)

-- Every row that a filter keeps passes its test.
pub filter-passes {ℓ} :
    {A : Type ℓ} (p : A → Bool) (xs : List A) → All (λ x. p x ≡ true) (filter p xs)
filter-passes p [] = tt
filter-passes p (x ∷ xs) = elim (Bool-cases (p x)) [
  | inl kept ↦ rw kept (kept, filter-passes p xs)
  | inr dropped ↦ rw dropped (filter-passes p xs)
]

module _ {ℓ} {A : Type ℓ} (key : A → ℕ) where
  -- What holds of every kept row holds of a kept row that is found.
  pub All-filter-find {κ} :
      (P : A → Type κ) (p : A → Bool) (k : ℕ) (xs : List A) (x : A)
      → All P (filter p xs)
      → find_unique key k xs ≡ some x
      → p x ≡ true
      → P x
  All-filter-find P p k [] x h e kept = absurd (ground arith)
  All-filter-find P p k (y ∷ xs) x h e kept = elim (Bool-cases (key y == k)) [
    | inl here ↦
        let same : y ≡ x = ground arith in
        let kept_y : p y ≡ true = subst (λ z. p z ≡ true) (sym same) kept in
        let whole = rw kept_y at h in subst P same whole.0
    | inr there ↦
        let later : find_unique key k xs ≡ some x = ground arith in
        elim (Bool-cases (p y)) [
          | inl kept_y ↦ let whole = rw kept_y at h in All-filter-find P p k xs x whole.1 later kept
          | inr dropped ↦ let whole = rw dropped at h in All-filter-find P p k xs x whole later kept
        ]
  ]

  found_later :
      (y : A) (xs : List A)
      → elem (key y) (map key xs) ≡ false
      → (z : A) → elem (key z) (map key xs) ≡ true
      → find_unique key (key z) xs ≡ some z
      → find_unique key (key z) (y ∷ xs) ≡ some z
  found_later y xs absent z member h = elim (Bool-cases (key y == key z)) [
    | inl e ↦ let same : key y ≡ key z = ground arith in absurd (ground arith)
    | inr apart ↦ rw apart h
  ]

  pub every_member : (xs : List A) → All (λ x. elem (key x) (map key xs) ≡ true) xs
  every_member [] = tt
  every_member (y ∷ xs) = (
    ground arith,
    All-map (λ x. elem (key x) (map key xs) ≡ true) (λ x. elem (key x) (map key (y ∷ xs)) ≡ true)
        (λ x h. ground arith) xs (every_member xs),
  )

  pub found_by_key :
      (xs : List A) → UniqueIds (map key xs) → All (λ x. find_unique key (key x) xs ≡ some x) xs
  found_by_key [] u = tt
  found_by_key (y ∷ xs) u = (
    ground arith,
    All-map (λ x. (elem (key x) (map key xs) ≡ true) × (find_unique key (key x) xs ≡ some x))
        (λ x. find_unique key (key x) (y ∷ xs) ≡ some x) (λ x h. found_later y xs u.0 x h.0 h.1) xs
        (All-pair _ _ xs (every_member xs) (found_by_key xs u.1)),
  )
