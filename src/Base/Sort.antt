-- ===== src/Base/Sort.antt =====
-- `orderBy`: a stable sort by a test that says which of two rows comes first. It keeps sums and
-- what holds of every row.
use Prim.Native.Nat.{ℕ}
use mathlib.Core.Path.{◌≡◌, refl}
use mathlib.Core.Bool.{Bool, false}
use mathlib.Core.List.{List, [], ◌∷◌, ◌++◌, map}
use mathlib.Core.Logic.{inl, inr}
use native.Mathlib.Omega.{arith}
use cashfo_backend.Base.Int.{ℤ, pos, ◌+ℤ◌, int_laws}
use cashfo_backend.Base.Tests.{if◌then◌else◌, ◌==◌, Bool-cases}
use cashfo_backend.Base.Lists.{All, filter, elem}
use cashfo_backend.Base.Sums.{sum_of, UniqueIds}

module _ {ℓ} {A : Type ℓ} (before : A → A → Bool) where
  unfoldable pub insert_by : A → List A → List A
  insert_by x [] = x ∷ []
  insert_by x (y ∷ ys) = let rest = insert_by x ys in if before x y then x ∷ y ∷ ys else y ∷ rest

  unfoldable pub sort_by : List A → List A
  unfolding insert_by
  sort_by [] = []
  sort_by (x ∷ xs) = insert_by x (sort_by xs)

  sum_of-insert_by :
      (f : A → ℤ) (x : A) (xs : List A) → sum_of f (insert_by x xs) ≡ f x +ℤ sum_of f xs
  unfolding insert_by
  sum_of-insert_by f x [] = refl
  sum_of-insert_by f x (y ∷ ys) = elim (Bool-cases (before x y)) [
    | inl first ↦ rw first refl
    | inr later ↦ rw (later, sum_of-insert_by f x ys) (omega int_laws)
  ]

  pub sum_of-sort_by : (f : A → ℤ) (xs : List A) → sum_of f (sort_by xs) ≡ sum_of f xs
  unfolding sort_by
  sum_of-sort_by f [] = refl
  sum_of-sort_by f (x ∷ xs) = rw (sum_of-insert_by f x (sort_by xs), sum_of-sort_by f xs) refl

  All-insert_by {κ} :
      (P : A → Type κ) (x : A) (xs : List A) → P x → All P xs → All P (insert_by x xs)
  unfolding insert_by
  All-insert_by P x [] here rest = (here, tt)
  All-insert_by P x (y ∷ ys) here rest = elim (Bool-cases (before x y)) [
    | inl first ↦ rw first (here, rest)
    | inr later ↦ rw later (rest.0, All-insert_by P x ys here rest.1)
  ]

  pub All-sort_by {κ} : (P : A → Type κ) (xs : List A) → All P xs → All P (sort_by xs)
  unfolding sort_by
  All-sort_by P [] h = tt
  All-sort_by P (x ∷ xs) h = All-insert_by P x (sort_by xs) h.0 (All-sort_by P xs h.1)

pub sum_of-filter {ℓ} :
    {A : Type ℓ} (p : A → Bool) (f : A → ℤ) (xs : List A)
    → sum_of f (filter p xs) ≡ sum_of (λ x. if p x then f x else pos 0) xs
sum_of-filter p f [] = refl
sum_of-filter p f (x ∷ xs) = elim (Bool-cases (p x)) [
  | inl yes_x ↦ rw (yes_x, sum_of-filter p f xs) refl
  | inr no_x ↦ rw (no_x, sum_of-filter p f xs) (omega int_laws)
]

pub filter-append {ℓ} :
    {A : Type ℓ} (p : A → Bool) (xs ys : List A) → filter p (xs ++ ys) ≡ filter p xs ++ filter p ys
filter-append p [] ys = refl
filter-append p (x ∷ xs) ys = elim (Bool-cases (p x)) [
  | inl yes_x ↦ rw (yes_x, filter-append p xs ys) refl
  | inr no_x ↦ rw (no_x, filter-append p xs ys) refl
]

-- A sort and a filter keep the keys different from one another.
module _ {ℓ} {A : Type ℓ} (key : A → ℕ) where
  filter_absent :
      (p : A → Bool) (k : ℕ) (xs : List A)
      → elem k (map key xs) ≡ false
      → elem k (map key (filter p xs)) ≡ false
  filter_absent p k [] h = refl
  filter_absent p k (x ∷ xs) h = elim (Bool-cases (p x)) [
    | inl yes_x ↦ rw yes_x (ground (arith, filter_absent p k xs))
    | inr no_x ↦ rw no_x (ground (arith, filter_absent p k xs))
  ]

  pub UniqueIds-filter :
      (p : A → Bool) (xs : List A) → UniqueIds (map key xs) → UniqueIds (map key (filter p xs))
  UniqueIds-filter p [] u = tt
  UniqueIds-filter p (x ∷ xs) u = elim (Bool-cases (p x)) [
    | inl yes_x ↦ rw yes_x (filter_absent p (key x) xs u.0, UniqueIds-filter p xs u.1)
    | inr no_x ↦ rw no_x (UniqueIds-filter p xs u.1)
  ]

  module _ (before : A → A → Bool) where
    insert_absent :
        (k : ℕ) (x : A) (xs : List A)
        → (k == key x) ≡ false
        → elem k (map key xs) ≡ false
        → elem k (map key (insert_by before x xs)) ≡ false
    unfolding insert_by
    insert_absent k x [] h e = ground arith
    insert_absent k x (y ∷ ys) h e = elim (Bool-cases (before x y)) [
      | inl first ↦ rw first (ground arith)
      | inr later ↦ rw later (ground (arith, insert_absent k x ys h))
    ]

    UniqueIds-insert :
        (x : A) (xs : List A)
        → elem (key x) (map key xs) ≡ false
        → UniqueIds (map key xs)
        → UniqueIds (map key (insert_by before x xs))
    unfolding insert_by
    UniqueIds-insert x [] h u = (refl, tt)
    UniqueIds-insert x (y ∷ ys) h u = elim (Bool-cases (before x y)) [
      | inl first ↦ rw first (h, u)
      | inr later ↦
          let apart : (key y == key x) ≡ false = ground arith in
          rw later (insert_absent (key y) x ys apart u.0, UniqueIds-insert x ys (ground arith) u.1)
    ]

    sort_absent :
        (k : ℕ) (xs : List A)
        → elem k (map key xs) ≡ false
        → elem k (map key (sort_by before xs)) ≡ false
    unfolding sort_by
    sort_absent k [] h = refl
    sort_absent k (x ∷ xs) h =
        insert_absent k x (sort_by before xs) (ground arith) (sort_absent k xs (ground arith))

    pub UniqueIds-sort_by :
        (xs : List A) → UniqueIds (map key xs) → UniqueIds (map key (sort_by before xs))
    unfolding sort_by
    UniqueIds-sort_by [] u = tt
    UniqueIds-sort_by (x ∷ xs) u =
        UniqueIds-insert x (sort_by before xs) (sort_absent (key x) xs u.0)
          (UniqueIds-sort_by xs u.1)

-- A map that the test does not see goes through a sort and a filter.
module _ {ℓ} {A : Type ℓ} (f : A → A) where
  pub filter-map :
      (p : A → Bool)
      → ((x : A) → p (f x) ≡ p x)
      → (xs : List A) → filter p (map f xs) ≡ map f (filter p xs)
  filter-map p blind [] = refl
  filter-map p blind (x ∷ xs) = elim (Bool-cases (p x)) [
    | inl yes_x ↦ rw (blind x, yes_x, filter-map p blind xs) refl
    | inr no_x ↦ rw (blind x, no_x, filter-map p blind xs) refl
  ]

  insert_by-map :
      (before : A → A → Bool)
      → ((x y : A) → before (f x) (f y) ≡ before x y)
      → (x : A) (xs : List A) → insert_by before (f x) (map f xs) ≡ map f (insert_by before x xs)
  unfolding insert_by
  insert_by-map before blind x [] = refl
  insert_by-map before blind x (y ∷ ys) = elim (Bool-cases (before x y)) [
    | inl first ↦ rw (blind x y, first) refl
    | inr later ↦ rw (blind x y, later, insert_by-map before blind x ys) refl
  ]

  pub sort_by-map :
      (before : A → A → Bool)
      → ((x y : A) → before (f x) (f y) ≡ before x y)
      → (xs : List A) → sort_by before (map f xs) ≡ map f (sort_by before xs)
  unfolding sort_by
  sort_by-map before blind [] = refl
  sort_by-map before blind (x ∷ xs) =
      rw (sort_by-map before blind xs) (insert_by-map before blind x (sort_by before xs))
