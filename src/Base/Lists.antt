-- ===== src/Base/Lists.antt =====
-- Lists measured by native numbers, membership of an id, and the ids of a list without repeats.
use Prim.Native.Nat.{ℕ, zero, suc, ◌+◌}
use mathlib.Core.Path.{◌≡◌, refl}
use mathlib.Core.Bool.{Bool, true, false, ◌&&◌, ◌||◌}
use mathlib.Core.List.{List, [], ◌∷◌, ◌++◌}
use native.Mathlib.Omega.{arith}
use cashfo_backend.Base.Tests.{◌==◌, if◌then◌else◌}

module _ {ℓ} {A : Type ℓ} where
  abbrev pub length : List A → ℕ
  length [] = 0
  length (x ∷ xs) = suc (length xs)

  abbrev pub take : ℕ → List A → List A
  take zero xs = []
  take (suc n) [] = []
  take (suc n) (x ∷ xs) = x ∷ take n xs

  abbrev pub drop : ℕ → List A → List A
  drop zero xs = xs
  drop (suc n) [] = []
  drop (suc n) (x ∷ xs) = drop n xs

  -- `xs.filter(p)`, `xs.some(p)`, `xs.every(p)`
  abbrev pub filter : (A → Bool) → List A → List A
  filter p [] = []
  filter p (x ∷ xs) = let rest = filter p xs in if p x then x ∷ rest else rest

  abbrev pub any : (A → Bool) → List A → Bool
  any p [] = false
  any p (x ∷ xs) = p x || any p xs

  abbrev pub every : (A → Bool) → List A → Bool
  every p [] = true
  every p (x ∷ xs) = p x && every p xs

  abbrev pub All {κ} : (A → Type κ) → List A → Type κ
  All P [] = Unit
  All P (x ∷ xs) = P x × All P xs

  pub length-append : (xs ys : List A) → length (xs ++ ys) ≡ length xs + length ys
  length-append [] ys = omega arith
  length-append (x ∷ xs) ys = omega (arith, length-append xs ys)

  pub All-append {κ} : (P : A → Type κ) (xs ys : List A) → All P xs → All P ys → All P (xs ++ ys)
  All-append P [] ys h k = k
  All-append P (x ∷ xs) ys h k = (h.0, All-append P xs ys h.1 k)

-- `ids.includes(i)`
abbrev pub elem : ℕ → List ℕ → Bool
elem i [] = false
elem i (j ∷ js) = i == j || elem i js

-- `[...new Set(ids)]`: the first of equal ids stays.
unfoldable pub remove_all : ℕ → List ℕ → List ℕ
remove_all i [] = []
remove_all i (j ∷ js) = let rest = remove_all i js in if i == j then rest else j ∷ rest

unfoldable pub distinct : List ℕ → List ℕ
distinct [] = []
distinct (i ∷ is) = i ∷ remove_all i (distinct is)

pub elem-remove_all :
    (j i : ℕ) (is : List ℕ) → elem j (remove_all i is) ≡ (if j == i then false else elem j is)
unfolding remove_all
elem-remove_all j i [] = ground arith
elem-remove_all j i (k ∷ is) = ground (arith, elem-remove_all j i is)

-- The distinct ids are the same ids.
pub elem-distinct : (j : ℕ) (is : List ℕ) → elem j (distinct is) ≡ elem j is
unfolding distinct
elem-distinct j [] = refl
elem-distinct j (i ∷ is) = ground (arith, elem-remove_all j i (distinct is), elem-distinct j is)
