-- ===== src/Base/Table.antt =====
-- A database table as a list of rows with a primary key. A lookup sees the first row with the
-- key, an update changes the rows with the key, and a create adds a row at the end.
use Prim.Native.Nat.{ℕ}
use mathlib.Core.Path.{◌≡◌, refl}
use mathlib.Core.Bool.{Bool, true}
use mathlib.Core.Option
use mathlib.Core.Option.{Option, none, some}
use mathlib.Core.List.{List, [], ◌∷◌, ◌++◌}
use native.Mathlib.Omega.{arith}
use cashfo_backend.Base.Tests.{◌==◌, if◌then◌else◌}

module _ {ℓ} {A : Type ℓ} where
  -- `findFirst`
  abbrev pub find_where : (A → Bool) → List A → Option A
  find_where p [] = none
  find_where p (r ∷ rs) = let rest = find_where p rs in if p r then some r else rest

  -- `updateMany`
  abbrev pub update_where : (A → Bool) → (A → A) → List A → List A
  update_where p f [] = []
  update_where p f (r ∷ rs) = (if p r then f r else r) ∷ update_where p f rs

  pub find_where_sound :
      (p : A → Bool) (rs : List A) (r : A) → find_where p rs ≡ some r → p r ≡ true
  find_where_sound p [] r h = cc
  find_where_sound p (x ∷ rs) r h = ground (arith, find_where_sound p rs r)

  pub find_where-append :
      (p : A → Bool) (rs qs : List A)
      → find_where p (rs ++ qs)
        ≡ elim (find_where p rs) [ none ↦ find_where p qs | some r ↦ some r ]
  find_where-append p [] qs = refl
  find_where-append p (x ∷ rs) qs = ground (arith, find_where-append p rs qs)

module _ {ℓ} {A : Type ℓ} (key : A → ℕ) where
  -- `findUnique({ where: { id } })`
  abbrev pub find_unique : ℕ → List A → Option A
  find_unique i = find_where (λ r. key r == i)

  -- `update({ where: { id }, data })`
  abbrev pub update_unique : ℕ → (A → A) → List A → List A
  update_unique i = update_where (λ r. key r == i)

  pub find_unique-key : (i : ℕ) (rs : List A) (r : A) → find_unique i rs ≡ some r → key r ≡ i
  find_unique-key i [] r h = cc
  find_unique-key i (x ∷ rs) r h = ground (arith, find_unique-key i rs r)

  -- An update that keeps the keys is seen at its own key alone.
  pub find_unique-update_unique :
      (f : A → A) (i j : ℕ) (rs : List A)
      → ((r : A) → key (f r) ≡ key r)
      → find_unique j (update_unique i f rs)
        ≡ (if j == i then Option.map f (find_unique j rs) else find_unique j rs)
  find_unique-update_unique f i j [] keeps = ground arith
  find_unique-update_unique f i j (x ∷ rs) keeps =
      ground (arith, keeps x, find_unique-update_unique f i j rs keeps)
