-- ===== src/Shelves/Retry.antt =====
-- `compareAndSwap` of src/common/shelf.ts. An attempt reads the database as it is at its time, so
-- the attempts are a function of their number.
use cashfo_backend.Base.{ℕ, zero, suc, ◌≡◌, refl, Bool, true, false, if◌then◌else◌}
use cashfo_backend.Schema.{Error, Result, ok, err, row_changed, lost_race}

-- Prisma's P2025: the guarded update matched no row.
abbrev pub is_row_changed : Error → Bool
is_row_changed row_changed = true
is_row_changed _ = false

abbrev pub is_lost : {A : Type 0} → Result A → Bool
is_lost (ok a) = false
is_lost (err e) = is_row_changed e

-- The loop from attempt `i` on, with so many attempts left.
unfoldable pub attempt_from : {A : Type 0} → ℕ → ℕ → (ℕ → Result A) → Result A
attempt_from zero i attempt = err lost_race
attempt_from (suc left) i attempt =
    let rest = attempt_from left (suc i) attempt in if is_lost (attempt i) then rest else attempt i

unfoldable pub compare_and_swap : {A : Type 0} → (ℕ → Result A) → Result A
unfolding attempt_from
compare_and_swap attempt = attempt_from 3 0 attempt

-- The answer is that of the first attempt, among the first three, that did not find the row
-- changed, and a conflict where all three did.
pub compare_and_swap-first :
    {A : Type 0} (attempt : ℕ → Result A)
    → compare_and_swap attempt ≡ (
        if is_lost (attempt 0)
        then if is_lost (attempt 1)
          then if is_lost (attempt 2) then err lost_race else attempt 2
          else attempt 1
        else attempt 0)
unfolding compare_and_swap attempt_from
compare_and_swap-first attempt = refl
