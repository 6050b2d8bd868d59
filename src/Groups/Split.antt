-- ===== src/Groups/Split.antt =====
-- The equal split of `computeSettlement` in src/group-expenses/group-expenses.service.ts. A total
-- is in hundredths, so `times(100)` and `dividedBy(100)` are the identity. `dividedBy` rounds to 20
-- digits, which floors right for a total of the column's 14 digits and up to 100,000 members.
use cashfo_backend.Base.{
  ℕ, suc, ◌-◌, ◌*◌, ◌/◌, ℤ, pos, negsuc, ◌+ℤ◌, ◌-ℤ◌, sub_ℕ, ◌==◌, leb, if◌then◌else◌,
}

-- `x.times(n)` and `x.dividedBy(n).floor()`
unfoldable pub times : ℤ → ℕ → ℤ
times (pos a) n = pos (a * n)
times (negsuc a) n = sub_ℕ 0 (suc a * n)

unfoldable pub div_floor : ℤ → ℕ → ℤ
div_floor (pos a) n = pos (a / n)
div_floor (negsuc a) n = negsuc (a / n)

abbrev pub base_share : ℤ → ℕ → ℤ
base_share total member_count = div_floor total member_count

abbrev pub remainder : ℤ → ℕ → ℤ
remainder total member_count = total -ℤ times (base_share total member_count) member_count

abbrev pub last_share : ℤ → ℕ → ℤ
last_share total member_count = base_share total member_count +ℤ remainder total member_count

-- The share of the member at an index: former members come after the first `member_count`.
unfoldable pub share_at : ℤ → ℕ → ℕ → ℤ
share_at total member_count index =
    if leb member_count index
    then pos 0
    else if index == member_count - 1
    then last_share total member_count
    else base_share total member_count
