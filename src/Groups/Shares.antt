-- ===== src/Groups/Shares.antt =====
-- The shares of a settlement, by their place, and their sum:
-- src/group-expenses/group-expenses.service.ts, `computeSettlement`.
use native.Mathlib.Nat.{div-add-mod', mod-lt}
use cashfo_backend.Base.{
  ℕ, suc, ◌+◌, ◌-◌, ◌*◌, ◌/◌, ◌≤◌, ◌<◌, ◌≡◌, ◌∙◌, ap, true, false, List, [], ◌∷◌, ◌++◌, ℤ, pos,
  negsuc, ◌+ℤ◌, ◌-ℤ◌, ◌≤ℤ◌, ◌<ℤ◌, ◌==◌, inl, inr, int_laws, pos_part, neg_part, arith,
  if◌then◌else◌, length, length-append, filter, leb, sum_of, Bool-cases,
}
use cashfo_backend.Groups.Rows.{Member, Expense, GroupDb, is_active}
use cashfo_backend.Groups.Split.{times, div_floor, base_share, share_at}
use cashfo_backend.Groups.Settlement.{
  Totals, SettlementRow, settlement_row, settlement_rows, compute_settlement, expenses_of,
  members_of, contributions_of, is_former_contributor, totals_by_member,
}

times-suc : (a : ℤ) (n : ℕ) → times a (suc n) ≡ times a n +ℤ a
unfolding times ◌+ℤ◌
times-suc (pos a) n = ground arith
times-suc (negsuc a) n = ground arith

times-zero : (a : ℤ) → times a 0 ≡ pos 0
unfolding times
times-zero (pos a) = ground arith
times-zero (negsuc a) = ground arith

-- What the members before an index pay together.
paid_before : ℤ → ℕ → ℕ → ℤ
paid_before total n i = if leb n i then total else times (base_share total n) i

share_at-step :
    (total : ℤ) (n i : ℕ)
    → share_at total n i ≡ paid_before total n (suc i) -ℤ paid_before total n i
unfolding share_at paid_before
share_at-step total n i = elim (Bool-cases (leb n i)) [
  | inl past ↦ let past' : leb n (suc i) ≡ true = ground arith in rw (past, past') (omega int_laws)
  | inr inside ↦ elim (Bool-cases (i == n - 1)) [
    | inl at_end ↦
        let past : leb n (suc i) ≡ true = ground arith in
        let index : n ≡ suc i = ground arith in
        let step : times (base_share total n) n
            ≡ times (base_share total n) i +ℤ base_share total n =
          ap (times (base_share total n)) index ∙ times-suc (base_share total n) i in
        rw (inside, past, at_end) (omega (int_laws, ap pos_part step, ap neg_part step))
    | inr before ↦
        let inside' : leb n (suc i) ≡ false = ground arith in
        rw (inside, inside', before, times-suc (base_share total n) i) (omega int_laws)
  ]
]

sum-share :
    (by_member : List (ℕ × Totals)) (total : ℤ) (n i : ℕ) (ms : List Member)
    → sum_of (λ (r : SettlementRow). r.share) (settlement_rows by_member total n i ms)
      ≡ paid_before total n (i + length ms) -ℤ paid_before total n i
unfolding settlement_rows settlement_row
sum-share by_member total n i [] = let same : i + 0 ≡ i = omega arith in rw same (omega int_laws)
sum-share by_member total n i (m ∷ ms) =
    let next : i + suc (length ms) ≡ suc i + length ms = omega arith in
    rw (next, sum-share by_member total n (suc i) ms, share_at-step total n i) (omega int_laws)

pub sum-share_all :
    (by_member : List (ℕ × Totals)) (total : ℤ) (n : ℕ) (ms : List Member)
    → 0 < n
    → n ≤ length ms
    → sum_of (λ (r : SettlementRow). r.share) (settlement_rows by_member total n 0 ms) ≡ total
unfolding paid_before
sum-share_all by_member total n ms some_member enough =
    let whole : leb n (0 + length ms) ≡ true = ground arith in
    let first : leb n 0 ≡ false = ground arith in
    rw (sum-share by_member total n 0 ms, whole, first, times-zero (base_share total n))
      (omega int_laws)

-- The remainder lies below the number of members.
floor_bounds :
    (total : ℤ) (n : ℕ)
    → 0 < n
    → (pos 0 ≤ℤ total -ℤ times (div_floor total n) n)
      × (total -ℤ times (div_floor total n) n <ℤ pos n)
unfolding times div_floor ◌-ℤ◌
floor_bounds (pos a) n h = ground (arith, div-add-mod' a n, mod-lt a h)
floor_bounds (negsuc a) n h =
    let split = div-add-mod' a n in
    let below = mod-lt a h in
    let whole : suc (a / n) * n ≡ a / n * n + n = grind arith in ground arith

-- A sharing member pays at least the floor of the equal part, and less than one hundredth for each
-- sharing member more.
pub share_at_bounds :
    (total : ℤ) (n i : ℕ)
    → 0 < n
    → i < n
    → (base_share total n ≤ℤ share_at total n i)
      × (share_at total n i <ℤ base_share total n +ℤ pos n)
unfolding share_at
share_at_bounds total n i h inside =
    let bounds = floor_bounds total n h in
    let here : leb n i ≡ false = ground arith in
    elim (Bool-cases (i == n - 1)) [
      | inl at_end ↦ rw (here, at_end) (omega int_laws, omega int_laws)
      | inr before ↦ rw (here, before) (omega int_laws, omega int_laws)
    ]

-- Where the group has an active member, the shares of a settlement, rounded to hundredths, add up
-- to exactly what the group spent in the period.
pub compute_settlement-shares :
    (b from to : ℕ) (db : GroupDb)
    → 0 < (compute_settlement b from to db).member_count
    → sum_of (λ (r : SettlementRow). r.share) (compute_settlement b from to db).members
      ≡ sum_of (λ (e : Expense). e.amount) (expenses_of b from to db)
unfolding compute_settlement
compute_settlement-shares b from to db h =
    let all_members = members_of b db in
    let contributions = contributions_of b from to db in
    let active = filter is_active all_members in
    let former = filter (is_former_contributor contributions) all_members in
    let some_member : (length active == 0) ≡ false = ground arith in
    rw some_member (
      sum-share_all (totals_by_member [] contributions)
        (sum_of (λ (e : Expense). e.amount) (expenses_of b from to db)) (length active)
        (active ++ former) h (omega (arith, length-append {0} active former)))
