-- ===== src/Groups/Fair.antt =====
-- Who pays what in a settlement: `computeSettlement` of
-- src/group-expenses/group-expenses.service.ts.
use cashfo_backend.Base.{
  ℕ, suc, ◌+◌, ◌≤◌, ◌<◌, ◌≡◌, refl, ap, true, false, List, [], ◌∷◌, ◌++◌, map, ℤ, pos, ◌+ℤ◌, ◌≤ℤ◌,
  ◌<ℤ◌, ◌==◌, arith, length, filter, leb, sum_of, All,
}
use cashfo_backend.Groups.Rows.{Member, Expense, GroupDb, is_active}
use cashfo_backend.Groups.Split.{base_share, share_at}
use cashfo_backend.Groups.Settlement.{
  Totals, SettlementRow, SettlementResult, settlement_row, settlement_rows, compute_settlement,
  expenses_of, members_of, contributions_of, is_former_contributor, totals_by_member,
}
use cashfo_backend.Groups.Shares.{share_at_bounds, sum-share_all}

abbrev pub shares_of : List SettlementRow → ℤ
shares_of = sum_of (λ (r : SettlementRow). r.share)

-- The rows of a settlement are those of the payers, who pay its whole total, each at least the
-- announced share and less than a hundredth for each payer more, and then others, who pay nothing.
pub record IsFair (payers : List ℕ) (s : SettlementResult) : Type 0 where
  pub paying : List SettlementRow
  pub others : List SettlementRow
  pub rows : s.members ≡ paying ++ others
  pub payers_only : map (λ (r : SettlementRow). r.group_member_id) paying ≡ payers
  pub whole : shares_of paying ≡ s.total_expense
  pub equal :
      All
        (λ (r : SettlementRow).
          (s.per_member_share ≤ℤ r.share) × (r.share <ℤ s.per_member_share +ℤ pos s.member_count))
        paying
  pub free : All (λ (r : SettlementRow). r.share ≡ pos 0) others

module _ (by_member : List (ℕ × Totals)) (total : ℤ) (n : ℕ) where
  rows-append :
      (i : ℕ) (xs ys : List Member)
      → settlement_rows by_member total n i (xs ++ ys)
        ≡ settlement_rows by_member total n i xs
          ++ settlement_rows by_member total n (i + length xs) ys
  unfolding settlement_rows
  rows-append i [] ys = let same : i + 0 ≡ i = omega arith in rw same refl
  rows-append i (x ∷ xs) ys =
      let next : i + suc (length xs) ≡ suc i + length xs = omega arith in
      rw (next, rows-append (suc i) xs ys) refl

  rows-ids :
      (i : ℕ) (ms : List Member)
      → map (λ (r : SettlementRow). r.group_member_id) (settlement_rows by_member total n i ms)
        ≡ map (λ (m : Member). m.id) ms
  unfolding settlement_rows settlement_row
  rows-ids i [] = refl
  rows-ids i (m ∷ ms) = ap (λ (is : List ℕ). m.id ∷ is) (rows-ids (suc i) ms)

  rows-equal :
      (i : ℕ) (ms : List Member)
      → 0 < n
      → i + length ms ≤ n
      → All
          (λ (r : SettlementRow).
            (base_share total n ≤ℤ r.share) × (r.share <ℤ base_share total n +ℤ pos n))
          (settlement_rows by_member total n i ms)
  unfolding settlement_rows settlement_row
  rows-equal i [] h inside = tt
  rows-equal i (m ∷ ms) h inside =
      (share_at_bounds total n i h (omega arith), rows-equal (suc i) ms h (omega arith))

  rows-free :
      (i : ℕ) (ms : List Member)
      → n ≤ i
      → All (λ (r : SettlementRow). r.share ≡ pos 0) (settlement_rows by_member total n i ms)
  unfolding settlement_rows settlement_row share_at
  rows-free i [] past = tt
  rows-free i (m ∷ ms) past =
      let here : leb n i ≡ true = ground arith in (rw here refl, rows-free (suc i) ms (omega arith))

-- Where the group has an active member, a settlement is fair: its first rows are those of the
-- active members, in the order in which they joined, who alone pay what the group spent in the
-- period, each at least the announced share and less than a hundredth for each active member more;
-- every other row, as of a former member, has a share of zero.
pub compute_settlement-IsFair :
    (b from to : ℕ) (db : GroupDb)
    → 0 < (compute_settlement b from to db).member_count
    → IsFair
        (map (λ (m : Member). m.id) (filter is_active (members_of b db)))
        (compute_settlement b from to db)
unfolding compute_settlement
compute_settlement-IsFair b from to db h =
    let all_members = members_of b db in
    let contributions = contributions_of b from to db in
    let active = filter is_active all_members in
    let former = filter (is_former_contributor contributions) all_members in
    let total = sum_of (λ (e : Expense). e.amount) (expenses_of b from to db) in
    let n = length active in
    let totals = totals_by_member [] contributions in
    let some_member : (n == 0) ≡ false = ground arith in
    record {
      paying = settlement_rows totals total n 0 active;
      others = settlement_rows totals total n (0 + n) former;
      rows = rw some_member (rows-append totals total n 0 active former);
      payers_only = rows-ids totals total n 0 active;
      whole = sum-share_all totals total n active h (omega arith);
      equal = rw some_member (rows-equal totals total n 0 active h (omega arith));
      free = rows-free totals total n (0 + n) former (omega arith);
    }
