-- ===== src/Groups/Settlement.antt =====
-- The settlement of a period and its closing: `computeSettlement`, `getSettlement` with both bounds
-- given, and `closeSettlement` of src/group-expenses/group-expenses.service.ts.
use cashfo_backend.Base.{
  ℕ, suc, Bool, not, Option, none, some, List, [], ◌∷◌, ◌++◌, map, ℤ, pos, ◌+ℤ◌, ◌-ℤ◌, negated,
  ◌==◌, ◌&&◌, if◌then◌else◌, or_else, leb, ltb, ltb_ℤ, length, filter, any, elem, sum_of,
}
use cashfo_backend.Schema.{
  Context, Action, ◌>>=◌, ◌>>◌, pure, throw_if, gets, modify, period_backwards, period_overlaps,
  no_active_member,
}
use cashfo_backend.Groups.Rows.{
  Member, Contribution, Expense, SettlementMember, Settlement, GroupDb, is_active,
}
use cashfo_backend.Groups.Split.{share_at, base_share}

-- What a member handed over and what was handed back.
pub record Totals : Type 0 where
  pub deposited : ℤ
  pub returned : ℤ

abbrev pub no_totals : Totals
no_totals = record { deposited = pos 0; returned = pos 0 }

-- `totalsByMember`, a map from member ids.
unfoldable pub totals_of : ℕ → List (ℕ × Totals) → Option Totals
totals_of i [] = none
totals_of i ((j, t) ∷ m) = let rest = totals_of i m in if j == i then some t else rest

unfoldable pub set_totals : ℕ → Totals → List (ℕ × Totals) → List (ℕ × Totals)
set_totals i t [] = (i, t) ∷ []
set_totals i t ((j, u) ∷ m) =
    let rest = set_totals i t m in if j == i then (j, t) ∷ m else (j, u) ∷ rest

-- A negative amount is money returned.
abbrev pub count_in : ℤ → Totals → Totals
count_in amount t =
    if ltb_ℤ amount (pos 0)
    then record t { returned = t.returned +ℤ negated amount }
    else record t { deposited = t.deposited +ℤ amount }

unfoldable pub add_contribution : List (ℕ × Totals) → Contribution → List (ℕ × Totals)
unfolding totals_of set_totals
add_contribution m c =
    set_totals c.group_member_id
      (count_in c.amount (or_else (totals_of c.group_member_id m) no_totals)) m

unfoldable pub totals_by_member : List (ℕ × Totals) → List Contribution → List (ℕ × Totals)
unfolding add_contribution
totals_by_member m [] = m
totals_by_member m (c ∷ cs) = totals_by_member (add_contribution m c) cs

-- A row of the settlement.
pub record SettlementRow : Type 0 where
  pub group_member_id : ℕ
  pub name : ℕ
  pub gross_deposited : ℤ
  pub returned : ℤ
  pub contributed : ℤ
  pub share : ℤ
  pub balance : ℤ

unfoldable pub settlement_row : List (ℕ × Totals) → ℤ → ℕ → ℕ → Member → SettlementRow
unfolding share_at
settlement_row by_member total member_count index m =
    let totals = or_else (totals_of m.id by_member) no_totals in
    record {
      group_member_id = m.id;
      name = m.name;
      gross_deposited = totals.deposited;
      returned = totals.returned;
      contributed = totals.deposited -ℤ totals.returned;
      share = share_at total member_count index;
      balance = totals.deposited -ℤ totals.returned -ℤ share_at total member_count index;
    }

unfoldable pub settlement_rows : List (ℕ × Totals) → ℤ → ℕ → ℕ → List Member → List SettlementRow
unfolding settlement_row
settlement_rows by_member total member_count index [] = []
settlement_rows by_member total member_count index (m ∷ ms) =
    settlement_row by_member total member_count index m
    ∷ settlement_rows by_member total member_count (suc index) ms

pub record SettlementResult : Type 0 where
  pub period_start : ℕ
  pub period_end : ℕ
  pub total_expense : ℤ
  pub member_count : ℕ
  pub per_member_share : ℤ
  pub members : List SettlementRow

-- `orderBy: { createdAt: 'asc' }`
unfoldable pub insert_by_created : Member → List Member → List Member
insert_by_created m [] = m ∷ []
insert_by_created m (n ∷ ns) =
    let rest = insert_by_created m ns in
    if leb m.created_at n.created_at then m ∷ n ∷ ns else n ∷ rest

unfoldable pub order_by_created : List Member → List Member
unfolding insert_by_created
order_by_created [] = []
order_by_created (m ∷ ms) = insert_by_created m (order_by_created ms)

abbrev pub is_within : ℕ → ℕ → ℕ → Bool
is_within period_start period_end date = leb period_start date && leb date period_end

unfoldable pub members_of : ℕ → GroupDb → List Member
unfolding order_by_created
members_of b db = order_by_created (filter (λ m. m.business_id == b) db.members)

unfoldable pub expenses_of : ℕ → ℕ → ℕ → GroupDb → List Expense
expenses_of b from to db = filter (λ e. e.business_id == b && is_within from to e.date) db.expenses

unfoldable pub contributions_of : ℕ → ℕ → ℕ → GroupDb → List Contribution
contributions_of b from to db =
    filter (λ c. c.business_id == b && is_within from to c.date) db.contributions

-- The former members with money in the period.
abbrev pub is_former_contributor : List Contribution → Member → Bool
is_former_contributor cs m =
    not (is_active m) && elem m.id (map (λ (c : Contribution). c.group_member_id) cs)

unfoldable pub compute_settlement : ℕ → ℕ → ℕ → GroupDb → SettlementResult
unfolding members_of expenses_of contributions_of totals_by_member settlement_rows
compute_settlement business_id period_start period_end db =
    let all_members = members_of business_id db in
    let contributions = contributions_of business_id period_start period_end db in
    let members = filter is_active all_members in
    let former_members = filter (is_former_contributor contributions) all_members in
    let total_expense =
      sum_of (λ (e : Expense). e.amount) (expenses_of business_id period_start period_end db) in
    let member_count = length members in
    record {
      period_start = period_start;
      period_end = period_end;
      total_expense = total_expense;
      member_count = member_count;
      per_member_share = if member_count == 0 then pos 0 else base_share total_expense member_count;
      members =
          if member_count == 0
          then []
          else settlement_rows (totals_by_member [] contributions) total_expense member_count 0
              (members ++ former_members);
    }

-- A settlement that is closed keeps these figures of each row.
abbrev pub snapshot : SettlementRow → SettlementMember
snapshot r = record {
  group_member_id = r.group_member_id;
  contributed = r.contributed;
  share = r.share;
  balance = r.balance;
}

abbrev pub overlaps : ℕ → ℕ → ℕ → Settlement → Bool
overlaps b from to s = s.business_id == b && leb s.period_start to && leb from s.period_end

abbrev pub settlement_of : Context → ℕ → SettlementResult → Settlement
settlement_of ctx b r = record {
  id = ctx.new_id;
  business_id = b;
  period_start = r.period_start;
  period_end = r.period_end;
  total_expense = r.total_expense;
  member_count = r.member_count;
  per_member_share = r.per_member_share;
  closed_by = ctx.user_id;
  members = map snapshot r.members;
}

unfoldable pub close_settlement : Context → ℕ → ℕ → ℕ → Action GroupDb Settlement
close_settlement ctx business_id period_start period_end = do
  throw_if (ltb period_end period_start) period_backwards
  settlements ← gets (λ db. db.settlements)
  throw_if (any (overlaps business_id period_start period_end) settlements) period_overlaps
  result ← gets (compute_settlement business_id period_start period_end)
  throw_if (result.member_count == 0) no_active_member
  modify (λ db. record db {
    settlements = db.settlements ++ settlement_of ctx business_id result ∷ [];
  })
  pure (settlement_of ctx business_id result)
