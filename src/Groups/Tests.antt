-- ===== src/Groups/Tests.antt =====
-- Runs of the group expenses on a group of three, and their theorems at these runs.
use cashfo_backend.Base.{
  ℕ, ◌≡◌, ◌≢◌, refl, false, none, List, [], ◌∷◌, ℤ, pos, negsuc, ◌+ℤ◌, ◌-ℤ◌, arith, sum_of,
}
use cashfo_backend.Schema.{Context, ok}
use cashfo_backend.Groups.Rows.{Member, MemberStatus, Contribution, Expense, Settlement, GroupDb}
use cashfo_backend.Groups.Split.{times, div_floor}
use cashfo_backend.Groups.Settlement.{
  members_of, SettlementRow, compute_settlement, settlement_of, close_settlement, expenses_of,
  contributions_of,
}
use cashfo_backend.Groups.Records.{create_contribution, delete_member}
use cashfo_backend.Groups.Shares.{compute_settlement-shares}
use cashfo_backend.Groups.Fair.{IsFair, compute_settlement-IsFair}
use cashfo_backend.Groups.Balances.{compute_settlement-balances}
use cashfo_backend.Groups.Links.{IsLinked, delete_member-IsLinked, create_contribution-IsLinked}
use cashfo_backend.Groups.Closing.{IsHistory, close_settlement-IsHistory}
use cashfo_backend.Groups.Requests.{GroupRequest, serve_all, close_settlement-once}

abbrev member : ℕ → MemberStatus → ℕ → Member
member i status created = record {
  id = i;
  business_id = 7;
  name = i;
  phone = none;
  photo_url = none;
  status = status;
  created_at = created;
}

abbrev contribution : ℕ → ℕ → ℤ → Contribution
contribution i m amount = record {
  id = i;
  business_id = 7;
  group_member_id = m;
  amount = amount;
  date = 10;
  note = none;
}

-- Two active members and a former one; 100.01 spent, 80.00 put in and 5.00 of it returned.
abbrev group : GroupDb
group = record {
  members =
      member 2 MemberStatus.active 5
      ∷ member 1 MemberStatus.active 4
      ∷ member 3 MemberStatus.archived 1
      ∷ [];
  contributions =
      contribution 21 1 (pos 6000)
      ∷ contribution 22 3 (pos 2000)
      ∷ contribution 23 1 (negsuc 499)
      ∷ [];
  expenses =
      record {
        id = 31;
        business_id = 7;
        amount = pos 10001;
        date = 12;
        category = 1;
        description = none;
        paid_by_member_id = none;
      }
      ∷ [];
  budgets = [];
  settlements = [];
}

abbrev context : Context
context = record { new_id = 41; now = 100; user_id = 5 }

abbrev rows : List SettlementRow
rows =
    record {
      group_member_id = 1;
      name = 1;
      gross_deposited = pos 6000;
      returned = pos 500;
      contributed = pos 5500;
      share = pos 5000;
      balance = pos 500;
    }
    ∷ record {
      group_member_id = 2;
      name = 2;
      gross_deposited = pos 0;
      returned = pos 0;
      contributed = pos 0;
      share = pos 5001;
      balance = negsuc 5000;
    }
    ∷ record {
      group_member_id = 3;
      name = 3;
      gross_deposited = pos 2000;
      returned = pos 0;
      contributed = pos 2000;
      share = pos 0;
      balance = pos 2000;
    }
    ∷ []

settles_group : (compute_settlement 7 10 12 group).members ≡ rows
unfolding compute_settlement times div_floor ◌+ℤ◌ ◌-ℤ◌
settles_group = refl

compute_settlement-shares_example :
    sum_of (λ (r : SettlementRow). r.share) (compute_settlement 7 10 12 group).members
    ≡ sum_of (λ (e : Expense). e.amount) (expenses_of 7 10 12 group)
unfolding compute_settlement
compute_settlement-shares_example = compute_settlement-shares 7 10 12 group (omega arith)

compute_settlement-IsFair_example : IsFair (1 ∷ 2 ∷ []) (compute_settlement 7 10 12 group)
unfolding compute_settlement members_of
compute_settlement-IsFair_example = compute_settlement-IsFair 7 10 12 group (omega arith)

group-IsLinked : IsLinked group
group-IsLinked = record { unique = (refl, (refl, (refl, tt))); linked = (refl, (refl, (refl, tt))) }

compute_settlement-balances_example :
    sum_of (λ (r : SettlementRow). r.balance) (compute_settlement 7 10 12 group).members
    ≡ sum_of (λ (c : Contribution). c.amount) (contributions_of 7 10 12 group)
      -ℤ sum_of (λ (e : Expense). e.amount) (expenses_of 7 10 12 group)
unfolding compute_settlement
compute_settlement-balances_example =
    compute_settlement-balances 7 10 12 group group-IsLinked.unique group-IsLinked.linked
      (omega arith)

abbrev closed : Settlement
closed = settlement_of context 7 (compute_settlement 7 10 12 group)

abbrev history : GroupDb
history = record group { settlements = closed ∷ [] }

closes_group : close_settlement context 7 10 12 group ≡ ok (closed, history)
unfolding close_settlement compute_settlement
closes_group = refl

group-IsHistory : IsHistory group
group-IsHistory = record { settled = tt; disjoint = tt }

close_settlement-IsHistory_example : IsHistory history
close_settlement-IsHistory_example =
    close_settlement-IsHistory context 7 10 12 group closed history group-IsHistory closes_group

-- A contribution and a refused close come in between.
close_settlement-once_example :
    close_settlement context 7 12 20 (
      serve_all
        (GroupRequest.adds_contribution context 7 1 (pos 100) 11 none
          ∷ GroupRequest.closes context 7 11 11
          ∷ [])
        history)
    ≢ ok (closed, history)
close_settlement-once_example =
    close_settlement-once context context 7 10 12 12 20 group closed history
      (GroupRequest.adds_contribution context 7 1 (pos 100) 11 none
        ∷ GroupRequest.closes context 7 11 11
        ∷ [])
      closed history closes_group (omega arith) (omega arith)

-- Member 3 has put money in, and is archived, as before.
archives_member : delete_member 7 3 group ≡ ok (false, group)
unfolding delete_member
archives_member = refl

delete_member-IsLinked_example : IsLinked group
delete_member-IsLinked_example =
    delete_member-IsLinked 7 3 group false group group-IsLinked archives_member

abbrev with_contribution : GroupDb
with_contribution = record group {
  contributions =
      contribution 21 1 (pos 6000)
      ∷ contribution 22 3 (pos 2000)
      ∷ contribution 23 1 (negsuc 499)
      ∷ contribution 41 2 (pos 100)
      ∷ [];
}

records_contribution :
    create_contribution context 7 2 (pos 100) 10 none group ≡ ok (tt, with_contribution)
unfolding create_contribution
records_contribution = refl

create_contribution-IsLinked_example : IsLinked with_contribution
create_contribution-IsLinked_example =
    create_contribution-IsLinked context 7 2 (pos 100) 10 none group with_contribution
      group-IsLinked records_contribution
