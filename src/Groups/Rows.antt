-- ===== src/Groups/Rows.antt =====
-- The tables of the group expenses (prisma/schema.prisma), with amounts as the columns keep them,
-- rounded to hundredths. A date is a time at UTC midnight; names and notes are numbers that are only
-- stored or compared.
use cashfo_backend.Base.{ℕ, Bool, true, false, Option, List, ℤ}

pub data MemberStatus : Type 0 where
  active archived : MemberStatus

pub record Member : Type 0 where
  pub id : ℕ
  pub business_id : ℕ
  pub name : ℕ
  pub phone : Option ℕ
  pub photo_url : Option ℕ
  pub status : MemberStatus
  pub created_at : ℕ

pub record Contribution : Type 0 where
  pub id : ℕ
  pub business_id : ℕ
  pub group_member_id : ℕ
  pub amount : ℤ
  pub date : ℕ
  pub note : Option ℕ

pub record Expense : Type 0 where
  pub id : ℕ
  pub business_id : ℕ
  pub amount : ℤ
  pub date : ℕ
  pub category : ℕ
  pub description : Option ℕ
  pub paid_by_member_id : Option ℕ

pub record MonthBudget : Type 0 where
  pub id : ℕ
  pub business_id : ℕ
  pub month : ℕ
  pub year : ℕ
  pub budget_amount : ℤ

pub record SettlementMember : Type 0 where
  pub group_member_id : ℕ
  pub contributed : ℤ
  pub share : ℤ
  pub balance : ℤ

pub record Settlement : Type 0 where
  pub id : ℕ
  pub business_id : ℕ
  pub period_start : ℕ
  pub period_end : ℕ
  pub total_expense : ℤ
  pub member_count : ℕ
  pub per_member_share : ℤ
  pub closed_by : ℕ
  pub members : List SettlementMember

pub record GroupDb : Type 0 where
  pub members : List Member
  pub contributions : List Contribution
  pub expenses : List Expense
  pub budgets : List MonthBudget
  pub settlements : List Settlement

abbrev pub is_active : Member → Bool
is_active m = elim m.status [ MemberStatus.active ↦ true | MemberStatus.archived ↦ false ]
