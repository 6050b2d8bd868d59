-- ===== src/Savings/Rows.antt =====
-- The tables of the savings goals (prisma/schema.prisma), beside the ledger, and the saved amount
-- of a goal. An entry of a goal has no id of its own, since nothing reads one.
use cashfo_backend.Base.{
  ℕ, Bool, true, false, Option, List, [], ◌∷◌, ◌++◌, ℤ, pos, negated, ◌==◌, ◌&&◌, if◌then◌else◌,
  sum_of,
}
use cashfo_backend.Schema.{Db, Tx, Action, ok, err}

pub data GoalStatus : Type 0 where
  active paused completed withdrawn : GoalStatus

pub data GoalEntryType : Type 0 where
  contribution transfer_out transfer_in withdrawal : GoalEntryType

pub record Goal : Type 0 where
  pub id : ℕ
  pub business_id : ℕ
  pub name : ℕ
  pub target_amount : ℤ
  pub target_date : ℕ
  pub duration_months : ℕ
  pub status : GoalStatus

pub record GoalEntry : Type 0 where
  pub savings_goal_id : ℕ
  pub business_id : ℕ
  pub entry_type : GoalEntryType
  pub amount : ℤ
  pub date : ℕ
  pub money_account_id : Option ℕ
  pub savings_account_id : Option ℕ
  pub related_goal_id : Option ℕ
  pub transaction_id : Option ℕ
  pub notes : Option ℕ

pub record SavingsDb : Type 0 where
  pub ledger : Db
  pub goals : List Goal
  pub entries : List GoalEntry

abbrev pub is_withdrawn : GoalStatus → Bool
is_withdrawn GoalStatus.withdrawn = true
is_withdrawn _ = false

-- `status: { in: ['ACTIVE', 'PAUSED'] }`
abbrev pub is_open : GoalStatus → Bool
is_open GoalStatus.active = true
is_open GoalStatus.paused = true
is_open _ = false

abbrev pub type_index : GoalEntryType → ℕ
type_index GoalEntryType.contribution = 0
type_index GoalEntryType.transfer_out = 1
type_index GoalEntryType.transfer_in = 2
type_index GoalEntryType.withdrawal = 3

abbrev pub is_outgoing : GoalEntryType → Bool
is_outgoing GoalEntryType.transfer_out = true
is_outgoing GoalEntryType.withdrawal = true
is_outgoing _ = false

-- One row of the `groupBy`. A type with no entries has none, and adds nothing.
abbrev pub grouped_sum : ℕ → GoalEntryType → List GoalEntry → ℤ
grouped_sum i ty = sum_of (λ (e : GoalEntry).
    if e.savings_goal_id == i && type_index e.entry_type == type_index ty then e.amount else pos 0)

abbrev pub signed_sum : ℕ → List GoalEntry → GoalEntryType → ℤ
signed_sum i es ty = if is_outgoing ty then negated (grouped_sum i ty es) else grouped_sum i ty es

unfoldable pub compute_current_amount : ℕ → List GoalEntry → ℤ
compute_current_amount goal_id es = sum_of (signed_sum goal_id es) (
    GoalEntryType.contribution ∷ GoalEntryType.transfer_out ∷ GoalEntryType.transfer_in
    ∷ GoalEntryType.withdrawal ∷ [])

-- A step of the ledger in the same database transaction.
unfoldable pub on_ledger : {A : Type 0} → Tx A → Action SavingsDb A
on_ledger m db = elim (m db.ledger) [
  | ok (a, ledger) ↦ ok (a, record db { ledger = ledger })
  | err e ↦ err e
]

abbrev pub link_entry : GoalEntry → Db → Db
link_entry e ledger = record ledger {
  savings_entries = ledger.savings_entries ++ record { transaction_id = e.transaction_id } ∷ [];
}

-- `savingsGoalEntry.create`; the ledger's guard reads the link to the posting.
abbrev pub add_entry : GoalEntry → SavingsDb → SavingsDb
add_entry e db = record {
  ledger = link_entry e db.ledger;
  goals = db.goals;
  entries = db.entries ++ e ∷ [];
}
