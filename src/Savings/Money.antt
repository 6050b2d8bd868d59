-- ===== src/Savings/Money.antt =====
-- Money in and out of goals: `addContribution`, `transfer` and `withdraw` of
-- src/savings-goals/savings-goals.service.ts. The locks of `withLocks` change no data.
use cashfo_backend.Base.{
  ℕ, Bool, not, Option, none, some, ℤ, pos, ◌==◌, truthy, ltb_ℤ, leb_ℤ, ◌&&◌, update_unique,
}
use cashfo_backend.Schema.{
  Account, TransactionType, Text, CreateTransaction, Transaction, Context, Action, ◌>>=◌, ◌>>◌,
  pure, throw_if, gets, modify, goal_withdrawn, nothing_saved, short_wallet, short_goal, same_goal,
}
use cashfo_backend.Ledger.Posting.{post}
use cashfo_backend.QuickEntries.Defs.{two_entries, plain_request}
use cashfo_backend.Savings.Rows.{
  GoalStatus, GoalEntryType, Goal, GoalEntry, SavingsDb, is_withdrawn, compute_current_amount,
  on_ledger, add_entry,
}
use cashfo_backend.Savings.Goals.{
  require_goal, require_savings_account, require_expense_account, require_funding_account,
  require_account_that, with_goal_status, maybe_mark_completed,
}

-- `isMoney`, in hundredths: from 0.01 to 999,999,999,999.99.
abbrev pub is_money : ℤ → Bool
is_money value = ltb_ℤ (pos 0) value && leb_ℤ value (pos 99_999_999_999_999)

pub record AddContribution : Type 0 where
  pub money_account_id : ℕ
  pub to_account_id : ℕ
  pub amount : ℤ
  pub date : ℕ
  pub notes : Option ℕ

pub record CreateSavingsTransfer : Type 0 where
  pub from_goal_id : ℕ
  pub to_goal_id : ℕ
  pub amount : ℤ
  pub date : ℕ
  pub notes : Option ℕ

pub record WithdrawSavingsGoal : Type 0 where
  pub savings_account_id : ℕ
  pub expense_account_id : ℕ
  pub category_id : Option ℕ
  pub date : ℕ
  pub notes : Option ℕ

abbrev pub contribution_entry :
    ℕ → ℕ → AddContribution → Account → Account → Transaction → GoalEntry
contribution_entry b goal_id dto from_account savings_account t = record {
  savings_goal_id = goal_id;
  business_id = b;
  entry_type = GoalEntryType.contribution;
  amount = dto.amount;
  date = dto.date;
  money_account_id = some from_account.id;
  savings_account_id = some savings_account.id;
  related_goal_id = none;
  transaction_id = some t.id;
  notes = dto.notes;
}

abbrev pub contribution_request : Goal → AddContribution → Account → Account → CreateTransaction
contribution_request goal dto from_account savings_account =
    plain_request TransactionType.transfer dto.date
      (some (Text.savings_contribution goal.name (truthy dto.notes)))
      (two_entries savings_account.id from_account.id dto.amount none none none none)

-- The part under the goal's lock.
unfoldable pub contribute :
    Context → ℕ → ℕ → AddContribution → Account → Account → Action SavingsDb GoalEntry
unfolding require_goal on_ledger
contribute ctx b goal_id dto from_account savings_account = do
  goal ← require_goal b goal_id
  throw_if (is_withdrawn goal.status) goal_withdrawn
  transaction ← on_ledger (post ctx b (contribution_request goal dto from_account savings_account))
  modify (add_entry (contribution_entry b goal_id dto from_account savings_account transaction))
  pure (contribution_entry b goal_id dto from_account savings_account transaction)

unfoldable pub add_contribution : Context → ℕ → ℕ → AddContribution → Action SavingsDb GoalEntry
unfolding require_goal require_account_that contribute maybe_mark_completed
add_contribution ctx b goal_id dto = do
  require_goal b goal_id
  from_account ← require_funding_account b dto.money_account_id
  savings_account ← require_savings_account b dto.to_account_id
  entry ← contribute ctx b goal_id dto from_account savings_account
  goal ← require_goal b goal_id
  maybe_mark_completed goal
  pure entry

abbrev pub transfer_entry : ℕ → ℕ → GoalEntryType → ℕ → CreateSavingsTransfer → GoalEntry
transfer_entry b goal_id ty related_goal_id dto = record {
  savings_goal_id = goal_id;
  business_id = b;
  entry_type = ty;
  amount = dto.amount;
  date = dto.date;
  money_account_id = none;
  savings_account_id = none;
  related_goal_id = some related_goal_id;
  transaction_id = none;
  notes = dto.notes;
}

abbrev pub move_saved : ℕ → Goal → Goal → CreateSavingsTransfer → SavingsDb → SavingsDb
move_saved b from_goal to_goal dto db =
    add_entry (transfer_entry b to_goal.id GoalEntryType.transfer_in from_goal.id dto)
      (add_entry (transfer_entry b from_goal.id GoalEntryType.transfer_out to_goal.id dto) db)

unfoldable pub transfer : ℕ → CreateSavingsTransfer → Action SavingsDb (Unit {0})
unfolding require_goal maybe_mark_completed
transfer b dto = do
  throw_if (dto.from_goal_id == dto.to_goal_id) same_goal
  from_goal ← require_goal b dto.from_goal_id
  to_goal ← require_goal b dto.to_goal_id
  throw_if (is_withdrawn to_goal.status) goal_withdrawn
  from_current ← gets (λ db. compute_current_amount from_goal.id db.entries)
  throw_if (ltb_ℤ from_current dto.amount) short_goal
  modify (move_saved b from_goal to_goal dto)
  maybe_mark_completed to_goal

abbrev pub withdrawal_entry : ℕ → ℕ → WithdrawSavingsGoal → ℤ → Account → Transaction → GoalEntry
withdrawal_entry b goal_id dto amount savings_account t = record {
  savings_goal_id = goal_id;
  business_id = b;
  entry_type = GoalEntryType.withdrawal;
  amount = amount;
  date = dto.date;
  money_account_id = none;
  savings_account_id = some savings_account.id;
  related_goal_id = none;
  transaction_id = some t.id;
  notes = dto.notes;
}

abbrev pub withdrawal_request :
    Goal → WithdrawSavingsGoal → ℤ → Account → Account → CreateTransaction
withdrawal_request goal dto amount savings_account expense_account =
    plain_request TransactionType.expense dto.date
      (some (Text.savings_withdrawal goal.name (truthy dto.notes)))
      (two_entries expense_account.id savings_account.id amount dto.category_id dto.notes none none)

abbrev pub mark_withdrawn : ℕ → SavingsDb → SavingsDb
mark_withdrawn i db = record db {
  goals = update_unique (λ g. g.id) i (with_goal_status GoalStatus.withdrawn) db.goals;
}

unfoldable pub withdraw : Context → ℕ → ℕ → WithdrawSavingsGoal → Action SavingsDb GoalEntry
unfolding require_goal require_account_that on_ledger
withdraw ctx b goal_id dto = do
  goal ← require_goal b goal_id
  throw_if (is_withdrawn goal.status) goal_withdrawn
  current_amount ← gets (λ db. compute_current_amount goal.id db.entries)
  throw_if (not (ltb_ℤ (pos 0) current_amount)) nothing_saved
  savings_account ← require_savings_account b dto.savings_account_id
  throw_if (ltb_ℤ savings_account.current_balance current_amount) short_wallet
  expense_account ← require_expense_account b dto.expense_account_id
  transaction ←
      on_ledger
        (post ctx b (withdrawal_request goal dto current_amount savings_account expense_account))
  modify (add_entry (withdrawal_entry b goal_id dto current_amount savings_account transaction))
  modify (mark_withdrawn goal_id)
  pure (withdrawal_entry b goal_id dto current_amount savings_account transaction)
