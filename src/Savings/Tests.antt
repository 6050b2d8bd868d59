-- ===== src/Savings/Tests.antt =====
-- Runs of the savings goals on a workspace with two goals, and their theorems at these runs.
use cashfo_backend.Base.{
  ℕ, ap, negated, false, ◌≡◌, ◌≢◌, refl, Option, none, some, List, [], ◌∷◌, ℤ, pos, ◌+ℤ◌, ◌-ℤ◌,
  ◌≤ℤ◌, arith, distinct, remove_all, ◌==◌, if◌then◌else◌,
}
use cashfo_backend.Schema.{
  AccountType, AccountStatus, AccountSubtype, TransactionType, TransactionStatus, Text, Account,
  Entry, Transaction, SavingsLink, Context, Db, Result, ok, err, insert_transaction, find_account,
  with_balance,
}
use cashfo_backend.Ledger.Balance.{fresh_balance, recalculate_balance}
use cashfo_backend.Ledger.Posting.{
  post, post_seeing, post_new, find_by_key, validate_entry_shape,
  require_accounts_belong_to_business, require_links_belong_to_business,
}
use cashfo_backend.Ledger.Consistency.{IsConsistent}
use cashfo_backend.QuickEntries.Defs.{two_entries}
use cashfo_backend.Savings.Rows.{
  GoalStatus, GoalEntryType, Goal, GoalEntry, SavingsDb, compute_current_amount, on_ledger,
}
use cashfo_backend.Savings.Goals.{require_goal, require_account_that, maybe_mark_completed}
use cashfo_backend.Savings.Money.{
  AddContribution, CreateSavingsTransfer, WithdrawSavingsGoal, contribute, add_contribution,
  transfer, withdraw,
}
use cashfo_backend.Savings.Saved.{saved, shifted, transfer-moves}
use cashfo_backend.Savings.Withdrawing.{withdraw-empties, withdraw-once}
use cashfo_backend.Savings.Solvent.{IsSolvent, SavingsRequest, serve, serve-IsSolvent}

abbrev account : ℕ → AccountType → Option AccountSubtype → ℤ → ℤ → Account
account i ty subtype opening current = record {
  id = i;
  business_id = 7;
  parent_id = none;
  name = i;
  account_type = ty;
  account_subtype = subtype;
  opening_balance = opening;
  current_balance = current;
  is_system_account = false;
  status = AccountStatus.active;
  display_order = 0;
  created_at = 0;
}

abbrev ledger_of : ℤ → ℤ → ℤ → List Transaction → List SavingsLink → Db
ledger_of cash wallet spent rows links = record {
  accounts =
      account 1 AccountType.asset (some AccountSubtype.cash) (pos 1000) cash
      ∷ account 2 AccountType.asset (some AccountSubtype.savings) (pos 0) wallet
      ∷ account 3 AccountType.expense none (pos 0) spent
      ∷ [];
  transactions = rows;
  contacts = [];
  savings_entries = links;
  assets = [];
}

abbrev goal : ℕ → ℤ → GoalStatus → Goal
goal i target status = record {
  id = i;
  business_id = 7;
  name = i;
  target_amount = target;
  target_date = 0;
  duration_months = 3;
  status = status;
}

-- Two goals, of 4.00 and of 1.00, with nothing saved; 10.00 in cash.
abbrev start : SavingsDb
start = record {
  ledger = ledger_of (pos 1000) (pos 0) (pos 0) [] [];
  goals = goal 21 (pos 400) GoalStatus.active ∷ goal 22 (pos 100) GoalStatus.active ∷ [];
  entries = [];
}

abbrev context : ℕ → Context
context i = record { new_id = i; now = 100; user_id = 5 }

abbrev row : ℕ → TransactionType → Text → List Entry → Transaction
row i ty text entries = record {
  id = i;
  business_id = 7;
  transaction_type = ty;
  transaction_date = 9;
  reference_no = none;
  description = some text;
  contact_id = none;
  due_date = none;
  applied_to_transaction_id = none;
  idempotency_key = none;
  created_by = 5;
  created_at = 100;
  status = TransactionStatus.posted;
  voided_at = none;
  voided_reason = none;
  reversal_of_id = none;
  entries = entries;
}

-- 3.00 into the first goal.
abbrev contribution : AddContribution
contribution = record {
  money_account_id = 1;
  to_account_id = 2;
  amount = pos 300;
  date = 9;
  notes = none;
}

abbrev goal_entry : ℕ → GoalEntryType → ℤ → Option ℕ → Option ℕ → Option ℕ → Option ℕ → GoalEntry
goal_entry i ty amount money wallet related t = record {
  savings_goal_id = i;
  business_id = 7;
  entry_type = ty;
  amount = amount;
  date = 9;
  money_account_id = money;
  savings_account_id = wallet;
  related_goal_id = related;
  transaction_id = t;
  notes = none;
}

abbrev contributed_row : Transaction
contributed_row =
    row 11 TransactionType.transfer (Text.savings_contribution 21 none)
      (two_entries 2 1 (pos 300) none none none none)

abbrev contributed_entry : GoalEntry
contributed_entry =
    goal_entry 21 GoalEntryType.contribution (pos 300) (some 1) (some 2) none (some 11)

abbrev contributed : SavingsDb
contributed = record {
  ledger =
      ledger_of (pos 700) (pos 300) (pos 0) (contributed_row ∷ [])
        (record { transaction_id = some 11 } ∷ []);
  goals = start.goals;
  entries = contributed_entry ∷ [];
}

contributes :
    add_contribution (context 11) 7 21 contribution start ≡ ok (contributed_entry, contributed)
unfolding add_contribution require_goal require_account_that contribute maybe_mark_completed
    on_ledger post post_seeing post_new find_by_key validate_entry_shape
    require_accounts_belong_to_business require_links_belong_to_business insert_transaction
    recalculate_balance fresh_balance distinct remove_all compute_current_amount ◌+ℤ◌ ◌-ℤ◌
contributes = refl

-- 1.00 of it goes on to the second goal, which is complete with it.
abbrev between : CreateSavingsTransfer
between = record { from_goal_id = 21; to_goal_id = 22; amount = pos 100; date = 9; notes = none }

abbrev moved : SavingsDb
moved = record {
  ledger = ledger_of (pos 700) (pos 300) (pos 0) (contributed_row ∷ []) (
      record { transaction_id = some 11 }
      ∷ record { transaction_id = none }
      ∷ record { transaction_id = none }
      ∷ []);
  goals = goal 21 (pos 400) GoalStatus.active ∷ goal 22 (pos 100) GoalStatus.completed ∷ [];
  entries =
      contributed_entry
      ∷ goal_entry 21 GoalEntryType.transfer_out (pos 100) none none (some 22) none
      ∷ goal_entry 22 GoalEntryType.transfer_in (pos 100) none none (some 21) none
      ∷ [];
}

moves : transfer 7 between contributed ≡ ok (tt, moved)
unfolding transfer require_goal maybe_mark_completed compute_current_amount ◌+ℤ◌ ◌-ℤ◌
moves = refl

transfer-moves_example :
    (saved 21 moved ≡ saved 21 contributed +ℤ shifted between 21)
    × (pos 100 ≤ℤ saved 21 contributed)
    × (moved.ledger.accounts ≡ contributed.ledger.accounts)
    × (moved.ledger.transactions ≡ contributed.ledger.transactions)
transfer-moves_example = transfer-moves 7 between contributed moved 21 moves

-- The first goal is paid out.
abbrev payment : WithdrawSavingsGoal
payment = record {
  savings_account_id = 2;
  expense_account_id = 3;
  category_id = none;
  date = 9;
  notes = none;
}

abbrev paid_entry : GoalEntry
paid_entry = goal_entry 21 GoalEntryType.withdrawal (pos 300) none (some 2) none (some 12)

abbrev paid : SavingsDb
paid = record {
  ledger =
      ledger_of (pos 700) (pos 0) (pos 300)
        (contributed_row
          ∷ row 12 TransactionType.expense (Text.savings_withdrawal 21 none)
              (two_entries 3 2 (pos 300) none none none none)
          ∷ [])
        (record { transaction_id = some 11 } ∷ record { transaction_id = some 12 } ∷ []);
  goals = goal 21 (pos 400) GoalStatus.withdrawn ∷ goal 22 (pos 100) GoalStatus.active ∷ [];
  entries = contributed_entry ∷ paid_entry ∷ [];
}

pays : withdraw (context 12) 7 21 payment contributed ≡ ok (paid_entry, paid)
unfolding withdraw require_goal require_account_that on_ledger post post_seeing post_new find_by_key
    validate_entry_shape require_accounts_belong_to_business require_links_belong_to_business
    insert_transaction recalculate_balance fresh_balance distinct remove_all compute_current_amount
    ◌+ℤ◌ ◌-ℤ◌
pays = refl

abbrev savings_wallet : Account
savings_wallet = account 2 AccountType.asset (some AccountSubtype.savings) (pos 0) (pos 300)

contributed-IsConsistent : IsConsistent contributed.ledger
unfolding fresh_balance ◌+ℤ◌ ◌-ℤ◌
contributed-IsConsistent = record { cached = λ i. ground arith }

withdraw-empties_example :
    (pos 300 ≡ saved 21 contributed)
    × (saved 22 paid ≡ (if 21 == 22 then pos 0 else saved 22 contributed))
    × (find_account 2 paid.ledger.accounts
        ≡ some (
            with_balance
              (pos 300
                +ℤ (if 3 == 2
                    then saved 21 contributed
                    else if 2 == 2
                    then negated (saved 21 contributed)
                    else pos 0))
              savings_wallet))
withdraw-empties_example =
    withdraw-empties (context 12) 7 21 payment contributed paid_entry paid 22 2 savings_wallet
      contributed-IsConsistent pays refl

withdraw-once_example : withdraw (context 13) 7 21 payment paid ≢ ok (paid_entry, paid)
withdraw-once_example =
    withdraw-once (context 12) (context 13) 7 7 21 payment payment contributed paid_entry paid paid
      paid_entry paid pays refl

start-IsSolvent : IsSolvent start
unfolding compute_current_amount fresh_balance ◌+ℤ◌ ◌-ℤ◌
start-IsSolvent = record {
  not_negative = λ i. ground arith;
  sound = record {
    consistent = record { cached = λ i. ground arith };
    double_entry = tt;
    unique_keys = tt;
  };
}

serves :
    serve (context 11) 7 (SavingsRequest.contribution_made 21 contribution) start
    ≡ ok (tt, contributed)
serves =
    ap
      (λ (r : Result (GoalEntry × SavingsDb)). elim r as (λ x. Result (Unit {0} × SavingsDb)) [
        | ok (e, s) ↦ ok (tt, s)
        | err x ↦ err x
      ])
      contributes

serve-IsSolvent_example : IsSolvent contributed
serve-IsSolvent_example =
    serve-IsSolvent (context 11) 7 (SavingsRequest.contribution_made 21 contribution) start
      contributed refl start-IsSolvent serves
