-- ===== src/QuickEntries/Tests.antt =====
-- Runs of the friendly entries on a workspace with two wallets, and their theorems at these runs.
use cashfo_backend.Base.{
  All, ℕ, ◌≡◌, refl, false, none, some, List, [], ◌∷◌, ℤ, pos, ◌+ℤ◌, ◌-ℤ◌, negated, arith, distinct,
  remove_all, ◌==◌, if◌then◌else◌,
}
use cashfo_backend.Schema.{
  AccountType, AccountStatus, AccountSubtype, TransactionType, TransactionStatus, Account,
  Transaction, Context, Db, ok, find_account, with_balance, insert_transaction,
}
use cashfo_backend.Ledger.Balance.{fresh_balance, recalculate_balance}
use cashfo_backend.Ledger.Posting.{
  create_transaction, create_racing, post_seeing, post_new, find_by_key, validate_entry_shape,
  require_accounts_belong_to_business, require_links_belong_to_business,
}
use cashfo_backend.Ledger.Consistency.{IsConsistent}
use cashfo_backend.QuickEntries.Defs.{
  CreateTransfer, CreateExpense, CreateIncome, two_entries, require_money_account,
  require_account_of_type, choose_income_account, get_default_income_account_id, first_in_order,
  create_transfer, create_expense, create_income,
}
use cashfo_backend.Accounts.Pickers.{
  list_money_accounts, list_income_accounts, list_expense_accounts,
}
use cashfo_backend.QuickEntries.Pickable.{pickers-accepted}
use cashfo_backend.QuickEntries.Effects.{create_transfer-moves}
use cashfo_backend.QuickEntries.Spending.{create_expense-moves, create_income-moves}

abbrev wallet : ℕ → AccountSubtype → ℤ → Account
wallet i subtype current = record {
  id = i;
  business_id = 7;
  parent_id = none;
  name = i;
  account_type = AccountType.asset;
  account_subtype = some subtype;
  opening_balance = pos 1000;
  current_balance = current;
  is_system_account = false;
  status = AccountStatus.active;
  display_order = 0;
  created_at = 0;
}

abbrev wallets_with : ℤ → ℤ → List Transaction → Db
wallets_with cash bank rows = record {
  accounts = wallet 1 AccountSubtype.cash cash ∷ wallet 2 AccountSubtype.bank bank ∷ [];
  transactions = rows;
  contacts = [];
  savings_entries = [];
  assets = [];
}

-- 10.00 in each wallet.
abbrev wallets : Db
wallets = wallets_with (pos 1000) (pos 1000) []

abbrev context : Context
context = record { new_id = 11; now = 100; user_id = 5 }

-- 2.50 from the cash to the bank.
abbrev transfer : CreateTransfer
transfer = record {
  from_account_id = 1;
  to_account_id = 2;
  amount = pos 250;
  date = 0;
  description = none;
}

abbrev transfer_row : Transaction
transfer_row = record {
  id = 11;
  business_id = 7;
  transaction_type = TransactionType.transfer;
  transaction_date = 0;
  reference_no = none;
  description = none;
  contact_id = none;
  due_date = none;
  applied_to_transaction_id = none;
  idempotency_key = none;
  created_by = 5;
  created_at = 100;
  status = TransactionStatus.posted;
  voided_at = none;
  voided_reason = none;
  reversal_of_id = none;
  entries = two_entries 2 1 (pos 250) none none none none;
}

abbrev after_transfer : Db
after_transfer = wallets_with (pos 750) (pos 1250) (transfer_row ∷ [])

transfers : create_transfer context 7 transfer wallets ≡ ok (transfer_row, after_transfer)
unfolding create_transfer require_money_account create_transaction create_racing post_seeing
    post_new find_by_key validate_entry_shape require_accounts_belong_to_business
    require_links_belong_to_business insert_transaction recalculate_balance fresh_balance distinct
    remove_all ◌+ℤ◌ ◌-ℤ◌
transfers = refl

wallets-IsConsistent : IsConsistent wallets
unfolding fresh_balance ◌+ℤ◌ ◌-ℤ◌
wallets-IsConsistent = record { cached = λ i. ground arith }

create_transfer-moves_example :
    find_account 1 after_transfer.accounts
    ≡ some (
        with_balance
          (pos 1000 +ℤ (if 2 == 1 then pos 250 else if 1 == 1 then negated (pos 250) else pos 0))
          (wallet 1 AccountSubtype.cash (pos 1000)))
create_transfer-moves_example =
    create_transfer-moves context 7 transfer wallets transfer_row after_transfer 1
      (wallet 1 AccountSubtype.cash (pos 1000)) wallets-IsConsistent transfers refl

pickers-accepted_example :
    All
      (λ a. require_money_account 7 a.id wallets ≡ ok (a, wallets))
      (list_money_accounts 7 wallets)
    × All
        (λ a. require_account_of_type 7 a.id AccountType.income wallets ≡ ok (a, wallets))
        (list_income_accounts 7 wallets)
    × All
        (λ a. require_account_of_type 7 a.id AccountType.expense wallets ≡ ok (a, wallets))
        (list_expense_accounts 7 wallets)
pickers-accepted_example = pickers-accepted 7 wallets (refl, (refl, tt))

abbrev purpose : ℕ → AccountType → ℤ → Account
purpose i ty current = record (wallet i AccountSubtype.cash current) {
  account_type = ty;
  account_subtype = none;
  opening_balance = pos 0;
}

-- A wallet with 10.00, an expense account and an income account.
abbrev shop_with : ℤ → ℤ → ℤ → List Transaction → Db
shop_with cash spent earned rows = record wallets {
  accounts =
      wallet 1 AccountSubtype.cash cash
      ∷ purpose 3 AccountType.expense spent
      ∷ purpose 4 AccountType.income earned
      ∷ [];
  transactions = rows;
}

abbrev shop : Db
shop = shop_with (pos 1000) (pos 0) (pos 0) []

shop-IsConsistent : IsConsistent shop
unfolding fresh_balance ◌+ℤ◌ ◌-ℤ◌
shop-IsConsistent = record { cached = λ i. ground arith }

-- 2.50 are spent.
abbrev bought : CreateExpense
bought = record {
  from_account_id = 1;
  expense_account_id = 3;
  amount = pos 250;
  date = 0;
  description = none;
  category_id = none;
  note = none;
}

abbrev bought_row : Transaction
bought_row = record transfer_row {
  transaction_type = TransactionType.expense;
  entries = two_entries 3 1 (pos 250) none none none none;
}

abbrev after_bought : Db
after_bought = shop_with (pos 750) (pos 250) (pos 0) (bought_row ∷ [])

buys : create_expense context 7 bought shop ≡ ok (bought_row, after_bought)
unfolding create_expense require_money_account require_account_of_type create_transaction
    create_racing post_seeing post_new find_by_key validate_entry_shape
    require_accounts_belong_to_business require_links_belong_to_business insert_transaction
    recalculate_balance fresh_balance distinct remove_all ◌+ℤ◌ ◌-ℤ◌
buys = refl

create_expense-moves_example :
    find_account 1 after_bought.accounts
    ≡ some (
        with_balance
          (pos 1000 +ℤ (if 3 == 1 then pos 250 else if 1 == 1 then negated (pos 250) else pos 0))
          (wallet 1 AccountSubtype.cash (pos 1000)))
create_expense-moves_example =
    create_expense-moves context 7 bought shop bought_row after_bought 1
      (wallet 1 AccountSubtype.cash (pos 1000)) shop-IsConsistent buys refl

-- 2.50 are earned, with no income account named.
abbrev earned : CreateIncome
earned = record {
  to_account_id = 1;
  income_account_id = none;
  amount = pos 250;
  date = 0;
  description = none;
  category_id = none;
  note = none;
}

abbrev earned_row : Transaction
earned_row = record transfer_row {
  transaction_type = TransactionType.income;
  entries = two_entries 1 4 (pos 250) none none none none;
}

abbrev after_earned : Db
after_earned = shop_with (pos 1250) (pos 0) (pos 250) (earned_row ∷ [])

earns : create_income context 7 earned shop ≡ ok (earned_row, after_earned)
unfolding create_income require_money_account choose_income_account get_default_income_account_id
    first_in_order require_account_of_type create_transaction create_racing post_seeing post_new
    find_by_key validate_entry_shape require_accounts_belong_to_business
    require_links_belong_to_business insert_transaction recalculate_balance fresh_balance distinct
    remove_all ◌+ℤ◌ ◌-ℤ◌
earns = refl

create_income-moves_example :
    (source : ℕ) × (choose_income_account 7 none shop ≡ ok (source, shop))
    × (find_account 1 after_earned.accounts
        ≡ some (
            with_balance
              (pos 1000 +ℤ (if 1 == 1 then pos 250 else if source == 1 then pos 250 else pos 0))
              (wallet 1 AccountSubtype.cash (pos 1000))))
create_income-moves_example =
    create_income-moves context 7 earned shop earned_row after_earned 1
      (wallet 1 AccountSubtype.cash (pos 1000)) shop-IsConsistent earns refl
