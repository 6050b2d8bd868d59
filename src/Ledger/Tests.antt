-- ===== src/Ledger/Tests.antt =====
-- Runs of the ledger on a small workspace, and its theorems at these runs.
use cashfo_backend.Base.{
  ℕ, ◌≡◌, ◌≢◌, refl, false, Option, none, some, [], ◌∷◌, ◌++◌, ℤ, pos, ◌+ℤ◌, ◌-ℤ◌, arith, distinct,
  remove_all,
}
use cashfo_backend.Schema.{
  AccountType, AccountStatus, AccountSubtype, EntryType, TransactionType, TransactionStatus, Text,
  Account, Entry, Transaction, CreateTransaction, Context, Db, ok, find_account, with_balance,
  insert_transaction,
}
use cashfo_backend.Ledger.Balance.{fresh_balance, recalculate_balance}
use cashfo_backend.Ledger.Posting.{
  create_transaction, create_racing, post_seeing, post_new, find_by_key, validate_entry_shape,
  require_accounts_belong_to_business, require_links_belong_to_business, replay, retry_on_violation,
}
use cashfo_backend.Ledger.Voiding.{
  void_transaction, void_seeing, require_not_owned_by_a_feature, claim, dhaka_date_only,
}
use cashfo_backend.Ledger.Deltas.{delta}
use cashfo_backend.Ledger.Consistency.{IsConsistent}
use cashfo_backend.Ledger.Later.{Step, Later}
use cashfo_backend.Ledger.Standing.{as_it_stands}
use cashfo_backend.Ledger.Once.{create_transaction-repeat, create_racing-loser}
use cashfo_backend.Ledger.Invariant.{IsSound, create_racing-IsSound, void_seeing-IsSound}
use cashfo_backend.Ledger.Undo.{create_transaction-moves, post-void-restores}
use cashfo_backend.Ledger.Finality.{void_seeing-once}

abbrev account : ℕ → AccountType → Option AccountSubtype → ℤ → ℤ → Account
account i ty sub opening current = record {
  id = i;
  business_id = 7;
  parent_id = none;
  name = 1;
  account_type = ty;
  account_subtype = sub;
  opening_balance = opening;
  current_balance = current;
  is_system_account = false;
  status = AccountStatus.active;
  display_order = 0;
  created_at = 0;
}

abbrev entry : ℕ → EntryType → ℕ → Entry
entry i ty n = record {
  account_id = i;
  entry_type = ty;
  amount = pos n;
  category_id = none;
  note = none;
}

abbrev wallet : Account
wallet = account 1 AccountType.asset (some AccountSubtype.cash) (pos 1000) (pos 1000)

-- A wallet with 10.00 and an income account.
abbrev start : Db
start = record {
  accounts =
      account 1 AccountType.asset (some AccountSubtype.cash) (pos 1000) (pos 1000)
      ∷ account 2 AccountType.income none (pos 0) (pos 0)
      ∷ [];
  transactions = [];
  contacts = [];
  savings_entries = [];
  assets = [];
}

abbrev context : ℕ → Context
context i = record { new_id = i; now = 100_000_000; user_id = 5 }

-- An income of 2.50 under the idempotency key 77.
abbrev income : CreateTransaction
income = record {
  transaction_type = TransactionType.income;
  transaction_date = 0;
  description = none;
  reference_no = none;
  contact_id = none;
  due_date = none;
  applied_to_transaction_id = none;
  entries = entry 1 EntryType.debit 250 ∷ entry 2 EntryType.credit 250 ∷ [];
  idempotency_key = some 77;
}

abbrev first_row : Transaction
first_row = record {
  id = 11;
  business_id = 7;
  transaction_type = TransactionType.income;
  transaction_date = 0;
  reference_no = none;
  description = none;
  contact_id = none;
  due_date = none;
  applied_to_transaction_id = none;
  idempotency_key = some 77;
  created_by = 5;
  created_at = 100_000_000;
  status = TransactionStatus.posted;
  voided_at = none;
  voided_reason = none;
  reversal_of_id = none;
  entries = entry 1 EntryType.debit 250 ∷ entry 2 EntryType.credit 250 ∷ [];
}

abbrev after_income : Db
after_income = record start {
  accounts =
      account 1 AccountType.asset (some AccountSubtype.cash) (pos 1000) (pos 1250)
      ∷ account 2 AccountType.income none (pos 0) (pos 250)
      ∷ [];
  transactions = first_row ∷ [];
}

posts_income : create_transaction (context 11) 7 income start ≡ ok (first_row, after_income)
unfolding create_transaction create_racing post_seeing post_new find_by_key validate_entry_shape
    require_accounts_belong_to_business require_links_belong_to_business insert_transaction
    recalculate_balance fresh_balance distinct remove_all ◌+ℤ◌ ◌-ℤ◌
posts_income = refl

-- The void of that income on the second day of 1970, at 03:46 in Dhaka.
abbrev reversal : Transaction
reversal = record {
  id = 12;
  business_id = 7;
  transaction_type = TransactionType.income;
  transaction_date = 86_400_000;
  reference_no = none;
  description = some (Text.reversal_of (Text.id_text 11));
  contact_id = none;
  due_date = none;
  applied_to_transaction_id = none;
  idempotency_key = none;
  created_by = 5;
  created_at = 100_000_000;
  status = TransactionStatus.posted;
  voided_at = none;
  voided_reason = none;
  reversal_of_id = some 11;
  entries = entry 1 EntryType.credit 250 ∷ entry 2 EntryType.debit 250 ∷ [];
}

abbrev after_void : Db
after_void = record start {
  accounts = start.accounts;
  transactions =
      record first_row {
        status = TransactionStatus.voided;
        voided_at = some 100_000_000;
        voided_reason = some 3;
      }
      ∷ reversal
      ∷ [];
}

voids_income : void_transaction (context 12) 7 11 3 after_income ≡ ok ((11, reversal), after_void)
unfolding void_transaction void_seeing require_not_owned_by_a_feature claim dhaka_date_only
    insert_transaction recalculate_balance fresh_balance distinct remove_all ◌+ℤ◌ ◌-ℤ◌
voids_income = refl

start-IsConsistent : IsConsistent start
unfolding fresh_balance ◌+ℤ◌ ◌-ℤ◌
start-IsConsistent = record { cached = λ i. ground arith }

start-IsSound : IsSound start
start-IsSound = record { consistent = start-IsConsistent; double_entry = tt; unique_keys = tt }

create_racing-IsSound_example : IsSound after_income
unfolding create_transaction
create_racing-IsSound_example =
    create_racing-IsSound [] (context 11) 7 income start first_row after_income start-IsSound
      posts_income

-- The void of the income comes in between: the repeat is answered with the voided row.
void_between : Later after_income after_void
unfolding void_transaction
void_between =
    Later.after
      (Step.voids after_income.transactions (context 12) 7 11 3 11 reversal refl voids_income)
      Later.at_once

create_transaction-repeat_example :
    (u : Transaction) × (u ≡ as_it_stands u first_row)
    × (create_transaction (context 13) 7 income after_void ≡ ok (u, after_void))
create_transaction-repeat_example =
    create_transaction-repeat (context 11) (context 13) 7 77 income income start first_row
      after_income refl refl posts_income after_void void_between

-- A second request with the key of the first, which looked the key up before the first committed.
loses_race : create_racing [] (context 13) 7 income after_income ≡ ok (first_row, after_income)
unfolding create_racing post_seeing post_new find_by_key validate_entry_shape replay
    retry_on_violation require_accounts_belong_to_business require_links_belong_to_business
    insert_transaction distinct remove_all ◌+ℤ◌
loses_race = refl

nothing_seen : find_by_key income [] ≡ none
unfolding find_by_key
nothing_seen = refl

create_racing-loser_example :
    ◌≡◌ {A = Transaction × Db} (first_row, after_income) (first_row, after_income)
create_racing-loser_example =
    create_racing-loser (context 11) (context 13) 7 77 income income start first_row after_income
      refl refl posts_income [] first_row after_income nothing_seen loses_race

after_income-IsSound : IsSound after_income
unfolding create_transaction
after_income-IsSound =
    create_racing-IsSound [] (context 11) 7 income start first_row after_income start-IsSound
      posts_income

void_seeing-IsSound_example : IsSound after_void
unfolding void_transaction
void_seeing-IsSound_example =
    void_seeing-IsSound after_income.transactions (context 12) 7 11 3 after_income (11, reversal)
      after_void after_income-IsSound after_income-IsSound.double_entry voids_income

create_transaction-moves_example :
    (after_income.transactions ≡ [] ++ first_row ∷ [])
    × (first_row.entries ≡ income.entries)
    × (find_account 1 after_income.accounts
        ≡ some (with_balance (wallet.current_balance +ℤ delta wallet income.entries) wallet))
create_transaction-moves_example =
    create_transaction-moves (context 11) 7 income start first_row after_income 1 wallet
      start-IsConsistent nothing_seen posts_income refl

post-void-restores_example : find_account 1 after_void.accounts ≡ find_account 1 start.accounts
post-void-restores_example =
    post-void-restores (context 11) (context 12) 7 3 income start first_row after_income
      (11, reversal) after_void start-IsConsistent nothing_seen refl posts_income voids_income 1

-- A posting under another key comes in between.
abbrev later_income : CreateTransaction
later_income = record income { idempotency_key = some 78 }

abbrev later_row : Transaction
later_row = record first_row { id = 14; idempotency_key = some 78 }

abbrev after_later : Db
after_later = record after_income { transactions = after_void.transactions ++ later_row ∷ [] }

posts_later :
    create_transaction (context 14) 7 later_income after_void ≡ ok (later_row, after_later)
unfolding create_transaction create_racing post_seeing post_new find_by_key validate_entry_shape
    require_accounts_belong_to_business require_links_belong_to_business insert_transaction
    recalculate_balance fresh_balance distinct remove_all ◌+ℤ◌ ◌-ℤ◌
posts_later = refl

posting_between : Later after_void after_later
unfolding create_transaction
posting_between =
    Later.after
      (Step.posts after_void.transactions (context 14) 7 later_income later_row refl posts_later)
      Later.at_once

void_seeing-once_example :
    void_seeing after_income.transactions (context 13) 7 11 4 after_later
    ≢ ok ((11, reversal), after_later)
unfolding void_transaction
void_seeing-once_example =
    void_seeing-once after_income.transactions after_income.transactions (context 12) (context 13) 7
      7 11 3 4 after_income (11, reversal) after_void after_later (11, reversal) after_later refl
      voids_income posting_between
