-- ===== src/Statements/Tests.antt =====
-- The ledger of an account and the check of the cached balances on a small workspace.
use cashfo_backend.Base.{
  ℕ, true, ◌≡◌, refl, ◌↔◌, false, none, some, List, [], ◌∷◌, ℤ, pos, ◌+ℤ◌, ◌-ℤ◌, ◌*◌, arith, take,
  drop, insert_by, sort_by,
}
use cashfo_backend.Schema.{
  AccountType, AccountStatus, EntryType, TransactionType, TransactionStatus, Account, Transaction,
  Db, ok, find_account,
}
use cashfo_backend.Ledger.Balance.{fresh_balance}
use cashfo_backend.Ledger.Invariant.{IsSound}
use cashfo_backend.Ledger.Settling.{refresh}
use cashfo_backend.QuickEntries.Defs.{two_entries}
use cashfo_backend.Base.{distinct, remove_all}
use cashfo_backend.Schema.{Context, insert_transaction}
use cashfo_backend.Ledger.Balance.{recalculate_balance}
use cashfo_backend.Ledger.Voiding.{
  mark_voided, reversal_row, void_transaction, void_seeing, require_not_owned_by_a_feature, claim,
  dhaka_date_only,
}
use cashfo_backend.Statements.Summary.{AccountSummary, get_account_summary}
use cashfo_backend.Statements.InOut.{no_dates, fallen, get_account_summary-balances}
use cashfo_backend.Statements.Fallen.{void_transaction-fallen}
use cashfo_backend.Statements.Defs.{
  Ties, LedgerRow, LedgerPage, add_deltas, brought_forward, running_rows, closing_of, lines_between,
  ledger_page, get_ledger,
}
use cashfo_backend.Statements.Pages.{paged, get_ledger-pages}
use cashfo_backend.Statements.Closing.{since, get_ledger-closing}
use cashfo_backend.Statements.Reconcile.{Reconciliation, reconcile_workspace}
use cashfo_backend.Statements.Repairs.{reconcile_workspace-repairs}

abbrev account : ℕ → AccountType → ℤ → ℤ → Account
account i ty opening current = record {
  id = i;
  business_id = 7;
  parent_id = none;
  name = i;
  account_type = ty;
  account_subtype = none;
  opening_balance = opening;
  current_balance = current;
  is_system_account = false;
  status = AccountStatus.active;
  display_order = 0;
  created_at = 0;
}

-- An income on a day.
abbrev income : ℕ → ℕ → ℕ → Transaction
income i day amount = record {
  id = i;
  business_id = 7;
  transaction_type = TransactionType.income;
  transaction_date = day;
  reference_no = none;
  description = none;
  contact_id = none;
  due_date = none;
  applied_to_transaction_id = none;
  idempotency_key = none;
  created_by = 5;
  created_at = 100;
  status = TransactionStatus.posted;
  voided_at = none;
  voided_reason = none;
  reversal_of_id = none;
  entries = two_entries 1 2 (pos amount) none none none none;
}

-- A wallet that was opened with 10.00 and had two incomes, with the cache of the wallet given.
abbrev workspace : ℤ → Db
workspace cached = record {
  accounts =
      account 1 AccountType.asset (pos 1000) cached
      ∷ account 2 AccountType.income (pos 0) (pos 350)
      ∷ [];
  transactions = income 11 20 100 ∷ income 12 10 250 ∷ [];
  contacts = [];
  savings_entries = [];
  assets = [];
}

abbrev sound_workspace : Db
sound_workspace = workspace (pos 1350)

workspace-IsSound : IsSound sound_workspace
unfolding fresh_balance ◌+ℤ◌ ◌-ℤ◌
workspace-IsSound = record {
  consistent = record { cached = λ i. ground arith };
  double_entry = (
    record {
      long_enough = omega arith;
      positive = (ground arith, (ground arith, tt));
      balanced = refl;
    },
    (
      record {
        long_enough = omega arith;
        positive = (ground arith, (ground arith, tt));
        balanced = refl;
      },
      tt,
    ),
  );
  unique_keys = ground arith;
}

abbrev row : ℕ → ℕ → ℕ → ℕ → LedgerRow
row i day amount running = record {
  transaction_id = i;
  transaction_type = TransactionType.income;
  date = day;
  description = none;
  reference_no = none;
  entry_type = EntryType.debit;
  amount = pos amount;
  transaction_status = TransactionStatus.posted;
  running_balance = pos running;
}

abbrev wallet : Account
wallet = account 1 AccountType.asset (pos 1000) (pos 1350)

abbrev page_with : ℤ → List LedgerRow → ℕ → ℕ → ℕ → ℕ → LedgerPage
page_with start rows page limit total total_pages = record {
  account_id = 1;
  account_name = 1;
  opening_balance = pos 1000;
  balance_brought_forward = start;
  entries = rows;
  closing_balance = pos 1350;
  page = page;
  limit = limit;
  total = total;
  total_pages = total_pages;
}

abbrev page_two : LedgerPage
page_two = page_with (pos 1000) (row 11 20 100 1350 ∷ []) 2 1 2 2

abbrev whole : LedgerPage
whole = page_with (pos 1000) (row 12 10 250 1250 ∷ row 11 20 100 1350 ∷ []) 1 50 2 1

abbrev later : LedgerPage
later = page_with (pos 1250) (row 11 20 100 1350 ∷ []) 1 50 1 1

-- Two orders of ties.
abbrev stored_first : Ties
stored_first l m = true

abbrev later_first : Ties
later_first l m = false

-- The second page of one entry, and both entries in one page.
second_page : get_ledger later_first 7 1 (paged 2 1 (since none)) sound_workspace ≡ ok page_two
unfolding get_ledger ledger_page brought_forward lines_between running_rows closing_of sort_by
    insert_by ◌+ℤ◌
second_page = refl

whole_ledger : get_ledger stored_first 7 1 (paged 1 50 (since none)) sound_workspace ≡ ok whole
unfolding get_ledger ledger_page brought_forward lines_between running_rows closing_of sort_by
    insert_by ◌+ℤ◌
whole_ledger = refl

-- From a day on.
later_ledger : get_ledger stored_first 7 1 (paged 1 50 (since (some 15))) sound_workspace ≡ ok later
unfolding get_ledger ledger_page brought_forward add_deltas lines_between running_rows closing_of
    sort_by insert_by ◌+ℤ◌
later_ledger = refl

get_ledger-pages_example :
    (page_two.entries ≡ take 1 (drop (1 * 1) whole.entries)) × (page_two.total ≡ whole.total)
get_ledger-pages_example =
    get_ledger-pages later_first stored_first 7 1 (since none) sound_workspace 1 1 50 page_two whole
      ((refl, tt), (tt, tt)) second_page whole_ledger (omega arith)

get_ledger-closing_example : later.closing_balance ≡ wallet.current_balance
get_ledger-closing_example =
    get_ledger-closing stored_first 7 1 (some 15) 50 sound_workspace later wallet workspace-IsSound
      refl later_ledger (omega arith)

-- A cache that went wrong is found and repaired.
reconcile_workspace-repairs_example :
    (r : Reconciliation) × (db' : Db) × (reconcile_workspace 7 (workspace (pos 900)) ≡ ok (r, db'))
    × ((r.discrepancies ≡ []) ↔ (
        (i : ℕ) (a : Account)
        → find_account i (workspace (pos 900)).accounts ≡ some a
        → a.business_id ≡ 7
        → a.current_balance ≡ fresh_balance (workspace (pos 900)).transactions a))
    × ((i : ℕ) (a : Account)
        → find_account i (workspace (pos 900)).accounts ≡ some a
        → a.business_id ≡ 7
        → find_account i db'.accounts ≡ some (refresh (workspace (pos 900)).transactions a))
reconcile_workspace-repairs_example =
    reconcile_workspace-repairs 7 (workspace (pos 900)) (refl, (refl, tt))

abbrev wallet_summary : AccountSummary
wallet_summary = record {
  current_balance = pos 1350;
  total_in = pos 350;
  total_out = pos 0;
  adjustment = pos 0;
  transaction_count = 2;
}

summarises : get_account_summary 7 1 no_dates sound_workspace ≡ ok wallet_summary
unfolding get_account_summary ◌+ℤ◌ ◌-ℤ◌
summarises = refl

get_account_summary-balances_example :
    wallet_summary.current_balance
    ≡ wallet.opening_balance
      +ℤ (wallet_summary.total_in -ℤ wallet_summary.total_out +ℤ wallet_summary.adjustment)
get_account_summary-balances_example =
    get_account_summary-balances 7 1 sound_workspace wallet_summary wallet workspace-IsSound refl
      refl summarises

abbrev void_context : Context
void_context = record { new_id = 13; now = 100_000_000; user_id = 5 }

-- The workspace after the second income was voided.
abbrev voided_workspace : Db
voided_workspace = record {
  accounts =
      account 1 AccountType.asset (pos 1000) (pos 1100)
      ∷ account 2 AccountType.income (pos 0) (pos 100)
      ∷ [];
  transactions =
      income 11 20 100
      ∷ mark_voided void_context 3 (income 12 10 250)
      ∷ reversal_row void_context 7 (income 12 10 250)
      ∷ [];
  contacts = [];
  savings_entries = [];
  assets = [];
}

voids :
    void_transaction void_context 7 12 3 sound_workspace
    ≡ ok ((12, reversal_row void_context 7 (income 12 10 250)), voided_workspace)
unfolding void_transaction void_seeing require_not_owned_by_a_feature claim insert_transaction
    recalculate_balance fresh_balance distinct remove_all dhaka_date_only ◌+ℤ◌ ◌-ℤ◌
voids = refl

void_transaction-fallen_example : fallen wallet voided_workspace ≡ fallen wallet sound_workspace
void_transaction-fallen_example =
    void_transaction-fallen void_context 7 12 3 sound_workspace 12
      (reversal_row void_context 7 (income 12 10 250)) voided_workspace (income 12 10 250) wallet
      (refl, (refl, tt)) refl refl voids
