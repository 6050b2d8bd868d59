-- ===== src/Statements/Summary.antt =====
-- The figures of an account: `AccountBalanceService.getAccountSummary` in
-- src/accounts/account-balance.service.ts.
use cashfo_backend.Base.{
  ℕ, Bool, not, Option, none, some, List, ℤ, ◌-ℤ◌, ◌==◌, ◌&&◌, if◌then◌else◌, filter, length,
  sum_of, is_some,
}
use cashfo_backend.Schema.{
  Account, EntryType, Transaction, TransactionType, Db, Result, ok, err, same_entry_type,
  same_transaction_type, is_posted, find_account, account_not_found,
}
use cashfo_backend.Ledger.Balance.{is_debit_positive}
use cashfo_backend.Statements.Defs.{Line, is_on, is_from, is_until, lines_of}

pub record SummaryFilters : Type 0 where
  pub date_from : Option ℕ
  pub date_to : Option ℕ

pub record AccountSummary : Type 0 where
  pub current_balance : ℤ
  pub total_in : ℤ
  pub total_out : ℤ
  pub adjustment : ℤ
  pub transaction_count : ℕ

-- `LIVE_TRANSACTION`
abbrev pub is_live : Transaction → Bool
is_live t = is_posted t.status && not (is_some t.reversal_of_id)

abbrev pub is_transfer : Transaction → Bool
is_transfer t = same_transaction_type t.transaction_type TransactionType.transfer

abbrev pub is_within : SummaryFilters → Line → Bool
is_within f l = is_from f.date_from l && is_until f.date_to l

-- `nonTransferWhere` and `transferWhere`
abbrev pub is_other : SummaryFilters → Line → Bool
is_other f l = is_within f l && is_live l.transaction && not (is_transfer l.transaction)

abbrev pub is_moved : SummaryFilters → Line → Bool
is_moved f l = is_within f l && is_live l.transaction && is_transfer l.transaction

-- `aggregate({ where: { ...where, entryType }, _sum: { amount: true } })`
abbrev pub aggregate_lines : (Line → Bool) → EntryType → List Line → ℤ
aggregate_lines p ty ls =
    sum_of (λ (l : Line). l.entry.amount)
      (filter (λ (l : Line). p l && same_entry_type l.entry.entry_type ty) ls)

abbrev pub summary_on : SummaryFilters → Account → List Line → AccountSummary
summary_on f account entries =
    let debit_total = aggregate_lines (is_other f) EntryType.debit entries in
    let credit_total = aggregate_lines (is_other f) EntryType.credit entries in
    let transfer_debit_total = aggregate_lines (is_moved f) EntryType.debit entries in
    let transfer_credit_total = aggregate_lines (is_moved f) EntryType.credit entries in
    let debit_positive = is_debit_positive account.account_type in
    record {
      current_balance = account.current_balance;
      total_in = if debit_positive then debit_total else credit_total;
      total_out = if debit_positive then credit_total else debit_total;
      adjustment =
          if debit_positive
          then transfer_debit_total -ℤ transfer_credit_total
          else transfer_credit_total -ℤ transfer_debit_total;
      transaction_count = length (filter (is_within f) entries);
    }

unfoldable pub get_account_summary : ℕ → ℕ → SummaryFilters → Db → Result AccountSummary
get_account_summary b account_id f db = elim (find_account account_id db.accounts) [
  | none ↦ err account_not_found
  | some account ↦
      if account.business_id == b
      then ok (summary_on f account (filter (is_on account_id) (lines_of db.transactions)))
      else err account_not_found
]
