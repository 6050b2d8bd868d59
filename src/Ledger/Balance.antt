-- ===== src/Ledger/Balance.antt =====
-- The balance of an account and its cache: `isDebitPositive` and
-- `AccountBalanceService.recalculateBalance` in src/accounts/account-balance.service.ts.
use cashfo_backend.Base.{
  ℕ, Bool, true, false, List, ℤ, pos, ◌+ℤ◌, ◌-ℤ◌, ◌==◌, ◌&&◌, if◌then◌else◌, sum_of,
}
use cashfo_backend.Schema.{
  AccountType, EntryType, Account, Entry, Transaction, Tx, or_throw, ◌>>=◌, ◌>>◌, pure, modify,
  gets, account_not_found, same_entry_type, find_account, update_account, with_balance,
}

abbrev pub is_debit_positive : AccountType → Bool
is_debit_positive AccountType.asset = true
is_debit_positive AccountType.expense = true
is_debit_positive _ = false

-- `transactionEntry.aggregate({ where: { accountId, entryType }, _sum: { amount: true } })`
abbrev pub amount_on : ℕ → EntryType → Entry → ℤ
amount_on i ty e = if e.account_id == i && same_entry_type e.entry_type ty then e.amount else pos 0

abbrev pub sum_entries_on : ℕ → EntryType → List Entry → ℤ
sum_entries_on i ty = sum_of (amount_on i ty)

abbrev pub aggregate : ℕ → EntryType → List Transaction → ℤ
aggregate i ty = sum_of (λ t. sum_entries_on i ty t.entries)

-- The balance from scratch: the opening balance and every entry, by the side that is positive.
unfoldable pub fresh_balance : List Transaction → Account → ℤ
fresh_balance ts a =
    let debit_total = aggregate a.id EntryType.debit ts in
    let credit_total = aggregate a.id EntryType.credit ts in
    if is_debit_positive a.account_type
    then a.opening_balance +ℤ debit_total -ℤ credit_total
    else a.opening_balance +ℤ credit_total -ℤ debit_total

unfoldable pub recalculate_balance : ℕ → Tx ℤ
recalculate_balance account_id = do
  account ← (λ db. or_throw (find_account account_id db.accounts) account_not_found db)
  balance ← gets (λ db. fresh_balance db.transactions account)
  modify
      (λ db. record db { accounts = update_account account_id (with_balance balance) db.accounts })
  pure balance
