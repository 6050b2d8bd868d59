-- ===== src/Statements/Defs.antt =====
-- The ledger of an account, page by page: `AccountBalanceService.getLedger` in
-- src/accounts/account-balance.service.ts. An entry has no id of its own here, so a row has none.
use cashfo_backend.Base.{
  ℕ, ◌+◌, ◌-◌, ◌*◌, ◌/◌, Bool, true, Option, none, some, List, [], ◌∷◌, ◌++◌, ℤ, ◌+ℤ◌, negated,
  ◌==◌, ◌&&◌, ◌||◌, if◌then◌else◌, ltb, leb, or_else, filter, take, drop, length, sort_by,
}
use cashfo_backend.Schema.{
  Account, Entry, EntryType, Transaction, TransactionType, TransactionStatus, Text, Db, Result, ok,
  err, same_entry_type,
}
use cashfo_backend.Ledger.Balance.{is_debit_positive}
use cashfo_backend.Schema.{find_account, account_not_found}

pub record LedgerFilters : Type 0 where
  pub date_from : Option ℕ
  pub date_to : Option ℕ
  pub page : Option ℕ
  pub limit : Option ℕ

-- An entry with the transaction that it belongs to: a row of the join of the two tables.
pub record Line : Type 0 where
  pub transaction : Transaction
  pub entry : Entry

abbrev pub lines_within : Transaction → List Entry → List Line
lines_within t [] = []
lines_within t (e ∷ es) = record { transaction = t; entry = e } ∷ lines_within t es

abbrev pub lines_of : List Transaction → List Line
lines_of [] = []
lines_of (t ∷ ts) = lines_within t t.entries ++ lines_of ts

abbrev pub is_on : ℕ → Line → Bool
is_on account_id l = l.entry.account_id == account_id

-- `transactionDate: { lt: dateFrom }`, and the filter by `gte` and `lte`, where they are given
abbrev pub is_prior : ℕ → Line → Bool
is_prior date_from l = ltb l.transaction.transaction_date date_from

abbrev pub is_from : Option ℕ → Line → Bool
is_from none l = true
is_from (some d) l = leb d l.transaction.transaction_date

abbrev pub is_until : Option ℕ → Line → Bool
is_until none l = true
is_until (some d) l = leb l.transaction.transaction_date d

-- By how much an entry raises the balance.
abbrev pub line_delta : Bool → Line → ℤ
line_delta debit_positive l =
    if same_entry_type l.entry.entry_type EntryType.debit
    then (if debit_positive then l.entry.amount else negated l.entry.amount)
    else (if debit_positive then negated l.entry.amount else l.entry.amount)

-- The loop over the entries before the first day.
unfoldable pub add_deltas : Bool → ℤ → List Line → ℤ
add_deltas debit_positive balance [] = balance
add_deltas debit_positive balance (l ∷ ls) =
    add_deltas debit_positive (balance +ℤ line_delta debit_positive l) ls

unfoldable pub brought_forward : Account → List Line → Option ℕ → ℤ
unfolding add_deltas
brought_forward account entries none = account.opening_balance
brought_forward account entries (some date_from) =
    add_deltas (is_debit_positive account.account_type) account.opening_balance
      (filter (is_prior date_from) entries)

-- `orderBy: [{ transaction: { transactionDate: 'asc' } }, { transaction: { createdAt: 'asc' } }]`.
-- The order of lines with equal dates and times is open: the database takes one for each query, the
-- argument `ties`.
abbrev pub Ties : Type 0
Ties = Line → Line → Bool

abbrev pub has_same_keys : Line → Line → Bool
has_same_keys l m =
    l.transaction.transaction_date == m.transaction.transaction_date
    && l.transaction.created_at == m.transaction.created_at

abbrev pub is_earlier : Ties → Line → Line → Bool
is_earlier ties l m =
    ltb l.transaction.transaction_date m.transaction.transaction_date
    || (l.transaction.transaction_date == m.transaction.transaction_date
        && ltb l.transaction.created_at m.transaction.created_at)
    || (has_same_keys l m && ties l m)

pub record LedgerRow : Type 0 where
  pub transaction_id : ℕ
  pub transaction_type : TransactionType
  pub date : ℕ
  pub description : Option Text
  pub reference_no : Option Text
  pub entry_type : EntryType
  pub amount : ℤ
  pub transaction_status : TransactionStatus
  pub running_balance : ℤ

-- `entry.transaction.description ?? entry.note`
abbrev pub described : Option Text → Option ℕ → Option Text
described (some d) _ = some d
described none none = none
described none (some n) = some (Text.written n)

abbrev pub row_of : ℤ → Line → LedgerRow
row_of running l = record {
  transaction_id = l.transaction.id;
  transaction_type = l.transaction.transaction_type;
  date = l.transaction.transaction_date;
  description = described l.transaction.description l.entry.note;
  reference_no = l.transaction.reference_no;
  entry_type = l.entry.entry_type;
  amount = l.entry.amount;
  transaction_status = l.transaction.status;
  running_balance = running;
}

-- `entriesUpToPageEnd.map(...)`, with the running balance.
unfoldable pub running_rows : Bool → ℤ → List Line → List LedgerRow
running_rows debit_positive running [] = []
running_rows debit_positive running (l ∷ ls) =
    let next = running +ℤ line_delta debit_positive l in
    row_of next l ∷ running_rows debit_positive next ls

-- `xs.slice(from, to)`
abbrev pub slice : {A : Type 0} → ℕ → ℕ → List A → List A
slice from to xs = take (to - from) (drop from xs)

-- The balance of the last row, or the one brought forward.
unfoldable pub closing_of : ℤ → List LedgerRow → ℤ
closing_of balance [] = balance
closing_of balance (r ∷ rs) = closing_of r.running_balance rs

-- `Math.ceil(total / limit)`
abbrev pub pages_of : ℕ → ℕ → ℕ
pages_of total limit = (total + limit - 1) / limit

pub record LedgerPage : Type 0 where
  pub account_id : ℕ
  pub account_name : ℕ
  pub opening_balance : ℤ
  pub balance_brought_forward : ℤ
  pub entries : List LedgerRow
  pub closing_balance : ℤ
  pub page : ℕ
  pub limit : ℕ
  pub total : ℕ
  pub total_pages : ℕ

-- The entries on the account within the dates, in their order.
unfoldable pub lines_between : Ties → LedgerFilters → List Line → List Line
lines_between ties filters entries =
    sort_by (is_earlier ties)
      (filter (λ (l : Line). is_from filters.date_from l && is_until filters.date_to l) entries)

unfoldable pub ledger_page : Ties → LedgerFilters → Account → List Line → LedgerPage
unfolding brought_forward lines_between running_rows closing_of
ledger_page ties filters account entries =
    let page = or_else filters.page 1 in
    let limit = or_else filters.limit 50 in
    let start = brought_forward account entries filters.date_from in
    let found = lines_between ties filters entries in
    let all_rows =
      running_rows (is_debit_positive account.account_type) start (take (page * limit) found) in
    let page_rows = slice ((page - 1) * limit) (page * limit) all_rows in
    record {
      account_id = account.id;
      account_name = account.name;
      opening_balance = account.opening_balance;
      balance_brought_forward = start;
      entries = page_rows;
      closing_balance = closing_of start page_rows;
      page = page;
      limit = limit;
      total = length found;
      total_pages = pages_of (length found) limit;
    }

unfoldable pub get_ledger : Ties → ℕ → ℕ → LedgerFilters → Db → Result LedgerPage
unfolding ledger_page
get_ledger ties b account_id filters db = elim (find_account account_id db.accounts) [
  | none ↦ err account_not_found
  | some account ↦
      if account.business_id == b
      then ok
          (ledger_page ties filters account (filter (is_on account_id) (lines_of db.transactions)))
      else err account_not_found
]
