-- ===== src/QuickEntries/Defs.antt =====
-- `createIncome`, `createExpense`, `createTransfer` and the private lookups of
-- src/quick-entries/quick-entries.service.ts.
use cashfo_backend.Base.{
  ℕ, Bool, not, Option, none, some, List, [], ◌∷◌, ℤ, ◌==◌, ◌&&◌, ◌||◌, if◌then◌else◌, leb, ltb,
  filter,
}
use cashfo_backend.Schema.{
  AccountType, EntryType, TransactionType, Text, Account, Entry, Transaction, CreateTransaction,
  Context, Db, Tx, Action, ok, err, ◌>>=◌, ◌>>◌, pure, throw_if, find_account, same_type,
  is_archived, same_account, field_not_found, not_a_money_account, wrong_account_type,
  no_income_account,
}
use cashfo_backend.Accounts.Defs.{is_money_subtype, has_subtype, is_asset}
use cashfo_backend.Ledger.Posting.{create_transaction}

pub record CreateIncome : Type 0 where
  pub to_account_id : ℕ
  pub income_account_id : Option ℕ
  pub amount : ℤ
  pub date : ℕ
  pub description : Option Text
  pub category_id : Option ℕ
  pub note : Option ℕ

pub record CreateExpense : Type 0 where
  pub from_account_id : ℕ
  pub expense_account_id : ℕ
  pub amount : ℤ
  pub date : ℕ
  pub description : Option Text
  pub category_id : Option ℕ
  pub note : Option ℕ

pub record CreateTransfer : Type 0 where
  pub from_account_id : ℕ
  pub to_account_id : ℕ
  pub amount : ℤ
  pub date : ℕ
  pub description : Option Text

abbrev pub is_money_account : Account → Bool
is_money_account a = is_asset a && has_subtype is_money_subtype a

unfoldable pub require_money_account : ℕ → ℕ → Action Db Account
require_money_account b i db = elim (find_account i db.accounts) [
  | none ↦ err field_not_found
  | some a ↦
      if not (a.business_id == b)
      then err field_not_found
      else if not (is_money_account a)
      then err not_a_money_account
      else ok (a, db)
]

unfoldable pub require_account_of_type : ℕ → ℕ → AccountType → Action Db Account
require_account_of_type b i ty db = elim (find_account i db.accounts) [
  | none ↦ err field_not_found
  | some a ↦
      if not (a.business_id == b)
      then err field_not_found
      else if not (same_type a.account_type ty)
      then err wrong_account_type
      else ok (a, db)
]

-- The first account by display order and, among equal ones, by age.
abbrev pub comes_before : Account → Account → Bool
comes_before a c =
    ltb a.display_order c.display_order
    || (a.display_order == c.display_order && leb a.created_at c.created_at)

unfoldable pub first_in_order : List Account → Option Account
first_in_order [] = none
first_in_order (a ∷ accounts) = elim (first_in_order accounts) [
  | none ↦ some a
  | some c ↦ some (if comes_before a c then a else c)
]

abbrev pub is_default_income : ℕ → Account → Bool
is_default_income b a =
    a.business_id == b && same_type a.account_type AccountType.income && not (is_archived a.status)

unfoldable pub get_default_income_account_id : ℕ → Action Db ℕ
unfolding first_in_order
get_default_income_account_id b db =
    elim (first_in_order (filter (is_default_income b) db.accounts)) [
      | none ↦ err no_income_account
      | some a ↦ ok (a.id, db)
    ]

-- `dto.incomeAccountId ?? (await this.getDefaultIncomeAccountId(businessId))`
unfoldable pub choose_income_account : ℕ → Option ℕ → Action Db ℕ
unfolding get_default_income_account_id
choose_income_account b none = get_default_income_account_id b
choose_income_account b (some i) = pure i

-- The two entries of one amount.
abbrev pub two_entries : ℕ → ℕ → ℤ → Option ℕ → Option ℕ → Option ℕ → Option ℕ → List Entry
two_entries debited credited amount debit_category debit_note credit_category credit_note =
    record {
      account_id = debited;
      entry_type = EntryType.debit;
      amount = amount;
      category_id = debit_category;
      note = debit_note;
    }
    ∷ record {
      account_id = credited;
      entry_type = EntryType.credit;
      amount = amount;
      category_id = credit_category;
      note = credit_note;
    }
    ∷ []

abbrev pub plain_request : TransactionType → ℕ → Option Text → List Entry → CreateTransaction
plain_request ty date description entries = record {
  transaction_type = ty;
  transaction_date = date;
  description = description;
  reference_no = none;
  contact_id = none;
  due_date = none;
  applied_to_transaction_id = none;
  entries = entries;
  idempotency_key = none;
}

unfoldable pub create_income : Context → ℕ → CreateIncome → Tx Transaction
unfolding require_money_account choose_income_account require_account_of_type
create_income ctx b dto = do
  to_account ← require_money_account b dto.to_account_id
  income_account_id ← choose_income_account b dto.income_account_id
  income_account ← require_account_of_type b income_account_id AccountType.income
  create_transaction ctx b (
      plain_request TransactionType.income dto.date dto.description
        (two_entries to_account.id income_account.id dto.amount none none dto.category_id dto.note))

unfoldable pub create_expense : Context → ℕ → CreateExpense → Tx Transaction
unfolding require_money_account require_account_of_type
create_expense ctx b dto = do
  from_account ← require_money_account b dto.from_account_id
  expense_account ← require_account_of_type b dto.expense_account_id AccountType.expense
  create_transaction ctx b (
      plain_request TransactionType.expense dto.date dto.description (
        two_entries expense_account.id from_account.id dto.amount dto.category_id dto.note none
          none))

unfoldable pub create_transfer : Context → ℕ → CreateTransfer → Tx Transaction
unfolding require_money_account
create_transfer ctx b dto = do
  throw_if (dto.from_account_id == dto.to_account_id) same_account
  from_account ← require_money_account b dto.from_account_id
  to_account ← require_money_account b dto.to_account_id
  create_transaction ctx b (
      plain_request TransactionType.transfer dto.date dto.description
        (two_entries to_account.id from_account.id dto.amount none none none none))
