-- ===== src/Dues/Requests.antt =====
-- Sales and purchases on credit and the payments of both: `recordSale`, `recordPurchase`,
-- `receivePayment`, `payPayment` and `validatePaymentAmount` of
-- src/receivables-payables/receivables-payables.service.ts. Its lookups of a money account, of an
-- account of a type and of the default income account repeat those of the friendly entries word by
-- word, and are taken from there.
use cashfo_backend.Base.{
  ℕ, Bool, true, false, not, Option, none, some, List, ℤ, ◌+ℤ◌, ◌==◌, ◌&&◌, if◌then◌else◌, ltb_ℤ,
  truthy, find_where, filter,
}
use cashfo_backend.Schema.{
  AccountType, ContactType, ContactCategory, TransactionType, Text, Account, Contact, Entry,
  Transaction, CreateTransaction, Context, Tx, ok, err, ◌>>=◌, ◌>>◌, pure, throw_if, or_throw,
  same_type, is_archived, contact_not_found, not_a_customer, not_a_supplier, no_system_account,
  money_account_required, no_expense_account, not_outstanding, exceeds_remaining,
  exceeds_outstanding,
}
use cashfo_backend.Ledger.Posting.{post, create_transaction}
use cashfo_backend.QuickEntries.Defs.{
  require_money_account, require_account_of_type, choose_income_account, first_in_order,
  two_entries,
}
use cashfo_backend.Dues.Defs.{
  Direction, InvoiceBreakdown, DirectionBreakdown, find_system_account, compute_direction,
}

pub record CreateReceivable : Type 0 where
  pub contact_id : ℕ
  pub amount : ℤ
  pub date : ℕ
  pub due_date : Option ℕ
  pub description : Option Text
  pub reference_no : Option Text
  pub income_account_id : Option ℕ
  pub money_account_id : Option ℕ

pub record CreatePayable : Type 0 where
  pub contact_id : ℕ
  pub amount : ℤ
  pub date : ℕ
  pub due_date : Option ℕ
  pub description : Option Text
  pub reference_no : Option Text
  pub expense_account_id : Option ℕ
  pub money_account_id : Option ℕ

-- `ReceivePaymentDto` and `PayPaymentDto` have the same fields.
pub record Payment : Type 0 where
  pub contact_id : ℕ
  pub amount : ℤ
  pub date : ℕ
  pub money_account_id : ℕ
  pub description : Option Text
  pub applied_to_transaction_id : Option ℕ

unfoldable pub require_own_contact : ℕ → ℕ → Tx Contact
require_own_contact b i db = elim (find_where (λ (c : Contact). c.id == i) db.contacts) [
  | none ↦ err contact_not_found
  | some c ↦ if c.business_id == b then ok (c, db) else err contact_not_found
]

unfoldable pub require_system_account : ℕ → Direction → Tx Account
unfolding find_system_account
require_system_account b dir db =
    or_throw (find_system_account b dir db.accounts) no_system_account db

unfoldable pub require_money_account_for_loan : ℕ → Option ℕ → Tx Account
unfolding require_money_account
require_money_account_for_loan b money_account_id db = elim (truthy money_account_id) [
  | none ↦ err money_account_required
  | some i ↦ require_money_account b i db
]

abbrev pub is_default_expense : ℕ → Account → Bool
is_default_expense b a =
    a.business_id == b && same_type a.account_type AccountType.expense && not (is_archived a.status)

unfoldable pub get_default_expense_account_id : ℕ → Tx ℕ
unfolding first_in_order
get_default_expense_account_id b db =
    elim (first_in_order (filter (is_default_expense b) db.accounts)) [
      | none ↦ err no_expense_account
      | some a ↦ ok (a.id, db)
    ]

-- `dto.expenseAccountId ?? (await this.getDefaultExpenseAccountId(businessId))`
unfoldable pub choose_expense_account : ℕ → Option ℕ → Tx ℕ
unfolding get_default_expense_account_id
choose_expense_account b none = get_default_expense_account_id b
choose_expense_account b (some i) = pure i

abbrev pub may_buy : ContactType → Bool
may_buy ContactType.customer = true
may_buy ContactType.both = true
may_buy _ = false

abbrev pub may_sell : ContactType → Bool
may_sell ContactType.supplier = true
may_sell ContactType.both = true
may_sell _ = false

-- The account opposite to the receivable one: a money account for a loan, else an income account.
unfoldable pub sale_account : ℕ → CreateReceivable → ContactCategory → Tx Account
unfolding require_money_account_for_loan choose_income_account require_account_of_type
sale_account b dto ContactCategory.loan = require_money_account_for_loan b dto.money_account_id
sale_account b dto ContactCategory.business = choose_income_account b dto.income_account_id >>= λ i.
    require_account_of_type b i AccountType.income

unfoldable pub purchase_account : ℕ → CreatePayable → ContactCategory → Tx Account
unfolding require_money_account_for_loan choose_expense_account require_account_of_type
purchase_account b dto ContactCategory.loan = require_money_account_for_loan b dto.money_account_id
purchase_account b dto ContactCategory.business =
    choose_expense_account b dto.expense_account_id >>= λ i.
    require_account_of_type b i AccountType.expense

abbrev pub sale_request : CreateReceivable → Contact → Account → Account → CreateTransaction
sale_request dto contact ar_account other = record {
  transaction_type = TransactionType.sale;
  transaction_date = dto.date;
  description = dto.description;
  reference_no = dto.reference_no;
  contact_id = some contact.id;
  due_date = dto.due_date;
  applied_to_transaction_id = none;
  entries = two_entries ar_account.id other.id dto.amount none none none none;
  idempotency_key = none;
}

abbrev pub purchase_request : CreatePayable → Contact → Account → Account → CreateTransaction
purchase_request dto contact ap_account other = record {
  transaction_type = TransactionType.purchase;
  transaction_date = dto.date;
  description = dto.description;
  reference_no = dto.reference_no;
  contact_id = some contact.id;
  due_date = dto.due_date;
  applied_to_transaction_id = none;
  entries = two_entries other.id ap_account.id dto.amount none none none none;
  idempotency_key = none;
}

unfoldable pub record_sale : Context → ℕ → CreateReceivable → Tx Transaction
unfolding require_own_contact require_system_account sale_account
record_sale ctx b dto = do
  contact ← require_own_contact b dto.contact_id
  throw_if (not (may_buy contact.contact_type)) not_a_customer
  ar_account ← require_system_account b Direction.receivable
  other ← sale_account b dto contact.category
  create_transaction ctx b (sale_request dto contact ar_account other)

unfoldable pub record_purchase : Context → ℕ → CreatePayable → Tx Transaction
unfolding require_own_contact require_system_account purchase_account
record_purchase ctx b dto = do
  contact ← require_own_contact b dto.contact_id
  throw_if (not (may_sell contact.contact_type)) not_a_supplier
  ap_account ← require_system_account b Direction.payable
  other ← purchase_account b dto contact.category
  create_transaction ctx b (purchase_request dto contact ap_account other)

abbrev pub outstanding_of : DirectionBreakdown → ℤ
outstanding_of x = x.remaining +ℤ x.opening_remaining

-- The test of `validatePaymentAmount` on the breakdown.
unfoldable pub check_amount : DirectionBreakdown → ℤ → Option ℕ → Tx (Unit {0})
check_amount x amount applied_to db = elim (truthy applied_to) [
  | none ↦ throw_if (ltb_ℤ (outstanding_of x) amount) exceeds_outstanding db
  | some i ↦ elim (find_where (λ (t : InvoiceBreakdown). t.transaction_id == i) x.transactions) [
    | none ↦ err not_outstanding
    | some target ↦ throw_if (ltb_ℤ target.remaining_amount amount) exceeds_remaining db
  ]
]

unfoldable pub validate_payment_amount :
    Context → ℕ → Contact → Direction → ℤ → Option ℕ → Tx (Unit {0})
unfolding compute_direction check_amount
validate_payment_amount ctx b contact dir amount applied_to db =
    check_amount (compute_direction ctx.now b contact dir db) amount applied_to db

-- The entries of a payment: the money comes in for a receivable, and goes out for a payable.
abbrev pub payment_entries : Direction → ℕ → ℕ → ℤ → List Entry
payment_entries Direction.receivable side_id money_id amount =
    two_entries money_id side_id amount none none none none
payment_entries Direction.payable side_id money_id amount =
    two_entries side_id money_id amount none none none none

abbrev pub payment_request : Direction → Payment → Contact → Account → Account → CreateTransaction
payment_request dir dto contact side_account money_account = record {
  transaction_type = TransactionType.payment;
  transaction_date = dto.date;
  description = dto.description;
  reference_no = none;
  contact_id = some contact.id;
  due_date = none;
  applied_to_transaction_id = dto.applied_to_transaction_id;
  entries = payment_entries dir side_account.id money_account.id dto.amount;
  idempotency_key = none;
}

-- `receivePayment` and `payPayment`. The lock on the contact changes no data.
unfoldable pub settle_payment : Direction → Context → ℕ → Payment → Tx Transaction
unfolding require_own_contact require_system_account require_money_account validate_payment_amount
settle_payment dir ctx b dto = do
  contact ← require_own_contact b dto.contact_id
  side_account ← require_system_account b dir
  money_account ← require_money_account b dto.money_account_id
  validate_payment_amount ctx b contact dir dto.amount dto.applied_to_transaction_id
  post ctx b (payment_request dir dto contact side_account money_account)

unfoldable pub receive_payment : Context → ℕ → Payment → Tx Transaction
unfolding settle_payment
receive_payment = settle_payment Direction.receivable

unfoldable pub pay_payment : Context → ℕ → Payment → Tx Transaction
unfolding settle_payment
pay_payment = settle_payment Direction.payable
