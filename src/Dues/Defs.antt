-- ===== src/Dues/Defs.antt =====
-- What a contact owes and is owed: `computeDirection` and the lookups that it uses, in
-- src/receivables-payables/receivables-payables.service.ts. The maps `originalAmount` and
-- `amountPaid` are columns of one list, in the order of the invoices.
use cashfo_backend.Base.{
  ℕ, Bool, false, not, Option, none, some, List, [], ◌∷◌, map, ℤ, pos, ◌+ℤ◌, ◌-ℤ◌, negated, ◌==◌,
  ◌&&◌, ◌||◌, if◌then◌else◌, ltb, leb, ltb_ℤ, same_option, truthy, is_some, any, filter, find_where,
  update_unique, sum_of, sort_by,
}
use cashfo_backend.Schema.{
  AccountType, AccountSubtype, TransactionType, Account, Entry, Transaction, Contact, Db, Text,
  same_type, subtype_code, same_transaction_type, is_posted,
}
use cashfo_backend.Ledger.Voiding.{dhaka_date_only}
use cashfo_backend.Accounts.Defs.{has_subtype}

pub data Direction : Type 0 where
  receivable payable : Direction

abbrev pub invoice_type : Direction → TransactionType
invoice_type receivable = TransactionType.sale
invoice_type payable = TransactionType.purchase

abbrev pub subtype_of : Direction → AccountSubtype
subtype_of receivable = AccountSubtype.receivable
subtype_of payable = AccountSubtype.payable

abbrev pub side_type : Direction → AccountType
side_type receivable = AccountType.asset
side_type payable = AccountType.liability

-- `Prisma.Decimal.max(a, b)` and `Prisma.Decimal.min(a, b)`
abbrev pub max_ℤ : ℤ → ℤ → ℤ
max_ℤ a b = if ltb_ℤ a b then b else a

abbrev pub min_ℤ : ℤ → ℤ → ℤ
min_ℤ a b = if ltb_ℤ a b then a else b

abbrev pub is_system_account_of : ℕ → Direction → Account → Bool
is_system_account_of b dir a =
    a.business_id == b
    && has_subtype (λ s. subtype_code s == subtype_code (subtype_of dir)) a
    && same_type a.account_type (side_type dir)
    && a.is_system_account

-- `findFirst` with `orderBy: { createdAt: 'asc' }`.
unfoldable pub find_system_account : ℕ → Direction → List Account → Option Account
find_system_account b dir accounts =
    elim (sort_by (λ (x y : Account). leb x.created_at y.created_at)
      (filter (is_system_account_of b dir) accounts)) [ [] ↦ none | a ∷ rest ↦ some a ]

-- A transaction of the contact that still stands.
abbrev pub is_live_of : ℕ → ℕ → TransactionType → Transaction → Bool
is_live_of b contact_id ty t =
    t.business_id == b
    && same_option t.contact_id (some contact_id)
    && same_transaction_type t.transaction_type ty
    && is_posted t.status
    && not (is_some t.reversal_of_id)

abbrev pub comes_first : Transaction → Transaction → Bool
comes_first t u =
    ltb t.transaction_date u.transaction_date
    || (t.transaction_date == u.transaction_date && leb t.created_at u.created_at)

-- The amount of the first entry on the account, or nothing.
abbrev pub amount_at : ℕ → Transaction → ℤ
amount_at account_id t = elim (find_where (λ (e : Entry). e.account_id == account_id) t.entries) [
  | none ↦ pos 0
  | some e ↦ e.amount
]

abbrev pub touches : ℕ → Transaction → Bool
touches account_id t = any (λ (e : Entry). e.account_id == account_id) t.entries

-- An invoice with its original amount and what is paid of it.
pub record Due : Type 0 where
  pub invoice : Transaction
  pub original : ℤ
  pub paid : ℤ

abbrev pub due_id : Due → ℕ
due_id d = d.invoice.id

abbrev pub open_due : ℕ → Transaction → Due
open_due account_id inv = record {
  invoice = inv;
  original = amount_at account_id inv;
  paid = pos 0;
}

abbrev pub add_paid : ℤ → Due → Due
add_paid amount d = record d { paid = d.paid +ℤ amount }

-- The invoices and the pool of general payments.
pub record Allocation : Type 0 where
  pub dues : List Due
  pub pool : ℤ

abbrev pub pay_due : ℕ → ℤ → Allocation → Allocation
pay_due i amount x = record x { dues = update_unique due_id i (add_paid amount) x.dues }

abbrev pub pay_pool : ℤ → Allocation → Allocation
pay_pool amount x = record x { pool = x.pool +ℤ amount }

-- The invoice of this direction that a payment is applied to.
abbrev pub target_of : Transaction → List Due → Option ℕ
target_of p dues = elim (truthy p.applied_to_transaction_id) [
  | none ↦ none
  | some i ↦ if any (λ d. due_id d == i) dues then some i else none
]

unfoldable pub apply_payment : ℕ → Transaction → Allocation → Allocation
apply_payment account_id p x = elim (target_of p x.dues) [
  | some i ↦ pay_due i (amount_at account_id p) x
  | none ↦ pay_pool (amount_at account_id p) x
]

unfoldable pub apply_payments : ℕ → List Transaction → Allocation → Allocation
unfolding apply_payment
apply_payments account_id [] x = x
apply_payments account_id (p ∷ ps) x = apply_payments account_id ps (apply_payment account_id p x)

-- The loop that settles the oldest invoices first.
unfoldable pub settle_fifo : ℤ → List Due → Allocation
settle_fifo pool [] = record { dues = []; pool = pool }
settle_fifo pool (d ∷ ds) =
    let remaining = d.original -ℤ d.paid in
    let share = min_ℤ remaining pool in
    let skipped = settle_fifo pool ds in
    let paid_on = settle_fifo (pool -ℤ share) ds in
    if not (ltb_ℤ (pos 0) pool)
    then record { dues = d ∷ ds; pool = pool }
    else if not (ltb_ℤ (pos 0) remaining)
    then record skipped { dues = d ∷ skipped.dues }
    else record paid_on { dues = add_paid share d ∷ paid_on.dues }

pub record InvoiceBreakdown : Type 0 where
  pub transaction_id : ℕ
  pub date : ℕ
  pub description : Option Text
  pub original_amount : ℤ
  pub amount_paid : ℤ
  pub remaining_amount : ℤ
  pub due_date : Option ℕ
  pub is_overdue : Bool

abbrev pub remaining_of : Due → ℤ
remaining_of d = max_ℤ (pos 0) (d.original -ℤ d.paid)

abbrev pub is_past : ℕ → Option ℕ → Bool
is_past today none = false
is_past today (some due) = ltb due today

abbrev pub breakdown_of : ℕ → Due → InvoiceBreakdown
breakdown_of today d = record {
  transaction_id = d.invoice.id;
  date = d.invoice.transaction_date;
  description = d.invoice.description;
  original_amount = d.original;
  amount_paid = d.paid;
  remaining_amount = remaining_of d;
  due_date = d.invoice.due_date;
  is_overdue = is_past today d.invoice.due_date && ltb_ℤ (pos 0) (remaining_of d);
}

pub record DirectionBreakdown : Type 0 where
  pub total_invoiced : ℤ
  pub total_paid : ℤ
  pub remaining : ℤ
  pub opening_owed : ℤ
  pub opening_remaining : ℤ
  pub balance : ℤ
  pub transactions : List InvoiceBreakdown

abbrev pub opening_owed_of : Direction → Contact → ℤ
opening_owed_of receivable c = max_ℤ (pos 0) c.opening_balance
opening_owed_of payable c = max_ℤ (pos 0) (negated c.opening_balance)

abbrev pub no_dues : ℤ → DirectionBreakdown
no_dues opening_owed = record {
  total_invoiced = pos 0;
  total_paid = pos 0;
  remaining = pos 0;
  opening_owed = opening_owed;
  opening_remaining = opening_owed;
  balance = pos 0;
  transactions = [];
}

unfoldable pub invoices_of : ℕ → ℕ → Direction → List Transaction → List Transaction
invoices_of b contact_id dir ts =
    sort_by comes_first (filter (is_live_of b contact_id (invoice_type dir)) ts)

unfoldable pub payments_of : ℕ → ℕ → ℕ → List Transaction → List Transaction
payments_of b contact_id account_id ts =
    filter (touches account_id) (filter (is_live_of b contact_id TransactionType.payment) ts)

-- The invoices with what is applied to each, and the general payments.
abbrev pub applied : ℕ → List Transaction → List Transaction → Allocation
applied account_id invoices payments =
    apply_payments account_id payments
      (record { dues = map (open_due account_id) invoices; pool = pos 0 })

abbrev pub opening_paid : ℤ → Allocation → ℤ
opening_paid opening_owed x = min_ℤ x.pool opening_owed

abbrev pub settled_dues : ℤ → Allocation → Allocation
settled_dues opening_owed x = settle_fifo (x.pool -ℤ opening_paid opening_owed x) x.dues

abbrev pub summary_of : ℕ → ℕ → ℤ → List Transaction → List Transaction → DirectionBreakdown
summary_of today account_id opening_owed invoices payments =
    let x = applied account_id invoices payments in
    let settled_opening = opening_paid opening_owed x in
    let transactions = map (breakdown_of today) (settled_dues opening_owed x).dues in
    let total_invoiced = sum_of (λ (t : InvoiceBreakdown). t.original_amount) transactions in
    let total_paid = sum_of (amount_at account_id) payments in
    record {
      total_invoiced = total_invoiced;
      total_paid = total_paid;
      remaining = total_invoiced -ℤ (total_paid -ℤ settled_opening);
      opening_owed = opening_owed;
      opening_remaining = opening_owed -ℤ settled_opening;
      balance = total_invoiced -ℤ total_paid;
      transactions = transactions;
    }

unfoldable pub compute_direction : ℕ → ℕ → Contact → Direction → Db → DirectionBreakdown
unfolding invoices_of payments_of apply_payments settle_fifo dhaka_date_only find_system_account
compute_direction now b contact dir db = elim (find_system_account b dir db.accounts) [
  | none ↦ no_dues (opening_owed_of dir contact)
  | some account ↦
      summary_of (dhaka_date_only now) account.id (opening_owed_of dir contact)
        (invoices_of b contact.id dir db.transactions)
        (payments_of b contact.id account.id db.transactions)
]
