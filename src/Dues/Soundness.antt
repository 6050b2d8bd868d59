-- ===== src/Dues/Soundness.antt =====
-- The four requests on credit and the ledger's invariant:
-- src/receivables-payables/receivables-payables.service.ts.
use cashfo_backend.Base.{ℕ, ◌≡◌, not, Option, none, some, ℤ, arith}
use cashfo_backend.Schema.{
  AccountType, ContactCategory, Contact, Context, Db, Tx, Transaction, ok, not_a_customer,
  not_a_supplier,
}
use cashfo_backend.Ledger.Invariant.{IsSound}
use cashfo_backend.Ledger.Preserving.{
  Preserves, bind-Preserves, lookup-Preserves, throw_if-Preserves, create_transaction-Preserves,
  post-Preserves,
}
use cashfo_backend.QuickEntries.Defs.{
  require_money_account, require_account_of_type, choose_income_account,
  get_default_income_account_id,
}
use cashfo_backend.Dues.Defs.{Direction, DirectionBreakdown, compute_direction}
use cashfo_backend.Dues.Requests.{
  CreateReceivable, CreatePayable, Payment, require_own_contact, require_system_account,
  require_money_account_for_loan, get_default_expense_account_id, choose_expense_account, may_buy,
  may_sell, sale_account, purchase_account, sale_request, purchase_request, record_sale,
  record_purchase, check_amount, validate_payment_amount, payment_request, settle_payment,
  receive_payment, pay_payment,
}

-- One of the four requests.
pub data DueRequest : Type 0 where
  sold : CreateReceivable → DueRequest
  bought : CreatePayable → DueRequest
  received : Payment → DueRequest
  paid_out : Payment → DueRequest

abbrev pub serve_due : Context → ℕ → DueRequest → Tx Transaction
serve_due ctx b (sold dto) = record_sale ctx b dto
serve_due ctx b (bought dto) = record_purchase ctx b dto
serve_due ctx b (received dto) = receive_payment ctx b dto
serve_due ctx b (paid_out dto) = pay_payment ctx b dto

contact-Preserves : (b i : ℕ) → Preserves (require_own_contact b i)
unfolding require_own_contact
contact-Preserves b i = lookup-Preserves (require_own_contact b i) λ db db' a h. ground arith

system-Preserves : (b : ℕ) (dir : Direction) → Preserves (require_system_account b dir)
unfolding require_system_account
system-Preserves b dir = lookup-Preserves (require_system_account b dir) λ db db' a h. ground arith

money-Preserves : (b i : ℕ) → Preserves (require_money_account b i)
unfolding require_money_account
money-Preserves b i = lookup-Preserves (require_money_account b i) λ db db' a h. ground arith

loan-Preserves : (b : ℕ) (chosen : Option ℕ) → Preserves (require_money_account_for_loan b chosen)
unfolding require_money_account_for_loan require_money_account
loan-Preserves b chosen =
    lookup-Preserves (require_money_account_for_loan b chosen) λ db db' a h. ground arith

typed-Preserves : (b i : ℕ) (ty : AccountType) → Preserves (require_account_of_type b i ty)
unfolding require_account_of_type
typed-Preserves b i ty =
    lookup-Preserves (require_account_of_type b i ty) λ db db' a h. ground arith

income-Preserves : (b : ℕ) (chosen : Option ℕ) → Preserves (choose_income_account b chosen)
unfolding choose_income_account get_default_income_account_id
income-Preserves b none = lookup-Preserves (choose_income_account b none) λ db db' a h. ground arith
income-Preserves b (some i) =
    lookup-Preserves (choose_income_account b (some i)) λ db db' a h. ground arith

expense-Preserves : (b : ℕ) (chosen : Option ℕ) → Preserves (choose_expense_account b chosen)
unfolding choose_expense_account get_default_expense_account_id
expense-Preserves b none =
    lookup-Preserves (choose_expense_account b none) λ db db' a h. ground arith
expense-Preserves b (some i) =
    lookup-Preserves (choose_expense_account b (some i)) λ db db' a h. ground arith

sale_account-Preserves :
    (b : ℕ) (dto : CreateReceivable) (c : ContactCategory) → Preserves (sale_account b dto c)
unfolding sale_account
sale_account-Preserves b dto ContactCategory.loan = loan-Preserves b dto.money_account_id
sale_account-Preserves b dto ContactCategory.business =
    bind-Preserves _ _ (income-Preserves b dto.income_account_id)
      λ i. typed-Preserves b i AccountType.income

purchase_account-Preserves :
    (b : ℕ) (dto : CreatePayable) (c : ContactCategory) → Preserves (purchase_account b dto c)
unfolding purchase_account
purchase_account-Preserves b dto ContactCategory.loan = loan-Preserves b dto.money_account_id
purchase_account-Preserves b dto ContactCategory.business =
    bind-Preserves _ _ (expense-Preserves b dto.expense_account_id)
      λ i. typed-Preserves b i AccountType.expense

record_sale-Preserves :
    (ctx : Context) (b : ℕ) (dto : CreateReceivable) → Preserves (record_sale ctx b dto)
unfolding record_sale
record_sale-Preserves ctx b dto = bind-Preserves _ _ (contact-Preserves b dto.contact_id) λ contact.
    bind-Preserves _ _ (throw_if-Preserves (not (may_buy contact.contact_type)) not_a_customer) λ _.
      bind-Preserves _ _ (system-Preserves b Direction.receivable) λ ar_account.
        bind-Preserves _ _ (sale_account-Preserves b dto contact.category)
          λ other. create_transaction-Preserves ctx b (sale_request dto contact ar_account other)

record_purchase-Preserves :
    (ctx : Context) (b : ℕ) (dto : CreatePayable) → Preserves (record_purchase ctx b dto)
unfolding record_purchase
record_purchase-Preserves ctx b dto =
    bind-Preserves _ _ (contact-Preserves b dto.contact_id) λ contact.
      bind-Preserves _ _ (throw_if-Preserves (not (may_sell contact.contact_type)) not_a_supplier)
        λ _. bind-Preserves _ _ (system-Preserves b Direction.payable) λ ap_account.
          bind-Preserves _ _ (purchase_account-Preserves b dto contact.category) λ other.
            create_transaction-Preserves ctx b (purchase_request dto contact ap_account other)

pub check_amount_keeps :
    (x : DirectionBreakdown) (amount : ℤ) (applied_to : Option ℕ) (db db' : Db) (u : Unit {0})
    → check_amount x amount applied_to db ≡ ok (u, db')
    → db' ≡ db
unfolding check_amount
check_amount_keeps x amount applied_to db db' u h = ground arith

validate-Preserves :
    (ctx : Context) (b : ℕ) (contact : Contact) (dir : Direction) (amount : ℤ)
    (applied_to : Option ℕ)
    → Preserves (validate_payment_amount ctx b contact dir amount applied_to)
unfolding validate_payment_amount compute_direction
validate-Preserves ctx b contact dir amount applied_to =
    lookup-Preserves (validate_payment_amount ctx b contact dir amount applied_to) λ db db' u h.
      check_amount_keeps (compute_direction ctx.now b contact dir db) amount applied_to db db' u h

settle_payment-Preserves :
    (dir : Direction) (ctx : Context) (b : ℕ) (dto : Payment)
    → Preserves (settle_payment dir ctx b dto)
unfolding settle_payment
settle_payment-Preserves dir ctx b dto =
    bind-Preserves _ _ (contact-Preserves b dto.contact_id) λ contact.
      bind-Preserves _ _ (system-Preserves b dir) λ side_account.
        bind-Preserves _ _ (money-Preserves b dto.money_account_id) λ money_account.
          bind-Preserves _ _
            (validate-Preserves ctx b contact dir dto.amount dto.applied_to_transaction_id)
            λ _. post-Preserves ctx b (payment_request dir dto contact side_account money_account)

serve_due-Preserves : (ctx : Context) (b : ℕ) (r : DueRequest) → Preserves (serve_due ctx b r)
unfolding receive_payment pay_payment
serve_due-Preserves ctx b (sold dto) = record_sale-Preserves ctx b dto
serve_due-Preserves ctx b (bought dto) = record_purchase-Preserves ctx b dto
serve_due-Preserves ctx b (received dto) = settle_payment-Preserves Direction.receivable ctx b dto
serve_due-Preserves ctx b (paid_out dto) = settle_payment-Preserves Direction.payable ctx b dto

-- Every sale and purchase on credit and every payment of one that goes through, whether it is a
-- loan or not, keeps the invariant of the ledger.
pub serve_due-IsSound :
    (ctx : Context) (b : ℕ) (r : DueRequest) (db : Db) (t : Transaction) (db' : Db)
    → IsSound db
    → serve_due ctx b r db ≡ ok (t, db')
    → IsSound db'
serve_due-IsSound ctx b r db t db' sound h =
    (serve_due-Preserves ctx b r).sound_after db db' t sound h
