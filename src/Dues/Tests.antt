-- ===== src/Dues/Tests.antt =====
-- A sale on credit, and a pool settled over two invoices.
use cashfo_backend.Base.{
  is_some, truthy, ◌⊎◌, ◌≤ℤ◌, ℕ, ◌≡◌, refl, Bool, true, false, Option, none, some, List, [], ◌∷◌, ℤ,
  pos, ◌+ℤ◌, ◌-ℤ◌, arith, distinct, remove_all, insert_by, sort_by,
}
use cashfo_backend.Schema.{
  AccountType, AccountStatus, AccountSubtype, TransactionType, TransactionStatus, ContactType,
  ContactCategory, Contact, Account, Transaction, Context, Db, ok, insert_transaction,
}
use cashfo_backend.Ledger.Balance.{fresh_balance, recalculate_balance}
use cashfo_backend.Ledger.Posting.{
  post, create_transaction, create_racing, post_seeing, post_new, find_by_key, validate_entry_shape,
  require_accounts_belong_to_business, require_links_belong_to_business, require_contact,
  require_applied_to,
}
use cashfo_backend.Ledger.Invariant.{IsSound}
use cashfo_backend.QuickEntries.Defs.{
  require_money_account, two_entries, require_account_of_type, choose_income_account,
}
use cashfo_backend.Ledger.Voiding.{dhaka_date_only}
use cashfo_backend.Dues.Lowering.{settle_payment-lowers}
use cashfo_backend.Dues.Defs.{
  Direction, compute_direction, invoices_of, payments_of, apply_payments, Due, find_system_account,
  max_ℤ, settle_fifo,
}
use cashfo_backend.Base.{All, sum_of, sym, ◌∙◌, ap, subst}
use cashfo_backend.Dues.Aging.{get_aging}
use cashfo_backend.Dues.AgingTotals.{IsAddedUp, IsFitting, get_aging-IsAddedUp}
use cashfo_backend.Dues.Defs.{InvoiceBreakdown, applied, apply_payment}
use cashfo_backend.Dues.Requests.{receive_payment}
use cashfo_backend.Dues.Applied.{IsNotOverpaid}
use cashfo_backend.Dues.Remaining.{compute_direction-remaining}
use cashfo_backend.Dues.Soundness.{DueRequest, serve_due-IsSound}
use cashfo_backend.Dues.Fifo.{allocate, settle_fifo-allocates}
use cashfo_backend.Dues.Rounds.{owed_in_all}
use cashfo_backend.Dues.Requests.{
  Payment, settle_payment, validate_payment_amount, check_amount, outstanding_of, CreateReceivable,
  require_own_contact, require_system_account, sale_account, record_sale,
}

abbrev account : ℕ → AccountType → Option AccountSubtype → Bool → ℤ → Account
account i ty subtype system current = record {
  id = i;
  business_id = 7;
  parent_id = none;
  name = i;
  account_type = ty;
  account_subtype = subtype;
  opening_balance = pos 0;
  current_balance = current;
  is_system_account = system;
  status = AccountStatus.active;
  display_order = 0;
  created_at = 0;
}

abbrev customer : Contact
customer = record {
  id = 9;
  business_id = 7;
  name = 1;
  contact_type = ContactType.customer;
  category = ContactCategory.business;
  opening_balance = pos 0;
}

abbrev shop_with : ℤ → ℤ → ℤ → List Transaction → Db
shop_with cash owed earned rows = record {
  accounts =
      account 1 AccountType.asset (some AccountSubtype.cash) false cash
      ∷ account 2 AccountType.asset (some AccountSubtype.receivable) true owed
      ∷ account 4 AccountType.income none false earned
      ∷ [];
  transactions = rows;
  contacts = customer ∷ [];
  savings_entries = [];
  assets = [];
}

abbrev shop : Db
shop = shop_with (pos 0) (pos 0) (pos 0) []

abbrev context : Context
context = record { new_id = 11; now = 100; user_id = 5 }

-- A sale of 2.50 on credit.
abbrev sale : CreateReceivable
sale = record {
  contact_id = 9;
  amount = pos 250;
  date = 10;
  due_date = some 40;
  description = none;
  reference_no = none;
  income_account_id = some 4;
  money_account_id = none;
}

abbrev invoice : ℕ → ℕ → ℕ → Transaction
invoice i day amount = record {
  id = i;
  business_id = 7;
  transaction_type = TransactionType.sale;
  transaction_date = day;
  reference_no = none;
  description = none;
  contact_id = some 9;
  due_date = some 40;
  applied_to_transaction_id = none;
  idempotency_key = none;
  created_by = 5;
  created_at = 100;
  status = TransactionStatus.posted;
  voided_at = none;
  voided_reason = none;
  reversal_of_id = none;
  entries = two_entries 2 4 (pos amount) none none none none;
}

abbrev after_sale : Db
after_sale = shop_with (pos 0) (pos 250) (pos 250) (invoice 11 10 250 ∷ [])

sells : record_sale context 7 sale shop ≡ ok (invoice 11 10 250, after_sale)
unfolding record_sale require_own_contact require_system_account find_system_account sale_account
    sort_by insert_by choose_income_account require_account_of_type create_transaction create_racing
    post_seeing post_new find_by_key validate_entry_shape require_accounts_belong_to_business
    require_links_belong_to_business require_contact require_applied_to insert_transaction
    recalculate_balance fresh_balance distinct remove_all ◌+ℤ◌ ◌-ℤ◌
sells = refl

shop-IsSound : IsSound shop
unfolding fresh_balance ◌+ℤ◌ ◌-ℤ◌
shop-IsSound = record {
  consistent = record { cached = λ i. ground arith };
  double_entry = tt;
  unique_keys = tt;
}

-- 1.00 of the first invoice is paid already.
abbrev two_dues : List Due
two_dues =
    record { invoice = invoice 11 10 250; original = pos 250; paid = pos 100 }
    ∷ record { invoice = invoice 12 20 300; original = pos 300; paid = pos 0 }
    ∷ []

settle_fifo-allocates_example :
    ((settle_fifo (pos 200) two_dues).dues ≡ allocate (pos 200) (pos 0) two_dues)
    × ((settle_fifo (pos 200) two_dues).pool ≡ max_ℤ (pos 0) (pos 200 -ℤ owed_in_all two_dues))
settle_fifo-allocates_example = settle_fifo-allocates (pos 200) two_dues (ground arith)

-- 1.00 of the sale is paid in cash.
abbrev cash_in : Payment
cash_in = record {
  contact_id = 9;
  amount = pos 100;
  date = 30;
  money_account_id = 1;
  description = none;
  applied_to_transaction_id = none;
}

abbrev payment_context : Context
payment_context = record { new_id = 12; now = 200; user_id = 5 }

abbrev payment_row : Transaction
payment_row = record {
  id = 12;
  business_id = 7;
  transaction_type = TransactionType.payment;
  transaction_date = 30;
  reference_no = none;
  description = none;
  contact_id = some 9;
  due_date = none;
  applied_to_transaction_id = none;
  idempotency_key = none;
  created_by = 5;
  created_at = 200;
  status = TransactionStatus.posted;
  voided_at = none;
  voided_reason = none;
  reversal_of_id = none;
  entries = two_entries 1 2 (pos 100) none none none none;
}

abbrev after_payment : Db
after_payment = shop_with (pos 100) (pos 150) (pos 250) (invoice 11 10 250 ∷ payment_row ∷ [])

pays :
    settle_payment Direction.receivable payment_context 7 cash_in after_sale
    ≡ ok (payment_row, after_payment)
unfolding settle_payment require_own_contact require_system_account find_system_account sort_by
    insert_by require_money_account validate_payment_amount check_amount compute_direction
    invoices_of payments_of apply_payments settle_fifo dhaka_date_only post post_seeing post_new
    find_by_key validate_entry_shape require_accounts_belong_to_business
    require_links_belong_to_business require_contact require_applied_to insert_transaction
    recalculate_balance fresh_balance distinct remove_all ◌+ℤ◌ ◌-ℤ◌
pays = refl

settle_payment-lowers_example :
    (outstanding_of (compute_direction 200 7 customer Direction.receivable after_payment)
      ≡ outstanding_of (compute_direction 200 7 customer Direction.receivable after_sale)
        -ℤ pos 100)
    × ((is_some (truthy cash_in.applied_to_transaction_id) ≡ true)
        ⊎ (pos 0
            ≤ℤ outstanding_of
                (compute_direction 200 7 customer Direction.receivable after_payment)))
settle_payment-lowers_example =
    settle_payment-lowers Direction.receivable payment_context 7 cash_in after_sale payment_row
      after_payment customer pays refl

after_payment-IsSound : IsSound after_payment
unfolding receive_payment
after_payment-IsSound =
    serve_due-IsSound payment_context 7 (DueRequest.received cash_in) after_sale payment_row
      after_payment
      (serve_due-IsSound context 7 (DueRequest.sold sale) shop (invoice 11 10 250) after_sale
        shop-IsSound sells)
      pays

abbrev receivable : Account
receivable = account 2 AccountType.asset (some AccountSubtype.receivable) true (pos 150)

receivable_found :
    find_system_account 7 Direction.receivable after_payment.accounts ≡ some receivable
unfolding find_system_account sort_by insert_by
receivable_found = refl

nothing_overpaid :
    All IsNotOverpaid
      (applied 2
        (invoices_of 7 9 Direction.receivable after_payment.transactions)
        (payments_of 7 9 2 after_payment.transactions)).dues
unfolding invoices_of payments_of apply_payments apply_payment sort_by insert_by ◌+ℤ◌
nothing_overpaid = (record { within = ground arith }, tt)

compute_direction-remaining_example :
    sum_of
      (λ (t : InvoiceBreakdown). t.remaining_amount)
      (compute_direction 200 7 customer Direction.receivable after_payment).transactions
    ≡ max_ℤ (pos 0) (compute_direction 200 7 customer Direction.receivable after_payment).remaining
compute_direction-remaining_example =
    compute_direction-remaining 200 7 customer Direction.receivable after_payment receivable
      after_payment-IsSound (refl, (refl, tt)) receivable_found nothing_overpaid

every_fit : All (IsFitting 7 Direction.receivable after_payment) after_payment.contacts
every_fit =
    let first : (a : Account)
        → find_system_account 7 Direction.receivable after_payment.accounts ≡ some a
        → a.id ≡ 2 =
      λ a e.
        let both : some a ≡ some receivable = sym e ∙ receivable_found in
        ap (λ (o : Option Account). elim o [ none ↦ 0 | some x ↦ x.id ]) both in
    (
      record {
        fits = λ a e.
            subst
              (λ k.
                All IsNotOverpaid
                  (applied k (invoices_of 7 9 Direction.receivable after_payment.transactions)
                    (payments_of 7 9 k after_payment.transactions)).dues)
              (sym (first a e)) nothing_overpaid;
      },
      tt,
    )

get_aging-IsAddedUp_example : IsAddedUp (get_aging 200 7 Direction.receivable after_payment)
get_aging-IsAddedUp_example =
    get_aging-IsAddedUp 200 7 Direction.receivable after_payment after_payment-IsSound
      (refl, (refl, tt)) every_fit
