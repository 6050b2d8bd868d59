-- ===== src/Dues/Lowering.antt =====
-- A payment lowers what is outstanding by its amount: `receivePayment` and `payPayment` of
-- src/receivables-payables/receivables-payables.service.ts.
use cashfo_backend.Base.{
  append-nil, ℕ, ◌≡◌, refl, sym, ◌∙◌, ap, subst, true, false, Option, some, List, [], ◌∷◌, ◌++◌, ℤ,
  pos, ◌+ℤ◌, ◌-ℤ◌, ◌≤ℤ◌, int_laws, arith, inl, inr, ◌⊎◌, ◌==◌, is_some, truthy, filter,
  filter-append, find_where, sum_of, sum_of-append, sort_by, Option-cases,
}
use cashfo_backend.Schema.{
  TransactionType, Account, Contact, Transaction, CreateTransaction, Context, Db, ok,
}
use cashfo_backend.Ledger.Posting.{new_transaction}
use cashfo_backend.Ledger.Inversion.{post_new-IsPosted}
use cashfo_backend.Ledger.Settling.{for_each-IsSettled}
use cashfo_backend.Ledger.Voiding.{dhaka_date_only}
use cashfo_backend.Dues.Defs.{
  Direction, DirectionBreakdown, find_system_account, invoice_type, is_live_of, touches, amount_at,
  invoices_of, payments_of, comes_first, opening_owed_of, summary_of, compute_direction,
}
use cashfo_backend.Dues.Requests.{
  Payment, outstanding_of, check_amount, payment_request, settle_payment,
}
use cashfo_backend.Dues.Outstanding.{outstanding_of-sum}
use cashfo_backend.Dues.Lookup.{for_each-blank, find_system_account-same}
use cashfo_backend.Dues.Paying.{IsPaid, settle_payment-IsPaid}

-- The amount of an entry of the payment, on whichever account it is found first.
amount_at-payment :
    (dir : Direction) (ctx : Context) (b : ℕ) (dto : Payment) (c : Contact) (side money : Account)
    → amount_at side.id (new_transaction ctx b (payment_request dir dto c side money)) ≡ dto.amount
amount_at-payment Direction.receivable ctx b dto c side money = ground arith
amount_at-payment Direction.payable ctx b dto c side money = ground arith

touches-payment :
    (dir : Direction) (ctx : Context) (b : ℕ) (dto : Payment) (c : Contact) (side money : Account)
    → touches side.id (new_transaction ctx b (payment_request dir dto c side money)) ≡ true
touches-payment Direction.receivable ctx b dto c side money = ground arith
touches-payment Direction.payable ctx b dto c side money = ground arith

payment_live :
    (dir : Direction) (ctx : Context) (b : ℕ) (dto : Payment) (c : Contact) (side money : Account)
    → is_live_of b c.id TransactionType.payment
        (new_transaction ctx b (payment_request dir dto c side money))
      ≡ true
payment_live dir ctx b dto c side money = ground arith

payment_no_invoice :
    (dir : Direction) (ctx : Context) (b : ℕ) (dto : Payment) (c : Contact) (side money : Account)
    → is_live_of b c.id
        (invoice_type dir)
        (new_transaction ctx b (payment_request dir dto c side money))
      ≡ false
payment_no_invoice Direction.receivable ctx b dto c side money = ground arith
payment_no_invoice Direction.payable ctx b dto c side money = ground arith

pub compute_direction-found :
    (now b : ℕ) (c : Contact) (dir : Direction) (db : Db) (a : Account)
    → find_system_account b dir db.accounts ≡ some a
    → compute_direction now b c dir db
      ≡ summary_of
          (dhaka_date_only now)
          a.id
          (opening_owed_of dir c)
          (invoices_of b c.id dir db.transactions)
          (payments_of b c.id a.id db.transactions)
unfolding compute_direction
compute_direction-found now b c dir db a e = rw (e, compute_direction) refl

-- What is outstanding, by the invoices and payments of the ledger.
abbrev owing : ℕ → Contact → Direction → ℕ → List Transaction → ℤ
owing b c dir account_id ts =
    sum_of (amount_at account_id) (invoices_of b c.id dir ts)
    -ℤ sum_of (amount_at account_id) (payments_of b c.id account_id ts)
    +ℤ opening_owed_of dir c

outstanding_of-owing :
    (now b : ℕ) (c : Contact) (dir : Direction) (db : Db) (a : Account)
    → find_system_account b dir db.accounts ≡ some a
    → outstanding_of (compute_direction now b c dir db) ≡ owing b c dir a.id db.transactions
outstanding_of-owing now b c dir db a e =
    ap outstanding_of (compute_direction-found now b c dir db a e)
    ∙ outstanding_of-sum (dhaka_date_only now) a.id (opening_owed_of dir c)
        (invoices_of b c.id dir db.transactions) (payments_of b c.id a.id db.transactions)

less_later : (i p o v : ℤ) → i -ℤ (p +ℤ (v +ℤ pos 0)) +ℤ o ≡ i -ℤ p +ℤ o -ℤ v
less_later i p o v = omega int_laws

-- The ledger with one payment more.
owing-paid :
    (dir : Direction) (ctx : Context) (b : ℕ) (dto : Payment) (c : Contact) (side money : Account)
    (ts : List Transaction)
    → owing b c dir side.id
        (ts ++ new_transaction ctx b (payment_request dir dto c side money) ∷ [])
      ≡ owing b c dir side.id ts -ℤ dto.amount
unfolding invoices_of payments_of
owing-paid dir ctx b dto c side money ts =
    let t = new_transaction ctx b (payment_request dir dto c side money) in
    let no_invoice = payment_no_invoice dir ctx b dto c side money in
    let live = payment_live dir ctx b dto c side money in
    let on = touches-payment dir ctx b dto c side money in
    let invoices : invoices_of b c.id dir (ts ++ t ∷ []) ≡ invoices_of b c.id dir ts =
      ap (sort_by comes_first) (
        filter-append (is_live_of b c.id (invoice_type dir)) ts (t ∷ [])
        ∙ rw no_invoice (append-nil _)) in
    let live_rows : filter (is_live_of b c.id TransactionType.payment) (ts ++ t ∷ [])
        ≡ filter (is_live_of b c.id TransactionType.payment) ts ++ t ∷ [] =
      filter-append (is_live_of b c.id TransactionType.payment) ts (t ∷ []) ∙ rw live refl in
    let payments : payments_of b c.id side.id (ts ++ t ∷ [])
        ≡ payments_of b c.id side.id ts ++ t ∷ [] =
      ap (filter (touches side.id)) live_rows
      ∙ filter-append (touches side.id) (filter (is_live_of b c.id TransactionType.payment) ts)
          (t ∷ [])
      ∙ rw on refl in
    let paid =
      ap (sum_of (amount_at side.id)) payments
      ∙ sum_of-append (amount_at side.id) (payments_of b c.id side.id ts) (t ∷ [])
      ∙ ap (λ (v : ℤ). sum_of (amount_at side.id) (payments_of b c.id side.id ts) +ℤ (v +ℤ pos 0))
          (amount_at-payment dir ctx b dto c side money) in
    ap
      (λ (is : List Transaction).
        sum_of (amount_at side.id) is
        -ℤ sum_of (amount_at side.id) (payments_of b c.id side.id (ts ++ t ∷ []))
        +ℤ opening_owed_of dir c)
      invoices
    ∙ ap
        (λ (v : ℤ).
          sum_of (amount_at side.id) (invoices_of b c.id dir ts) -ℤ v +ℤ opening_owed_of dir c)
        paid
    ∙ less_later _ _ _ dto.amount

check_amount-general :
    (x : DirectionBreakdown) (amount : ℤ) (applied_to : Option ℕ) (db : Db)
    → check_amount x amount applied_to db ≡ ok (tt, db)
    → (is_some (truthy applied_to) ≡ true) ⊎ (amount ≤ℤ outstanding_of x)
unfolding check_amount
check_amount-general x amount applied_to db h = elim (Option-cases (truthy applied_to)) [
  | inr (i, e) ↦ inl (rw e refl)
  | inl e ↦ inr (ground arith)
]

not_below : (x y v : ℤ) → y ≡ x -ℤ v → v ≤ℤ x → pos 0 ≤ℤ y
not_below x y v e h = subst (λ z. pos 0 ≤ℤ z) (sym e) (omega (int_laws, h))

module _ {dir : Direction} {ctx : Context} {b : ℕ} {dto : Payment} {db db' : Db} {t : Transaction}
    (p : IsPaid dir ctx b dto db t db') where
  abbrev request : CreateTransaction
  request = payment_request dir dto p.contact p.side p.money

  rows_after : db'.transactions ≡ db.transactions ++ new_transaction ctx b request ∷ []
  rows_after =
      let q = post_new-IsPosted ctx b request db t db' p.posted in
      let settled =
        for_each-IsSettled _ (record db { transactions = db.transactions ++ t ∷ [] }) db'
          q.settled in
      ap (λ (x : Db). x.transactions) settled.rest
      ∙ ap (λ (x : Transaction). db.transactions ++ x ∷ []) q.row

  paid-lowers :
      outstanding_of (compute_direction ctx.now b p.contact dir db')
      ≡ outstanding_of (compute_direction ctx.now b p.contact dir db) -ℤ dto.amount
  paid-lowers =
      let q = post_new-IsPosted ctx b request db t db' p.posted in
      let blank =
        for_each-blank _ (record db { transactions = db.transactions ++ t ∷ [] }) db' q.settled in
      let (side', found, same_id) =
        find_system_account-same b dir db.accounts db'.accounts p.side blank p.side_found in
      outstanding_of-owing ctx.now b p.contact dir db' side' found
      ∙ ap (λ (k : ℕ). owing b p.contact dir k db'.transactions) same_id
      ∙ ap (owing b p.contact dir p.side.id) rows_after
      ∙ owing-paid dir ctx b dto p.contact p.side p.money db.transactions
      ∙ ap (λ (v : ℤ). v -ℤ dto.amount)
          (sym (outstanding_of-owing ctx.now b p.contact dir db p.side p.side_found))

  paid-general :
      (is_some (truthy dto.applied_to_transaction_id) ≡ true)
      ⊎ (pos 0 ≤ℤ outstanding_of (compute_direction ctx.now b p.contact dir db'))
  paid-general =
      let before = compute_direction ctx.now b p.contact dir db in
      elim (check_amount-general before dto.amount dto.applied_to_transaction_id db p.checked) [
        | inl applied ↦ inl applied
        | inr within ↦ inr (not_below (outstanding_of before) _ dto.amount paid-lowers within)
      ]

-- A payment that is received from a contact or paid to one, and goes through, lowers what is
-- outstanding in its direction by exactly its amount; and where it is applied to no invoice of its
-- own, what is outstanding afterwards is not negative.
pub settle_payment-lowers :
    (dir : Direction) (ctx : Context) (b : ℕ) (dto : Payment) (db : Db) (t : Transaction) (db' : Db)
    (c : Contact)
    → settle_payment dir ctx b dto db ≡ ok (t, db')
    → find_where (λ (x : Contact). x.id == dto.contact_id) db.contacts ≡ some c
    → (outstanding_of (compute_direction ctx.now b c dir db')
        ≡ outstanding_of (compute_direction ctx.now b c dir db) -ℤ dto.amount)
      × ((is_some (truthy dto.applied_to_transaction_id) ≡ true)
          ⊎ (pos 0 ≤ℤ outstanding_of (compute_direction ctx.now b c dir db')))
settle_payment-lowers dir ctx b dto db t db' c h found =
    let p = settle_payment-IsPaid dir ctx b dto db t db' h in
    let both : some p.contact ≡ some c = sym p.contact_found ∙ found in
    let same : p.contact ≡ c = ground arith in
    subst
      (λ (x : Contact).
        (outstanding_of (compute_direction ctx.now b x dir db')
          ≡ outstanding_of (compute_direction ctx.now b x dir db) -ℤ dto.amount)
        × ((is_some (truthy dto.applied_to_transaction_id) ≡ true)
            ⊎ (pos 0 ≤ℤ outstanding_of (compute_direction ctx.now b x dir db'))))
      same (paid-lowers p, paid-general p)
