-- ===== src/Payments/Commits.antt =====
-- What each commit does to the payments and the refunds: src/payments/payments.service.ts.
use cashfo_backend.Base.{
  ℕ, ◌≡◌, true, false, [], ◌∷◌, ◌++◌, ◌≤ℤ◌, arith, ◌==◌, filter, length, update_unique,
  update_where,
}
use cashfo_backend.Schema.{ok}
use cashfo_backend.Payments.Rows.{
  PaymentStatus, Payment, Refund, Invoice, PaymentsDb, Surroundings, RefundPayment, SimulatePayment,
  is_failed,
}
use cashfo_backend.Payments.Defs.{
  set_status, retry_seeing, is_refundable, new_refund, insert_refund, refund_seeing,
  generate_invoice_number, insert_invoice, simulate_payment,
}

pub record IsRetried (p : Payment) (i : ℕ) (db db' : PaymentsDb) : Type 0 where
  pub was_failed : is_failed p.status ≡ true
  pub payments_are :
      db'.payments
      ≡ update_unique (λ (q : Payment). q.id) i (set_status PaymentStatus.pending) db.payments
  pub refunds_are : db'.refunds ≡ db.refunds

pub retry_seeing-IsRetried :
    (p : Payment) (ctx : Surroundings) (i : ℕ) (db : PaymentsDb) (q : Payment) (db' : PaymentsDb)
    → retry_seeing p ctx i db ≡ ok (q, db')
    → IsRetried p i db db'
unfolding retry_seeing
retry_seeing-IsRetried p ctx i db q db' h = ground arith

pub record IsRefunding (p : Payment) (ctx : Surroundings) (i : ℕ) (dto : RefundPayment)
    (db db' : PaymentsDb) : Type 0 where
  pub within : dto.amount ≤ℤ p.amount
  pub claimable : (length (filter (is_refundable i) db.payments) == 0) ≡ false
  pub payments_are :
      db'.payments ≡ update_where (is_refundable i) (set_status PaymentStatus.refunded) db.payments
  pub refunds_are : db'.refunds ≡ db.refunds ++ new_refund ctx i dto ∷ []

pub refund_seeing-IsRefunding :
    (p : Payment) (ctx : Surroundings) (i : ℕ) (dto : RefundPayment) (db : PaymentsDb) (q : Payment)
    (r : Refund) (db' : PaymentsDb)
    → refund_seeing p ctx i dto db ≡ ok ((q, r), db')
    → IsRefunding p ctx i dto db db'
unfolding refund_seeing insert_refund
refund_seeing-IsRefunding p ctx i dto db q r db' h = ground arith

pub record IsSimulated (ctx : Surroundings) (db db' : PaymentsDb) (q : Payment) : Type 0 where
  pub id_is : q.id ≡ ctx.payment_id
  pub status_is : q.status ≡ PaymentStatus.success
  pub payments_are : db'.payments ≡ db.payments ++ q ∷ []
  pub refunds_are : db'.refunds ≡ db.refunds

pub simulate_payment-IsSimulated :
    (ctx : Surroundings) (dto : SimulatePayment) (db : PaymentsDb) (q : Payment) (v : Invoice)
    (db' : PaymentsDb)
    → simulate_payment ctx dto db ≡ ok ((q, v), db')
    → IsSimulated ctx db db' q
unfolding simulate_payment generate_invoice_number insert_invoice
simulate_payment-IsSimulated ctx dto db q v db' h = ground arith
