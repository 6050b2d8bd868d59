-- ===== src/Payments/Defs.antt =====
-- The requests that change payments: `retry`, `refund`, `simulatePayment` and
-- `generateInvoiceNumber` of src/payments/payments.service.ts, and `duplicateOf` of
-- src/payments/payment-extras.ts. Each of `retry` and `refund` reads the payment before its
-- database transaction, so another request may commit in between: the part that commits takes the
-- row that was read.
use cashfo_backend.Base.{
  ℕ, ◌+◌, ◌-◌, Bool, true, false, not, Option, none, some, List, [], ◌∷◌, ◌++◌, ◌==◌, ◌&&◌, ◌||◌,
  if◌then◌else◌, ltb, leb, ltb_ℤ, any, filter, length, find_unique, update_unique, update_where,
}
use cashfo_backend.Schema.{
  Action, ok, err, ◌>>=◌, ◌>>◌, pure, throw_if, or_throw, gets, modify, payment_not_found,
  not_failed, not_successful, refund_too_large, already_refunded, not_in_production, user_not_found,
  plan_not_found, unique_violation,
}
use cashfo_backend.Payments.Rows.{
  PaymentStatus, PaymentGateway, RefundStatus, Payment, Refund, InvoiceNumber, Invoice,
  PlatformUser, SubscriptionPlan, AuditAction, AuditLog, PaymentsDb, Surroundings, RefundPayment,
  SimulatePayment, is_success, is_failed,
}

abbrev pub find_payment : ℕ → List Payment → Option Payment
find_payment = find_unique (λ p. p.id)

abbrev pub set_status : PaymentStatus → Payment → Payment
set_status s p = record p { status = s }

abbrev pub add_log : AuditLog → PaymentsDb → PaymentsDb
add_log l db = record db { audit_logs = db.audit_logs ++ l ∷ [] }

unfoldable pub require_payment : ℕ → Action PaymentsDb Payment
require_payment i db = or_throw (find_payment i db.payments) payment_not_found db

abbrev pub retry_log : Surroundings → ℕ → Payment → AuditLog
retry_log ctx i p = record {
  admin_user_id = ctx.admin_id;
  action = AuditAction.payment_retry_triggered;
  entity_id = i;
  old_status = p.status;
  new_status = PaymentStatus.pending;
  amount = none;
  reason = none;
  ip_address = ctx.ip_address;
}

-- The rest of `retry` after the payment `p` was read.
unfoldable pub retry_seeing : Payment → Surroundings → ℕ → Action PaymentsDb Payment
retry_seeing p ctx i = do
  throw_if (not (is_failed p.status)) not_failed
  old ← (λ db. or_throw (find_payment i db.payments) payment_not_found db)
  modify (λ db. record db {
    payments =
        update_unique (λ (q : Payment). q.id) i (set_status PaymentStatus.pending) db.payments;
  })
  modify (add_log (retry_log ctx i p))
  pure (set_status PaymentStatus.pending old)

unfoldable pub retry : Surroundings → ℕ → Action PaymentsDb Payment
unfolding require_payment retry_seeing
retry ctx i = require_payment i >>= λ p. retry_seeing p ctx i

-- `updateMany({ where: { id, status: SUCCESS } })`
abbrev pub is_refundable : ℕ → Payment → Bool
is_refundable i p = p.id == i && is_success p.status

abbrev pub new_refund : Surroundings → ℕ → RefundPayment → Refund
new_refund ctx i dto = record {
  id = ctx.refund_id;
  payment_id = i;
  amount = dto.amount;
  reason = dto.reason;
  processed_by = ctx.admin_id;
  status = RefundStatus.completed;
  created_at = ctx.now;
}

abbrev pub is_refund_of : ℕ → Refund → Bool
is_refund_of i r = r.payment_id == i

-- `tx.refund.create`, with the unique index on the payment.
unfoldable pub insert_refund : Refund → Action PaymentsDb Refund
insert_refund r db = elim (any (is_refund_of r.payment_id) db.refunds) [
  | true ↦ err unique_violation
  | false ↦ ok (r, record db { refunds = db.refunds ++ r ∷ [] })
]

abbrev pub refund_log : Surroundings → ℕ → Payment → RefundPayment → AuditLog
refund_log ctx i p dto = record {
  admin_user_id = ctx.admin_id;
  action = AuditAction.payment_refunded;
  entity_id = i;
  old_status = p.status;
  new_status = PaymentStatus.refunded;
  amount = some dto.amount;
  reason = some dto.reason;
  ip_address = ctx.ip_address;
}

-- The rest of `refund` after the payment `p` was read.
unfoldable pub refund_seeing :
    Payment → Surroundings → ℕ → RefundPayment → Action PaymentsDb (Payment × Refund)
unfolding insert_refund
refund_seeing p ctx i dto = do
  throw_if (not (is_success p.status)) not_successful
  throw_if (ltb_ℤ p.amount dto.amount) refund_too_large
  claimed ← gets (λ db. length (filter (is_refundable i) db.payments))
  modify (λ db. record db {
    payments = update_where (is_refundable i) (set_status PaymentStatus.refunded) db.payments;
  })
  throw_if (claimed == 0) already_refunded
  r ← insert_refund (new_refund ctx i dto)
  updated ← (λ db. or_throw (find_payment i db.payments) payment_not_found db)
  modify (add_log (refund_log ctx i p dto))
  pure (updated, r)

unfoldable pub refund : Surroundings → ℕ → RefundPayment → Action PaymentsDb (Payment × Refund)
unfolding require_payment refund_seeing
refund ctx i dto = require_payment i >>= λ p. refund_seeing p ctx i dto

-- `startsWith: INV-<year>-`
abbrev pub is_of_year : ℕ → Invoice → Bool
is_of_year year v = v.invoice_number.year == year

unfoldable pub generate_invoice_number : ℕ → Action PaymentsDb InvoiceNumber
generate_invoice_number year = do
  count ← gets (λ db. length (filter (is_of_year year) db.invoices))
  pure (record { year = year; serial = count + 1 })

abbrev pub same_number : InvoiceNumber → Invoice → Bool
same_number n v = v.invoice_number.year == n.year && v.invoice_number.serial == n.serial

-- `tx.invoice.create`, with the unique indexes on the number and the payment.
unfoldable pub insert_invoice : Invoice → Action PaymentsDb Invoice
insert_invoice v db =
    elim (any (λ (u : Invoice). same_number v.invoice_number u || u.payment_id == v.payment_id)
      db.invoices) [
        | true ↦ err unique_violation
        | false ↦ ok (v, record db { invoices = db.invoices ++ v ∷ [] })
      ]

abbrev pub simulated_payment : Surroundings → PlatformUser → SubscriptionPlan → Payment
simulated_payment ctx user plan = record {
  id = ctx.payment_id;
  platform_user_id = user.id;
  plan_id = plan.id;
  amount = plan.price;
  currency = plan.currency;
  discount_applied = none;
  coupon_id = none;
  gateway = PaymentGateway.manual;
  gateway_reference_id = some ctx.now;
  status = PaymentStatus.success;
  failure_reason = none;
  paid_at = some ctx.now;
  created_at = ctx.now;
}

abbrev pub simulated_invoice :
    Surroundings → PlatformUser → SubscriptionPlan → InvoiceNumber → Invoice
simulated_invoice ctx user plan number = record {
  id = ctx.invoice_id;
  payment_id = ctx.payment_id;
  invoice_number = number;
  issued_to_name = user.name;
  issued_to_email = user.email;
  item_plan_name = plan.name;
  item_amount = plan.price;
  total_amount = plan.price;
}

unfoldable pub simulate_payment :
    Surroundings → SimulatePayment → Action PaymentsDb (Payment × Invoice)
unfolding generate_invoice_number insert_invoice
simulate_payment ctx dto = do
  throw_if ctx.is_production not_in_production
  user ← (λ db.
      or_throw (find_unique (λ (u : PlatformUser). u.id) dto.platform_user_id db.users)
        user_not_found db)
  plan ← (λ db.
      or_throw (find_unique (λ (s : SubscriptionPlan). s.id) dto.plan_id db.plans) plan_not_found
        db)
  let payment = simulated_payment ctx user plan
  modify (λ db. record db { payments = db.payments ++ payment ∷ [] })
  number ← generate_invoice_number ctx.year
  invoice ← insert_invoice (simulated_invoice ctx user plan number)
  pure (payment, invoice)

-- `DUPLICATE_WINDOW_MS`
abbrev pub duplicate_window_ms : ℕ
duplicate_window_ms = 600_000

abbrev pub is_kept : PaymentStatus → Bool
is_kept PaymentStatus.success = Bool.true
is_kept PaymentStatus.refunded = Bool.true
is_kept _ = Bool.false

-- The tests by which the loop goes on to the next candidate.
abbrev pub repeats : Payment → Payment → Bool
repeats p other =
    not (other.id == p.id)
    && other.platform_user_id == p.platform_user_id
    && other.plan_id == p.plan_id
    && is_kept other.status
    && ltb other.created_at p.created_at
    && leb (p.created_at - other.created_at) duplicate_window_ms

-- `if (!earlier || other.createdAt < earlier.createdAt) earlier = other`
abbrev pub earlier_of : Option Payment → Payment → Payment
earlier_of none other = other
earlier_of (some e) other = if ltb other.created_at e.created_at then other else e

unfoldable pub earliest : Payment → List Payment → Option Payment → Option Payment
earliest p [] earlier = earlier
earliest p (other ∷ others) earlier =
    let kept = earliest p others (some (earlier_of earlier other)) in
    let skipped = earliest p others earlier in if repeats p other then kept else skipped

unfoldable pub duplicate_of : Payment → List Payment → Option ℕ
unfolding earliest
duplicate_of p candidates =
    if not (is_kept p.status)
    then none
    else elim (earliest p candidates none) [ none ↦ none | some e ↦ some e.id ]
