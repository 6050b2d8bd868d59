-- ===== src/Payments/Tests.antt =====
-- Two refunds of one payment that race.
use cashfo_backend.Base.{◌≡◌, refl, true, none, some, List, [], ◌∷◌, pos, arith}
use cashfo_backend.Schema.{ok, err, Error}
use cashfo_backend.Payments.Rows.{
  PaymentStatus, PaymentGateway, Payment, Refund, PaymentsDb, Surroundings, RefundPayment, AuditLog,
}
use cashfo_backend.Payments.Defs.{new_refund, refund_log, insert_refund, refund_seeing}
use cashfo_backend.Payments.World.{World, Step, Reach, committed}
use cashfo_backend.Payments.Orderly.{IsOrderly}
use cashfo_backend.Payments.Runs.{Reach-IsOrderly}
use cashfo_backend.Payments.Once.{refund_seeing-once}

abbrev payment : PaymentStatus → Payment
payment status = record {
  id = 1;
  platform_user_id = 2;
  plan_id = 3;
  amount = pos 79900;
  currency = 4;
  discount_applied = none;
  coupon_id = none;
  gateway = PaymentGateway.card;
  gateway_reference_id = none;
  status = status;
  failure_reason = none;
  paid_at = some 10;
  created_at = 10;
}

abbrev paid : Payment
paid = payment PaymentStatus.success

abbrev payments_with : Payment → List Refund → List AuditLog → PaymentsDb
payments_with p rs ls = record {
  payments = p ∷ [];
  refunds = rs;
  invoices = [];
  users = [];
  plans = [];
  audit_logs = ls;
}

-- Both requests have read the payment, and neither has committed.
abbrev both_read : World
both_read = record { db = payments_with paid [] []; seen = paid ∷ paid ∷ [] }

abbrev start : World
start = record { db = payments_with paid [] []; seen = [] }

abbrev admin : Surroundings
admin = record {
  admin_id = 6;
  ip_address = none;
  now = 20;
  year = 2026;
  payment_id = 31;
  refund_id = 32;
  invoice_id = 33;
  is_production = true;
}

abbrev request : RefundPayment
request = record { amount = pos 79900; reason = 8 }

abbrev after : PaymentsDb
after =
    payments_with (payment PaymentStatus.refunded) (new_refund admin 1 request ∷ [])
      (refund_log admin 1 paid request ∷ [])

refunds :
    refund_seeing paid admin 1 request both_read.db
    ≡ ok ((payment PaymentStatus.refunded, new_refund admin 1 request), after)
unfolding refund_seeing insert_refund
refunds = refl

start-IsOrderly : IsOrderly start
start-IsOrderly = record {
  unique = (refl, tt);
  matched = λ i p e. ground arith;
  orphanless = λ i e. refl;
  snapshots = tt;
}

run : Reach start (committed after both_read)
run = Reach.step (Step.reads 1 paid refl) (
    Reach.step (Step.reads 1 paid refl) (
      Reach.step
        (Step.refunds 0 paid admin request (payment PaymentStatus.refunded)
          (new_refund admin 1 request) after refl refunds)
        Reach.here))

Reach-IsOrderly_example : IsOrderly (committed after both_read)
Reach-IsOrderly_example = Reach-IsOrderly start-IsOrderly run

both_read-IsOrderly : IsOrderly both_read
both_read-IsOrderly =
    Reach-IsOrderly start-IsOrderly
      (Reach.step (Step.reads 1 paid refl) (Reach.step (Step.reads 1 paid refl) Reach.here))

refund_seeing-once_example : (e : Error) × (refund_seeing paid admin 1 request after ≡ err e)
refund_seeing-once_example =
    refund_seeing-once both_read-IsOrderly 0 1 paid paid admin admin request request
      (payment PaymentStatus.refunded) (new_refund admin 1 request) after refl refunds Reach.here
      refl refl
