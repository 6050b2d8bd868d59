-- ===== src/Payments/Rows.antt =====
-- The rows of payments, refunds and invoices (prisma/schema.prisma), and their requests.
use cashfo_backend.Base.{ℕ, Bool, Option, List, ℤ}

pub data PaymentStatus : Type 0 where
  pending success failed refunded : PaymentStatus

pub data PaymentGateway : Type 0 where
  bkash nagad sslcommerz card manual : PaymentGateway

pub data RefundStatus : Type 0 where
  pending completed rejected : RefundStatus

pub record Payment : Type 0 where
  pub id : ℕ
  pub platform_user_id : ℕ
  pub plan_id : ℕ
  pub amount : ℤ
  pub currency : ℕ
  pub discount_applied : Option ℤ
  pub coupon_id : Option ℕ
  pub gateway : PaymentGateway
  pub gateway_reference_id : Option ℕ
  pub status : PaymentStatus
  pub failure_reason : Option ℕ
  pub paid_at : Option ℕ
  pub created_at : ℕ

pub record Refund : Type 0 where
  pub id : ℕ
  pub payment_id : ℕ
  pub amount : ℤ
  pub reason : ℕ
  pub processed_by : ℕ
  pub status : RefundStatus
  pub created_at : ℕ

-- `INV-<year>-<serial>`, the serial with zeros in front.
pub record InvoiceNumber : Type 0 where
  pub year : ℕ
  pub serial : ℕ

pub record Invoice : Type 0 where
  pub id : ℕ
  pub payment_id : ℕ
  pub invoice_number : InvoiceNumber
  pub issued_to_name : ℕ
  pub issued_to_email : ℕ
  pub item_plan_name : ℕ
  pub item_amount : ℤ
  pub total_amount : ℤ

pub record PlatformUser : Type 0 where
  pub id : ℕ
  pub name : ℕ
  pub email : ℕ

pub record SubscriptionPlan : Type 0 where
  pub id : ℕ
  pub name : ℕ
  pub price : ℤ
  pub currency : ℕ

pub data AuditAction : Type 0 where
  payment_retry_triggered payment_refunded : AuditAction

pub record AuditLog : Type 0 where
  pub admin_user_id : ℕ
  pub action : AuditAction
  pub entity_id : ℕ
  pub old_status : PaymentStatus
  pub new_status : PaymentStatus
  pub amount : Option ℤ
  pub reason : Option ℕ
  pub ip_address : Option ℕ

pub record PaymentsDb : Type 0 where
  pub payments : List Payment
  pub refunds : List Refund
  pub invoices : List Invoice
  pub users : List PlatformUser
  pub plans : List SubscriptionPlan
  pub audit_logs : List AuditLog

-- What a request gets from its surroundings: the administrator, the clock, the address, and the
-- ids that the database draws.
pub record Surroundings : Type 0 where
  pub admin_id : ℕ
  pub ip_address : Option ℕ
  pub now : ℕ
  pub year : ℕ
  pub payment_id : ℕ
  pub refund_id : ℕ
  pub invoice_id : ℕ
  pub is_production : Bool

-- The amount is in hundredths, as the column keeps it.
pub record RefundPayment : Type 0 where
  pub amount : ℤ
  pub reason : ℕ

pub record SimulatePayment : Type 0 where
  pub platform_user_id : ℕ
  pub plan_id : ℕ

abbrev pub is_success : PaymentStatus → Bool
is_success PaymentStatus.success = Bool.true
is_success _ = Bool.false

abbrev pub is_failed : PaymentStatus → Bool
is_failed PaymentStatus.failed = Bool.true
is_failed _ = Bool.false
