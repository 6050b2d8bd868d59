-- ===== src/Payments/Orderly.antt =====
-- The invariant of payments and refunds under racing requests: src/payments/payments.service.ts.
use cashfo_backend.Base.{
  ℕ, zero, suc, ◌≡◌, refl, ap, subst, Bool, true, none, some, List, [], ◌∷◌, map, ℤ, ◌≤ℤ◌, arith,
  ◌==◌, if◌then◌else◌, inl, inr, Bool-cases, filter, All, update_where, UniqueIds,
}
use mathlib.Core.Option
use cashfo_backend.Payments.Rows.{PaymentStatus, Payment, Refund, PaymentsDb}
use cashfo_backend.Payments.Defs.{find_payment, set_status, is_refund_of}
use cashfo_backend.Payments.World.{World, nth}

abbrev pub refunds_of : ℕ → PaymentsDb → List Refund
refunds_of i db = filter (is_refund_of i) db.refunds

-- A refunded payment has one refund, of its amount at most; any other payment has none.
abbrev pub Matches : PaymentStatus → ℤ → List Refund → Type 0
Matches PaymentStatus.refunded amount rs = (r : Refund) × (rs ≡ r ∷ []) × (r.amount ≤ℤ amount)
Matches _ amount rs = rs ≡ []

-- Where a payment's status may be later.
abbrev pub follows : PaymentStatus → PaymentStatus → Bool
follows PaymentStatus.failed PaymentStatus.failed = Bool.true
follows PaymentStatus.failed PaymentStatus.pending = Bool.true
follows PaymentStatus.pending PaymentStatus.pending = Bool.true
follows PaymentStatus.success PaymentStatus.success = Bool.true
follows PaymentStatus.success PaymentStatus.refunded = Bool.true
follows PaymentStatus.refunded PaymentStatus.refunded = Bool.true
follows _ _ = Bool.false

-- The payment `p`, read earlier, is still there with its amount.
pub record IsLater (p : Payment) (db : PaymentsDb) : Type 0 where
  pub now : Payment
  pub found : find_payment p.id db.payments ≡ some now
  pub same_amount : now.amount ≡ p.amount
  pub moved_on : follows p.status now.status ≡ true

pub record IsOrderly (w : World) : Type 0 where
  pub unique : UniqueIds (map (λ (p : Payment). p.id) w.db.payments)
  pub matched :
      (i : ℕ) (p : Payment)
      → find_payment i w.db.payments ≡ some p
      → Matches p.status p.amount (refunds_of i w.db)
  pub orphanless : (i : ℕ) → find_payment i w.db.payments ≡ none → refunds_of i w.db ≡ []
  pub snapshots : All (λ p. IsLater p w.db) w.seen

pub follows_refl : (s : PaymentStatus) → follows s s ≡ true
follows_refl PaymentStatus.pending = refl
follows_refl PaymentStatus.success = refl
follows_refl PaymentStatus.failed = refl
follows_refl PaymentStatus.refunded = refl

pub follows_trans :
    (s t u : PaymentStatus) → follows s t ≡ true → follows t u ≡ true → follows s u ≡ true
follows_trans s t u h k = ground arith

-- An update of the status is seen through the lookups.
pub find-set_status :
    (f : Payment → Bool) (s : PaymentStatus) (j : ℕ) (ps : List Payment)
    → find_payment j (update_where f (set_status s) ps)
      ≡ Option.map (λ p. if f p then set_status s p else p) (find_payment j ps)
find-set_status f s j [] = refl
find-set_status f s j (p ∷ ps) = elim (Bool-cases (f p)) [
  | inl changed ↦ elim (Bool-cases (p.id == j)) [
    | inl here ↦ rw changed (rw here (rw changed refl))
    | inr there ↦ rw changed (rw there (find-set_status f s j ps))
  ]
  | inr kept ↦ elim (Bool-cases (p.id == j)) [
    | inl here ↦ rw kept (rw here (rw kept refl))
    | inr there ↦ rw kept (rw there (find-set_status f s j ps))
  ]
]

pub ids-set_status :
    (f : Payment → Bool) (s : PaymentStatus) (ps : List Payment)
    → map (λ (p : Payment). p.id) (update_where f (set_status s) ps)
      ≡ map (λ (p : Payment). p.id) ps
ids-set_status f s [] = refl
ids-set_status f s (p ∷ ps) = elim (Bool-cases (f p)) [
  | inl changed ↦ rw changed (ap (λ (is : List ℕ). p.id ∷ is) (ids-set_status f s ps))
  | inr kept ↦ rw kept (ap (λ (is : List ℕ). p.id ∷ is) (ids-set_status f s ps))
]

pub nth-All {κ} :
    (P : Payment → Type κ) (n : ℕ) (ps : List Payment) (p : Payment)
    → All P ps
    → nth n ps ≡ some p
    → P p
nth-All P n [] p h e = absurd (ground arith)
nth-All P zero (q ∷ ps) p h e = let same : q ≡ p = ground arith in subst P same h.0
nth-All P (suc n) (q ∷ ps) p h e = nth-All P n ps p h.1 e
