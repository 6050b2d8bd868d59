-- ===== src/Payments/Once.antt =====
-- A payment is refunded once: src/payments/payments.service.ts.
use cashfo_backend.Base.{
  ℕ, ◌≡◌, refl, sym, ◌∙◌, ap, true, false, some, arith, inl, inr, find_unique-key,
}
use cashfo_backend.Schema.{ok, err, Error, Result-cases}
use cashfo_backend.Payments.Rows.{
  PaymentStatus, Payment, Refund, PaymentsDb, Surroundings, RefundPayment, is_success,
}
use cashfo_backend.Payments.Defs.{find_payment, set_status, is_refundable, refund_seeing}
use cashfo_backend.Payments.World.{World, Reach, nth, committed}
use cashfo_backend.Payments.Commits.{IsRefunding, refund_seeing-IsRefunding}
use cashfo_backend.Payments.Orderly.{follows, IsLater, IsOrderly, nth-All}
use cashfo_backend.Payments.Racing.{moved_lookup}
use cashfo_backend.Payments.Refunding.{claimed_now, refunding-IsMove, refunded-IsOrderly}
use cashfo_backend.Payments.Runs.{read_now, Reach-IsKept}

stays_refunded :
    (s : PaymentStatus) → follows PaymentStatus.refunded s ≡ true → is_success s ≡ false
stays_refunded s h = ground arith

module _ {w : World} (orderly : IsOrderly w) (p : Payment) (later : IsLater p w.db)
    (ctx : Surroundings) (dto : RefundPayment) (db' : PaymentsDb)
    (done : IsRefunding p ctx p.id dto w.db db') where
  after_refund : find_payment p.id db'.payments ≡ some (set_status PaymentStatus.refunded later.now)
  after_refund =
      let found = later.found in
      let key = find_unique-key (λ (r : Payment). r.id) p.id w.db.payments later.now found in
      let good = claimed_now orderly p later ctx dto db' done in
      let claimed : is_refundable p.id later.now ≡ true = ground arith in
      moved_lookup (refunding-IsMove orderly p later ctx dto db' done) p.id
      ∙ rw found (rw claimed refl)

-- A refund that went through, in an orderly world, and any run of steps after it: every refund of
-- the same payment is refused then, whichever row of the payment it has read at any time.
pub refund_seeing-once :
    {w v : World} (orderly : IsOrderly w) (n m : ℕ) (p p' : Payment) (ctx ctx' : Surroundings)
    (dto dto' : RefundPayment) (q : Payment) (r : Refund) (db' : PaymentsDb)
    → nth n w.seen ≡ some p
    → refund_seeing p ctx p.id dto w.db ≡ ok ((q, r), db')
    → Reach (committed db' w) v
    → nth m v.seen ≡ some p'
    → p'.id ≡ p.id
    → (e : Error) × (refund_seeing p' ctx' p'.id dto' v.db ≡ err e)
refund_seeing-once {w = w} {v = v} orderly n m p p' ctx ctx' dto dto' q r db' read h run read'
      same =
    elim (Result-cases (refund_seeing p' ctx' p'.id dto' v.db)) [
      | inl refused ↦ refused
      | inr (((q', r'), db''), again) ↦
          let done = refund_seeing-IsRefunding p ctx p.id dto w.db q r db' h in
          let later = nth-All (λ x. IsLater x w.db) n w.seen p orderly.snapshots read in
          let after = refunded-IsOrderly orderly p later ctx dto db' done in
          let kept = Reach-IsKept after run in
          let row = after_refund orderly p later ctx dto db' done in
          let refunded =
            kept.later (set_status PaymentStatus.refunded later.now)
              (read_now db' p.id (set_status PaymentStatus.refunded later.now) row) in
          let later' = nth-All (λ x. IsLater x v.db) m v.seen p' kept.orderly.snapshots read' in
          let done' = refund_seeing-IsRefunding p' ctx' p'.id dto' v.db q' r' db'' again in
          let good = claimed_now kept.orderly p' later' ctx' dto' db'' done' in
          let key =
            find_unique-key (λ (x : Payment). x.id) p.id w.db.payments later.now later.found in
          let found = refunded.found in
          let one : some refunded.now ≡ some later'.now =
            sym found
            ∙ ap (λ (k : ℕ). find_payment k v.db.payments) (key ∙ sym same)
            ∙ later'.found in
          let same_status : refunded.now.status ≡ later'.now.status = ground arith in
          let moved_on = refunded.moved_on in
          let over = stays_refunded later'.now.status (ground arith) in absurd (ground arith)
    ]
