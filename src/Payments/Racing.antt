-- ===== src/Payments/Racing.antt =====
-- Racing requests keep payments and refunds matched: src/payments/payments.service.ts.
use cashfo_backend.Base.{
  ℕ, ◌≡◌, refl, sym, ◌∙◌, ap, subst, Bool, true, none, some, List, [], map, ℤ, arith, ◌==◌,
  if◌then◌else◌, inl, inr, Option-cases, Bool-cases, filter, All-map, find_unique-key, update_where,
  UniqueIds,
}
use mathlib.Core.Option
use cashfo_backend.Payments.Rows.{PaymentStatus, Payment, Refund, PaymentsDb, is_success, is_failed}
use cashfo_backend.Payments.Defs.{find_payment, set_status, is_refund_of}
use cashfo_backend.Payments.World.{World, committed}
use cashfo_backend.Payments.Commits.{IsRetried}
use cashfo_backend.Payments.Orderly.{
  refunds_of, Matches, follows, IsLater, IsOrderly, follows_trans, find-set_status, ids-set_status,
}

-- The payments after a commit that moves the status of some on.
pub record IsMove (f : Payment → Bool) (s : PaymentStatus) (db db' : PaymentsDb) : Type 0 where
  pub payments_are : db'.payments ≡ update_where f (set_status s) db.payments
  pub allowed :
      (i : ℕ) (p : Payment)
      → find_payment i db.payments ≡ some p
      → f p ≡ true
      → follows p.status s ≡ true

module _ {f : Payment → Bool} {s : PaymentStatus} {db db' : PaymentsDb}
    (move : IsMove f s db db') where
  pub moved_lookup :
      (i : ℕ)
      → find_payment i db'.payments
        ≡ Option.map (λ p. if f p then set_status s p else p) (find_payment i db.payments)
  moved_lookup i = ap (find_payment i) move.payments_are ∙ find-set_status f s i db.payments

  pub moved_unique :
      UniqueIds (map (λ (p : Payment). p.id) db.payments)
      → UniqueIds (map (λ (p : Payment). p.id) db'.payments)
  moved_unique u =
      subst UniqueIds
        (sym (ap (map (λ (p : Payment). p.id)) move.payments_are ∙ ids-set_status f s db.payments))
        u

  pub moved_later : (p : Payment) → IsLater p db → IsLater p db'
  moved_later p l = elim (Bool-cases (f l.now)) [
    | inl changed ↦ record {
      now = set_status s l.now;
      found = let found = l.found in moved_lookup p.id ∙ rw found (rw changed refl);
      same_amount = l.same_amount;
      moved_on =
          follows_trans p.status l.now.status s l.moved_on
            (move.allowed p.id l.now l.found changed);
    }
    | inr kept ↦ record {
      now = l.now;
      found = let found = l.found in moved_lookup p.id ∙ rw found (rw kept refl);
      same_amount = l.same_amount;
      moved_on = l.moved_on;
    }
  ]

  -- A payment that is found now was found before, and where it did not move it is the same.
  pub moved_from :
      (i : ℕ) (q : Payment)
      → find_payment i db'.payments ≡ some q
      → (p : Payment) × (find_payment i db.payments ≡ some p)
        × (q ≡ (if f p then set_status s p else p))
  moved_from i q e = elim (Option-cases (find_payment i db.payments)) [
    | inl missing ↦ let after = moved_lookup i in absurd (ground arith)
    | inr (p, found) ↦ let after = moved_lookup i in (p, found, ground arith)
  ]

  pub moved_missing :
      (i : ℕ) → find_payment i db'.payments ≡ none → find_payment i db.payments ≡ none
  moved_missing i e = let after = moved_lookup i in ground arith

failed_unrefunded :
    (s : PaymentStatus) (amount : ℤ) (rs : List Refund)
    → follows PaymentStatus.failed s ≡ true
    → Matches s amount rs
    → rs ≡ []
failed_unrefunded PaymentStatus.failed amount rs h m = m
failed_unrefunded PaymentStatus.pending amount rs h m = m
failed_unrefunded PaymentStatus.success amount rs h m = m
failed_unrefunded PaymentStatus.refunded amount rs h m = absurd (ground arith)

pub success_unrefunded :
    (s : PaymentStatus) (amount : ℤ) (rs : List Refund)
    → is_success s ≡ true
    → Matches s amount rs
    → rs ≡ []
success_unrefunded PaymentStatus.success amount rs h m = m
success_unrefunded PaymentStatus.failed amount rs h m = m
success_unrefunded PaymentStatus.pending amount rs h m = m
success_unrefunded PaymentStatus.refunded amount rs h m = absurd (ground arith)

failed-pending :
    (s : PaymentStatus)
    → follows PaymentStatus.failed s ≡ true
    → follows s PaymentStatus.pending ≡ true
failed-pending s h = ground arith

pub success-refunded :
    (s : PaymentStatus) → is_success s ≡ true → follows s PaymentStatus.refunded ≡ true
success-refunded s h = ground arith

is_failed-follows :
    (s t : PaymentStatus)
    → is_failed s ≡ true
    → follows s t ≡ true
    → follows PaymentStatus.failed t ≡ true
is_failed-follows s t h k = ground arith

abbrev pub has_id : ℕ → Payment → Bool
has_id i q = q.id == i

module _ {w : World} (orderly : IsOrderly w) (p : Payment) (later : IsLater p w.db) where
  -- The row that is found under the id of a payment that was read.
  pub now_is :
      (i : ℕ) (q : Payment)
      → find_payment i w.db.payments ≡ some q
      → has_id p.id q ≡ true
      → q ≡ later.now
  now_is i q e same =
      let key = find_unique-key (λ (r : Payment). r.id) i w.db.payments q e in
      let at : i ≡ p.id = ground arith in
      let found = later.found in
      let both : some later.now ≡ some q =
        sym found ∙ ap (λ (k : ℕ). find_payment k w.db.payments) (sym at) ∙ e in
      ground arith

  module _ (db' : PaymentsDb) (done : IsRetried p p.id w.db db') where
    pub retried-IsMove : IsMove (has_id p.id) PaymentStatus.pending w.db db'
    retried-IsMove = record {
      payments_are = done.payments_are;
      allowed = λ i q e same.
          let is_now = now_is i q e same in
          let from_failed =
            is_failed-follows p.status later.now.status done.was_failed later.moved_on in
          subst (λ (x : Payment). follows x.status PaymentStatus.pending ≡ true) (sym is_now)
            (failed-pending later.now.status from_failed);
    }

    retried-refunds_of : (i : ℕ) → refunds_of i db' ≡ refunds_of i w.db
    retried-refunds_of i = ap (filter (is_refund_of i)) done.refunds_are

    retried-matched :
        (i : ℕ) (q : Payment)
        → find_payment i db'.payments ≡ some q
        → Matches q.status q.amount (refunds_of i db')
    retried-matched i q e =
        let (q0, found, q_is) = moved_from retried-IsMove i q e in
        let before = orderly.matched i q0 found in
        elim (Bool-cases (has_id p.id q0)) [
          | inl mine ↦
              let is_now = now_is i q0 found mine in
              let from_failed =
                is_failed-follows p.status later.now.status done.was_failed later.moved_on in
              let from =
                subst (λ (x : Payment). follows PaymentStatus.failed x.status ≡ true) (sym is_now)
                  from_failed in
              let empty = failed_unrefunded q0.status q0.amount (refunds_of i w.db) from before in
              let now : q ≡ set_status PaymentStatus.pending q0 = q_is ∙ rw mine refl in
              subst (λ (x : Payment). Matches x.status x.amount (refunds_of i db')) (sym now)
                (retried-refunds_of i ∙ empty)
          | inr other ↦
              let now : q ≡ q0 = q_is ∙ rw other refl in
              subst (λ (x : Payment). Matches x.status x.amount (refunds_of i db')) (sym now)
                (subst (Matches q0.status q0.amount) (sym (retried-refunds_of i)) before)
        ]

    pub retried-IsOrderly : IsOrderly (committed db' w)
    retried-IsOrderly = record {
      unique = moved_unique retried-IsMove orderly.unique;
      matched = retried-matched;
      orphanless =
          λ i e. retried-refunds_of i ∙ orderly.orphanless i (moved_missing retried-IsMove i e);
      snapshots =
          All-map (λ x. IsLater x w.db) (λ x. IsLater x db') (moved_later retried-IsMove) w.seen
            orderly.snapshots;
    }
