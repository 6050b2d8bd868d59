-- ===== src/Payments/Refunding.antt =====
-- A refund that commits:
-- src/payments/payments.service.ts.
use cashfo_backend.Base.{
  append-nil, ℕ, ◌≡◌, refl, sym, ◌∙◌, ap, subst, Bool, true, false, none, some, List, [], ◌∷◌, ◌++◌,
  ℤ, ◌≤ℤ◌, arith, ◌==◌, if◌then◌else◌, inl, inr, Bool-cases, filter, filter-append, length, All-map,
  All-find, find_where, find_where_sound, find_unique-key, found_by_key,
}
use cashfo_backend.Payments.Rows.{
  PaymentStatus, Payment, PaymentsDb, Surroundings, RefundPayment, is_success,
}
use cashfo_backend.Payments.Defs.{find_payment, set_status, is_refundable, is_refund_of, new_refund}
use cashfo_backend.Payments.World.{World, committed}
use cashfo_backend.Payments.Commits.{IsRefunding}
use cashfo_backend.Payments.Orderly.{refunds_of, Matches, IsLater, IsOrderly}
use cashfo_backend.Payments.Racing.{
  IsMove, moved_unique, moved_later, moved_from, moved_missing, success_unrefunded,
  success-refunded, has_id, now_is,
}

pub counted-found :
    (f : Payment → Bool) (ps : List Payment)
    → (length (filter f ps) == 0) ≡ false
    → (q : Payment) × (find_where f ps ≡ some q)
counted-found f [] h = absurd (ground arith)
counted-found f (p ∷ ps) h = elim (Bool-cases (f p)) [
  | inl here ↦ (p, rw here refl)
  | inr there ↦
      let fewer = rw there at h in let (q, e) = counted-found f ps fewer in (q, rw there e)
]

module _ {w : World} (orderly : IsOrderly w) (p : Payment) (later : IsLater p w.db)
    (ctx : Surroundings) (dto : RefundPayment) (db' : PaymentsDb)
    (done : IsRefunding p ctx p.id dto w.db db') where
  -- The payment that is found is the one that was claimed.
  pub claimed_now : is_success later.now.status ≡ true
  claimed_now =
      let (q, e) = counted-found (is_refundable p.id) w.db.payments done.claimable in
      let claimed = find_where_sound (is_refundable p.id) w.db.payments q e in
      let own =
        All-find (λ (x : Payment). find_payment x.id w.db.payments ≡ some x) (is_refundable p.id)
          w.db.payments q (found_by_key (λ (x : Payment). x.id) w.db.payments orderly.unique) e in
      let same : has_id p.id q ≡ true = ground arith in
      let is_now = now_is orderly p later q.id q own same in
      subst (λ (x : Payment). is_success x.status ≡ true) is_now (ground arith)

  pub refunding-IsMove : IsMove (is_refundable p.id) PaymentStatus.refunded w.db db'
  refunding-IsMove = record {
    payments_are = done.payments_are;
    allowed = λ i q e claimed. success-refunded q.status (ground arith);
  }

  refunding-refunds_of :
      (i : ℕ)
      → refunds_of i db'
        ≡ refunds_of i w.db ++ (if p.id == i then new_refund ctx p.id dto ∷ [] else [])
  refunding-refunds_of i =
      ap (filter (is_refund_of i)) done.refunds_are
      ∙ filter-append (is_refund_of i) w.db.refunds (new_refund ctx p.id dto ∷ [])

  refunding_others : (i : ℕ) → (p.id == i) ≡ false → refunds_of i db' ≡ refunds_of i w.db
  refunding_others i other = refunding-refunds_of i ∙ rw other (append-nil (refunds_of i w.db))

  refunding-matched :
      (i : ℕ) (q : Payment)
      → find_payment i db'.payments ≡ some q
      → Matches q.status q.amount (refunds_of i db')
  refunding-matched i q e =
      let (q0, found, q_is) = moved_from refunding-IsMove i q e in
      let before = orderly.matched i q0 found in
      let key = find_unique-key (λ (r : Payment). r.id) i w.db.payments q0 found in
      elim (Bool-cases (has_id p.id q0)) [
        | inl mine ↦
            let is_now = now_is orderly p later i q0 found mine in
            let good =
              subst (λ (x : Payment). is_success x.status ≡ true) (sym is_now) claimed_now in
            let empty = success_unrefunded q0.status q0.amount (refunds_of i w.db) good before in
            let here : (p.id == i) ≡ true = ground arith in
            let claimed : is_refundable p.id q0 ≡ true = ground arith in
            let now : q ≡ set_status PaymentStatus.refunded q0 = q_is ∙ rw claimed refl in
            let one : refunds_of i db' ≡ new_refund ctx p.id dto ∷ [] =
              refunding-refunds_of i ∙ rw (here, empty) refl in
            let amount : p.amount ≡ q0.amount =
              sym later.same_amount ∙ ap (λ (x : Payment). x.amount) (sym is_now) in
            let within : dto.amount ≤ℤ q0.amount =
              subst (λ (v : ℤ). dto.amount ≤ℤ v) amount done.within in
            subst (λ (x : Payment). Matches x.status x.amount (refunds_of i db')) (sym now)
              (new_refund ctx p.id dto, one, within)
        | inr other ↦
            let apart : (p.id == i) ≡ false = ground arith in
            let unclaimed : is_refundable p.id q0 ≡ false = ground arith in
            let now : q ≡ q0 = q_is ∙ rw unclaimed refl in
            subst (λ (x : Payment). Matches x.status x.amount (refunds_of i db')) (sym now)
              (subst (Matches q0.status q0.amount) (sym (refunding_others i apart)) before)
      ]

  refunding-orphanless : (i : ℕ) → find_payment i db'.payments ≡ none → refunds_of i db' ≡ []
  refunding-orphanless i e =
      let before = moved_missing refunding-IsMove i e in
      let found = later.found in
      elim (Bool-cases (p.id == i)) [
        | inl here ↦
            let at : i ≡ p.id = ground arith in
            let both = sym before ∙ ap (λ (k : ℕ). find_payment k w.db.payments) at ∙ found in
            absurd (ground arith)
        | inr other ↦ refunding_others i other ∙ orderly.orphanless i before
      ]

  pub refunded-IsOrderly : IsOrderly (committed db' w)
  refunded-IsOrderly = record {
    unique = moved_unique refunding-IsMove orderly.unique;
    matched = refunding-matched;
    orphanless = refunding-orphanless;
    snapshots =
        All-map (λ x. IsLater x w.db) (λ x. IsLater x db') (moved_later refunding-IsMove) w.seen
          orderly.snapshots;
  }
