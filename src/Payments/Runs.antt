-- ===== src/Payments/Runs.antt =====
-- Any run of racing requests on payments: src/payments/payments.service.ts.
use cashfo_backend.Base.{
  ℕ, ◌≡◌, refl, sym, ◌∙◌, ap, subst, false, none, some, List, [], ◌∷◌, ◌++◌, map, arith, ◌==◌,
  if◌then◌else◌, inl, inr, Option-cases, Bool-cases, filter, elem, All-map, find_where-append,
  find_unique-key, UniqueIds,
}
use cashfo_backend.Payments.Rows.{PaymentStatus, Payment, PaymentsDb, Surroundings}
use cashfo_backend.Payments.Defs.{find_payment, is_refund_of}
use cashfo_backend.Payments.World.{World, Step, Reach, committed}
use cashfo_backend.Payments.Commits.{
  retry_seeing-IsRetried, refund_seeing-IsRefunding, IsSimulated, simulate_payment-IsSimulated,
}
use cashfo_backend.Payments.Orderly.{refunds_of, Matches, IsLater, IsOrderly, follows_refl, nth-All}
use cashfo_backend.Payments.Racing.{moved_later, retried-IsMove, retried-IsOrderly, has_id}
use cashfo_backend.Payments.Refunding.{refunding-IsMove, refunded-IsOrderly}

elem-snoc :
    (k : ℕ) (ps : List Payment) (q : Payment)
    → elem k (map (λ (p : Payment). p.id) ps) ≡ false
    → (k == q.id) ≡ false
    → elem k (map (λ (p : Payment). p.id) (ps ++ q ∷ [])) ≡ false
elem-snoc k [] q h e = ground arith
elem-snoc k (p ∷ ps) q h e = ground (arith, elem-snoc k ps q)

UniqueIds-snoc :
    (ps : List Payment) (q : Payment)
    → find_payment q.id ps ≡ none
    → UniqueIds (map (λ (p : Payment). p.id) ps)
    → UniqueIds (map (λ (p : Payment). p.id) (ps ++ q ∷ []))
UniqueIds-snoc [] q h u = (refl, tt)
UniqueIds-snoc (p ∷ ps) q h u = elim (Bool-cases (p.id == q.id)) [
  | inl same ↦ absurd (ground arith)
  | inr apart ↦
      let later : find_payment q.id ps ≡ none = ground arith in
      (elem-snoc p.id ps q u.0 apart, UniqueIds-snoc ps q later u.1)
]

module _ {w : World} (orderly : IsOrderly w) (ctx : Surroundings) (q : Payment) (db' : PaymentsDb)
    (fresh : find_payment ctx.payment_id w.db.payments ≡ none)
    (done : IsSimulated ctx w.db db' q) where
  fresh_id : find_payment q.id w.db.payments ≡ none
  fresh_id = ap (λ (i : ℕ). find_payment i w.db.payments) done.id_is ∙ fresh

  added_lookup :
      (i : ℕ)
      → find_payment i db'.payments ≡ elim (find_payment i w.db.payments) [
        | none ↦ (if q.id == i then some q else none)
        | some p ↦ some p
      ]
  added_lookup i =
      ap (find_payment i) done.payments_are ∙ find_where-append (has_id i) w.db.payments (q ∷ [])

  added-later : (p : Payment) → IsLater p w.db → IsLater p db'
  added-later p l = record {
    now = l.now;
    found = let found = l.found in added_lookup p.id ∙ rw found refl;
    same_amount = l.same_amount;
    moved_on = l.moved_on;
  }

  added-refunds_of : (i : ℕ) → refunds_of i db' ≡ refunds_of i w.db
  added-refunds_of i = ap (filter (is_refund_of i)) done.refunds_are

  added-matched :
      (i : ℕ) (x : Payment)
      → find_payment i db'.payments ≡ some x
      → Matches x.status x.amount (refunds_of i db')
  added-matched i x e = elim (Option-cases (find_payment i w.db.payments)) [
    | inr (p, found) ↦
        let lookup = added_lookup i in
        let same : p ≡ x = ground arith in
        subst (λ (y : Payment). Matches y.status y.amount (refunds_of i db')) same
          (subst (Matches p.status p.amount) (sym (added-refunds_of i)) (orderly.matched i p found))
    | inl missing ↦
        let lookup = added_lookup i in
        let same : q ≡ x = ground arith in
        let none_yet = added-refunds_of i ∙ orderly.orphanless i missing in
        subst (λ (y : Payment). Matches y.status y.amount (refunds_of i db')) same
          (subst (λ (s : PaymentStatus). Matches s q.amount (refunds_of i db')) (sym done.status_is)
            none_yet)
  ]

  added-IsOrderly : IsOrderly (committed db' w)
  added-IsOrderly = record {
    unique =
        subst (λ (ps : List Payment). UniqueIds (map (λ (p : Payment). p.id) ps))
          (sym done.payments_are) (UniqueIds-snoc w.db.payments q fresh_id orderly.unique);
    matched = added-matched;
    orphanless = λ i e.
        let lookup = added_lookup i in
        let before : find_payment i w.db.payments ≡ none = ground arith in
        added-refunds_of i ∙ orderly.orphanless i before;
    snapshots =
        All-map (λ x. IsLater x w.db) (λ x. IsLater x db') added-later w.seen orderly.snapshots;
  }

-- A step keeps the world orderly, and moves every payment on.
pub record IsKept (w v : World) : Type 0 where
  pub orderly : IsOrderly v
  pub later : (p : Payment) → IsLater p w.db → IsLater p v.db

pub read_now :
    (db : PaymentsDb) (i : ℕ) (p : Payment) → find_payment i db.payments ≡ some p → IsLater p db
read_now db i p e = record {
  now = p;
  found =
      ap (λ (k : ℕ). find_payment k db.payments)
        (find_unique-key (λ (r : Payment). r.id) i db.payments p e)
      ∙ e;
  same_amount = refl;
  moved_on = follows_refl p.status;
}

step-IsKept : {w v : World} → IsOrderly w → Step w v → IsKept w v
step-IsKept {w = w} orderly (Step.reads i p e) = record {
  orderly = record {
    unique = orderly.unique;
    matched = orderly.matched;
    orphanless = orderly.orphanless;
    snapshots = (read_now w.db i p e, orderly.snapshots);
  };
  later = λ x l. l;
}
step-IsKept {w = w} orderly (Step.retries n p ctx q db' e h) =
    let done = retry_seeing-IsRetried p ctx p.id w.db q db' h in
    let later = nth-All (λ x. IsLater x w.db) n w.seen p orderly.snapshots e in
    record {
      orderly = retried-IsOrderly orderly p later db' done;
      later = moved_later (retried-IsMove orderly p later db' done);
    }
step-IsKept {w = w} orderly (Step.refunds n p ctx dto q r db' e h) =
    let done = refund_seeing-IsRefunding p ctx p.id dto w.db q r db' h in
    let later = nth-All (λ x. IsLater x w.db) n w.seen p orderly.snapshots e in
    record {
      orderly = refunded-IsOrderly orderly p later ctx dto db' done;
      later = moved_later (refunding-IsMove orderly p later ctx dto db' done);
    }
step-IsKept {w = w} orderly (Step.simulates ctx dto q v db' fresh h) =
    let done = simulate_payment-IsSimulated ctx dto w.db q v db' h in
    record {
      orderly = added-IsOrderly orderly ctx q db' fresh done;
      later = added-later orderly ctx q db' fresh done;
    }

pub Reach-IsKept : {w v : World} → IsOrderly w → Reach w v → IsKept w v
Reach-IsKept orderly Reach.here = record { orderly = orderly; later = λ p l. l }
Reach-IsKept orderly (Reach.step s rest) =
    let first = step-IsKept orderly s in
    let after = Reach-IsKept first.orderly rest in
    record { orderly = after.orderly; later = λ p l. after.later p (first.later p l) }

-- Any run of reads, retries, refunds and simulated payments, where other requests commit between
-- the read and the commit of each, keeps the payments orderly: ids are unique, a refunded payment
-- has one refund, of its amount at most, any other has none, no refund is without its payment, and
-- every payment that was read is still there with its amount, moved on at most from failed to
-- pending or from success to refunded.
pub Reach-IsOrderly : {w v : World} → IsOrderly w → Reach w v → IsOrderly v
Reach-IsOrderly orderly run = (Reach-IsKept orderly run).orderly
