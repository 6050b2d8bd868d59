-- ===== src/Dues/Applied.antt =====
-- The payments applied to the invoices and the pool: `computeDirection` of
-- src/receivables-payables/receivables-payables.service.ts.
use cashfo_backend.Base.{
  ℕ, ◌≡◌, refl, sym, ◌∙◌, ap, subst, true, false, none, some, List, [], ◌∷◌, map, ℤ, pos, ◌+ℤ◌,
  ◌-ℤ◌, ◌≤ℤ◌, int_laws, arith, inl, inr, ◌==◌, sum_of, update_unique, any, elem, truthy, All,
  UniqueIds, Bool-cases, Option-cases,
}
use cashfo_backend.Schema.{Transaction}
use cashfo_backend.Dues.Defs.{
  Due, Allocation, due_id, open_due, add_paid, amount_at, target_of, apply_payment, apply_payments,
}
use cashfo_backend.Dues.Rounds.{owed_in_all}
use cashfo_backend.Dues.Outstanding.{originals}
use cashfo_backend.Dues.Totals.{max-keeps}

abbrev pub paids : List Due → ℤ
paids = sum_of (λ (d : Due). d.paid)

-- No more is paid of an invoice than its amount.
pub record IsNotOverpaid (d : Due) : Type 0 where
  pub within : d.paid ≤ℤ d.original

ids-update :
    (i : ℕ) (v : ℤ) (ds : List Due)
    → map due_id (update_unique due_id i (add_paid v) ds) ≡ map due_id ds
ids-update i v [] = refl
ids-update i v (d ∷ ds) = elim (Bool-cases (due_id d == i)) [
  | inl here ↦ rw here (ap (λ (is : List ℕ). due_id d ∷ is) (ids-update i v ds))
  | inr there ↦ rw there (ap (λ (is : List ℕ). due_id d ∷ is) (ids-update i v ds))
]

paids-absent :
    (i : ℕ) (v : ℤ) (ds : List Due)
    → elem i (map due_id ds) ≡ false
    → paids (update_unique due_id i (add_paid v) ds) ≡ paids ds
paids-absent i v [] h = refl
paids-absent i v (d ∷ ds) h =
    let apart : (due_id d == i) ≡ false = ground arith in
    rw (apart, paids-absent i v ds (ground arith)) refl

paids-update :
    (i : ℕ) (v : ℤ) (ds : List Due)
    → UniqueIds (map due_id ds)
    → any (λ d. due_id d == i) ds ≡ true
    → paids (update_unique due_id i (add_paid v) ds) ≡ paids ds +ℤ v
paids-update i v [] u h = absurd (ground arith)
paids-update i v (d ∷ ds) u h = elim (Bool-cases (due_id d == i)) [
  | inl here ↦
      let at : due_id d ≡ i = ground arith in
      let absent = ap (λ (k : ℕ). elem k (map due_id ds)) (sym at) ∙ u.0 in
      rw (here, paids-absent i v ds absent) (omega int_laws)
  | inr there ↦ rw (there, paids-update i v ds u.1 (ground arith)) (omega int_laws)
]

target-listed :
    (p : Transaction) (ds : List Due) (i : ℕ)
    → target_of p ds ≡ some i
    → any (λ d. due_id d == i) ds ≡ true
target-listed p ds i h = elim (Option-cases (truthy p.applied_to_transaction_id)) [
  | inl e ↦ absurd (ground arith)
  | inr (j, e) ↦ elim (Bool-cases (any (λ d. due_id d == j) ds)) [
    | inl here ↦
        let chosen : target_of p ds ≡ some j = rw (e, target_of, here) refl in
        let both : some j ≡ some i = sym chosen ∙ h in
        let same : j ≡ i = ground arith in
        ap (λ (k : ℕ). any (λ d. due_id d == k) ds) (sym same) ∙ here
    | inr gone ↦
        let none_here : target_of p ds ≡ none = rw (e, target_of, gone) refl in
        absurd (ground arith)
  ]
]

swap_last : (x y z : ℤ) → x +ℤ y +ℤ z ≡ x +ℤ z +ℤ y
swap_last x y z = omega int_laws

module _ (account_id : ℕ) where
  apply_payment-ids :
      (p : Transaction) (x : Allocation)
      → map due_id (apply_payment account_id p x).dues ≡ map due_id x.dues
  unfolding apply_payment
  apply_payment-ids p x = elim (Option-cases (target_of p x.dues)) [
    | inl general ↦ rw (general, apply_payment) refl
    | inr (i, e) ↦ rw (e, apply_payment) (ids-update i (amount_at account_id p) x.dues)
  ]

  apply_payment-sum :
      (p : Transaction) (x : Allocation)
      → UniqueIds (map due_id x.dues)
      → paids (apply_payment account_id p x).dues +ℤ (apply_payment account_id p x).pool
        ≡ paids x.dues +ℤ x.pool +ℤ amount_at account_id p
  unfolding apply_payment
  apply_payment-sum p x u = elim (Option-cases (target_of p x.dues)) [
    | inl general ↦ rw (general, apply_payment) (omega int_laws)
    | inr (i, e) ↦
        rw (e, apply_payment)
          (ap (λ (v : ℤ). v +ℤ x.pool)
              (paids-update i (amount_at account_id p) x.dues u (target-listed p x.dues i e))
            ∙ swap_last (paids x.dues) (amount_at account_id p) x.pool)
  ]

  -- Everything that is paid is applied to an invoice or is in the pool.
  pub apply_payments-sum :
      (ps : List Transaction) (x : Allocation)
      → UniqueIds (map due_id x.dues)
      → paids (apply_payments account_id ps x).dues +ℤ (apply_payments account_id ps x).pool
        ≡ paids x.dues +ℤ x.pool +ℤ sum_of (amount_at account_id) ps
  unfolding apply_payments
  apply_payments-sum [] x u = omega int_laws
  apply_payments-sum (p ∷ ps) x u =
      apply_payments-sum ps (apply_payment account_id p x)
        (subst UniqueIds (sym (apply_payment-ids p x)) u)
      ∙ ap (λ (v : ℤ). v +ℤ sum_of (amount_at account_id) ps) (apply_payment-sum p x u)
      ∙ omega int_laws

  apply_payment-pool :
      (p : Transaction) (x : Allocation)
      → pos 0 ≤ℤ amount_at account_id p
      → pos 0 ≤ℤ x.pool
      → pos 0 ≤ℤ (apply_payment account_id p x).pool
  unfolding apply_payment
  apply_payment-pool p x h k = elim (Option-cases (target_of p x.dues)) [
    | inl general ↦ rw (general, apply_payment) (omega (int_laws, h, k))
    | inr (i, e) ↦ rw (e, apply_payment) k
  ]

  pub apply_payments-pool :
      (ps : List Transaction) (x : Allocation)
      → All (λ p. pos 0 ≤ℤ amount_at account_id p) ps
      → pos 0 ≤ℤ x.pool
      → pos 0 ≤ℤ (apply_payments account_id ps x).pool
  unfolding apply_payments
  apply_payments-pool [] x h k = k
  apply_payments-pool (p ∷ ps) x h k =
      apply_payments-pool ps (apply_payment account_id p x) h.1 (apply_payment-pool p x h.0 k)

  pub ids-open :
      (ts : List Transaction)
      → map due_id (map (open_due account_id) ts) ≡ map (λ (t : Transaction). t.id) ts
  ids-open [] = refl
  ids-open (t ∷ ts) = ap (λ (is : List ℕ). t.id ∷ is) (ids-open ts)

  pub paids-open : (ts : List Transaction) → paids (map (open_due account_id) ts) ≡ pos 0
  paids-open [] = refl
  paids-open (t ∷ ts) = rw (paids-open ts) (omega int_laws)

-- What is owed in all, where no invoice is overpaid.
pub owed_in_all-originals :
    (ds : List Due) → All IsNotOverpaid ds → owed_in_all ds ≡ originals ds -ℤ paids ds
unfolding owed_in_all
owed_in_all-originals [] h = omega int_laws
owed_in_all-originals (d ∷ ds) h =
    let within = h.0.within in
    let here = max-keeps (d.original -ℤ d.paid) (omega (int_laws, within)) in
    ap (λ (v : ℤ). v +ℤ owed_in_all ds) here
    ∙ ap (λ (v : ℤ). d.original -ℤ d.paid +ℤ v) (owed_in_all-originals ds h.1)
    ∙ omega int_laws
