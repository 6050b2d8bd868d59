-- ===== src/Dues/Buckets.antt =====
-- The buckets that the invoices of a contact fill: `getAging` of src/receivables-payables/receivables-payables.service.ts.
use cashfo_backend.Base.{
  ℕ, ◌≡◌, refl, ◌∙◌, ap, true, false, List, [], ◌∷◌, ℤ, pos, ◌+ℤ◌, ◌-ℤ◌, ◌≤ℤ◌, int_laws, arith, inl,
  inr, sum_of, All, Bool-cases, ltb_ℤ,
}
use cashfo_backend.Dues.Defs.{InvoiceBreakdown}
use cashfo_backend.Dues.Aging.{AgingBucket, Buckets, Tally, bucket_for, add_to, fill_buckets}

abbrev pub amount_in : AgingBucket → Buckets → ℤ
amount_in AgingBucket.current x = x.in_current
amount_in AgingBucket.days1to30 x = x.in_1to30
amount_in AgingBucket.days31to60 x = x.in_31to60
amount_in AgingBucket.over60 x = x.in_over60

abbrev pub all_of : Buckets → ℤ
all_of x = x.in_current +ℤ x.in_1to30 +ℤ x.in_31to60 +ℤ x.in_over60

abbrev pub IsOwed : InvoiceBreakdown → Type 0
IsOwed t = pos 0 ≤ℤ t.remaining_amount

all_of-add_to : (k : AgingBucket) (v : ℤ) (x : Buckets) → all_of (add_to k v x) ≡ all_of x +ℤ v
all_of-add_to AgingBucket.current v x = omega int_laws
all_of-add_to AgingBucket.days1to30 v x = omega int_laws
all_of-add_to AgingBucket.days31to60 v x = omega int_laws
all_of-add_to AgingBucket.over60 v x = omega int_laws

-- What goes into one of two tables goes into the other.
add_to-both :
    (k j : AgingBucket) (v : ℤ) (x y : Buckets)
    → amount_in k (add_to j v x) +ℤ amount_in k y ≡ amount_in k (add_to j v y) +ℤ amount_in k x
add_to-both AgingBucket.current AgingBucket.current v x y = omega int_laws
add_to-both AgingBucket.days1to30 AgingBucket.days1to30 v x y = omega int_laws
add_to-both AgingBucket.days31to60 AgingBucket.days31to60 v x y = omega int_laws
add_to-both AgingBucket.over60 AgingBucket.over60 v x y = omega int_laws
add_to-both AgingBucket.current AgingBucket.days1to30 v x y = omega int_laws
add_to-both AgingBucket.current AgingBucket.days31to60 v x y = omega int_laws
add_to-both AgingBucket.current AgingBucket.over60 v x y = omega int_laws
add_to-both AgingBucket.days1to30 AgingBucket.current v x y = omega int_laws
add_to-both AgingBucket.days1to30 AgingBucket.days31to60 v x y = omega int_laws
add_to-both AgingBucket.days1to30 AgingBucket.over60 v x y = omega int_laws
add_to-both AgingBucket.days31to60 AgingBucket.current v x y = omega int_laws
add_to-both AgingBucket.days31to60 AgingBucket.days1to30 v x y = omega int_laws
add_to-both AgingBucket.days31to60 AgingBucket.over60 v x y = omega int_laws
add_to-both AgingBucket.over60 AgingBucket.current v x y = omega int_laws
add_to-both AgingBucket.over60 AgingBucket.days1to30 v x y = omega int_laws
add_to-both AgingBucket.over60 AgingBucket.days31to60 v x y = omega int_laws

-- One invoice in the loop: passed over where nothing of it remains.
module _ (today : ℕ) (t : InvoiceBreakdown) (ts : List InvoiceBreakdown) (x : Tally) where
  abbrev with_invoice : Tally
  with_invoice = record {
    row = add_to (bucket_for t.due_date today) t.remaining_amount x.row;
    report = add_to (bucket_for t.due_date today) t.remaining_amount x.report;
  }

  fill_buckets-skips :
      ltb_ℤ (pos 0) t.remaining_amount ≡ false
      → fill_buckets today (t ∷ ts) x ≡ fill_buckets today ts x
  unfolding fill_buckets
  fill_buckets-skips paid_off = rw paid_off refl

  fill_buckets-fills :
      ltb_ℤ (pos 0) t.remaining_amount ≡ true
      → fill_buckets today (t ∷ ts) x ≡ fill_buckets today ts with_invoice
  unfolding fill_buckets
  fill_buckets-fills owes = rw owes refl

pub fill_buckets-row :
    (today : ℕ) (ts : List InvoiceBreakdown) (x : Tally)
    → All IsOwed ts
    → all_of (fill_buckets today ts x).row
      ≡ all_of x.row +ℤ sum_of (λ (t : InvoiceBreakdown). t.remaining_amount) ts
unfolding fill_buckets
fill_buckets-row today [] x h = omega int_laws
fill_buckets-row today (t ∷ ts) x h = elim (Bool-cases (ltb_ℤ (pos 0) t.remaining_amount)) [
  | inr paid_off ↦
      let owed = h.0 in
      let below : t.remaining_amount ≤ℤ pos 0 = ground arith in
      let later = fill_buckets-row today ts x h.1 in
      let rest : all_of x.row +ℤ sum_of (λ (u : InvoiceBreakdown). u.remaining_amount) ts
          ≡ all_of x.row
            +ℤ (t.remaining_amount +ℤ sum_of (λ (u : InvoiceBreakdown). u.remaining_amount) ts) =
        omega (int_laws, owed, below) in
      ap (λ (y : Tally). all_of y.row) (fill_buckets-skips today t ts x paid_off) ∙ later ∙ rest
  | inl owes ↦
      let bucket = bucket_for t.due_date today in
      ap (λ (y : Tally). all_of y.row) (fill_buckets-fills today t ts x owes)
      ∙ fill_buckets-row today ts
          (record {
            row = add_to (bucket_for t.due_date today) t.remaining_amount x.row;
            report = add_to (bucket_for t.due_date today) t.remaining_amount x.report;
          })
          h.1
      ∙ ap (λ (v : ℤ). v +ℤ sum_of (λ (u : InvoiceBreakdown). u.remaining_amount) ts)
          (all_of-add_to bucket t.remaining_amount x.row)
      ∙ omega int_laws
]

cross : (f g p q x y : ℤ) → f +ℤ p ≡ g +ℤ q → q +ℤ x ≡ p +ℤ y → f +ℤ x ≡ g +ℤ y
cross f g p q x y e k =
    let one : f +ℤ x ≡ f +ℤ p +ℤ (q +ℤ x) -ℤ p -ℤ q = omega int_laws in
    let two : g +ℤ q +ℤ (p +ℤ y) -ℤ p -ℤ q ≡ g +ℤ y = omega int_laws in
    one ∙ ap (λ (v : ℤ). v +ℤ (q +ℤ x) -ℤ p -ℤ q) e ∙ ap (λ (v : ℤ). g +ℤ q +ℤ v -ℤ p -ℤ q) k ∙ two

pub fill_buckets-report :
    (k : AgingBucket) (today : ℕ) (ts : List InvoiceBreakdown) (x : Tally)
    → amount_in k (fill_buckets today ts x).report +ℤ amount_in k x.row
      ≡ amount_in k (fill_buckets today ts x).row +ℤ amount_in k x.report
unfolding fill_buckets
fill_buckets-report k today [] x = omega int_laws
fill_buckets-report k today (t ∷ ts) x = elim (Bool-cases (ltb_ℤ (pos 0) t.remaining_amount)) [
  | inr paid_off ↦ rw (fill_buckets-skips today t ts x paid_off) (fill_buckets-report k today ts x)
  | inl owes ↦
      let bucket = bucket_for t.due_date today in
      let row = add_to bucket t.remaining_amount x.row in
      let report = add_to bucket t.remaining_amount x.report in
      let later = fill_buckets-report k today ts (record {
        row = add_to (bucket_for t.due_date today) t.remaining_amount x.row;
        report = add_to (bucket_for t.due_date today) t.remaining_amount x.report;
      }) in
      rw (fill_buckets-fills today t ts x owes) (
        cross _ _ (amount_in k row) (amount_in k report) (amount_in k x.row) (amount_in k x.report)
          later (add_to-both k bucket t.remaining_amount x.report x.row))
]
