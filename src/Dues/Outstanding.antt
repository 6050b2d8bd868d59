-- ===== src/Dues/Outstanding.antt =====
-- What a contact still owes in a direction, by its invoices and payments alone:
-- src/receivables-payables/receivables-payables.service.ts, `computeDirection`.
use cashfo_backend.Base.{
  ℕ, ◌≡◌, refl, ◌∙◌, ap, List, [], ◌∷◌, map, ℤ, pos, ◌+ℤ◌, ◌-ℤ◌, int_laws, inl, inr, ltb_ℤ, ◌==◌,
  sum_of, update_unique, Bool-cases, Option-cases,
}
use cashfo_backend.Schema.{Transaction}
use cashfo_backend.Dues.Defs.{
  Due, Allocation, min_ℤ, due_id, open_due, add_paid, amount_at, target_of, apply_payment,
  apply_payments, settle_fifo, breakdown_of, InvoiceBreakdown, applied, settled_dues, opening_paid,
  summary_of,
}
use cashfo_backend.Dues.Requests.{outstanding_of}
use cashfo_backend.Dues.Rounds.{settle_fifo-spent, settle_fifo-skips, settle_fifo-pays}

abbrev pub originals : List Due → ℤ
originals = sum_of (λ (d : Due). d.original)

originals-update :
    (i : ℕ) (v : ℤ) (ds : List Due)
    → originals (update_unique due_id i (add_paid v) ds) ≡ originals ds
originals-update i v [] = refl
originals-update i v (d ∷ ds) = elim (Bool-cases (due_id d == i)) [
  | inl here ↦ rw (here, originals-update i v ds) refl
  | inr there ↦ rw (there, originals-update i v ds) refl
]

originals-apply :
    (account_id : ℕ) (p : Transaction) (x : Allocation)
    → originals (apply_payment account_id p x).dues ≡ originals x.dues
unfolding apply_payment
originals-apply account_id p x = elim (Option-cases (target_of p x.dues)) [
  | inl general ↦ rw (general, apply_payment) refl
  | inr (i, e) ↦ rw (e, apply_payment) (originals-update i (amount_at account_id p) x.dues)
]

pub originals-apply_payments :
    (account_id : ℕ) (ps : List Transaction) (x : Allocation)
    → originals (apply_payments account_id ps x).dues ≡ originals x.dues
unfolding apply_payments
originals-apply_payments account_id [] x = refl
originals-apply_payments account_id (p ∷ ps) x =
    originals-apply_payments account_id ps (apply_payment account_id p x)
    ∙ originals-apply account_id p x

originals-settle_fifo :
    (pool : ℤ) (ds : List Due) → originals (settle_fifo pool ds).dues ≡ originals ds
unfolding settle_fifo
originals-settle_fifo pool [] = refl
originals-settle_fifo pool (d ∷ ds) = elim (Bool-cases (ltb_ℤ (pos 0) pool)) [
  | inr spent ↦ ap (λ (x : Allocation). originals x.dues) (settle_fifo-spent pool d ds spent)
  | inl some_left ↦ elim (Bool-cases (ltb_ℤ (pos 0) (d.original -ℤ d.paid))) [
    | inr paid_off ↦
        ap (λ (x : Allocation). originals x.dues) (settle_fifo-skips pool d ds some_left paid_off)
        ∙ ap (λ (v : ℤ). d.original +ℤ v) (originals-settle_fifo pool ds)
    | inl owes ↦
        ap (λ (x : Allocation). originals x.dues) (settle_fifo-pays pool d ds some_left owes)
        ∙ ap (λ (v : ℤ). d.original +ℤ v)
            (originals-settle_fifo (pool -ℤ min_ℤ (d.original -ℤ d.paid) pool) ds)
  ]
]

originals-breakdown :
    (today : ℕ) (ds : List Due)
    → sum_of (λ (t : InvoiceBreakdown). t.original_amount) (map (breakdown_of today) ds)
      ≡ originals ds
originals-breakdown today [] = refl
originals-breakdown today (d ∷ ds) = ap (λ (v : ℤ). d.original +ℤ v) (originals-breakdown today ds)

pub originals-open :
    (account_id : ℕ) (ts : List Transaction)
    → originals (map (open_due account_id) ts) ≡ sum_of (amount_at account_id) ts
originals-open account_id [] = refl
originals-open account_id (t ∷ ts) =
    ap (λ (v : ℤ). amount_at account_id t +ℤ v) (originals-open account_id ts)

module _ (today account_id : ℕ) (owed : ℤ) (invoices payments : List Transaction) where
  pub total_invoiced-sum :
      (summary_of today account_id owed invoices payments).total_invoiced
      ≡ sum_of (amount_at account_id) invoices
  total_invoiced-sum =
      let x = applied account_id invoices payments in
      originals-breakdown today (settled_dues owed x).dues
      ∙ originals-settle_fifo (x.pool -ℤ opening_paid owed x) x.dues
      ∙ originals-apply_payments account_id payments
          (record { dues = map (open_due account_id) invoices; pool = pos 0 })
      ∙ originals-open account_id invoices

  remaining_sum :
      (invoiced paid settled : ℤ)
      → invoiced -ℤ (paid -ℤ settled) +ℤ (owed -ℤ settled) ≡ invoiced -ℤ paid +ℤ owed
  remaining_sum invoiced paid settled = omega int_laws

  -- What is outstanding is what is invoiced and owed from the start, less what is paid.
  pub outstanding_of-sum :
      outstanding_of (summary_of today account_id owed invoices payments)
      ≡ sum_of (amount_at account_id) invoices -ℤ sum_of (amount_at account_id) payments +ℤ owed
  outstanding_of-sum =
      remaining_sum (summary_of today account_id owed invoices payments).total_invoiced
        (sum_of (amount_at account_id) payments)
        (opening_paid owed (applied account_id invoices payments))
      ∙ ap (λ (v : ℤ). v -ℤ sum_of (amount_at account_id) payments +ℤ owed) total_invoiced-sum
