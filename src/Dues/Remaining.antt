-- ===== src/Dues/Remaining.antt =====
-- The remaining amounts of a contact's invoices add up to what remains in all:
-- src/receivables-payables/receivables-payables.service.ts, `computeDirection`.
use cashfo_backend.Base.{
  ℕ, ◌≡◌, refl, sym, ◌∙◌, ap, subst, some, List, [], ◌∷◌, map, ℤ, pos, ◌+ℤ◌, ◌-ℤ◌, ◌≤ℤ◌, int_laws,
  arith, inl, inr, ◌==◌, filter, sum_of, All, All-map, All-filter, All-find, UniqueIds,
  UniqueIds-filter, UniqueIds-sort_by, find_where, Option-cases,
}
use cashfo_backend.Schema.{Account, Contact, Entry, Transaction, Db, TransactionType}
use cashfo_backend.Ledger.Invariant.{IsSound, IsDoubleEntryRow, IsPositive}
use cashfo_backend.Ledger.Voiding.{dhaka_date_only}
use cashfo_backend.Dues.Defs.{
  Due, Allocation, Direction, InvoiceBreakdown, DirectionBreakdown, max_ℤ, open_due, amount_at,
  touches, is_live_of, invoice_type, comes_first, remaining_of, breakdown_of, applied, settled_dues,
  opening_paid, summary_of, compute_direction, invoices_of, payments_of, opening_owed_of,
  find_system_account,
}
use cashfo_backend.Dues.Rounds.{owed_in_all}
use cashfo_backend.Dues.Outstanding.{
  originals, originals-apply_payments, originals-open, total_invoiced-sum,
}
use cashfo_backend.Dues.Totals.{owed-settled, min-within}
use cashfo_backend.Dues.Applied.{
  paids, IsNotOverpaid, apply_payments-sum, ids-open, paids-open, owed_in_all-originals,
}
use cashfo_backend.Dues.Lowering.{compute_direction-found}

remaining-breakdown :
    (today : ℕ) (ds : List Due)
    → sum_of (λ (t : InvoiceBreakdown). t.remaining_amount) (map (breakdown_of today) ds)
      ≡ owed_in_all ds
unfolding owed_in_all
remaining-breakdown today [] = refl
remaining-breakdown today (d ∷ ds) =
    ap (λ (v : ℤ). remaining_of d +ℤ v) (remaining-breakdown today ds)

balance_sum :
    (invoiced paid pool paying settled : ℤ)
    → paid +ℤ pool ≡ paying
    → invoiced -ℤ paid -ℤ (pool -ℤ settled) ≡ invoiced -ℤ (paying -ℤ settled)
balance_sum invoiced paid pool paying settled e =
    let same : invoiced -ℤ paid -ℤ (pool -ℤ settled) ≡ invoiced -ℤ (paid +ℤ pool -ℤ settled) =
      omega int_laws in
    same ∙ ap (λ (v : ℤ). invoiced -ℤ (v -ℤ settled)) e

nothing_yet : (v : ℤ) → pos 0 +ℤ pos 0 +ℤ v ≡ v
nothing_yet v = omega int_laws

module _ (today account_id : ℕ) (owed : ℤ) (invoices payments : List Transaction)
    (unique : UniqueIds (map (λ (t : Transaction). t.id) invoices))
    (positive : All (λ p. pos 0 ≤ℤ amount_at account_id p) payments)
    (fitting : All IsNotOverpaid (applied account_id invoices payments).dues) where
  abbrev opened : Allocation
  opened = record { dues = map (open_due account_id) invoices; pool = pos 0 }

  paid_sum :
      paids (applied account_id invoices payments).dues
        +ℤ (applied account_id invoices payments).pool
      ≡ sum_of (amount_at account_id) payments
  paid_sum =
      apply_payments-sum account_id payments opened
        (subst UniqueIds (sym (ids-open account_id invoices)) unique)
      ∙ ap (λ (v : ℤ). v +ℤ pos 0 +ℤ sum_of (amount_at account_id) payments)
          (paids-open account_id invoices)
      ∙ nothing_yet (sum_of (amount_at account_id) payments)

  pool_left :
      pos 0
      ≤ℤ (applied account_id invoices payments).pool
        -ℤ opening_paid owed (applied account_id invoices payments)
  pool_left =
      let pool = (applied account_id invoices payments).pool in
      let within = min-within pool owed in omega (int_laws, within)

  summary-remaining :
      sum_of
        (λ (t : InvoiceBreakdown). t.remaining_amount)
        (summary_of today account_id owed invoices payments).transactions
      ≡ max_ℤ (pos 0) (summary_of today account_id owed invoices payments).remaining
  summary-remaining =
      let x = applied account_id invoices payments in
      let settled = opening_paid owed x in
      let invoiced =
        originals-apply_payments account_id payments opened ∙ originals-open account_id invoices in
      let total = total_invoiced-sum today account_id owed invoices payments in
      remaining-breakdown today (settled_dues owed x).dues
      ∙ owed-settled (x.pool -ℤ settled) x.dues pool_left
      ∙ ap (λ (v : ℤ). max_ℤ (pos 0) (v -ℤ (x.pool -ℤ settled)))
          (owed_in_all-originals x.dues fitting)
      ∙ ap (max_ℤ (pos 0)) (
          balance_sum (originals x.dues) (paids x.dues) x.pool
            (sum_of (amount_at account_id) payments) settled paid_sum)
      ∙ ap (λ (v : ℤ). max_ℤ (pos 0) (v -ℤ (sum_of (amount_at account_id) payments -ℤ settled)))
          (invoiced ∙ sym total)

-- The amounts of double entries are not negative.
amount_at_pos :
    (account_id : ℕ) (t : Transaction) → IsDoubleEntryRow t → pos 0 ≤ℤ amount_at account_id t
amount_at_pos account_id t h =
    elim (Option-cases (find_where (λ (e : Entry). e.account_id == account_id) t.entries)) [
      | inl e ↦ rw (e, amount_at) (omega arith)
      | inr (x, e) ↦
          let positive =
            All-find IsPositive (λ (y : Entry). y.account_id == account_id) t.entries x h.positive
              e in
          rw (e, amount_at) (omega (int_laws, positive))
    ]

-- What a contact owes or is owed in a direction, in a sound workspace with unique transaction ids,
-- where the payments applied to an invoice do not exceed it: the remaining amounts of the invoices
-- add up to what remains in all, or to nothing where more is paid than that.
pub compute_direction-remaining :
    (now b : ℕ) (c : Contact) (dir : Direction) (db : Db) (a : Account)
    → IsSound db
    → UniqueIds (map (λ (t : Transaction). t.id) db.transactions)
    → find_system_account b dir db.accounts ≡ some a
    → All IsNotOverpaid
        (applied a.id
          (invoices_of b c.id dir db.transactions)
          (payments_of b c.id a.id db.transactions)).dues
    → sum_of
        (λ (t : InvoiceBreakdown). t.remaining_amount)
        (compute_direction now b c dir db).transactions
      ≡ max_ℤ (pos 0) (compute_direction now b c dir db).remaining
unfolding invoices_of payments_of
compute_direction-remaining now b c dir db a sound unique e fitting =
    let rows = db.transactions in
    let own =
      UniqueIds-sort_by (λ (t : Transaction). t.id) comes_first
        (filter (is_live_of b c.id (invoice_type dir)) rows)
        (UniqueIds-filter (λ (t : Transaction). t.id) (is_live_of b c.id (invoice_type dir)) rows
          unique) in
    let positive =
      All-filter (λ p. pos 0 ≤ℤ amount_at a.id p) (touches a.id)
        (filter (is_live_of b c.id TransactionType.payment) rows)
        (All-filter (λ p. pos 0 ≤ℤ amount_at a.id p) (is_live_of b c.id TransactionType.payment)
          rows
          (All-map IsDoubleEntryRow (λ p. pos 0 ≤ℤ amount_at a.id p) (amount_at_pos a.id) rows
            sound.double_entry)) in
    subst
      (λ (x : DirectionBreakdown).
        sum_of (λ (t : InvoiceBreakdown). t.remaining_amount) x.transactions
        ≡ max_ℤ (pos 0) x.remaining)
      (sym (compute_direction-found now b c dir db a e))
      (summary-remaining (dhaka_date_only now) a.id (opening_owed_of dir c)
        (invoices_of b c.id dir rows) (payments_of b c.id a.id rows) own positive fitting)
