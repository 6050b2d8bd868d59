-- ===== src/Dues/AgingTotals.antt =====
-- The aging adds up: `getAging` of src/receivables-payables/receivables-payables.service.ts.
use cashfo_backend.Base.{
  ℕ, ◌≡◌, refl, sym, ◌∙◌, ap, subst, true, false, some, List, [], ◌∷◌, ◌++◌, map, ℤ, pos, ◌+ℤ◌,
  int_laws, arith, inl, inr, sum_of, sum_of-append, All, All-append, All-sort_by, All-filter,
  UniqueIds, Bool-cases, Option-cases, ltb_ℤ, filter, sort_by, leb,
}
use cashfo_backend.Schema.{Account, Contact, Transaction, Db}
use cashfo_backend.Ledger.Invariant.{IsSound}
use cashfo_backend.Ledger.Voiding.{dhaka_date_only}
use cashfo_backend.Dues.Defs.{
  Due, Direction, InvoiceBreakdown, DirectionBreakdown, breakdown_of, applied, no_dues,
  compute_direction, invoices_of, payments_of, find_system_account, opening_owed_of,
}
use cashfo_backend.Dues.Rounds.{remaining_of_pos, max-some}
use cashfo_backend.Dues.Applied.{IsNotOverpaid}
use cashfo_backend.Dues.Lowering.{compute_direction-found}
use cashfo_backend.Dues.Remaining.{compute_direction-remaining}
use cashfo_backend.Dues.Aging.{
  AgingBucket, AgingBucketRow, AgingReport, Tally, no_buckets, fill_buckets, row_for, age_contact,
  age_contacts, is_party_of, get_aging,
}
use cashfo_backend.Dues.Buckets.{amount_in, all_of, IsOwed, fill_buckets-row, fill_buckets-report}

-- The four buckets of a row make its total.
pub record IsBalancedRow (r : AgingBucketRow) : Type 0 where
  pub balanced : all_of r.buckets ≡ r.total

-- The report's buckets are the sums of those of its rows, and the buckets of a row make its total.
pub record IsAddedUp (r : AgingReport) : Type 0 where
  pub by_bucket :
      (k : AgingBucket)
      → amount_in k r.buckets
        ≡ sum_of (λ (row : AgingBucketRow). amount_in k row.buckets) r.contacts
  pub by_row : All IsBalancedRow r.contacts

-- What the loop needs of a contact's breakdown.
record IsConsistentBreakdown (x : DirectionBreakdown) : Type 0 where
  owed : All IsOwed x.transactions
  adds :
      ltb_ℤ (pos 0) x.remaining ≡ true
      → sum_of (λ (t : InvoiceBreakdown). t.remaining_amount) x.transactions ≡ x.remaining

amount_in_nothing : (k : AgingBucket) → amount_in k no_buckets ≡ pos 0
amount_in_nothing AgingBucket.current = refl
amount_in_nothing AgingBucket.days1to30 = refl
amount_in_nothing AgingBucket.days31to60 = refl
amount_in_nothing AgingBucket.over60 = refl

drop_zero : (f z r o : ℤ) → z ≡ pos 0 → f +ℤ z ≡ r +ℤ o → f ≡ o +ℤ (r +ℤ pos 0)
drop_zero f z r o e k =
    let one : f ≡ f +ℤ pos 0 = omega int_laws in
    let two : r +ℤ o ≡ o +ℤ (r +ℤ pos 0) = omega int_laws in
    one ∙ ap (λ (v : ℤ). f +ℤ v) (sym e) ∙ k ∙ two

zero_first : (x : ℤ) → pos 0 +ℤ x ≡ x
zero_first x = omega int_laws

nothing_in : all_of no_buckets ≡ pos 0
nothing_in = omega int_laws

module _ (today : ℕ) (c : Contact) (x : DirectionBreakdown) (report : AgingReport) where
  abbrev filled : Tally
  filled = fill_buckets today x.transactions (record { row = no_buckets; report = report.buckets })

  age_contact-skips : ltb_ℤ (pos 0) x.remaining ≡ false → age_contact today c x report ≡ report
  unfolding age_contact
  age_contact-skips none_left = rw none_left refl

  age_contact-adds :
      ltb_ℤ (pos 0) x.remaining ≡ true
      → age_contact today c x report ≡ record {
        buckets = filled.report;
        contacts = report.contacts ++ row_for c x filled.row ∷ [];
      }
  unfolding age_contact
  age_contact-adds some_left = rw some_left refl

  age_contact-IsAddedUp :
      IsConsistentBreakdown x → IsAddedUp report → IsAddedUp (age_contact today c x report)
  age_contact-IsAddedUp sound before = elim (Bool-cases (ltb_ℤ (pos 0) x.remaining)) [
    | inr none_left ↦ subst IsAddedUp (sym (age_contact-skips none_left)) before
    | inl some_left ↦ subst IsAddedUp (sym (age_contact-adds some_left)) (record {
      by_bucket = λ k.
          drop_zero (amount_in k filled.report) (amount_in k no_buckets) (amount_in k filled.row)
            (amount_in k report.buckets) (amount_in_nothing k)
            (fill_buckets-report k today x.transactions
              (record { row = no_buckets; report = report.buckets }))
          ∙ ap (λ (v : ℤ). v +ℤ (amount_in k filled.row +ℤ pos 0)) (before.by_bucket k)
          ∙ sym (
              sum_of-append (λ (row : AgingBucketRow). amount_in k row.buckets) report.contacts
                (row_for c x filled.row ∷ []));
      by_row =
          All-append IsBalancedRow report.contacts (row_for c x filled.row ∷ []) before.by_row (
            record {
              balanced =
                  fill_buckets-row today x.transactions
                    (record { row = no_buckets; report = report.buckets }) sound.owed
                  ∙ ap
                      (λ (v : ℤ).
                        v +ℤ sum_of (λ (t : InvoiceBreakdown). t.remaining_amount) x.transactions)
                      nothing_in
                  ∙ zero_first
                      (sum_of (λ (t : InvoiceBreakdown). t.remaining_amount) x.transactions)
                  ∙ sound.adds some_left;
            },
            tt,
          );
    })
  ]

breakdowns-IsOwed : (today : ℕ) (ds : List Due) → All IsOwed (map (breakdown_of today) ds)
breakdowns-IsOwed today [] = tt
breakdowns-IsOwed today (d ∷ ds) = (remaining_of_pos d, breakdowns-IsOwed today ds)

-- The payments applied to an invoice of the contact do not exceed it.
pub record IsFitting (b : ℕ) (dir : Direction) (db : Db) (c : Contact) : Type 0 where
  pub fits :
      (a : Account)
      → find_system_account b dir db.accounts ≡ some a
      → All IsNotOverpaid
          (applied a.id
            (invoices_of b c.id dir db.transactions)
            (payments_of b c.id a.id db.transactions)).dues

module _ (now b : ℕ) (dir : Direction) (db : Db) (sound : IsSound db)
    (unique : UniqueIds (map (λ (t : Transaction). t.id) db.transactions)) where
  direction-IsConsistent :
      (c : Contact)
      → IsFitting b dir db c
      → IsConsistentBreakdown (compute_direction now b c dir db)
  unfolding compute_direction
  direction-IsConsistent c fitting = elim (Option-cases (find_system_account b dir db.accounts)) [
    | inl missing ↦
        let nothing : compute_direction now b c dir db ≡ no_dues (opening_owed_of dir c) =
          rw (missing, compute_direction) refl in
        subst IsConsistentBreakdown (sym nothing)
          (record { owed = tt; adds = λ h. absurd (ground arith) })
    | inr (a, found) ↦ record {
      owed =
          subst (λ (x : DirectionBreakdown). All IsOwed x.transactions)
            (sym (compute_direction-found now b c dir db a found)) (breakdowns-IsOwed _ _);
      adds = λ some_left.
          compute_direction-remaining now b c dir db a sound unique found (fitting.fits a found)
          ∙ max-some (compute_direction now b c dir db).remaining (ground arith);
    }
  ]

  age_contacts-IsAddedUp :
      (cs : List Contact) (report : AgingReport)
      → All (IsFitting b dir db) cs
      → IsAddedUp report
      → IsAddedUp (age_contacts now b dir db cs report)
  unfolding age_contacts
  age_contacts-IsAddedUp [] report fitting h = h
  age_contacts-IsAddedUp (c ∷ cs) report fitting h =
      age_contacts-IsAddedUp cs
        (age_contact (dhaka_date_only now) c (compute_direction now b c dir db) report) fitting.1
        (age_contact-IsAddedUp (dhaka_date_only now) c (compute_direction now b c dir db) report
          (direction-IsConsistent c fitting.0) h)

  -- The aging of a direction, in a sound workspace with unique transaction ids, where the payments
  -- applied to an invoice of a contact do not exceed it: in each row the four buckets add up to the row's
  -- total, and each bucket of the report is the sum of that bucket over the rows.
  pub get_aging-IsAddedUp :
      All (IsFitting b dir db) db.contacts → IsAddedUp (get_aging now b dir db)
  unfolding get_aging
  get_aging-IsAddedUp fitting =
      age_contacts-IsAddedUp
        (sort_by (λ (x y : Contact). leb x.name y.name) (filter (is_party_of b dir) db.contacts))
        (record { buckets = no_buckets; contacts = [] })
        (All-sort_by (λ (x y : Contact). leb x.name y.name) (IsFitting b dir db)
          (filter (is_party_of b dir) db.contacts)
          (All-filter (IsFitting b dir db) (is_party_of b dir) db.contacts fitting))
        (record { by_bucket = amount_in_nothing; by_row = tt })
