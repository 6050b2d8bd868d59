-- ===== src/Dues/Aging.antt =====
-- The aging of what is owed: `getAging` and `bucketFor` of
-- src/receivables-payables/receivables-payables.service.ts. The order of names is that of their
-- numbers.
use cashfo_backend.Base.{
  ℕ, ◌-◌, ◌/◌, Bool, not, Option, none, some, List, [], ◌∷◌, ◌++◌, ℤ, pos, ◌+ℤ◌, ◌==◌, ◌&&◌,
  if◌then◌else◌, leb, ltb_ℤ, filter, sort_by,
}
use cashfo_backend.Schema.{ContactType, Contact, Db}
use cashfo_backend.Ledger.Voiding.{dhaka_date_only, day_ms}
use cashfo_backend.Dues.Defs.{Direction, InvoiceBreakdown, DirectionBreakdown, compute_direction}
use cashfo_backend.Dues.Requests.{may_buy, may_sell}

pub data AgingBucket : Type 0 where
  current days1to30 days31to60 over60 : AgingBucket

abbrev pub bucket_of_days : ℕ → AgingBucket
bucket_of_days days =
    if leb days 30
    then AgingBucket.days1to30
    else if leb days 60
    then AgingBucket.days31to60
    else AgingBucket.over60

unfoldable pub bucket_for : Option ℕ → ℕ → AgingBucket
bucket_for none today = AgingBucket.current
bucket_for (some due) today =
    if leb today due then AgingBucket.current else bucket_of_days ((today - due) / day_ms)

pub record Buckets : Type 0 where
  pub in_current : ℤ
  pub in_1to30 : ℤ
  pub in_31to60 : ℤ
  pub in_over60 : ℤ

abbrev pub no_buckets : Buckets
no_buckets = record { in_current = pos 0; in_1to30 = pos 0; in_31to60 = pos 0; in_over60 = pos 0 }

abbrev pub add_to : AgingBucket → ℤ → Buckets → Buckets
add_to AgingBucket.current v x = record x { in_current = x.in_current +ℤ v }
add_to AgingBucket.days1to30 v x = record x { in_1to30 = x.in_1to30 +ℤ v }
add_to AgingBucket.days31to60 v x = record x { in_31to60 = x.in_31to60 +ℤ v }
add_to AgingBucket.over60 v x = record x { in_over60 = x.in_over60 +ℤ v }

pub record AgingBucketRow : Type 0 where
  pub contact_id : ℕ
  pub contact_name : ℕ
  pub buckets : Buckets
  pub total : ℤ
  pub total_invoiced : ℤ
  pub total_paid : ℤ

pub record AgingReport : Type 0 where
  pub buckets : Buckets
  pub contacts : List AgingBucketRow

-- The buckets of the contact's row and those of the report.
pub record Tally : Type 0 where
  pub row : Buckets
  pub report : Buckets

unfoldable pub fill_buckets : ℕ → List InvoiceBreakdown → Tally → Tally
unfolding bucket_for
fill_buckets today [] x = x
fill_buckets today (t ∷ ts) x =
    let bucket = bucket_for t.due_date today in
    let filled = fill_buckets today ts (record {
      row = add_to bucket t.remaining_amount x.row;
      report = add_to bucket t.remaining_amount x.report;
    }) in
    let skipped = fill_buckets today ts x in
    if not (ltb_ℤ (pos 0) t.remaining_amount) then skipped else filled

-- `type: { in: [contactType, 'BOTH'] }`
abbrev pub is_party : Direction → ContactType → Bool
is_party Direction.receivable ty = may_buy ty
is_party Direction.payable ty = may_sell ty

abbrev pub is_party_of : ℕ → Direction → Contact → Bool
is_party_of b dir c = c.business_id == b && is_party dir c.contact_type

abbrev pub row_for : Contact → DirectionBreakdown → Buckets → AgingBucketRow
row_for c x buckets = record {
  contact_id = c.id;
  contact_name = c.name;
  buckets = buckets;
  total = x.remaining;
  total_invoiced = x.total_invoiced;
  total_paid = x.total_paid;
}

-- The loop over the contacts, with what it does for one of them.
unfoldable pub age_contact : ℕ → Contact → DirectionBreakdown → AgingReport → AgingReport
unfolding fill_buckets
age_contact today c x report =
    let tally =
      fill_buckets today x.transactions (record { row = no_buckets; report = report.buckets }) in
    if not (ltb_ℤ (pos 0) x.remaining)
    then report
    else record { buckets = tally.report; contacts = report.contacts ++ row_for c x tally.row ∷ [] }

unfoldable pub age_contacts : ℕ → ℕ → Direction → Db → List Contact → AgingReport → AgingReport
unfolding age_contact compute_direction
age_contacts now b dir db [] report = report
age_contacts now b dir db (c ∷ cs) report =
    age_contacts now b dir db cs
      (age_contact (dhaka_date_only now) c (compute_direction now b c dir db) report)

unfoldable pub get_aging : ℕ → ℕ → Direction → Db → AgingReport
unfolding age_contacts
get_aging now b dir db =
    age_contacts now b dir db
      (sort_by (λ (x y : Contact). leb x.name y.name) (filter (is_party_of b dir) db.contacts))
      (record { buckets = no_buckets; contacts = [] })
