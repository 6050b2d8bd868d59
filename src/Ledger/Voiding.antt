-- ===== src/Ledger/Voiding.antt =====
-- Voiding a transaction: `voidTransaction`, `requireNotOwnedByAFeature` and `flip` of
-- src/transactions/transactions.service.ts, and `dhakaDateOnly` of src/common/dhaka.ts.
use cashfo_backend.Base.{
  ℕ, ◌+◌, ◌*◌, ◌/◌, Bool, false, not, none, some, List, map, ◌==◌, ◌&&◌, ◌||◌, if◌then◌else◌,
  truthy, is_some, same_option, or_else, any, elem, update_where, length, filter,
}
use cashfo_backend.Schema.{
  EntryType, TransactionStatus, AccountSubtype, Text, id_text, reversal_of, Account, Entry,
  Transaction, Context, Db, Tx, ok, err, ◌>>=◌, ◌>>◌, pure, throw_if, or_throw, for_each,
  transaction_not_found, is_a_reversal, already_voided, owned_by_savings, owned_by_asset,
  referral_payout, is_posted, find_transaction, insert_transaction, subtype_code,
}
use cashfo_backend.Ledger.Balance.{recalculate_balance}
use cashfo_backend.Ledger.Posting.{account_ids}

abbrev pub dhaka_offset_ms : ℕ
dhaka_offset_ms = 21_600_000

abbrev pub day_ms : ℕ
day_ms = 86_400_000

-- The Dhaka calendar date of an instant, as an instant at UTC midnight.
unfoldable pub dhaka_date_only : ℕ → ℕ
dhaka_date_only date = (date + dhaka_offset_ms) / day_ms * day_ms

abbrev pub flip : EntryType → EntryType
flip EntryType.debit = EntryType.credit
flip EntryType.credit = EntryType.debit

abbrev pub flip_entry : Entry → Entry
flip_entry e = record e { entry_type = flip e.entry_type }

abbrev pub is_referral_bonus : Account → Bool
is_referral_bonus a = elim a.account_subtype [
  | none ↦ false
  | some s ↦ subtype_code s == subtype_code AccountSubtype.referral_bonus
]

abbrev pub is_savings_posting : Transaction → Db → Bool
is_savings_posting t db = any (λ e. same_option e.transaction_id (some t.id)) db.savings_entries

abbrev pub is_asset_posting : Transaction → Db → Bool
is_asset_posting t db =
    any
      (λ a.
        same_option a.purchase_transaction_id (some t.id)
        || same_option a.sold_transaction_id (some t.id))
      db.assets

abbrev pub is_referral_payout : Transaction → Db → Bool
is_referral_payout t db =
    any (λ a. elem a.id (map (λ (e : Entry). e.account_id) t.entries) && is_referral_bonus a)
      db.accounts

unfoldable pub require_not_owned_by_a_feature : Transaction → Tx (Unit {0})
require_not_owned_by_a_feature t db =
    if is_savings_posting t db
    then err owned_by_savings
    else if is_asset_posting t db
    then err owned_by_asset
    else if is_referral_payout t db
    then err referral_payout
    else ok (tt, db)

-- The conditional update POSTED to VOIDED, with the number of rows that it changed.
abbrev pub is_claimable : ℕ → Transaction → Bool
is_claimable i t = t.id == i && is_posted t.status

abbrev pub mark_voided : Context → ℕ → Transaction → Transaction
mark_voided ctx reason t = record t {
  status = TransactionStatus.voided;
  voided_at = some ctx.now;
  voided_reason = some reason;
}

unfoldable pub claim : Context → ℕ → ℕ → Tx ℕ
claim ctx transaction_id reason db = ok (
  length (filter (is_claimable transaction_id) db.transactions),
  record db {
    transactions =
        update_where (is_claimable transaction_id) (mark_voided ctx reason) db.transactions;
  },
)

abbrev pub label_of : Transaction → Text
label_of t = or_else t.description (or_else t.reference_no (id_text t.id))

abbrev pub reversal_row : Context → ℕ → Transaction → Transaction
reversal_row ctx business_id original = record {
  id = ctx.new_id;
  business_id = business_id;
  transaction_type = original.transaction_type;
  transaction_date = dhaka_date_only ctx.now;
  reference_no = original.reference_no;
  description = some (reversal_of (label_of original));
  contact_id = original.contact_id;
  due_date = none;
  applied_to_transaction_id = none;
  idempotency_key = none;
  created_by = ctx.user_id;
  created_at = ctx.now;
  status = TransactionStatus.posted;
  voided_at = none;
  voided_reason = none;
  reversal_of_id = some original.id;
  entries = map flip_entry original.entries;
}

-- `voidTransaction`, where the first read saw the transactions `seen`: another void may commit
-- between that read and the claim. The result is the original's id and the reversal.
unfoldable pub void_seeing : List Transaction → Context → ℕ → ℕ → ℕ → Tx (ℕ × Transaction)
void_seeing seen ctx business_id transaction_id reason = do
  original ← or_throw (find_transaction transaction_id seen) transaction_not_found
  throw_if (not (original.business_id == business_id)) transaction_not_found
  throw_if (is_some (truthy original.reversal_of_id)) is_a_reversal
  throw_if (not (is_posted original.status)) already_voided
  require_not_owned_by_a_feature original
  let ids = account_ids original.entries
  claimed ← claim ctx transaction_id reason
  throw_if (claimed == 0) already_voided
  reversal ← insert_transaction (reversal_row ctx business_id original)
  for_each recalculate_balance ids
  pure (original.id, reversal)

unfoldable pub void_transaction : Context → ℕ → ℕ → ℕ → Tx (ℕ × Transaction)
unfolding void_seeing
void_transaction ctx business_id transaction_id reason db =
    void_seeing db.transactions ctx business_id transaction_id reason db
