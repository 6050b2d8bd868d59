-- ===== src/Ledger/Posting.antt =====
-- Posting a transaction: `createTransaction`, `post` and the private checks of
-- src/transactions/transactions.service.ts.
use cashfo_backend.Base.{
  ℕ, not, Option, none, some, List, map, ℤ, pos, ◌==◌, ◌&&◌, if◌then◌else◌, truthy, is_some,
  same_option, length, ltb, ltb_ℤ, eqb_ℤ, any, filter, elem, distinct, find_where, sum_of,
}
use cashfo_backend.Schema.{
  EntryType, TransactionStatus, Account, Entry, Transaction, CreateTransaction, Context, Db, Tx,
  Result, ok, err, Error, ◌>>=◌, ◌>>◌, pure, throw_if, gets, for_each, key_used_elsewhere,
  too_few_entries, amount_not_positive, accounts_do_not_exist, foreign_account, contact_not_found,
  bad_applied_to, unbalanced, unique_violation, has_key, insert_transaction, same_entry_type,
}
use cashfo_backend.Ledger.Balance.{recalculate_balance}

unfoldable pub validate_entry_shape : List Entry → Tx (Unit {0})
validate_entry_shape entries = do
  throw_if (ltb (length entries) 2) too_few_entries
  throw_if (any (λ e. not (ltb_ℤ (pos 0) e.amount)) entries) amount_not_positive

unfoldable pub require_accounts_belong_to_business : List Account → List ℕ → ℕ → Tx (Unit {0})
require_accounts_belong_to_business accounts requested_ids business_id = do
  throw_if (not (length accounts == length requested_ids)) accounts_do_not_exist
  throw_if (any (λ a. not (a.business_id == business_id)) accounts) foreign_account

unfoldable pub require_contact : ℕ → CreateTransaction → Tx (Unit {0})
require_contact business_id dto db = elim (truthy dto.contact_id) [
  | none ↦ ok (tt, db)
  | some i ↦
      throw_if (not (any (λ c. c.id == i && c.business_id == business_id) db.contacts))
        contact_not_found db
]

unfoldable pub require_applied_to : ℕ → CreateTransaction → Tx (Unit {0})
require_applied_to business_id dto db = elim (truthy dto.applied_to_transaction_id) [
  | none ↦ ok (tt, db)
  | some i ↦ elim (find_where (λ t. t.id == i && t.business_id == business_id) db.transactions) [
    | none ↦ err bad_applied_to
    | some target ↦
        throw_if
          (is_some (truthy dto.contact_id) && not (same_option target.contact_id dto.contact_id))
          bad_applied_to db
  ]
]

unfoldable pub require_links_belong_to_business : ℕ → CreateTransaction → Tx (Unit {0})
unfolding require_contact require_applied_to
require_links_belong_to_business business_id dto =
    require_contact business_id dto >> require_applied_to business_id dto

-- `sumEntries`, one total for each side.
abbrev pub amount_of_type : EntryType → Entry → ℤ
amount_of_type ty e = if same_entry_type e.entry_type ty then e.amount else pos 0

abbrev pub sum_entries : EntryType → List Entry → ℤ
sum_entries ty = sum_of (amount_of_type ty)

abbrev pub account_ids : List Entry → List ℕ
account_ids entries = distinct (map (λ e. e.account_id) entries)

-- The row that a request becomes.
abbrev pub new_transaction : Context → ℕ → CreateTransaction → Transaction
new_transaction ctx business_id dto = record {
  id = ctx.new_id;
  business_id = business_id;
  transaction_type = dto.transaction_type;
  transaction_date = dto.transaction_date;
  reference_no = dto.reference_no;
  description = dto.description;
  contact_id = dto.contact_id;
  due_date = dto.due_date;
  applied_to_transaction_id = dto.applied_to_transaction_id;
  idempotency_key = dto.idempotency_key;
  created_by = ctx.user_id;
  created_at = ctx.now;
  status = TransactionStatus.posted;
  voided_at = none;
  voided_reason = none;
  reversal_of_id = none;
  entries = dto.entries;
}

-- The rest of `post` after the idempotency check. The row locks of `lockAccounts` change no data.
unfoldable pub post_new : Context → ℕ → CreateTransaction → Tx Transaction
post_new ctx business_id dto = do
  validate_entry_shape dto.entries
  let ids = account_ids dto.entries
  accounts ← gets (λ db. filter (λ a. elem a.id ids) db.accounts)
  require_accounts_belong_to_business accounts ids business_id
  require_links_belong_to_business business_id dto
  throw_if
      (not (
        eqb_ℤ (sum_entries EntryType.debit dto.entries) (sum_entries EntryType.credit dto.entries)))
      unbalanced
  transaction ← insert_transaction (new_transaction ctx business_id dto)
  for_each recalculate_balance ids
  pure transaction

-- The idempotency lookup over the transactions that are visible to it.
unfoldable pub find_by_key : CreateTransaction → List Transaction → Option Transaction
find_by_key dto ts = elim (truthy dto.idempotency_key) [
  | none ↦ none
  | some k ↦ find_where (has_key (some k)) ts
]

-- A retry answers with the stored transaction.
unfoldable pub replay : ℕ → Transaction → Tx Transaction
replay business_id existing = do
  throw_if (not (existing.business_id == business_id)) key_used_elsewhere
  pure existing

-- `post`, where the lookup saw the transactions `seen`: another posting may commit between the
-- lookup and the insert.
unfoldable pub post_seeing : List Transaction → Context → ℕ → CreateTransaction → Tx Transaction
unfolding find_by_key replay post_new
post_seeing seen ctx business_id dto = elim (find_by_key dto seen) [
  | none ↦ post_new ctx business_id dto
  | some existing ↦ replay business_id existing
]

unfoldable pub post : Context → ℕ → CreateTransaction → Tx Transaction
unfolding post_seeing
post ctx business_id dto db = post_seeing db.transactions ctx business_id dto db

-- The `catch` of `createTransaction`: a posting that lost the race for its key answers by a
-- second `post`.
unfoldable pub retry_on_violation :
    Context → ℕ → CreateTransaction → Db → Error → Result (Transaction × Db)
unfolding post
retry_on_violation ctx business_id dto db unique_violation =
    if is_some (truthy dto.idempotency_key)
    then post ctx business_id dto db
    else err unique_violation
retry_on_violation ctx business_id dto db e = err e

-- `createTransaction` with no `tx`, where the lookup saw the transactions `seen`.
unfoldable pub create_racing : List Transaction → Context → ℕ → CreateTransaction → Tx Transaction
unfolding post_seeing retry_on_violation
create_racing seen ctx business_id dto db = elim (post_seeing seen ctx business_id dto db) [
  | ok r ↦ ok r
  | err e ↦ retry_on_violation ctx business_id dto db e
]

unfoldable pub create_transaction : Context → ℕ → CreateTransaction → Tx Transaction
unfolding create_racing
create_transaction ctx business_id dto db = create_racing db.transactions ctx business_id dto db
