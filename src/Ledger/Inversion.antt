-- ===== src/Ledger/Inversion.antt =====
-- What a posting and a void that went through have done, step by step.
use cashfo_backend.Base.{
  ℕ, ◌≤◌, ◌≡◌, ◌≢◌, true, false, not, some, List, [], ◌∷◌, ◌++◌, pos, arith, ◌==◌, eqb_ℤ, ltb_ℤ,
  length, any, filter, elem, Option-cases, inl, inr, update_where,
}
use cashfo_backend.Schema.{
  EntryType, Account, Transaction, CreateTransaction, Context, Db, ok, for_each, key_taken,
  insert_transaction, check-cases, is_posted, find_transaction,
}
use cashfo_backend.Ledger.Balance.{recalculate_balance}
use cashfo_backend.Ledger.Posting.{
  validate_entry_shape, require_accounts_belong_to_business, require_links_belong_to_business,
  sum_entries, account_ids, new_transaction, post_new,
}
use cashfo_backend.Ledger.Voiding.{
  require_not_owned_by_a_feature, claim, mark_voided, is_claimable, reversal_row, void_seeing,
}

-- The checks change nothing.
pub require_links-keeps :
    (b : ℕ) (dto : CreateTransaction) (db db' : Db)
    → require_links_belong_to_business b dto db ≡ ok (tt, db')
    → db' ≡ db
unfolding require_links_belong_to_business
require_links-keeps b dto db db' h = ground arith

pub require_not_owned-keeps :
    (t : Transaction) (db db' : Db) → require_not_owned_by_a_feature t db ≡ ok (tt, db') → db' ≡ db
unfolding require_not_owned_by_a_feature
require_not_owned-keeps t db db' h = ground arith

-- A new posting passed every check, added one row, and recalculated the accounts that it names.
pub record IsPosted (ctx : Context) (b : ℕ) (dto : CreateTransaction) (db : Db) (t : Transaction)
    (db' : Db) : Type 0 where
  pub row : t ≡ new_transaction ctx b dto
  pub long_enough : 2 ≤ length dto.entries
  pub positive : any (λ e. not (ltb_ℤ (pos 0) e.amount)) dto.entries ≡ false
  pub counted :
      length (filter (λ (a : Account). elem a.id (account_ids dto.entries)) db.accounts)
      ≡ length (account_ids dto.entries)
  pub own :
      any
        (λ (a : Account). not (a.business_id == b))
        (filter (λ (a : Account). elem a.id (account_ids dto.entries)) db.accounts)
      ≡ false
  pub balanced :
      eqb_ℤ (sum_entries EntryType.debit dto.entries) (sum_entries EntryType.credit dto.entries)
      ≡ true
  pub free : key_taken dto.idempotency_key db.transactions ≡ false
  pub settled :
      for_each recalculate_balance
        (account_ids dto.entries)
        (record db { transactions = db.transactions ++ t ∷ [] })
      ≡ ok (tt, db')

pub post_new-IsPosted :
    (ctx : Context) (b : ℕ) (dto : CreateTransaction) (db : Db) (t : Transaction) (db' : Db)
    → post_new ctx b dto db ≡ ok (t, db')
    → IsPosted ctx b dto db t db'
unfolding post_new validate_entry_shape require_accounts_belong_to_business insert_transaction
post_new-IsPosted ctx b dto db t db' h =
    elim (check-cases (require_links_belong_to_business b dto db)) [
      | inl (e, failed) ↦ absurd (ground arith)
      | inr (db1, passed) ↦ let same = require_links-keeps b dto db db1 passed in ground arith
    ]

-- A void that went through claimed one posted row and posted its mirror.
pub record IsVoided (seen : List Transaction) (ctx : Context) (b i reason : ℕ) (db : Db)
    (t rev : Transaction) (db' : Db) : Type 0 where
  pub found : find_transaction i seen ≡ some t
  pub own : (t.business_id == b) ≡ true
  pub was_posted : is_posted t.status ≡ true
  pub claimable : length (filter (is_claimable i) db.transactions) ≢ 0
  pub row : rev ≡ reversal_row ctx b t
  pub settled :
      for_each recalculate_balance (account_ids t.entries) (record db {
        transactions =
            update_where (is_claimable i) (mark_voided ctx reason) db.transactions ++ rev ∷ [];
      })
      ≡ ok (tt, db')

pub void_seeing-IsVoided :
    (seen : List Transaction) (ctx : Context) (b i reason : ℕ) (db : Db) (o : ℕ) (rev : Transaction)
    (db' : Db)
    → void_seeing seen ctx b i reason db ≡ ok ((o, rev), db')
    → (t : Transaction) × IsVoided seen ctx b i reason db t rev db' × (o ≡ t.id)
unfolding void_seeing insert_transaction claim
void_seeing-IsVoided seen ctx b i reason db o rev db' h =
    elim (Option-cases (find_transaction i seen)) [
      | inl e ↦ absurd (ground arith)
      | inr (t, e) ↦ elim (check-cases (require_not_owned_by_a_feature t db)) [
        | inl (e', failed) ↦ absurd (ground arith)
        | inr (db1, passed) ↦
            let same = require_not_owned-keeps t db db1 passed in (t, ground arith, ground arith)
      ]
    ]
