-- ===== src/Schema/Tables.antt =====
-- The lookups and writes of the ledger's tables (Prisma's findUnique, update, updateMany, create).
use cashfo_backend.Base.{
  ℕ, Bool, true, false, Option, none, some, List, [], ◌∷◌, ◌++◌, ℤ, same_option, any, find_unique,
  update_unique,
}
use cashfo_backend.Schema.Rows.{Account, Transaction}
use cashfo_backend.Schema.Effect.{Tx, ok, err, unique_violation}

abbrev pub find_account : ℕ → List Account → Option Account
find_account = find_unique (λ a. a.id)

abbrev pub update_account : ℕ → (Account → Account) → List Account → List Account
update_account = update_unique (λ a. a.id)

abbrev pub find_transaction : ℕ → List Transaction → Option Transaction
find_transaction = find_unique (λ t. t.id)

abbrev pub has_key : Option ℕ → Transaction → Bool
has_key k t = same_option t.idempotency_key k

-- The unique index on Transaction.idempotencyKey, which lets any number of nulls through.
abbrev pub key_taken : Option ℕ → List Transaction → Bool
key_taken none ts = false
key_taken (some k) ts = any (has_key (some k)) ts

-- `client.transaction.create`
unfoldable pub insert_transaction : Transaction → Tx Transaction
insert_transaction t db = elim (key_taken t.idempotency_key db.transactions) [
  | true ↦ err unique_violation
  | false ↦ ok (t, record db { transactions = db.transactions ++ t ∷ [] })
]

-- `client.account.update({ where: { id }, data: { currentBalance } })`
abbrev pub with_balance : ℤ → Account → Account
with_balance b a = record a { current_balance = b }
