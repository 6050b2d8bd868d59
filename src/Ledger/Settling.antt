-- ===== src/Ledger/Settling.antt =====
-- What the recalculation loop at the end of a posting and of a void leaves behind.
use cashfo_backend.Base.{
  ℕ, ◌≡◌, refl, ◌∙◌, Option, none, some, List, [], ◌∷◌, ℤ, arith, ◌==◌, if◌then◌else◌, elem,
  Option-cases, inl, inr, find_unique-update_unique,
}
use mathlib.Core.Option
use cashfo_backend.Schema.{
  Account, Transaction, Db, ok, err, for_each, find_account, update_account, with_balance,
  account_not_found,
}
use cashfo_backend.Ledger.Balance.{recalculate_balance, fresh_balance}

-- The account with its balance computed from scratch.
abbrev pub refresh : List Transaction → Account → Account
refresh ts a = with_balance (fresh_balance ts a) a

-- The accounts of `ids` are refreshed, and nothing else has changed.
pub record IsSettled (ids : List ℕ) (db db' : Db) : Type 0 where
  pub rest : db' ≡ record db { accounts = db'.accounts }
  pub accounts :
      (j : ℕ)
      → find_account j db'.accounts ≡ (
          if elem j ids
          then Option.map (refresh db.transactions) (find_account j db.accounts)
          else find_account j db.accounts)

fresh_balance-with_balance :
    (ts : List Transaction) (v : ℤ) (a : Account)
    → fresh_balance ts (with_balance v a) ≡ fresh_balance ts a
unfolding fresh_balance
fresh_balance-with_balance ts v a = refl

-- A recalculation of a known account goes through, and one of an unknown account does not.
pub recalculate_balance-known :
    (i : ℕ) (db : Db) (a : Account)
    → find_account i db.accounts ≡ some a
    → recalculate_balance i db
      ≡ ok (
        fresh_balance db.transactions a,
        record db {
          accounts = update_account i (with_balance (fresh_balance db.transactions a)) db.accounts;
        },
      )
unfolding recalculate_balance
recalculate_balance-known i db a e = ground arith

pub recalculate_balance-unknown :
    (i : ℕ) (db : Db)
    → find_account i db.accounts ≡ none
    → recalculate_balance i db ≡ err account_not_found
unfolding recalculate_balance
recalculate_balance-unknown i db e = ground arith

-- The table after one recalculation.
settle_one :
    (i j : ℕ) (db : Db) (a : Account)
    → find_account i db.accounts ≡ some a
    → find_account j (update_account i (with_balance (fresh_balance db.transactions a)) db.accounts)
      ≡ (if j == i
          then Option.map (refresh db.transactions) (find_account j db.accounts)
          else find_account j db.accounts)
settle_one i j db a e = ground (
  arith,
  find_unique-update_unique (λ (r : Account). r.id) (with_balance (fresh_balance db.transactions a))
      i j db.accounts (λ r. refl),
)

settled_db : ℕ → Account → Db → Db
settled_db i a db = record db {
  accounts = update_account i (with_balance (fresh_balance db.transactions a)) db.accounts;
}

refresh-refresh :
    (ts : List Transaction) (o : Option Account)
    → Option.map (refresh ts) (Option.map (refresh ts) o) ≡ Option.map (refresh ts) o
refresh-refresh ts none = refl
refresh-refresh ts (some a) = rw (fresh_balance-with_balance ts (fresh_balance ts a) a)

IsSettled-cons :
    (i : ℕ) (ids : List ℕ) (db db' : Db) (a : Account)
    → find_account i db.accounts ≡ some a
    → IsSettled ids (settled_db i a db) db'
    → IsSettled (i ∷ ids) db db'
unfolding settled_db
IsSettled-cons i ids db db' a e s = record {
  rest = s.rest;
  accounts = λ j.
      s.accounts j
      ∙ (ground (
        arith,
        settle_one i j db a e,
        refresh-refresh db.transactions (find_account j db.accounts),
      ));
}

IsSettled-nil : (db db' : Db) → db' ≡ db → IsSettled [] db db'
IsSettled-nil db db' e = rw e (record { rest = refl; accounts = λ j. refl })

pub for_each-IsSettled :
    (ids : List ℕ) (db db' : Db)
    → for_each recalculate_balance ids db ≡ ok (tt, db')
    → IsSettled ids db db'
unfolding settled_db
for_each-IsSettled [] db db' h = IsSettled-nil db db' (cc)
for_each-IsSettled (i ∷ ids) db db' h = elim (Option-cases (find_account i db.accounts)) [
  | inl e ↦ absurd (ground (arith, recalculate_balance-unknown i db e))
  | inr (a, e) ↦ IsSettled-cons i ids db db' a e (
      for_each-IsSettled ids (settled_db i a db) db'
        (ground (arith, recalculate_balance-known i db a e)))
]
