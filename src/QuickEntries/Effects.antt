-- ===== src/QuickEntries/Effects.antt =====
-- What the friendly entries do to the balances: src/quick-entries/quick-entries.service.ts.
use cashfo_backend.Base.{
  ℕ, ◌≡◌, sym, ◌∙◌, ap, true, false, none, some, pos, ◌+ℤ◌, negated, arith, ◌==◌, if◌then◌else◌,
  inl, inr, Bool-cases, Option-cases,
}
use cashfo_backend.Schema.{
  AccountType, TransactionType, Account, Transaction, Context, Db, ok, step-cases, find_account,
  with_balance, same_type,
}
use cashfo_backend.Ledger.Balance.{is_debit_positive}
use cashfo_backend.Ledger.Posting.{create_transaction}
use cashfo_backend.Ledger.Consistency.{IsConsistent}
use cashfo_backend.QuickEntries.Shifts.{create_transaction-gain}
use cashfo_backend.QuickEntries.Defs.{
  CreateTransfer, is_money_account, require_money_account, require_account_of_type, two_entries,
  plain_request, create_transfer,
}

pub require_money_account-found :
    (b i : ℕ) (db db' : Db) (a : Account)
    → require_money_account b i db ≡ ok (a, db')
    → (db' ≡ db) × (find_account i db.accounts ≡ some a) × (is_money_account a ≡ true)
unfolding require_money_account
require_money_account-found b i db db' a h = elim (Option-cases (find_account i db.accounts)) [
  | inl e ↦ absurd (ground arith)
  | inr (x, e) ↦ (ground arith, ground arith, ground arith)
]

pub require_account_of_type-found :
    (b i : ℕ) (ty : AccountType) (db db' : Db) (a : Account)
    → require_account_of_type b i ty db ≡ ok (a, db')
    → (db' ≡ db) × (find_account i db.accounts ≡ some a) × (same_type a.account_type ty ≡ true)
unfolding require_account_of_type
require_account_of_type-found b i ty db db' a h = elim (Option-cases (find_account i db.accounts)) [
  | inl e ↦ absurd (ground arith)
  | inr (x, e) ↦ (ground arith, ground arith, ground arith)
]

-- A transfer that went through was between two different money accounts, and posted their two
-- entries.
pub record IsTransfer (ctx : Context) (b : ℕ) (dto : CreateTransfer) (db : Db) (t : Transaction)
    (db' : Db) : Type 0 where
  pub from_account : Account
  pub to_account : Account
  pub from_found : find_account dto.from_account_id db.accounts ≡ some from_account
  pub to_found : find_account dto.to_account_id db.accounts ≡ some to_account
  pub from_money : is_money_account from_account ≡ true
  pub to_money : is_money_account to_account ≡ true
  pub apart : (dto.from_account_id == dto.to_account_id) ≡ false
  pub posting :
      create_transaction ctx b
        (plain_request TransactionType.transfer dto.date dto.description
          (two_entries to_account.id from_account.id dto.amount none none none none))
        db
      ≡ ok (t, db')

pub create_transfer-IsTransfer :
    (ctx : Context) (b : ℕ) (dto : CreateTransfer) (db : Db) (t : Transaction) (db' : Db)
    → create_transfer ctx b dto db ≡ ok (t, db')
    → IsTransfer ctx b dto db t db'
unfolding create_transfer
create_transfer-IsTransfer ctx b dto db t db' h =
    elim (Bool-cases (dto.from_account_id == dto.to_account_id)) [
      | inl same ↦ absurd (ground arith)
      | inr apart ↦ elim (step-cases (require_money_account b dto.from_account_id db)) [
        | inl (e, failed) ↦ absurd (ground arith)
        | inr (f, db1, passed) ↦
            let (same1, found1, money1) =
              require_money_account-found b dto.from_account_id db db1 f passed in
            elim (step-cases (require_money_account b dto.to_account_id db1)) [
              | inl (e, failed) ↦ absurd (ground arith)
              | inr (g, db2, passed2) ↦
                  let again : require_money_account b dto.to_account_id db ≡ ok (g, db2) =
                    ap (require_money_account b dto.to_account_id) (sym same1) ∙ passed2 in
                  let (same2, found2, money2) =
                    require_money_account-found b dto.to_account_id db db2 g again in
                  let request =
                    plain_request TransactionType.transfer dto.date dto.description
                      (two_entries g.id f.id dto.amount none none none none) in
                  let went : create_transaction ctx b request db2 ≡ ok (t, db') = ground arith in
                  record {
                    from_account = f;
                    to_account = g;
                    from_found = found1;
                    to_found = found2;
                    from_money = money1;
                    to_money = money2;
                    apart = apart;
                    posting = ap (create_transaction ctx b request) (sym same2) ∙ went;
                  }
            ]
      ]
    ]

pub is_money_account-positive :
    (a : Account) → is_money_account a ≡ true → is_debit_positive a.account_type ≡ true
is_money_account-positive a h = ground arith

-- A transfer takes its amount from the one wallet and puts it into the other, and leaves every
-- other account of every workspace as it was.
pub create_transfer-moves :
    (ctx : Context) (b : ℕ) (dto : CreateTransfer) (db : Db) (t : Transaction) (db' : Db) (i : ℕ)
    (a : Account)
    → IsConsistent db
    → create_transfer ctx b dto db ≡ ok (t, db')
    → find_account i db.accounts ≡ some a
    → find_account i db'.accounts
      ≡ some (
          with_balance
            (a.current_balance
              +ℤ (if dto.to_account_id == i
                  then dto.amount
                  else if dto.from_account_id == i
                  then negated dto.amount
                  else pos 0))
            a)
create_transfer-moves ctx b dto db t db' i a valid h e =
    let x = create_transfer-IsTransfer ctx b dto db t db' h in
    create_transaction-gain ctx b TransactionType.transfer dto.date dto.description
      dto.to_account_id dto.from_account_id dto.amount none none none none db t db' true
      x.to_account x.from_account
      (record {
        found_x = x.to_found;
        found_y = x.from_found;
        x_rises = is_money_account-positive x.to_account x.to_money;
        y_falls = is_money_account-positive x.from_account x.from_money;
        apart = ground (arith, x.apart);
      })
      valid x.posting i a e
