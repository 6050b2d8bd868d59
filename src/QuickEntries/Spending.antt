-- ===== src/QuickEntries/Spending.antt =====
-- What an expense and an income do to the balances: `createExpense` and `createIncome` of
-- src/quick-entries/quick-entries.service.ts.
use cashfo_backend.Base.{
  ℕ, ◌≡◌, refl, sym, ◌∙◌, ap, true, false, Option, none, some, arith, inl, inr, ◌+ℤ◌, ◌==◌, pos,
  negated, if◌then◌else◌, Bool-cases, ==_iff,
}
use cashfo_backend.Schema.{
  Account, AccountType, Transaction, TransactionType, Context, Db, ok, step-cases, find_account,
  same_type, with_balance,
}
use cashfo_backend.Ledger.Balance.{is_debit_positive}
use cashfo_backend.Ledger.Consistency.{IsConsistent}
use cashfo_backend.Ledger.Posting.{create_transaction}
use cashfo_backend.QuickEntries.Defs.{
  CreateIncome, CreateExpense, require_money_account, require_account_of_type,
  choose_income_account, get_default_income_account_id, two_entries, plain_request, create_income,
  create_expense,
}
use cashfo_backend.QuickEntries.Shifts.{create_transaction-gain}
use cashfo_backend.QuickEntries.Effects.{
  require_money_account-found, require_account_of_type-found, is_money_account-positive,
}

choose_income_account-keeps :
    (b : ℕ) (chosen : Option ℕ) (db db' : Db) (i : ℕ)
    → choose_income_account b chosen db ≡ ok (i, db')
    → db' ≡ db
unfolding choose_income_account get_default_income_account_id
choose_income_account-keeps b none db db' i h = ground arith
choose_income_account-keeps b (some j) db db' i h = ground arith

pub expense-lem :
    (ty : AccountType)
    → same_type ty AccountType.expense ≡ true
    → (is_debit_positive ty ≡ true) × (same_type ty AccountType.asset ≡ false)
expense-lem ty h =
    elim ty
        as (λ (x : AccountType).
          same_type x AccountType.expense ≡ true
          → (is_debit_positive x ≡ true) × (same_type x AccountType.asset ≡ false)) [
            | AccountType.expense ↦ λ e. (refl, refl)
            | other ↦ λ e. absurd (ground arith)
          ]
      h

pub asset-lem :
    (ty : AccountType) → same_type ty AccountType.asset ≡ true → is_debit_positive ty ≡ true
asset-lem ty h =
    elim ty
        as (λ (x : AccountType).
          same_type x AccountType.asset ≡ true → is_debit_positive x ≡ true) [
            | AccountType.asset ↦ λ e. refl
            | other ↦ λ e. absurd (ground arith)
          ]
      h

-- An asset account and one of another type have different ids.
pub asset-apart :
    (db : Db) (d k : ℕ) (x y : Account)
    → find_account d db.accounts ≡ some x
    → find_account k db.accounts ≡ some y
    → same_type x.account_type AccountType.asset ≡ true
    → same_type y.account_type AccountType.asset ≡ false
    → (d == k) ≡ false
asset-apart db d k x y found_x found_y asset other = elim (Bool-cases (d == k)) [
  | inr apart ↦ apart
  | inl same ↦
      let here : find_account d db.accounts ≡ some y =
        ap (λ (j : ℕ). find_account j db.accounts) ((==_iff d k).0 same) ∙ found_y in
      let one : x ≡ y = ground arith in
      absurd (ground (arith, ap (λ (r : Account). same_type r.account_type AccountType.asset) one))
]

-- An expense takes its amount from the wallet and adds it to the expense account, and leaves every
-- other account of every workspace as it was.
pub create_expense-moves :
    (ctx : Context) (b : ℕ) (dto : CreateExpense) (db : Db) (t : Transaction) (db' : Db) (i : ℕ)
    (a : Account)
    → IsConsistent db
    → create_expense ctx b dto db ≡ ok (t, db')
    → find_account i db.accounts ≡ some a
    → find_account i db'.accounts
      ≡ some (
          with_balance
            (a.current_balance
              +ℤ (if dto.expense_account_id == i
                  then dto.amount
                  else if dto.from_account_id == i
                  then negated dto.amount
                  else pos 0))
            a)
unfolding create_expense
create_expense-moves ctx b dto db t db' i a valid h e =
    elim (step-cases (require_money_account b dto.from_account_id db)) [
      | inl (x, failed) ↦ absurd (ground arith)
      | inr (f, db1, passed) ↦
          let (same1, found1, money) =
            require_money_account-found b dto.from_account_id db db1 f passed in
          elim (step-cases
            (require_account_of_type b dto.expense_account_id AccountType.expense db1)) [
              | inl (x, failed) ↦ absurd (ground arith)
              | inr (g, db2, passed2) ↦
                  let again : require_account_of_type b dto.expense_account_id AccountType.expense
                        db
                      ≡ ok (g, db2) =
                    ap (require_account_of_type b dto.expense_account_id AccountType.expense)
                      (sym same1)
                    ∙ passed2 in
                  let (same2, found2, ty) =
                    require_account_of_type-found b dto.expense_account_id AccountType.expense db
                      db2 g again in
                  let request =
                    plain_request TransactionType.expense dto.date dto.description
                      (two_entries g.id f.id dto.amount dto.category_id dto.note none none) in
                  let went : create_transaction ctx b request db2 ≡ ok (t, db') = ground arith in
                  let (rises, other) = expense-lem g.account_type ty in
                  let asset : same_type f.account_type AccountType.asset ≡ true = ground arith in
                  let distinct_ids =
                    asset-apart db dto.from_account_id dto.expense_account_id f g found1 found2
                      asset other in
                  create_transaction-gain ctx b TransactionType.expense dto.date dto.description
                    dto.expense_account_id dto.from_account_id dto.amount dto.category_id dto.note
                    none none db t db' true g f
                    (record {
                      found_x = found2;
                      found_y = found1;
                      x_rises = rises;
                      y_falls = is_money_account-positive f money;
                      apart = ground (arith, distinct_ids);
                    })
                    valid (ap (create_transaction ctx b request) (sym same2) ∙ went) i a e
            ]
    ]

income-lem :
    (ty : AccountType)
    → same_type ty AccountType.income ≡ true
    → (is_debit_positive ty ≡ false) × (same_type ty AccountType.asset ≡ false)
income-lem ty h =
    elim ty
        as (λ (x : AccountType).
          same_type x AccountType.income ≡ true
          → (is_debit_positive x ≡ false) × (same_type x AccountType.asset ≡ false)) [
            | AccountType.income ↦ λ e. (refl, refl)
            | other ↦ λ e. absurd (ground arith)
          ]
      h

-- An income adds its amount to the wallet and to the income account, which is the one that the
-- request names or the workspace's first, and leaves every other account of every workspace as it
-- was.
pub create_income-moves :
    (ctx : Context) (b : ℕ) (dto : CreateIncome) (db : Db) (t : Transaction) (db' : Db) (i : ℕ)
    (a : Account)
    → IsConsistent db
    → create_income ctx b dto db ≡ ok (t, db')
    → find_account i db.accounts ≡ some a
    → (source : ℕ) × (choose_income_account b dto.income_account_id db ≡ ok (source, db))
      × (find_account i db'.accounts
          ≡ some (
              with_balance
                (a.current_balance
                  +ℤ (if dto.to_account_id == i
                      then dto.amount
                      else if source == i
                      then dto.amount
                      else pos 0))
                a))
unfolding create_income
create_income-moves ctx b dto db t db' i a valid h e =
    elim (step-cases (require_money_account b dto.to_account_id db)) [
      | inl (x, failed) ↦ absurd (ground arith)
      | inr (f, db1, passed) ↦
          let (same1, found1, money) =
            require_money_account-found b dto.to_account_id db db1 f passed in
          elim (step-cases (choose_income_account b dto.income_account_id db1)) [
            | inl (x, failed) ↦ absurd (ground arith)
            | inr (j, db2, chosen) ↦
                let kept = choose_income_account-keeps b dto.income_account_id db1 db2 j chosen in
                let same2 : db2 ≡ db = kept ∙ same1 in
                let source : choose_income_account b dto.income_account_id db ≡ ok (j, db) =
                  ap (choose_income_account b dto.income_account_id) (sym same1)
                  ∙ chosen
                  ∙ ap (λ (x : Db). ok (j, x)) same2 in
                elim (step-cases (require_account_of_type b j AccountType.income db2)) [
                  | inl (x, failed) ↦ absurd (ground arith)
                  | inr (g, db3, passed3) ↦
                      let again : require_account_of_type b j AccountType.income db ≡ ok (g, db3) =
                        ap (require_account_of_type b j AccountType.income) (sym same2) ∙ passed3 in
                      let (same3, found3, ty) =
                        require_account_of_type-found b j AccountType.income db db3 g again in
                      let request =
                        plain_request TransactionType.income dto.date dto.description
                          (two_entries f.id g.id dto.amount none none dto.category_id dto.note) in
                      let went : create_transaction ctx b request db3 ≡ ok (t, db') =
                        ground arith in
                      let (falls, other) = income-lem g.account_type ty in
                      let asset : same_type f.account_type AccountType.asset ≡ true =
                        ground arith in
                      (
                        j,
                        source,
                        create_transaction-gain ctx b TransactionType.income dto.date
                            dto.description dto.to_account_id j dto.amount none none dto.category_id
                            dto.note db t db' false f g
                            (record {
                              found_x = found1;
                              found_y = found3;
                              x_rises = is_money_account-positive f money;
                              y_falls = falls;
                              apart =
                                  asset-apart db dto.to_account_id j f g found1 found3 asset other;
                            })
                            valid (ap (create_transaction ctx b request) (sym same3) ∙ went) i a e,
                      )
                ]
          ]
    ]
