-- ===== src/Savings/Withdrawing.antt =====
-- A withdrawal pays out a goal's savings, all of them and once:
-- src/savings-goals/savings-goals.service.ts, `withdraw`.
use cashfo_backend.Base.{
  ℕ, ◌≡◌, ◌≢◌, ◌∙◌, ap, subst, true, false, none, some, truthy, ◌+ℤ◌, negated, [], ◌∷◌, ◌++◌, ℤ,
  pos, int_laws, ◌==◌, if◌then◌else◌, arith, inl, inr, ltb_ℤ, Bool-cases,
}
use cashfo_backend.Schema.{
  Account, AccountType, Transaction, TransactionType, Text, Context, Db, ok, step-cases,
  find_account, same_type, with_balance,
}
use cashfo_backend.Ledger.Consistency.{IsConsistent}
use cashfo_backend.QuickEntries.Shifts.{post-gain}
use cashfo_backend.QuickEntries.Spending.{expense-lem, asset-lem, asset-apart}
use cashfo_backend.Ledger.Posting.{post}
use cashfo_backend.Savings.Rows.{
  Goal, GoalEntry, SavingsDb, is_withdrawn, compute_current_amount, on_ledger, link_entry,
}
use cashfo_backend.Savings.Goals.{require_goal, require_savings_account, require_expense_account}
use cashfo_backend.Savings.Money.{
  WithdrawSavingsGoal, withdrawal_entry, withdrawal_request, withdraw,
}
use cashfo_backend.Savings.Saved.{saved, compute-snoc, require_goal-found}
use cashfo_backend.Savings.Paying.{
  require_account_that-keeps, require_account_that-found, on_ledger-posted,
}

-- A withdrawal that went through.
pub record IsPaidOut (ctx : Context) (b i : ℕ) (dto : WithdrawSavingsGoal) (db : SavingsDb)
    (e : GoalEntry) (db' : SavingsDb) : Type 0 where
  pub goal : Goal
  pub savings_account : Account
  pub expense_account : Account
  pub transaction : Transaction
  pub ledger : Db
  pub still_open : is_withdrawn goal.status ≡ false
  pub some_saved : ltb_ℤ (pos 0) (saved i db) ≡ true
  pub posting :
      post ctx b
        (withdrawal_request goal dto (saved i db) savings_account expense_account)
        db.ledger
      ≡ ok (transaction, ledger)
  pub savings_found : find_account dto.savings_account_id db.ledger.accounts ≡ some savings_account
  pub savings_asset : same_type savings_account.account_type AccountType.asset ≡ true
  pub expense_found : find_account dto.expense_account_id db.ledger.accounts ≡ some expense_account
  pub expense_type : same_type expense_account.account_type AccountType.expense ≡ true
  pub row : e ≡ withdrawal_entry b i dto (saved i db) savings_account transaction
  pub rows : db'.entries ≡ db.entries ++ e ∷ []
  pub books : db'.ledger ≡ link_entry e ledger

module _ (ctx : Context) (b i : ℕ) (dto : WithdrawSavingsGoal) where
  -- The part after the goal was found.
  rest-IsPaidOut :
      (g : Goal) (db : SavingsDb) (e : GoalEntry) (db' : SavingsDb)
      → g.id ≡ i
      → require_goal b i db ≡ ok (g, db)
      → withdraw ctx b i dto db ≡ ok (e, db')
      → IsPaidOut ctx b i dto db e db'
  unfolding withdraw
  rest-IsPaidOut g db e db' own here h = elim (Bool-cases (is_withdrawn g.status)) [
    | inl gone ↦ absurd (ground arith)
    | inr unpaid ↦ elim (Bool-cases (ltb_ℤ (pos 0) (saved g.id db))) [
      | inr nothing ↦ absurd (ground arith)
      | inl something ↦ elim (step-cases (require_savings_account b dto.savings_account_id db)) [
        | inl (x, failed) ↦ absurd (ground arith)
        | inr (s, db1, passed) ↦
            let same1 : db1 ≡ db =
              require_account_that-keeps _ _ _ b dto.savings_account_id db db1 s passed in
            elim (step-cases (require_expense_account b dto.expense_account_id db)) [
              | inl (x, failed) ↦ absurd (ground arith)
              | inr (k, db2, passed2) ↦
                  let same2 : db2 ≡ db =
                    require_account_that-keeps _ _ _ b dto.expense_account_id db db2 k passed2 in
                  elim (step-cases
                    (on_ledger (post ctx b (withdrawal_request g dto (saved g.id db) s k)) db)) [
                      | inl (x, failed) ↦ absurd (ground arith)
                      | inr (t, db3, posted) ↦
                          let (l, posting, after) =
                            on_ledger-posted
                              (post ctx b (withdrawal_request g dto (saved g.id db) s k)) db db3 t
                              posted in
                          let row : e ≡ withdrawal_entry b i dto (saved g.id db) s t =
                            ground arith in
                          let (found, fits) =
                            require_account_that-found _ _ _ b dto.savings_account_id db db1 s
                              passed in
                          let (found2, fits2) =
                            require_account_that-found _ _ _ b dto.expense_account_id db db2 k
                              passed2 in
                          record {
                            goal = g;
                            savings_account = s;
                            expense_account = k;
                            transaction = t;
                            ledger = l;
                            still_open = unpaid;
                            some_saved =
                                subst (λ (j : ℕ). ltb_ℤ (pos 0) (saved j db) ≡ true) own something;
                            posting =
                                subst
                                  (λ (j : ℕ).
                                    post ctx b (withdrawal_request g dto (saved j db) s k) db.ledger
                                    ≡ ok (t, l))
                                  own posting;
                            savings_found = found;
                            savings_asset = ground arith;
                            expense_found = found2;
                            expense_type = fits2;
                            row =
                                subst (λ (j : ℕ). e ≡ withdrawal_entry b i dto (saved j db) s t) own
                                  row;
                            rows = ground arith;
                            books = ground arith;
                          }
                    ]
            ]
      ]
    ]
  ]

  pub withdraw-IsPaidOut :
      (db : SavingsDb) (e : GoalEntry) (db' : SavingsDb)
      → withdraw ctx b i dto db ≡ ok (e, db')
      → IsPaidOut ctx b i dto db e db'
  unfolding withdraw
  withdraw-IsPaidOut db e db' h = elim (step-cases (require_goal b i db)) [
    | inl (x, failed) ↦ absurd (ground arith)
    | inr (g, db1, passed) ↦
        let (same, _, own) = require_goal-found b i db db1 g passed in
        rest-IsPaidOut g db e db' own (passed ∙ ap (λ (x : SavingsDb). ok (g, x)) same) h
  ]

  pub withdraw-leaves :
      (db : SavingsDb) (e : GoalEntry) (db' : SavingsDb) (j : ℕ)
      → withdraw ctx b i dto db ≡ ok (e, db')
      → (e.amount ≡ saved i db) × (saved j db' ≡ (if i == j then pos 0 else saved j db))
  withdraw-leaves db e db' j h =
      let p = withdraw-IsPaidOut db e db' h in
      let after = ap (compute_current_amount j) p.rows ∙ compute-snoc j db.entries e in
      (
        ap (λ (x : GoalEntry). x.amount) p.row,
        after
            ∙ rw p.row (elim (Bool-cases (i == j)) [
              | inl here ↦ let same : i ≡ j = ground arith in rw (here, same) (omega int_laws)
              | inr there ↦ rw there (omega int_laws)
            ]),
      )

  -- A withdrawal that goes through pays out all that the goal has saved: it enters the whole amount,
  -- takes it from the savings account and adds it to the expense account, and leaves every other
  -- account as it was, nothing in the goal, and the savings of every other goal as they were.
  pub withdraw-empties :
      (db : SavingsDb) (e : GoalEntry) (db' : SavingsDb) (j k : ℕ) (a : Account)
      → IsConsistent db.ledger
      → withdraw ctx b i dto db ≡ ok (e, db')
      → find_account k db.ledger.accounts ≡ some a
      → (e.amount ≡ saved i db)
        × (saved j db' ≡ (if i == j then pos 0 else saved j db))
        × (find_account k db'.ledger.accounts
            ≡ some (
                with_balance
                  (a.current_balance
                    +ℤ (if dto.expense_account_id == k
                        then saved i db
                        else if dto.savings_account_id == k
                        then negated (saved i db)
                        else pos 0))
                  a))
  withdraw-empties db e db' j k a valid h found =
      let p = withdraw-IsPaidOut db e db' h in
      let (all_of_it, left) = withdraw-leaves db e db' j h in
      let (rises, other) = expense-lem p.expense_account.account_type p.expense_type in
      let apart =
        asset-apart db.ledger dto.savings_account_id dto.expense_account_id p.savings_account
          p.expense_account p.savings_found p.expense_found p.savings_asset other in
      let moved =
        post-gain ctx b TransactionType.expense dto.date
          (some (Text.savings_withdrawal p.goal.name (truthy dto.notes))) dto.expense_account_id
          dto.savings_account_id (saved i db) dto.category_id dto.notes none none db.ledger
          p.transaction p.ledger true p.expense_account p.savings_account
          (record {
            found_x = p.expense_found;
            found_y = p.savings_found;
            x_rises = rises;
            y_falls = asset-lem p.savings_account.account_type p.savings_asset;
            apart = ground (arith, apart);
          })
          valid p.posting k a found in
      (all_of_it, left, ap (λ (l : Db). find_account k l.accounts) p.books ∙ moved)

  -- A withdrawal of a goal with nothing saved does not go through.
  no_second :
      (db : SavingsDb) (e : GoalEntry) (db' : SavingsDb)
      → saved i db ≡ pos 0
      → withdraw ctx b i dto db ≢ ok (e, db')
  no_second db e db' empty h =
      let p = withdraw-IsPaidOut db e db' h in
      let none_saved : ltb_ℤ (pos 0) (pos 0) ≡ true =
        subst (λ (v : ℤ). ltb_ℤ (pos 0) v ≡ true) empty p.some_saved in
      absurd (ground arith)

-- Savings are paid out once: after a withdrawal no second one of the same goal goes through while
-- no entry of any goal is added, whoever asks, and also where the goal's status was set back.
pub withdraw-once :
    (ctx ctx' : Context) (b b' i : ℕ) (dto dto' : WithdrawSavingsGoal) (db : SavingsDb)
    (e : GoalEntry) (db1 db2 : SavingsDb) (e' : GoalEntry) (db3 : SavingsDb)
    → withdraw ctx b i dto db ≡ ok (e, db1)
    → db2.entries ≡ db1.entries
    → withdraw ctx' b' i dto' db2 ≢ ok (e', db3)
withdraw-once ctx ctx' b b' i dto dto' db e db1 db2 e' db3 h same =
    let (_, left) = withdraw-leaves ctx b i dto db e db1 i h in
    let empty : saved i db1 ≡ pos 0 = left ∙ ground arith in
    no_second ctx' b' i dto' db2 e' db3 (ap (compute_current_amount i) same ∙ empty)
