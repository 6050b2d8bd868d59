-- ===== src/Savings/Paying.antt =====
-- What a contribution and a withdrawal that went through have done:
-- src/savings-goals/savings-goals.service.ts.
use cashfo_backend.Base.{
  ℕ, ◌≡◌, sym, ◌∙◌, ap, subst, Bool, true, false, some, [], Option-cases, ◌∷◌, ◌++◌, arith, inl,
  inr, Bool-cases,
}
use cashfo_backend.Schema.{
  pure, ok, ◌>>=◌, ◌>>◌, Account, Transaction, Context, Db, Tx, Error, step-cases, check-cases,
  find_account,
}
use cashfo_backend.Ledger.Posting.{post}
use cashfo_backend.Savings.Rows.{link_entry, Goal, GoalEntry, SavingsDb, is_withdrawn, on_ledger}
use cashfo_backend.Savings.Goals.{
  require_goal, require_account_that, require_savings_account, require_funding_account,
  maybe_mark_completed,
}
use cashfo_backend.Savings.Money.{
  AddContribution, contribution_entry, contribution_request, contribute, add_contribution,
}
use cashfo_backend.Savings.Saved.{require_goal-found, maybe_mark_completed-entries}

pub require_account_that-keeps :
    (p : Account → Bool) (missing refused : Error) (b i : ℕ) (db db' : SavingsDb) (a : Account)
    → require_account_that p missing refused b i db ≡ ok (a, db')
    → db' ≡ db
unfolding require_account_that
require_account_that-keeps p missing refused b i db db' a h = ground arith

pub require_account_that-found :
    (p : Account → Bool) (missing refused : Error) (b i : ℕ) (db db' : SavingsDb) (a : Account)
    → require_account_that p missing refused b i db ≡ ok (a, db')
    → (find_account i db.ledger.accounts ≡ some a) × (p a ≡ true)
unfolding require_account_that
require_account_that-found p missing refused b i db db' a h =
    elim (Option-cases (find_account i db.ledger.accounts)) [
      | inl e ↦ absurd (ground arith)
      | inr (x, e) ↦ elim (Bool-cases (p x)) [
        | inl fits ↦ let same : x ≡ a = ground arith in (e ∙ ap some same, ap p (sym same) ∙ fits)
        | inr other ↦ absurd (ground arith)
      ]
    ]

pub on_ledger-posted :
    {A : Type 0} (m : Tx A) (db db' : SavingsDb) (a : A)
    → on_ledger m db ≡ ok (a, db')
    → (l : Db) × (m db.ledger ≡ ok (a, l)) × (db' ≡ record db { ledger = l })
unfolding on_ledger
on_ledger-posted m db db' a h = elim (step-cases (m db.ledger)) [
  | inl (e, failed) ↦ absurd (ground arith)
  | inr (x, l, passed) ↦ (l, ground arith, ground arith)
]

-- The entry and the posting of a contribution.
pub record IsContributed (ctx : Context) (b i : ℕ) (dto : AddContribution) (a s : Account)
    (db : SavingsDb) (e : GoalEntry) (db' : SavingsDb) : Type 0 where
  pub goal : Goal
  pub transaction : Transaction
  pub ledger : Db
  pub still_open : is_withdrawn goal.status ≡ false
  pub posting : post ctx b (contribution_request goal dto a s) db.ledger ≡ ok (transaction, ledger)
  pub row : e ≡ contribution_entry b i dto a s transaction
  pub rows : db'.entries ≡ db.entries ++ e ∷ []
  pub books : db'.ledger ≡ link_entry e ledger

contribute-IsContributed :
    (ctx : Context) (b i : ℕ) (dto : AddContribution) (a s : Account) (db : SavingsDb)
    (e : GoalEntry) (db' : SavingsDb)
    → contribute ctx b i dto a s db ≡ ok (e, db')
    → IsContributed ctx b i dto a s db e db'
unfolding contribute
contribute-IsContributed ctx b i dto a s db e db' h = elim (step-cases (require_goal b i db)) [
  | inl (x, failed) ↦ absurd (ground arith)
  | inr (g, db1, passed) ↦
      let (same, _, _) = require_goal-found b i db db1 g passed in
      elim (Bool-cases (is_withdrawn g.status)) [
        | inl gone ↦ absurd (ground arith)
        | inr there ↦
            elim (step-cases (on_ledger (post ctx b (contribution_request g dto a s)) db1)) [
              | inl (x, failed) ↦ absurd (ground arith)
              | inr (t, db2, posted) ↦
                  let (l, posting, after) =
                    on_ledger-posted (post ctx b (contribution_request g dto a s)) db1 db2 t
                      posted in
                  let row : e ≡ contribution_entry b i dto a s t = ground arith in
                  subst (λ (x : SavingsDb). IsContributed ctx b i dto a s x e db') same
                    (record {
                      goal = g;
                      transaction = t;
                      ledger = l;
                      still_open = there;
                      posting = posting;
                      row = row;
                      rows = ground arith;
                      books = ground arith;
                    })
            ]
      ]
]

module _ (ctx : Context) (b i : ℕ) (dto : AddContribution) (a s : Account) (db : SavingsDb) where
  -- A later step that adds no entry and leaves the ledger alone.
  later-IsContributed :
      (e : GoalEntry) (db1 db2 : SavingsDb)
      → db2.entries ≡ db1.entries
      → db2.ledger ≡ db1.ledger
      → IsContributed ctx b i dto a s db e db1
      → IsContributed ctx b i dto a s db e db2
  later-IsContributed e db1 db2 rows books done = record {
    goal = done.goal;
    transaction = done.transaction;
    ledger = done.ledger;
    still_open = done.still_open;
    posting = done.posting;
    row = done.row;
    rows = rows ∙ done.rows;
    books = books ∙ done.books;
  }

  -- The contribution, and the look at the goal's target after it.
  completed-IsContributed :
      (e : GoalEntry) (db' : SavingsDb)
      → (contribute ctx b i dto a s >>= λ entry.
            require_goal b i >>= λ goal. maybe_mark_completed goal >> pure entry)
          db
        ≡ ok (e, db')
      → IsContributed ctx b i dto a s db e db'
  completed-IsContributed e db' h = elim (step-cases (contribute ctx b i dto a s db)) [
    | inl (x, failed) ↦ absurd (ground arith)
    | inr (u, db1, passed) ↦ elim (step-cases (require_goal b i db1)) [
      | inl (x, failed) ↦ absurd (ground arith)
      | inr (k, db2, passed2) ↦
          let (same2, _, _) = require_goal-found b i db1 db2 k passed2 in
          elim (check-cases (maybe_mark_completed k db2)) [
            | inl (x, failed) ↦ absurd (ground arith)
            | inr (db3, passed3) ↦
                let (rows3, books3) = maybe_mark_completed-entries k db2 db3 passed3 in
                let last : db3 ≡ db' = ground arith in
                let entry : u ≡ e = ground arith in
                let done = contribute-IsContributed ctx b i dto a s db u db1 passed in
                let after =
                  later-IsContributed u db1 db3 (rows3 ∙ ap (λ (x : SavingsDb). x.entries) same2)
                    (books3 ∙ ap (λ (x : SavingsDb). x.ledger) same2) done in
                subst (λ (x : SavingsDb). IsContributed ctx b i dto a s db e x) last
                  (subst (λ (y : GoalEntry). IsContributed ctx b i dto a s db y db3) entry after)
          ]
    ]
  ]

pub add_contribution-IsContributed :
    (ctx : Context) (b i : ℕ) (dto : AddContribution) (db : SavingsDb) (e : GoalEntry)
    (db' : SavingsDb)
    → add_contribution ctx b i dto db ≡ ok (e, db')
    → (a : Account) × (s : Account) × IsContributed ctx b i dto a s db e db'
unfolding add_contribution
add_contribution-IsContributed ctx b i dto db e db' h = elim (step-cases (require_goal b i db)) [
  | inl (x, failed) ↦ absurd (ground arith)
  | inr (g, db1, passed) ↦
      let (same1, _, _) = require_goal-found b i db db1 g passed in
      elim (step-cases (require_funding_account b dto.money_account_id db1)) [
        | inl (x, failed) ↦ absurd (ground arith)
        | inr (a, db2, passed2) ↦
            let same2 : db2 ≡ db1 =
              require_account_that-keeps _ _ _ b dto.money_account_id db1 db2 a passed2 in
            elim (step-cases (require_savings_account b dto.to_account_id db2)) [
              | inl (x, failed) ↦ absurd (ground arith)
              | inr (s, db3, passed3) ↦
                  let same3 : db3 ≡ db2 =
                    require_account_that-keeps _ _ _ b dto.to_account_id db2 db3 s passed3 in
                  let done = completed-IsContributed ctx b i dto a s db3 e db' (ground arith) in
                  (
                    a,
                    s,
                    subst (λ (x : SavingsDb). IsContributed ctx b i dto a s x e db')
                        (same3 ∙ same2 ∙ same1) done,
                  )
            ]
      ]
]
