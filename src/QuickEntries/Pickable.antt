-- ===== src/QuickEntries/Pickable.antt =====
-- The pickers of src/accounts/accounts.service.ts and the checks of
-- src/quick-entries/quick-entries.service.ts agree.
use cashfo_backend.Base.{
  ℕ, ◌≡◌, Bool, true, false, some, List, [], ◌∷◌, map, arith, inl, inr, filter, elem, All,
  UniqueIds, Bool-cases,
}
use cashfo_backend.Schema.{AccountType, Account, Db, ok, find_account}
use cashfo_backend.Accounts.Pickers.{
  list_money_accounts, list_income_accounts, list_expense_accounts, All-order_by_display,
}
use cashfo_backend.QuickEntries.Defs.{require_money_account, require_account_of_type}

abbrev IsFoundIn : List Account → Account → Type 0
IsFoundIn xs a = find_account a.id xs ≡ some a

still_found :
    (x : Account) (xs ys : List Account)
    → elem x.id (map (λ (a : Account). a.id) ys) ≡ false
    → All (IsFoundIn xs) ys
    → All (IsFoundIn (x ∷ xs)) ys
still_found x xs [] h k = tt
still_found x xs (y ∷ ys) h k =
    let here = k.0 in (ground arith, still_found x xs ys (ground arith) k.1)

every_found :
    (xs : List Account) → UniqueIds (map (λ (a : Account). a.id) xs) → All (IsFoundIn xs) xs
every_found [] u = tt
every_found (x ∷ xs) u = (ground arith, still_found x xs xs u.0 (every_found xs u.1))

module _ (p : Account → Bool) (P Q : Account → Type 0)
    (accept : (a : Account) → p a ≡ true → P a → Q a) where
  All-filter : (xs : List Account) → All P xs → All Q (filter p xs)
  All-filter [] h = tt
  All-filter (x ∷ xs) h = elim (Bool-cases (p x)) [
    | inl yes_x ↦ rw yes_x (accept x yes_x h.0, All-filter xs h.1)
    | inr no_x ↦ rw no_x (All-filter xs h.1)
  ]

-- Where account ids are unique, every account that a picker of the forms offers is accepted by the
-- check of the entry that the form is for: a money account as a wallet, an income account for an
-- income, and an expense account for an expense.
pub pickers-accepted :
    (b : ℕ) (db : Db)
    → UniqueIds (map (λ (a : Account). a.id) db.accounts)
    → All (λ a. require_money_account b a.id db ≡ ok (a, db)) (list_money_accounts b db)
      × All
          (λ a. require_account_of_type b a.id AccountType.income db ≡ ok (a, db))
          (list_income_accounts b db)
      × All
          (λ a. require_account_of_type b a.id AccountType.expense db ≡ ok (a, db))
          (list_expense_accounts b db)
unfolding list_money_accounts list_income_accounts list_expense_accounts require_money_account
    require_account_of_type
pickers-accepted b db unique =
    let found = every_found db.accounts unique in
    (
      All-order_by_display _ _ (
          All-filter _ (IsFoundIn db.accounts) _ (λ a offered here. ground arith) db.accounts
            found),
      All-order_by_display _ _ (
          All-filter _ (IsFoundIn db.accounts) _ (λ a offered here. ground arith) db.accounts
            found),
      All-order_by_display _ _ (
          All-filter _ (IsFoundIn db.accounts) _ (λ a offered here. ground arith) db.accounts
            found),
    )
