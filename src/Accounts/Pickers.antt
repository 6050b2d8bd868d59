-- ===== src/Accounts/Pickers.antt =====
-- The pickers of `listMoneyAccounts`, `listWallets`, `listActiveSavingsWallets`, `listIncomeAccounts`
-- and `listExpenseAccounts` in src/accounts/accounts.service.ts.
use cashfo_backend.Base.{
  ℕ, Bool, not, List, [], ◌∷◌, ◌==◌, ◌&&◌, if◌then◌else◌, leb, filter, All, inl, inr, Bool-cases,
}
use cashfo_backend.Schema.{AccountType, Account, Db, is_archived, same_type}
use cashfo_backend.Accounts.Defs.{is_money_subtype, is_savings_subtype, has_subtype, is_asset}

-- `orderBy: { displayOrder: 'asc' }`
unfoldable insert_by_display : Account → List Account → List Account
insert_by_display a [] = a ∷ []
insert_by_display a (c ∷ cs) =
    let rest = insert_by_display a cs in
    if leb a.display_order c.display_order then a ∷ c ∷ cs else c ∷ rest

unfoldable pub order_by_display : List Account → List Account
unfolding insert_by_display
order_by_display [] = []
order_by_display (a ∷ accounts) = insert_by_display a (order_by_display accounts)

abbrev pub is_active_of : ℕ → Account → Bool
is_active_of b a = a.business_id == b && not (is_archived a.status)

abbrev pub is_money_asset : Account → Bool
is_money_asset a = is_asset a && has_subtype is_money_subtype a

unfoldable pub list_money_accounts : ℕ → Db → List Account
unfolding order_by_display
list_money_accounts b db =
    order_by_display (filter (λ a. is_active_of b a && is_money_asset a) db.accounts)

unfoldable pub list_wallets : ℕ → Db → List Account
unfolding order_by_display
list_wallets b db =
    order_by_display (filter (λ a. a.business_id == b && is_money_asset a) db.accounts)

unfoldable pub list_active_savings_wallets : ℕ → Db → List Account
unfolding order_by_display
list_active_savings_wallets b db = order_by_display (
    filter
      (λ a.
        is_active_of b a
        && is_asset a
        && has_subtype is_savings_subtype a
        && not a.is_system_account)
      db.accounts)

unfoldable pub list_income_accounts : ℕ → Db → List Account
unfolding order_by_display
list_income_accounts b db =
    order_by_display
      (filter (λ a. is_active_of b a && same_type a.account_type AccountType.income) db.accounts)

unfoldable pub list_expense_accounts : ℕ → Db → List Account
unfolding order_by_display
list_expense_accounts b db =
    order_by_display
      (filter (λ a. is_active_of b a && same_type a.account_type AccountType.expense) db.accounts)

module _ (P : Account → Type 0) where
  All-insert_by_display :
      (a : Account) (cs : List Account) → P a → All P cs → All P (insert_by_display a cs)
  unfolding insert_by_display
  All-insert_by_display a [] here rest = (here, tt)
  All-insert_by_display a (c ∷ cs) here rest =
      elim (Bool-cases (leb a.display_order c.display_order)) [
        | inl first ↦ rw first (here, rest)
        | inr later ↦ rw later (rest.0, All-insert_by_display a cs here rest.1)
      ]

  pub All-order_by_display : (cs : List Account) → All P cs → All P (order_by_display cs)
  unfolding order_by_display
  All-order_by_display [] h = tt
  All-order_by_display (c ∷ cs) h =
      All-insert_by_display c (order_by_display cs) h.0 (All-order_by_display cs h.1)
