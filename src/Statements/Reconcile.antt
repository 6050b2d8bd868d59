-- ===== src/Statements/Reconcile.antt =====
-- The check of every cached balance of a workspace: `reconcileWorkspace` in
-- src/accounts/account-balance.service.ts. The lock on a row changes no data.
use cashfo_backend.Base.{ℕ, Bool, List, [], ◌∷◌, ℤ, eqb_ℤ, ◌==◌, if◌then◌else◌, filter, length}
use cashfo_backend.Schema.{
  Account, Tx, ◌>>=◌, pure, or_throw, gets, find_account, account_not_found,
}
use cashfo_backend.Ledger.Balance.{recalculate_balance}

pub record Discrepancy : Type 0 where
  pub account_id : ℕ
  pub name : ℕ
  pub cached_balance : ℤ
  pub recalculated_balance : ℤ

pub record Reconciliation : Type 0 where
  pub total_accounts : ℕ
  pub discrepancy_count : ℕ
  pub discrepancies : List Discrepancy

abbrev pub discrepancy_of : Account → ℤ → ℤ → Discrepancy
discrepancy_of a cached recalculated = record {
  account_id = a.id;
  name = a.name;
  cached_balance = cached;
  recalculated_balance = recalculated;
}

abbrev pub add_unless : Bool → Discrepancy → List Discrepancy → List Discrepancy
add_unless equal d ds = if equal then ds else d ∷ ds

-- The loop over the accounts.
unfoldable pub reconcile_accounts : List Account → Tx (List Discrepancy)
unfolding recalculate_balance
reconcile_accounts [] = pure []
reconcile_accounts (a ∷ rs) = do
  current ← (λ db. or_throw (find_account a.id db.accounts) account_not_found db)
  recalculated ← recalculate_balance a.id
  rest ← reconcile_accounts rs
  pure (
      add_unless (eqb_ℤ current.current_balance recalculated)
        (discrepancy_of a current.current_balance recalculated) rest)

unfoldable pub reconcile_workspace : ℕ → Tx Reconciliation
unfolding reconcile_accounts
reconcile_workspace b = do
  accounts ← gets (λ db. filter (λ (a : Account). a.business_id == b) db.accounts)
  discrepancies ← reconcile_accounts accounts
  pure (record {
    total_accounts = length accounts;
    discrepancy_count = length discrepancies;
    discrepancies = discrepancies;
  })
