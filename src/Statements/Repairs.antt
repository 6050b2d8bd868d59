-- ===== src/Statements/Repairs.antt =====
-- What the check of the cached balances leaves and reports: `reconcileWorkspace` in
-- src/accounts/account-balance.service.ts.
use cashfo_backend.Base.{
  ℕ, ◌≡◌, refl, sym, ◌∙◌, ap, ◌↔◌, Bool, true, some, List, [], map, ◌==◌, arith, All-map, filter,
  length, All, UniqueIds, find_unique-key, All-filter, All-filter-find, filter-passes, found_by_key,
  All-pair, every_member, elem,
}
use cashfo_backend.Schema.{Account, Db, ok, find_account}
use cashfo_backend.Ledger.Balance.{fresh_balance}
use cashfo_backend.Ledger.Settling.{refresh, for_each-IsSettled}
use cashfo_backend.Statements.Reconcile.{
  Discrepancy, Reconciliation, reconcile_accounts, reconcile_workspace,
}
use cashfo_backend.Statements.Rounds.{IsKnown, IsSteady, IsSteady-iff, reconcile_accounts-runs}

-- The accounts of a workspace.
abbrev is_of : ℕ → Account → Bool
is_of b a = a.business_id == b

module _ (b : ℕ) (db : Db) (unique : UniqueIds (map (λ (r : Account). r.id) db.accounts)) where
  abbrev own : List Account
  own = filter (is_of b) db.accounts

  every-IsKnown : All (IsKnown db) own
  every-IsKnown = All-filter (IsKnown db) (is_of b) db.accounts (
      All-map (λ (r : Account). find_account r.id db.accounts ≡ some r) (IsKnown db)
        (λ r e. rw e refl) db.accounts (found_by_key (λ (r : Account). r.id) db.accounts unique))

  -- The cache of every account of the workspace is right.
  abbrev IsClean : Type 0
  IsClean =
      (i : ℕ) (a : Account)
      → find_account i db.accounts ≡ some a
      → a.business_id ≡ b
      → a.current_balance ≡ fresh_balance db.transactions a

  steady_found : All (IsSteady db) own → IsClean
  steady_found h i a e mine =
      let here : is_of b a ≡ true = ground arith in
      let steady =
        All-filter-find (λ (r : Account). r.id) (IsSteady db) (is_of b) i db.accounts a h e here in
      let same_id = find_unique-key (λ (r : Account). r.id) i db.accounts a e in
      let found : find_account a.id db.accounts ≡ some a =
        ap (λ (k : ℕ). find_account k db.accounts) same_id ∙ e in
      (IsSteady-iff a db a found).0 steady

  clean-IsSteady : IsClean → All (IsSteady db) own
  clean-IsSteady clean =
      All-map (λ (r : Account). (find_account r.id db.accounts ≡ some r) × (is_of b r ≡ true))
        (IsSteady db)
        (λ r h. let (e, mine) = h in (IsSteady-iff r db r e).1 (clean r.id r e (ground arith))) own
        (All-pair _ _ own
          (All-filter _ (is_of b) db.accounts
            (found_by_key (λ (r : Account). r.id) db.accounts unique))
          (filter-passes (is_of b) db.accounts))

  own_listed :
      (i : ℕ) (a : Account)
      → find_account i db.accounts ≡ some a
      → a.business_id ≡ b
      → elem i (map (λ (r : Account). r.id) own) ≡ true
  own_listed i a e mine =
      let here : is_of b a ≡ true = ground arith in
      let same_id = find_unique-key (λ (r : Account). r.id) i db.accounts a e in
      rw (sym same_id) (
        All-filter-find (λ (r : Account). r.id)
          (λ r. elem r.id (map (λ (x : Account). x.id) own) ≡ true) (is_of b) i db.accounts a
          (every_member (λ (r : Account). r.id) own) e here)

  reconcile_workspace-answer :
      (ds : List Discrepancy) (db' : Db)
      → reconcile_accounts own db ≡ ok (ds, db')
      → reconcile_workspace b db
        ≡ ok (
          record { total_accounts = length own; discrepancy_count = length ds; discrepancies = ds },
          db',
        )
  unfolding reconcile_workspace
  reconcile_workspace-answer ds db' h = ground arith

  -- The check of a workspace, where the ids of accounts are unique, always answers. It reports no
  -- discrepancy exactly where the cached balance of every account of the workspace was the balance
  -- computed from scratch; and afterwards it is, for each of them.
  pub reconcile_workspace-repairs :
      (r : Reconciliation) × (db' : Db) × (reconcile_workspace b db ≡ ok (r, db'))
      × ((r.discrepancies ≡ []) ↔ IsClean)
      × ((i : ℕ) (a : Account)
          → find_account i db.accounts ≡ some a
          → a.business_id ≡ b
          → find_account i db'.accounts ≡ some (refresh db.transactions a))
  unfolding reconcile_workspace
  reconcile_workspace-repairs =
      let run = reconcile_accounts-runs own db every-IsKnown in
      let answer = run.answer in
      let settled =
        for_each-IsSettled (map (λ (r : Account). r.id) own) db run.after run.refreshes in
      (
        record {
          total_accounts = length own;
          discrepancy_count = length run.reported;
          discrepancies = run.reported;
        },
        run.after,
        reconcile_workspace-answer run.reported run.after answer,
        (
          λ none_reported. steady_found (run.clean.0 none_reported),
          λ clean. run.clean.1 (clean-IsSteady clean),
        ),
        λ i a e mine.
            let listed = own_listed i a e mine in settled.accounts i ∙ rw (listed, e) refl,
      )
