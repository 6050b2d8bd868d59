-- ===== src/Accounts/Tests.antt =====
-- Runs of the chart of accounts on a small tree, and its theorems at these runs.
use cashfo_backend.Base.{
  if◌then◌else◌, ◌≢◌, ℕ, zero, suc, ◌≡◌, ◌↔◌, refl, true, false, Option, none, some, [], ◌∷◌, ◌++◌,
  pos, arith, ◌==◌,
}
use cashfo_backend.Schema.{AccountType, AccountStatus, Account, Context, Db, ok, err, parent_cycle}
use cashfo_backend.Accounts.Defs.{
  Patch, parent_of, meets, require_account, require_compatible_parent,
}
use cashfo_backend.Accounts.Changes.{
  CreateAccount, UpdateAccount, new_account, create, update, archive, unarchive, check_subtype,
  check_parent, refuse_parent_cycle,
}
use cashfo_backend.Accounts.Walk.{up}
use cashfo_backend.Accounts.Tree.{IsForest}
use cashfo_backend.Accounts.Moves.{refuse_parent_cycle-exact, update-IsForest}
use cashfo_backend.Accounts.Stranding.{create-strands}
use cashfo_backend.Accounts.Status.{IsLive, is_stranded, serve_status-IsLive, StatusRequest}

abbrev account : ℕ → Option ℕ → AccountStatus → Account
account i parent status = record {
  id = i;
  business_id = 7;
  parent_id = parent;
  name = i;
  account_type = AccountType.expense;
  account_subtype = none;
  opening_balance = pos 0;
  current_balance = pos 0;
  is_system_account = false;
  status = status;
  display_order = 0;
  created_at = 0;
}

abbrev tree_of : Option ℕ → AccountStatus → Db
tree_of parent status = record {
  accounts =
      account 1 none AccountStatus.active
      ∷ account 2 (some 1) status
      ∷ account 3 parent AccountStatus.archived
      ∷ [];
  transactions = [];
  contacts = [];
  savings_entries = [];
  assets = [];
}

-- Account 2 is under account 1; account 3 is archived and at the top.
abbrev tree : Db
tree = tree_of none AccountStatus.active

abbrev move_under : ℕ → UpdateAccount
move_under p = record { name = none; account_subtype = Patch.absent; parent_id = Patch.value p }

-- Account 3 goes under account 2.
moves : update 7 3 (move_under 2) tree ≡ ok (tt, tree_of (some 2) AccountStatus.active)
unfolding update require_account check_subtype check_parent require_compatible_parent
    refuse_parent_cycle meets parent_of
moves = refl

-- Account 1 does not go under account 2, its own child.
refuses : update 7 1 (move_under 2) tree ≡ err parent_cycle
unfolding update require_account check_subtype check_parent require_compatible_parent
    refuse_parent_cycle meets parent_of
refuses = refl

abbrev top_of : ℕ → Option ℕ
top_of i = if i == 2 then some 1 else none

climbs : (i : ℕ) → parent_of tree.accounts i ≡ top_of i
unfolding parent_of
climbs i = ground arith

tree-IsForest : IsForest tree.accounts
unfolding up
tree-IsForest = record { acyclic = λ k i e. never k i e }
  where
    top : (k : ℕ) → up tree.accounts (suc k) 1 ≡ none
    top k = ground (arith, climbs 1)

    never : (k i : ℕ) → up tree.accounts (suc k) i ≢ some i
    never zero i e = absurd (ground (arith, climbs i))
    never (suc k) i e = absurd (ground (arith, climbs i, top k))

update-IsForest_example : IsForest (tree_of (some 2) AccountStatus.active).accounts
update-IsForest_example =
    update-IsForest 7 3 (move_under 2) tree (tree_of (some 2) AccountStatus.active) tree-IsForest
      moves

refuse_parent_cycle-exact_example :
    (refuse_parent_cycle 1 2 tree ≡ err parent_cycle) ↔ ((k : ℕ) × (up tree.accounts k 2 ≡ some 1))
refuse_parent_cycle-exact_example = refuse_parent_cycle-exact 1 2 tree refl

tree-IsLive : IsLive tree.accounts
tree-IsLive = record { stranded = λ i. ground arith }

archives : archive 7 2 tree ≡ ok (tt, tree_of none AccountStatus.archived)
unfolding archive require_account
archives = refl

serve_status-IsLive_example : IsLive (tree_of none AccountStatus.archived).accounts
serve_status-IsLive_example =
    serve_status-IsLive 7 (StatusRequest.put_away 2) tree (tree_of none AccountStatus.archived)
      tree-IsLive archives

unarchives : unarchive 7 2 (tree_of none AccountStatus.archived) ≡ ok (tt, tree)
unfolding unarchive require_account
unarchives = refl

abbrev context : Context
context = record { new_id = 4; now = 9; user_id = 5 }

abbrev under_three : CreateAccount
under_three = record {
  name = 4;
  account_type = AccountType.expense;
  account_subtype = none;
  parent_id = some 3;
  opening_balance = none;
}

-- Account 3 is archived; account 4 is made under it and is active.
abbrev stranded_tree : Db
stranded_tree = record tree { accounts = tree.accounts ++ new_account context 7 under_three ∷ [] }

create-strands_example :
    (create context 7 under_three tree ≡ ok (new_account context 7 under_three, stranded_tree))
    × (is_stranded 4 stranded_tree.accounts ≡ true)
create-strands_example =
    create-strands context 7 3 under_three (account 3 none AccountStatus.archived) tree refl refl
      refl refl refl refl refl
