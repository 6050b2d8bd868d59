-- ===== src/Accounts/Changes.antt =====
-- `create`, `update`, `archive`, `unarchive`, `removeOrArchive` and `refuseParentCycle` of
-- src/accounts/accounts.service.ts.
use cashfo_backend.Base.{
  ℕ, suc, Bool, true, false, not, Option, none, some, List, [], ◌∷◌, ◌++◌, ℤ, pos, ◌==◌, ◌&&◌,
  if◌then◌else◌, truthy, or_else, any, filter, length, same_option,
}
use cashfo_backend.Schema.{
  AccountType, AccountStatus, AccountSubtype, Account, Entry, Transaction, Context, Db, Action, ok,
  err, ◌>>=◌, ◌>>◌, pure, throw_if, gets, modify, find_account, update_account, subtype_code,
  is_archived, own_parent, parent_cycle, subtype_fixed, internal_account, posts_through,
  has_active_children, has_children, parent_archived,
}
use cashfo_backend.Accounts.Defs.{
  Patch, patched, is_reserved_system_account, is_savings_pool, refuse_reserved_subtype,
  require_account, require_compatible_parent, meets,
}

pub record CreateAccount : Type 0 where
  pub name : ℕ
  pub account_type : AccountType
  pub account_subtype : Option AccountSubtype
  pub parent_id : Option ℕ
  pub opening_balance : Option ℤ

pub record UpdateAccount : Type 0 where
  pub name : Option ℕ
  pub account_subtype : Patch AccountSubtype
  pub parent_id : Patch ℕ

abbrev pub new_account : Context → ℕ → CreateAccount → Account
new_account ctx b dto = record {
  id = ctx.new_id;
  business_id = b;
  parent_id = dto.parent_id;
  name = dto.name;
  account_type = dto.account_type;
  account_subtype = dto.account_subtype;
  opening_balance = or_else dto.opening_balance (pos 0);
  current_balance = or_else dto.opening_balance (pos 0);
  is_system_account = false;
  status = AccountStatus.active;
  display_order = 0;
  created_at = ctx.now;
}

unfoldable pub require_named_parent : ℕ → Option ℕ → AccountType → Action Db (Unit {0})
unfolding require_compatible_parent
require_named_parent b parent_id ty db = elim (truthy parent_id) [
  | none ↦ ok (tt, db)
  | some p ↦ require_compatible_parent b p ty db
]

unfoldable pub create : Context → ℕ → CreateAccount → Action Db Account
unfolding refuse_reserved_subtype require_named_parent
create ctx b dto = do
  refuse_reserved_subtype dto.account_subtype
  require_named_parent b dto.parent_id dto.account_type
  modify (λ db. record db { accounts = db.accounts ++ new_account ctx b dto ∷ [] })
  pure (new_account ctx b dto)

-- The walk has fuel for every account and two steps more.
unfoldable pub refuse_parent_cycle : ℕ → ℕ → Action Db (Unit {0})
unfolding meets
refuse_parent_cycle i parent_id db =
    elim (meets (suc (suc (length db.accounts))) db.accounts i [] (truthy (some parent_id))) [
      | none ↦ err parent_cycle
      | some met ↦ throw_if met parent_cycle db
    ]

-- `dto.accountSubtype !== undefined && dto.accountSubtype !== account.accountSubtype`
abbrev pub same_subtype : Option AccountSubtype → Option AccountSubtype → Bool
same_subtype none none = true
same_subtype none (some s) = false
same_subtype (some s) none = false
same_subtype (some s) (some u) = subtype_code s == subtype_code u

abbrev pub changes_subtype : Patch AccountSubtype → Account → Bool
changes_subtype Patch.absent a = false
changes_subtype Patch.null a = not (same_subtype none a.account_subtype)
changes_subtype (Patch.value s) a = not (same_subtype (some s) a.account_subtype)

unfoldable pub check_subtype : Patch AccountSubtype → Account → Action Db (Unit {0})
unfolding refuse_reserved_subtype
check_subtype p a db =
    if not (changes_subtype p a)
    then ok (tt, db)
    else if is_reserved_system_account a
    then err subtype_fixed
    else refuse_reserved_subtype (patched p none) db

unfoldable pub check_parent : ℕ → ℕ → Patch ℕ → AccountType → Action Db (Unit {0})
unfolding require_compatible_parent refuse_parent_cycle
check_parent b i Patch.absent ty = pure tt
check_parent b i Patch.null ty = pure tt
check_parent b i (Patch.value p) ty = do
  throw_if (p == i) own_parent
  require_compatible_parent b p ty
  refuse_parent_cycle i p

abbrev pub apply_update : UpdateAccount → Account → Account
apply_update dto a = record a {
  name = or_else dto.name a.name;
  account_subtype = patched dto.account_subtype a.account_subtype;
  parent_id = patched dto.parent_id a.parent_id;
}

unfoldable pub update : ℕ → ℕ → UpdateAccount → Action Db (Unit {0})
unfolding require_account check_subtype check_parent
update b i dto = do
  account ← require_account b i
  check_subtype dto.account_subtype account
  check_parent b i dto.parent_id account.account_type
  modify (λ db. record db { accounts = update_account i (apply_update dto) db.accounts })

abbrev pub with_status : AccountStatus → Account → Account
with_status s a = record a { status = s }

abbrev pub set_status : ℕ → AccountStatus → Db → Db
set_status i s db = record db { accounts = update_account i (with_status s) db.accounts }

abbrev pub is_child_of : ℕ → Account → Bool
is_child_of i a = same_option a.parent_id (some i)

unfoldable pub archive : ℕ → ℕ → Action Db (Unit {0})
unfolding require_account
archive b i = do
  account ← require_account b i
  throw_if (is_savings_pool account) internal_account
  throw_if (is_reserved_system_account account) posts_through
  accounts ← gets (λ db. db.accounts)
  throw_if (any (λ a. is_child_of i a && not (is_archived a.status)) accounts) has_active_children
  modify (λ db. if is_archived account.status then db else set_status i AccountStatus.archived db)

-- Whether the account has a parent that is archived.
abbrev pub parent_is_archived : Account → List Account → Bool
parent_is_archived a accounts = elim (truthy a.parent_id) [
  | none ↦ false
  | some p ↦ elim (find_account p accounts) [ none ↦ false | some q ↦ is_archived q.status ]
]

unfoldable pub unarchive : ℕ → ℕ → Action Db (Unit {0})
unfolding require_account
unarchive b i = do
  account ← require_account b i
  accounts ← gets (λ db. db.accounts)
  throw_if (is_archived account.status && parent_is_archived account accounts) parent_archived
  modify (λ db. if is_archived account.status then set_status i AccountStatus.active db else db)

abbrev pub has_entries : ℕ → List Transaction → Bool
has_entries i ts = any (λ (t : Transaction). any (λ (e : Entry). e.account_id == i) t.entries) ts

abbrev pub remove_account : ℕ → Db → Db
remove_account i db = record db { accounts = filter (λ a. not (a.id == i)) db.accounts }

-- The result says whether the account was deleted; one with entries is archived.
unfoldable pub remove_or_archive : ℕ → ℕ → Action Db Bool
unfolding require_account
remove_or_archive b i = do
  account ← require_account b i
  throw_if (is_savings_pool account) internal_account
  throw_if (is_reserved_system_account account) posts_through
  accounts ← gets (λ db. db.accounts)
  throw_if (any (is_child_of i) accounts) has_children
  transactions ← gets (λ db. db.transactions)
  modify (λ db.
      if not (has_entries i transactions)
      then remove_account i db
      else if is_archived account.status
      then db
      else set_status i AccountStatus.archived db)
  pure (not (has_entries i transactions))
