-- ===== src/Accounts/Defs.antt =====
-- The subtypes that the code names, the private checks of src/accounts/accounts.service.ts, and
-- the walk up the parents.
use cashfo_backend.Base.{
  ℕ, zero, suc, Bool, true, false, not, Option, none, some, List, ◌∷◌, ◌==◌, ◌&&◌, if◌then◌else◌,
  truthy, elem,
}
use cashfo_backend.Schema.{
  AccountType, AccountSubtype, Account, Db, Action, ok, err, throw_if, find_account, same_type,
  subtype_code, account_not_found, parent_not_found, parent_of_other_type, reserved_subtype,
}

-- A field of an update: left out, null, or a value.
pub data Patch (A : Type 0) : Type 0 where
  absent null : Patch A
  value : A → Patch A

abbrev pub patched : {A : Type 0} → Patch A → Option A → Option A
patched absent old = old
patched null old = none
patched (value a) old = some a

-- `MONEY_ACCOUNT_SUBTYPES.includes(subtype)`
abbrev pub is_money_subtype : AccountSubtype → Bool
is_money_subtype AccountSubtype.cash = true
is_money_subtype AccountSubtype.bank = true
is_money_subtype AccountSubtype.mfs = true
is_money_subtype _ = false

-- `RESERVED_ACCOUNT_SUBTYPES.includes(subtype)`
abbrev pub is_reserved_subtype : AccountSubtype → Bool
is_reserved_subtype AccountSubtype.receivable = true
is_reserved_subtype AccountSubtype.payable = true
is_reserved_subtype AccountSubtype.fixed_assets = true
is_reserved_subtype AccountSubtype.referral_bonus = true
is_reserved_subtype _ = false

abbrev pub has_subtype : (AccountSubtype → Bool) → Account → Bool
has_subtype p a = elim a.account_subtype [ none ↦ false | some s ↦ p s ]

abbrev pub is_asset : Account → Bool
is_asset a = same_type a.account_type AccountType.asset

abbrev pub is_savings_subtype : AccountSubtype → Bool
is_savings_subtype s = subtype_code s == subtype_code AccountSubtype.savings

abbrev pub is_reserved_system_account : Account → Bool
is_reserved_system_account a = a.is_system_account && has_subtype is_reserved_subtype a

-- The hidden pooled savings account of a workspace.
abbrev pub is_savings_pool : Account → Bool
is_savings_pool a = a.is_system_account && is_asset a && has_subtype is_savings_subtype a

unfoldable pub refuse_reserved_subtype : Option AccountSubtype → Action Db (Unit {0})
refuse_reserved_subtype none db = ok (tt, db)
refuse_reserved_subtype (some s) db = throw_if (is_reserved_subtype s) reserved_subtype db

unfoldable pub require_account : ℕ → ℕ → Action Db Account
require_account b i db = elim (find_account i db.accounts) [
  | none ↦ err account_not_found
  | some a ↦ if a.business_id == b then ok (a, db) else err account_not_found
]

unfoldable pub require_compatible_parent : ℕ → ℕ → AccountType → Action Db (Unit {0})
require_compatible_parent b parent_id ty db = elim (find_account parent_id db.accounts) [
  | none ↦ err parent_not_found
  | some a ↦
      if not (a.business_id == b)
      then err parent_not_found
      else if not (same_type a.account_type ty)
      then err parent_of_other_type
      else ok (tt, db)
]

-- The parent that the walk goes on to; an empty id ends it as null does.
unfoldable pub parent_of : List Account → ℕ → Option ℕ
parent_of accounts i = elim (find_account i accounts) [ none ↦ none | some a ↦ truthy a.parent_id ]

-- The loop of `refuseParentCycle`: whether the walk from `current` meets `id` before it ends or
-- comes to a place that it has seen. `none` means that the fuel ran out.
unfoldable pub meets : ℕ → List Account → ℕ → List ℕ → Option ℕ → Option Bool
meets zero accounts i seen current = none
meets (suc fuel) accounts i seen none = some false
meets (suc fuel) accounts i seen (some c) =
    let rest = meets fuel accounts i (c ∷ seen) (parent_of accounts c) in
    if elem c seen then some false else if c == i then some true else rest
