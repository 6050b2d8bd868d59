-- ===== src/Accounts/Stranding.antt =====
-- A new account under an archived parent: `create` of src/accounts/accounts.service.ts.
use cashfo_backend.Base.{
  ℕ, ◌≡◌, refl, Bool, true, false, Option, none, some, List, [], ◌∷◌, ◌++◌, ◌==◌, arith, truthy,
  find_where-append,
}
use cashfo_backend.Schema.{
  Account, AccountSubtype, Context, Db, ok, find_account, is_archived, same_type,
}
use cashfo_backend.Accounts.Defs.{
  is_reserved_subtype, require_compatible_parent, refuse_reserved_subtype,
}
use cashfo_backend.Accounts.Changes.{CreateAccount, new_account, create, require_named_parent}
use cashfo_backend.Accounts.Status.{is_stranded}

find-snoc_new :
    (i : ℕ) (a : Account) (accounts : List Account)
    → find_account i accounts ≡ none
    → a.id ≡ i
    → find_account i (accounts ++ a ∷ []) ≡ some a
find-snoc_new i a accounts e same =
    ground (arith, find_where-append (λ (r : Account). r.id == i) accounts (a ∷ []))

find-snoc_old :
    (i : ℕ) (a p : Account) (accounts : List Account)
    → find_account i accounts ≡ some p
    → find_account i (accounts ++ a ∷ []) ≡ some p
find-snoc_old i a p accounts e =
    ground (arith, find_where-append (λ (r : Account). r.id == i) accounts (a ∷ []))

abbrev pub names_reserved : Option AccountSubtype → Bool
names_reserved none = false
names_reserved (some s) = is_reserved_subtype s

refuse_reserved-passes :
    (subtype : Option AccountSubtype) (db : Db)
    → names_reserved subtype ≡ false
    → refuse_reserved_subtype subtype db ≡ ok (tt, db)
unfolding refuse_reserved_subtype
refuse_reserved-passes none db h = refl
refuse_reserved-passes (some s) db h = rw h refl

-- `create` does not look at the parent's status: every account that it is asked to make, of no
-- reserved subtype, under an archived account of the same workspace and type is made, under an id
-- that no account has, and stands there as an active account under an archived one.
pub create-strands :
    (ctx : Context) (b p : ℕ) (dto : CreateAccount) (parent : Account) (db : Db)
    → names_reserved dto.account_subtype ≡ false
    → truthy dto.parent_id ≡ some p
    → find_account p db.accounts ≡ some parent
    → parent.business_id ≡ b
    → same_type parent.account_type dto.account_type ≡ true
    → is_archived parent.status ≡ true
    → find_account ctx.new_id db.accounts ≡ none
    → let after = record db { accounts = db.accounts ++ new_account ctx b dto ∷ [] } in
      (create ctx b dto db ≡ ok (new_account ctx b dto, after))
      × (is_stranded ctx.new_id after.accounts ≡ true)
unfolding create require_named_parent require_compatible_parent
create-strands ctx b p dto parent db plain under found own same archived new = (
  ground (arith, refuse_reserved-passes dto.account_subtype db plain),
  ground (
    arith,
    find-snoc_new ctx.new_id (new_account ctx b dto) db.accounts new refl,
    find-snoc_old p (new_account ctx b dto) parent db.accounts found,
  ),
)
