-- ===== src/Accounts/Moves.antt =====
-- Moving an account under another: `update` and `refuseParentCycle` of
-- src/accounts/accounts.service.ts.
use cashfo_backend.Base.{
  ℕ, suc, ◌<◌, ◌≡◌, ◌⊎◌, ◌↔◌, refl, sym, ◌∙◌, ap, subst, Bool, true, false, not, some, List, [],
  ◌∷◌, arith, inl, inr, elem, length, filter, truthy, Bool-cases, Option-cases,
}
use cashfo_backend.Schema.{
  Account, AccountType, AccountSubtype, Db, ok, err, parent_cycle, step-cases, check-cases,
  find_account,
}
use cashfo_backend.Accounts.Defs.{
  Patch, meets, require_account, require_compatible_parent, refuse_reserved_subtype,
}
use cashfo_backend.Accounts.Changes.{
  UpdateAccount, refuse_parent_cycle, check_subtype, check_parent, update,
}
use cashfo_backend.Accounts.Walk.{up, meets-never, meets-ends, meets-found}
use cashfo_backend.Accounts.Tree.{IsForest, IsClearedParent, updated, updated-IsForest}

length-filter_le : (p : Account → Bool) (xs : List Account) → length (filter p xs) < suc (length xs)
length-filter_le p [] = omega arith
length-filter_le p (x ∷ xs) = ground (arith, length-filter_le p xs)

meets-decided :
    (i p : ℕ) (accounts : List Account)
    → (meets (suc (suc (length accounts))) accounts i [] (some p) ≡ some true)
      ⊎ (meets (suc (suc (length accounts))) accounts i [] (some p) ≡ some false)
meets-decided i p accounts =
    elim (Option-cases (meets (suc (suc (length accounts))) accounts i [] (some p))) [
      | inl out ↦ absurd (
          meets-ends (suc (suc (length accounts))) accounts i [] (some p)
            (omega (arith, length-filter_le (λ a. not (elem a.id [])) accounts)) out)
      | inr (met, e) ↦ elim (Bool-cases met) [
        | inl yes_met ↦ inl (ground arith)
        | inr not_met ↦ inr (ground arith)
      ]
    ]

refuse_parent_cycle-met :
    (i p : ℕ) (db : Db)
    → truthy (some p) ≡ some p
    → meets (suc (suc (length db.accounts))) db.accounts i [] (some p) ≡ some true
    → refuse_parent_cycle i p db ≡ err parent_cycle
unfolding refuse_parent_cycle
refuse_parent_cycle-met i p db full met = ground arith

refuse_parent_cycle-clear :
    (i p : ℕ) (db : Db)
    → truthy (some p) ≡ some p
    → meets (suc (suc (length db.accounts))) db.accounts i [] (some p) ≡ some false
    → refuse_parent_cycle i p db ≡ ok (tt, db)
unfolding refuse_parent_cycle
refuse_parent_cycle-clear i p db full clear = ground arith

-- `refuseParentCycle` ends, and it throws exactly where the account is the new parent or one of
-- its ancestors, also where the stored parents already run in a circle. The new parent's id is not
-- empty.
pub refuse_parent_cycle-exact :
    (i p : ℕ) (db : Db)
    → truthy (some p) ≡ some p
    → (refuse_parent_cycle i p db ≡ err parent_cycle) ↔ ((k : ℕ) × (up db.accounts k p ≡ some i))
refuse_parent_cycle-exact i p db full = elim (meets-decided i p db.accounts) [
  | inl met ↦ (
    λ e. meets-found (suc (suc (length db.accounts))) db.accounts i [] p met,
    λ above. refuse_parent_cycle-met i p db full met,
  )
  | inr clear ↦ (
    λ e. absurd (cc (refuse_parent_cycle-clear i p db full clear)),
    λ above. absurd (
        meets-never db.accounts i (suc (suc (length db.accounts))) [] (some p) clear
          (λ x h. absurd (ground arith)) above.0 p (inr refl) above.1),
  )
]

-- The checks change nothing.
check_subtype-keeps :
    (p : Patch AccountSubtype) (a : Account) (db db' : Db)
    → check_subtype p a db ≡ ok (tt, db')
    → db' ≡ db
unfolding check_subtype refuse_reserved_subtype
check_subtype-keeps p a db db' h = ground arith

require_compatible_parent-keeps :
    (b p : ℕ) (ty : AccountType) (db db' : Db)
    → require_compatible_parent b p ty db ≡ ok (tt, db')
    → db' ≡ db
unfolding require_compatible_parent
require_compatible_parent-keeps b p ty db db' h = ground arith

refuse_parent_cycle-keeps :
    (i p : ℕ) (db db' : Db)
    → refuse_parent_cycle i p db ≡ ok (tt, db')
    → (db' ≡ db)
      × (meets (suc (suc (length db.accounts))) db.accounts i [] (truthy (some p)) ≡ some false)
unfolding refuse_parent_cycle
refuse_parent_cycle-keeps i p db db' h =
    elim (Option-cases
      (meets (suc (suc (length db.accounts))) db.accounts i [] (truthy (some p)))) [
        | inl e ↦ absurd (ground arith)
        | inr (true, e) ↦ absurd (ground arith)
        | inr (false, e) ↦ (ground arith, e)
      ]

check_parent-cleared :
    (b i : ℕ) (patch : Patch ℕ) (ty : AccountType) (db db' : Db)
    → check_parent b i patch ty db ≡ ok (tt, db')
    → (db' ≡ db) × IsClearedParent i patch db.accounts
unfolding check_parent
check_parent-cleared b i Patch.absent ty db db' h = (ground arith, tt)
check_parent-cleared b i Patch.null ty db db' h = (ground arith, tt)
check_parent-cleared b i (Patch.value p) ty db db' h =
    elim (check-cases (require_compatible_parent b p ty db)) [
      | inl (e, failed) ↦ absurd (ground arith)
      | inr (db1, passed) ↦
          let same = require_compatible_parent-keeps b p ty db db1 passed in
          let walked : refuse_parent_cycle i p db1 ≡ ok (tt, db') = ground arith in
          refuse_parent_cycle-keeps i p db db' (ap (refuse_parent_cycle i p) (sym same) ∙ walked)
    ]

pub require_account-found :
    (b i : ℕ) (db db' : Db) (a : Account)
    → require_account b i db ≡ ok (a, db')
    → (db' ≡ db) × (find_account i db.accounts ≡ some a)
unfolding require_account
require_account-found b i db db' a h = elim (Option-cases (find_account i db.accounts)) [
  | inl e ↦ absurd (ground arith)
  | inr (x, e) ↦ (ground arith, ground arith)
]

-- What an update that went through has done.
pub update-inverse :
    (b i : ℕ) (dto : UpdateAccount) (db db' : Db)
    → update b i dto db ≡ ok (tt, db')
    → (a : Account) × (find_account i db.accounts ≡ some a)
      × IsClearedParent i dto.parent_id db.accounts
      × (db' ≡ record db { accounts = updated i dto db.accounts })
unfolding update
update-inverse b i dto db db' h = elim (step-cases (require_account b i db)) [
  | inl (e, failed) ↦ absurd (ground arith)
  | inr (a, db1, passed) ↦
      let (same1, found) = require_account-found b i db db1 a passed in
      elim (check-cases (check_subtype dto.account_subtype a db1)) [
        | inl (e, failed) ↦ absurd (ground arith)
        | inr (db2, passed2) ↦
            let same2 = check_subtype-keeps dto.account_subtype a db1 db2 passed2 in
            elim (check-cases (check_parent b i dto.parent_id a.account_type db2)) [
              | inl (e, failed) ↦ absurd (ground arith)
              | inr (db3, passed3) ↦
                  let same : db2 ≡ db = same2 ∙ same1 in
                  let (same3, clear) =
                    check_parent-cleared b i dto.parent_id a.account_type db db3
                      (ap (check_parent b i dto.parent_id a.account_type) (sym same) ∙ passed3) in
                  let went : db' ≡ record db3 { accounts = updated i dto db3.accounts } =
                    ground arith in
                  (
                    a,
                    found,
                    clear,
                    went ∙ ap (λ (x : Db). record x { accounts = updated i dto x.accounts }) same3,
                  )
            ]
      ]
]

-- An update keeps the accounts a forest: where no account was among its own ancestors, none is
-- after any update that goes through.
pub update-IsForest :
    (b i : ℕ) (dto : UpdateAccount) (db db' : Db)
    → IsForest db.accounts
    → update b i dto db ≡ ok (tt, db')
    → IsForest db'.accounts
update-IsForest b i dto db db' forest h =
    let (a, found, clear, went) = update-inverse b i dto db db' h in
    subst (λ (x : Db). IsForest x.accounts) (sym went)
      (updated-IsForest i dto db.accounts a found forest dto.parent_id refl clear)
