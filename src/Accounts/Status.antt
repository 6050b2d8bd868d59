-- ===== src/Accounts/Status.antt =====
-- Archived parents: `archive` and `unarchive` of src/accounts/accounts.service.ts.
use cashfo_backend.Base.{
  ℕ, ◌≡◌, ◌⊎◌, refl, sym, ◌∙◌, ap, subst, Bool, false, not, none, some, List, [], ◌∷◌, ◌==◌, ◌&&◌,
  arith, inl, inr, if◌then◌else◌, any, truthy, Bool-cases, Option-cases, find_unique-update_unique,
}
use mathlib.Core.Option
use cashfo_backend.Schema.{
  Action, Account, AccountStatus, Db, ok, step-cases, find_account, update_account, is_archived,
}
use cashfo_backend.Accounts.Defs.{require_account}
use cashfo_backend.Accounts.Moves.{require_account-found}
use cashfo_backend.Accounts.Changes.{
  archive, unarchive, set_status, with_status, is_child_of, parent_is_archived,
}

abbrev pub is_archived_at : ℕ → List Account → Bool
is_archived_at i accounts = elim (find_account i accounts) [
  | none ↦ false
  | some a ↦ is_archived a.status
]

-- An account is active while its parent is archived.
abbrev pub is_stranded : ℕ → List Account → Bool
is_stranded i accounts = elim (find_account i accounts) [
  | none ↦ false
  | some a ↦
      not (is_archived a.status)
      && (elim (truthy a.parent_id) [ none ↦ false | some p ↦ is_archived_at p accounts ])
]

-- The wish that the comment on `unarchive` states.
pub record IsLive (accounts : List Account) : Type 0 where
  pub stranded : (i : ℕ) → is_stranded i accounts ≡ false

find-status :
    (i j : ℕ) (s : AccountStatus) (accounts : List Account)
    → find_account j (update_account i (with_status s) accounts) ≡ (
        if j == i
        then Option.map (with_status s) (find_account j accounts)
        else find_account j accounts)
find-status i j s accounts =
    find_unique-update_unique (λ (a : Account). a.id) (with_status s) i j accounts (λ a. refl)

no_active_child :
    (i j : ℕ) (accounts : List Account) (a : Account)
    → any (λ a. is_child_of i a && not (is_archived a.status)) accounts ≡ false
    → find_account j accounts ≡ some a
    → (is_child_of i a && not (is_archived a.status)) ≡ false
no_active_child i j [] a h e = absurd (ground arith)
no_active_child i j (x ∷ accounts) a h e = elim (Bool-cases (x.id == j)) [
  | inl here ↦
      let same : x ≡ a = ground arith in
      subst (λ (y : Account). (is_child_of i y && not (is_archived y.status)) ≡ false) same
        (ground arith)
  | inr there ↦ no_active_child i j accounts a (ground arith) (ground arith)
]

module _ (i : ℕ) (accounts : List Account) (live : IsLive accounts) where
  archived_stranded :
      any (λ a. is_child_of i a && not (is_archived a.status)) accounts ≡ false
      → (j : ℕ)
      → is_stranded j (update_account i (with_status AccountStatus.archived) accounts) ≡ false
  archived_stranded childless j = elim (Option-cases (find_account j accounts)) [
    | inl e ↦ ground (arith, find-status i j AccountStatus.archived accounts)
    | inr (a, e) ↦
        let free = no_active_child i j accounts a childless e in
        let was = live.stranded j in
        elim (Option-cases (truthy a.parent_id)) [
          | inl top ↦ ground (arith, find-status i j AccountStatus.archived accounts)
          | inr (p, under) ↦ ground (
            arith,
            find-status i j AccountStatus.archived accounts,
            find-status i p AccountStatus.archived accounts,
          )
        ]
  ]

  -- The account that is brought back has no archived parent, and nothing else becomes active.
  active_stranded :
      (a : Account)
      → find_account i accounts ≡ some a
      → parent_is_archived a accounts ≡ false
      → (j : ℕ)
      → is_stranded j (update_account i (with_status AccountStatus.active) accounts) ≡ false
  active_stranded b found free j = elim (Option-cases (find_account j accounts)) [
    | inl e ↦ ground (arith, find-status i j AccountStatus.active accounts)
    | inr (a, e) ↦
        let was = live.stranded j in
        elim (Option-cases (truthy a.parent_id)) [
          | inl top ↦ ground (arith, find-status i j AccountStatus.active accounts)
          | inr (p, under) ↦ elim (Bool-cases (j == i)) [
            | inl here ↦
                let at_j : find_account j accounts ≡ find_account i accounts =
                  ap (λ (x : ℕ). find_account x accounts) (ground arith) in
                let same : b ≡ a = ground arith in
                let parent : truthy b.parent_id ≡ some p =
                  ap (λ (x : Account). truthy x.parent_id) same ∙ under in
                ground (
                  arith,
                  find-status i j AccountStatus.active accounts,
                  find-status i p AccountStatus.active accounts,
                )
            | inr there ↦ ground (
              arith,
              find-status i j AccountStatus.active accounts,
              find-status i p AccountStatus.active accounts,
            )
          ]
        ]
  ]

archive-changes :
    (b i : ℕ) (db db' : Db)
    → archive b i db ≡ ok (tt, db')
    → (db' ≡ db)
      ⊎ ((any (λ a. is_child_of i a && not (is_archived a.status)) db.accounts ≡ false)
          × (db' ≡ set_status i AccountStatus.archived db))
unfolding archive
archive-changes b i db db' h = elim (step-cases (require_account b i db)) [
  | inl (e, failed) ↦ absurd (ground arith)
  | inr (a, db1, passed) ↦
      let (same, found) = require_account-found b i db db1 a passed in
      elim (Bool-cases (is_archived a.status)) [
        | inl already ↦ inl (ground arith)
        | inr active ↦ inr (ground arith, ground arith)
      ]
]

unarchive-changes :
    (b i : ℕ) (db db' : Db)
    → unarchive b i db ≡ ok (tt, db')
    → (db' ≡ db)
      ⊎ ((a : Account) × (find_account i db.accounts ≡ some a)
          × (parent_is_archived a db.accounts ≡ false)
          × (db' ≡ set_status i AccountStatus.active db))
unfolding unarchive
unarchive-changes b i db db' h = elim (step-cases (require_account b i db)) [
  | inl (e, failed) ↦ absurd (ground arith)
  | inr (a, db1, passed) ↦
      let (same, found) = require_account-found b i db db1 a passed in
      elim (Bool-cases (is_archived a.status)) [
        | inl archived ↦ inr (a, found, ground arith, ground arith)
        | inr active ↦ inl (ground arith)
      ]
]

-- Archiving an account leaves no active account under an archived one, where there was none.
archive-IsLive :
    (b i : ℕ) (db db' : Db)
    → IsLive db.accounts
    → archive b i db ≡ ok (tt, db')
    → IsLive db'.accounts
archive-IsLive b i db db' live h = elim (archive-changes b i db db' h) [
  | inl same ↦ subst (λ (x : Db). IsLive x.accounts) (sym same) live
  | inr (childless, went) ↦
      subst (λ (x : Db). IsLive x.accounts) (sym went)
        (record { stranded = archived_stranded i db.accounts live childless })
]

-- Bringing an account back leaves no active account under an archived one, where there was none.
unarchive-IsLive :
    (b i : ℕ) (db db' : Db)
    → IsLive db.accounts
    → unarchive b i db ≡ ok (tt, db')
    → IsLive db'.accounts
unarchive-IsLive b i db db' live h = elim (unarchive-changes b i db db' h) [
  | inl same ↦ subst (λ (x : Db). IsLive x.accounts) (sym same) live
  | inr (a, found, free, went) ↦
      subst (λ (x : Db). IsLive x.accounts) (sym went)
        (record { stranded = active_stranded i db.accounts live a found free })
]

-- One of the two requests that set the status of an account.
pub data StatusRequest : Type 0 where
  put_away brought_back : ℕ → StatusRequest

abbrev pub serve_status : ℕ → StatusRequest → Action Db (Unit {0})
serve_status b (put_away i) = archive b i
serve_status b (brought_back i) = unarchive b i

-- Archiving an account and bringing one back leave no active account under an archived one, where
-- there was none.
pub serve_status-IsLive :
    (b : ℕ) (r : StatusRequest) (db db' : Db)
    → IsLive db.accounts
    → serve_status b r db ≡ ok (tt, db')
    → IsLive db'.accounts
serve_status-IsLive b (put_away i) db db' live h = archive-IsLive b i db db' live h
serve_status-IsLive b (brought_back i) db db' live h = unarchive-IsLive b i db db' live h
