-- ===== src/Dues/Lookup.antt =====
-- The system account of a direction is the same after a recalculation of balances:
-- src/receivables-payables/receivables-payables.service.ts, `findSystemAccount`.
use cashfo_backend.Base.{
  ℕ, ◌≡◌, refl, sym, ◌∙◌, ap, none, some, Option, List, [], ◌∷◌, map, ℤ, pos, arith, inl, inr, ◌==◌,
  Option-cases, Bool-cases, filter, sort_by, filter-map, sort_by-map, leb,
}
use mathlib.Core.Option
use cashfo_backend.Schema.{Account, Db, ok, for_each, find_account, update_account, with_balance}
use cashfo_backend.Ledger.Balance.{recalculate_balance, fresh_balance}
use cashfo_backend.Ledger.Settling.{recalculate_balance-known, recalculate_balance-unknown}
use cashfo_backend.Dues.Defs.{Direction, is_system_account_of, find_system_account}

-- An account without its cached balance.
abbrev blank : Account → Account
blank = with_balance (pos 0)

blank-update :
    (i : ℕ) (v : ℤ) (accounts : List Account)
    → map blank (update_account i (with_balance v) accounts) ≡ map blank accounts
blank-update i v [] = refl
blank-update i v (a ∷ accounts) = elim (Bool-cases (a.id == i)) [
  | inl here ↦ rw here (ap (λ (xs : List Account). blank a ∷ xs) (blank-update i v accounts))
  | inr there ↦ rw there (ap (λ (xs : List Account). blank a ∷ xs) (blank-update i v accounts))
]

pub for_each-blank :
    (ids : List ℕ) (db db' : Db)
    → for_each recalculate_balance ids db ≡ ok (tt, db')
    → map blank db'.accounts ≡ map blank db.accounts
for_each-blank [] db db' h = let same : db' ≡ db = cc in ap (λ (x : Db). map blank x.accounts) same
for_each-blank (i ∷ ids) db db' h = elim (Option-cases (find_account i db.accounts)) [
  | inl e ↦ absurd (ground (arith, recalculate_balance-unknown i db e))
  | inr (a, e) ↦
      let after : Db = record db {
        accounts = update_account i (with_balance (fresh_balance db.transactions a)) db.accounts;
      } in
      for_each-blank ids after db' (ground (arith, recalculate_balance-known i db a e))
      ∙ blank-update i (fresh_balance db.transactions a) db.accounts
]

first_of : List Account → Option Account
first_of [] = none
first_of (a ∷ rest) = some a

first_of-map : (as' : List Account) → first_of (map blank as') ≡ Option.map blank (first_of as')
unfolding first_of
first_of-map [] = refl
first_of-map (a ∷ rest) = refl

find_system_account-first :
    (b : ℕ) (dir : Direction) (accounts : List Account)
    → find_system_account b dir accounts
      ≡ first_of (
          sort_by
            (λ (x y : Account). leb x.created_at y.created_at)
            (filter (is_system_account_of b dir) accounts))
unfolding find_system_account first_of
find_system_account-first b dir accounts = refl

find_system_account-blank :
    (b : ℕ) (dir : Direction) (accounts : List Account)
    → find_system_account b dir (map blank accounts)
      ≡ Option.map blank (find_system_account b dir accounts)
find_system_account-blank b dir accounts =
    find_system_account-first b dir (map blank accounts)
    ∙ ap (λ xs. first_of (sort_by (λ (x y : Account). leb x.created_at y.created_at) xs))
        (filter-map blank (is_system_account_of b dir) (λ a. refl) accounts)
    ∙ ap first_of (
        sort_by-map blank (λ (x y : Account). leb x.created_at y.created_at) (λ x y. refl)
          (filter (is_system_account_of b dir) accounts))
    ∙ first_of-map (
        sort_by (λ (x y : Account). leb x.created_at y.created_at)
          (filter (is_system_account_of b dir) accounts))
    ∙ ap (Option.map blank) (sym (find_system_account-first b dir accounts))

blank_id : Option Account → Option ℕ
blank_id none = none
blank_id (some a) = some a.id

-- The account that is found later has the id of the one that was found before.
pub find_system_account-same :
    (b : ℕ) (dir : Direction) (accounts accounts' : List Account) (a : Account)
    → map blank accounts' ≡ map blank accounts
    → find_system_account b dir accounts ≡ some a
    → (a' : Account) × (find_system_account b dir accounts' ≡ some a') × (a'.id ≡ a.id)
find_system_account-same b dir accounts accounts' a same e =
    let both =
      sym (find_system_account-blank b dir accounts')
      ∙ ap (find_system_account b dir) same
      ∙ find_system_account-blank b dir accounts
      ∙ ap (Option.map blank) e in
    elim (Option-cases (find_system_account b dir accounts')) [
      | inl missing ↦ absurd (ground arith)
      | inr (a', e') ↦
          let equal : some (blank a') ≡ some (blank a) = ap (Option.map blank) (sym e') ∙ both in
          (a', e', ground arith)
    ]
