-- ===== src/Statements/Rounds.antt =====
-- The loop over the accounts of the check of the cached balances: `reconcileWorkspace` in
-- src/accounts/account-balance.service.ts.
use cashfo_backend.Base.{
  ℕ, ◌≡◌, refl, sym, ◌∙◌, ap, ◌↔◌, true, Option, none, some, List, [], ◌∷◌, map, ℤ, eqb_ℤ, ◌==◌,
  if◌then◌else◌, arith, inl, inr, Bool-cases, Option-cases, All-map, eqb_ℤ_sound, eqb_ℤ_refl, All,
  is_some, find_unique-update_unique,
}
use mathlib.Core.Option
use cashfo_backend.Schema.{Account, Db, ok, for_each, find_account, update_account, with_balance}
use cashfo_backend.Ledger.Balance.{recalculate_balance, fresh_balance}
use cashfo_backend.Ledger.Settling.{refresh, recalculate_balance-known}
use cashfo_backend.Statements.Reconcile.{
  Discrepancy, discrepancy_of, add_unless, reconcile_accounts,
}

-- The row of an account exists, and its cache is the balance from scratch.
abbrev pub IsKnown : Db → Account → Type 0
IsKnown db a = is_some (find_account a.id db.accounts) ≡ true

abbrev pub IsSteady : Db → Account → Type 0
IsSteady db a =
    find_account a.id db.accounts
    ≡ Option.map (refresh db.transactions) (find_account a.id db.accounts)

-- The ledger after one account.
abbrev refreshed : ℕ → Account → Db → Db
refreshed i a db = record db {
  accounts = update_account i (with_balance (fresh_balance db.transactions a)) db.accounts;
}

refreshed-find :
    (i j : ℕ) (a : Account) (db : Db)
    → find_account j (refreshed i a db).accounts ≡ (
        if j == i
        then Option.map
            (with_balance (fresh_balance db.transactions a))
            (find_account j db.accounts)
        else find_account j db.accounts)
refreshed-find i j a db =
    find_unique-update_unique (λ (r : Account). r.id)
      (with_balance (fresh_balance db.transactions a)) i j db.accounts (λ r. refl)

refreshed-IsKnown :
    (i : ℕ) (a : Account) (db : Db) (r : Account) → IsKnown db r → IsKnown (refreshed i a db) r
refreshed-IsKnown i a db r h = ground (arith, refreshed-find i r.id a db)

-- An account whose cache is right stays as it is.
refreshed-same :
    (i : ℕ) (a : Account) (db : Db)
    → find_account i db.accounts ≡ some a
    → a.current_balance ≡ fresh_balance db.transactions a
    → (j : ℕ) → find_account j (refreshed i a db).accounts ≡ find_account j db.accounts
refreshed-same i a db e right j =
    let same : with_balance (fresh_balance db.transactions a) a ≡ a =
      ap (λ (v : ℤ). with_balance v a) (sym right) in
    elim (Bool-cases (j == i)) [
      | inl here ↦
          let at : j ≡ i = ground arith in
          let found : find_account j db.accounts ≡ some a =
            ap (λ (k : ℕ). find_account k db.accounts) at ∙ e in
          refreshed-find i j a db ∙ rw (here, found) (ap some same)
      | inr there ↦ refreshed-find i j a db ∙ rw there refl
    ]

refreshed-IsSteady :
    (i : ℕ) (a : Account) (db : Db)
    → find_account i db.accounts ≡ some a
    → a.current_balance ≡ fresh_balance db.transactions a
    → (r : Account) → IsSteady (refreshed i a db) r ↔ IsSteady db r
refreshed-IsSteady i a db e right r =
    let same = refreshed-same i a db e right r.id in
    (
      λ h. sym same ∙ h ∙ ap (Option.map (refresh db.transactions)) same,
      λ h. same ∙ h ∙ sym (ap (Option.map (refresh db.transactions)) same),
    )

-- One round of the loop.
reconcile_accounts-cons :
    (r : Account) (rs : List Account) (db : Db) (a : Account) (ds : List Discrepancy) (db' : Db)
    → find_account r.id db.accounts ≡ some a
    → reconcile_accounts rs (refreshed r.id a db) ≡ ok (ds, db')
    → reconcile_accounts (r ∷ rs) db
      ≡ ok (
        add_unless
            (eqb_ℤ a.current_balance (fresh_balance db.transactions a))
            (discrepancy_of r a.current_balance (fresh_balance db.transactions a))
            ds,
        db',
      )
unfolding reconcile_accounts
reconcile_accounts-cons r rs db a ds db' e h =
    let known = recalculate_balance-known r.id db a e in ground (arith, known)

-- What the loop leaves and reports.
pub record Run (rs : List Account) (db : Db) : Type 0 where
  pub reported : List Discrepancy
  pub after : Db
  pub answer : reconcile_accounts rs db ≡ ok (reported, after)
  pub refreshes : for_each recalculate_balance (map (λ (r : Account). r.id) rs) db ≡ ok (tt, after)
  pub clean : (reported ≡ []) ↔ All (IsSteady db) rs

pub IsSteady-iff :
    (r : Account) (db : Db) (a : Account) (e : find_account r.id db.accounts ≡ some a)
    → IsSteady db r ↔ (a.current_balance ≡ fresh_balance db.transactions a)
IsSteady-iff r db a e = (
  λ h.
      let both : some a ≡ some (refresh db.transactions a) =
        sym e ∙ h ∙ ap (Option.map (refresh db.transactions)) e in
      ap (λ (o : Option Account). elim o [ none ↦ a.current_balance | some x ↦ x.current_balance ])
        both,
  λ right.
      e
      ∙ ap (λ (v : ℤ). some (with_balance v a)) right
      ∙ sym (ap (Option.map (refresh db.transactions)) e),
)

module _ (r : Account) (rs : List Account) (db : Db) (a : Account)
    (e : find_account r.id db.accounts ≡ some a) where
  Run-cons : Run rs (refreshed r.id a db) → Run (r ∷ rs) db
  Run-cons run = record {
    reported =
        add_unless (eqb_ℤ a.current_balance (fresh_balance db.transactions a))
          (discrepancy_of r a.current_balance (fresh_balance db.transactions a)) run.reported;
    after = run.after;
    answer = reconcile_accounts-cons r rs db a run.reported run.after e run.answer;
    refreshes =
        let known = recalculate_balance-known r.id db a e in
        let went = run.refreshes in ground (arith, known);
    clean = elim (Bool-cases (eqb_ℤ a.current_balance (fresh_balance db.transactions a))) [
      | inl equal ↦
          let right = eqb_ℤ_sound a.current_balance (fresh_balance db.transactions a) equal in
          let carry = refreshed-IsSteady r.id a db e right in
          rw equal (
            λ none_reported. (
              (IsSteady-iff r db a e).1 right,
              All-map (IsSteady (refreshed r.id a db)) (IsSteady db) (λ x. (carry x).0) rs
                  (run.clean.0 none_reported),
            ),
            λ steady. run.clean.1 (
                All-map (IsSteady db) (IsSteady (refreshed r.id a db)) (λ x. (carry x).1) rs
                  steady.1),
          )
      | inr different ↦ rw different (
        λ none_reported. absurd (ground arith),
        λ steady.
            let right = (IsSteady-iff r db a e).0 steady.0 in
            let equal = ap (eqb_ℤ a.current_balance) (sym right) ∙ eqb_ℤ_refl a.current_balance in
            absurd (ground arith),
      )
    ];
  }

pub reconcile_accounts-runs : (rs : List Account) (db : Db) → All (IsKnown db) rs → Run rs db
unfolding reconcile_accounts
reconcile_accounts-runs [] db h = record {
  reported = [];
  after = db;
  answer = refl;
  refreshes = refl;
  clean = (λ _. tt, λ _. refl);
}
reconcile_accounts-runs (r ∷ rs) db h = elim (Option-cases (find_account r.id db.accounts)) [
  | inl e ↦ let known = h.0 in absurd (ground arith)
  | inr (a, e) ↦ Run-cons r rs db a e (
      reconcile_accounts-runs rs (refreshed r.id a db) (
        All-map (IsKnown db) (IsKnown (refreshed r.id a db))
          (λ x k. refreshed-IsKnown r.id a db x k) rs h.1))
]
