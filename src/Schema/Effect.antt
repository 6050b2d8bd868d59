-- ===== src/Schema/Effect.antt =====
-- A database transaction (`prisma.$transaction`): a step from a database to a database with a
-- value, or an exception. A transaction that throws is rolled back, so no database comes with it.
use cashfo_backend.Base.{
  ◌≡◌, refl, ◌⊎◌, inl, inr, Bool, true, false, Option, none, some, List, [], ◌∷◌,
}
use cashfo_backend.Schema.Rows.{Db}

-- The exceptions, one constructor for each message.
pub data Error : Type 0 where
  account_not_found transaction_not_found key_used_elsewhere too_few_entries amount_not_positive :
      Error
  accounts_do_not_exist foreign_account contact_not_found bad_applied_to unbalanced : Error
  is_a_reversal already_voided owned_by_savings owned_by_asset referral_payout : Error
  reserved_subtype parent_not_found parent_of_other_type own_parent parent_cycle : Error
  subtype_fixed internal_account posts_through has_active_children has_children parent_archived :
      Error
  member_not_found contribution_not_found expense_not_found budget_not_found budget_exists : Error
  category_not_found category_exists period_backwards period_overlaps no_active_member : Error
  goal_not_found goal_withdrawn nothing_saved short_wallet short_goal goal_in_use same_goal : Error
  wallet_not_found not_a_savings_wallet over_total not_started row_changed lost_race : Error
  same_account field_not_found not_a_money_account wrong_account_type no_income_account : Error
  not_a_customer not_a_supplier no_system_account money_account_required no_expense_account : Error
  not_outstanding exceeds_remaining exceeds_outstanding : Error
  payment_not_found not_failed not_successful refund_too_large already_refunded : Error
  not_in_production user_not_found plan_not_found : Error
  -- Prisma's P2002, a unique index that refuses a row.
  unique_violation : Error

pub data Result {ℓ} (A : Type ℓ) : Type ℓ where
  ok : A → Result A
  err : Error → Result A

-- A step over a state of any kind. `Tx` is one over the ledger's database.
abbrev pub Action : Type 0 → Type 0 → Type 0
Action S A = S → Result (A × S)

abbrev pub Tx : Type 0 → Type 0
Tx A = Db → Result (A × Db)

-- A split on what a check gave.
pub check-cases :
    {S : Type 0} (r : Result (Unit {0} × S))
    → ((e : Error) × (r ≡ err e)) ⊎ ((s : S) × (r ≡ ok (tt, s)))
check-cases (ok (tt, s)) = inr (s, refl)
check-cases (err e) = inl (e, refl)

pub Result-cases :
    {A : Type 0} (r : Result A) → ((e : Error) × (r ≡ err e)) ⊎ ((a : A) × (r ≡ ok a))
Result-cases (ok a) = inr (a, refl)
Result-cases (err e) = inl (e, refl)

pub step-cases :
    {S A : Type 0} (r : Result (A × S))
    → ((e : Error) × (r ≡ err e)) ⊎ ((a : A) × (s : S) × (r ≡ ok (a, s)))
step-cases (ok (a, s)) = inr (a, s, refl)
step-cases (err e) = inl (e, refl)

infixl 5 ◌>>=◌ ◌>>◌
abbrev pub ◌>>=◌ : {S A B : Type 0} → Action S A → (A → Action S B) → Action S B
◌>>=◌ m f s = elim (m s) [ ok (a, s') ↦ f a s' | err e ↦ err e ]

abbrev pub ◌>>◌ : {S A B : Type 0} → Action S A → Action S B → Action S B
m >> k = m >>= λ _. k

module _ {S A : Type 0} where
  abbrev pub pure : A → Action S A
  pure a s = ok (a, s)

  abbrev pub gets : (S → A) → Action S A
  gets f s = ok (f s, s)

  -- `if (!row) throw e`
  abbrev pub or_throw : Option A → Error → Action S A
  or_throw none e s = err e
  or_throw (some a) e s = ok (a, s)

-- `for (const x of xs) await f(x)`
abbrev pub for_each : {S A B : Type 0} → (A → Action S B) → List A → Action S (Unit {0})
for_each f [] = pure tt
for_each f (x ∷ xs) = let rest = for_each f xs in f x >> rest

-- `if (c) throw e`
abbrev pub throw_if : {S : Type 0} → Bool → Error → Action S (Unit {0})
throw_if true e s = err e
throw_if false e s = ok (tt, s)

abbrev pub modify : {S : Type 0} → (S → S) → Action S (Unit {0})
modify f s = ok (tt, f s)
