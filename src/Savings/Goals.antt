-- ===== src/Savings/Goals.antt =====
-- Goals and their status: `create`, `update`, `updateStatus`, `delete`, `maybeMarkCompleted` and the
-- private lookups of src/savings-goals/savings-goals.service.ts. The reminder and the description of
-- a goal are only stored, and left out.
use cashfo_backend.Base.{
  ℕ, Bool, not, Option, none, some, List, [], ◌∷◌, ◌++◌, ℤ, ◌==◌, ◌&&◌, if◌then◌else◌, or_else, any,
  filter, find_unique, update_unique, update_where, ltb_ℤ,
}
use cashfo_backend.Schema.{
  Account, AccountType, Context, Action, ok, err, Error, ◌>>=◌, ◌>>◌, throw_if, gets, modify,
  find_account, same_type, goal_not_found, goal_in_use, field_not_found, wallet_not_found,
  not_a_money_account, not_a_savings_wallet, wrong_account_type,
}
use cashfo_backend.Accounts.Defs.{is_asset, has_subtype, is_money_subtype, is_savings_subtype}
use cashfo_backend.Savings.Rows.{
  GoalStatus, Goal, GoalEntry, SavingsDb, is_open, compute_current_amount,
}

pub record CreateSavingsGoal : Type 0 where
  pub name : ℕ
  pub target_amount : ℤ
  pub target_date : ℕ
  pub duration_months : ℕ

pub record UpdateSavingsGoal : Type 0 where
  pub name : Option ℕ
  pub target_amount : Option ℤ
  pub target_date : Option ℕ
  pub duration_months : Option ℕ

abbrev pub find_goal : ℕ → List Goal → Option Goal
find_goal = find_unique (λ g. g.id)

unfoldable pub require_goal : ℕ → ℕ → Action SavingsDb Goal
require_goal b i db = elim (find_goal i db.goals) [
  | none ↦ err goal_not_found
  | some g ↦ if g.business_id == b then ok (g, db) else err goal_not_found
]

-- An account of the workspace that passes a test.
unfoldable pub require_account_that :
    (Account → Bool) → Error → Error → ℕ → ℕ → Action SavingsDb Account
require_account_that p missing refused b i db = elim (find_account i db.ledger.accounts) [
  | none ↦ err missing
  | some a ↦
      if not (a.business_id == b)
      then err missing
      else if not (p a)
      then err refused
      else ok (a, db)
]

abbrev pub require_savings_account : ℕ → ℕ → Action SavingsDb Account
require_savings_account =
    require_account_that (λ a. is_asset a && has_subtype is_savings_subtype a) wallet_not_found
      not_a_savings_wallet

abbrev pub require_expense_account : ℕ → ℕ → Action SavingsDb Account
require_expense_account =
    require_account_that (λ a. same_type a.account_type AccountType.expense) field_not_found
      wrong_account_type

abbrev pub require_funding_account : ℕ → ℕ → Action SavingsDb Account
require_funding_account =
    require_account_that (λ a. is_asset a && has_subtype is_money_subtype a) field_not_found
      not_a_money_account

unfoldable pub create_goal : Context → ℕ → CreateSavingsGoal → Action SavingsDb (Unit {0})
create_goal ctx b dto = modify λ db. record db {
  goals =
      db.goals
      ++ record {
        id = ctx.new_id;
        business_id = b;
        name = dto.name;
        target_amount = dto.target_amount;
        target_date = dto.target_date;
        duration_months = dto.duration_months;
        status = GoalStatus.active;
      }
        ∷ [];
}

abbrev pub change_goal : UpdateSavingsGoal → Goal → Goal
change_goal dto g = record g {
  name = or_else dto.name g.name;
  target_amount = or_else dto.target_amount g.target_amount;
  target_date = or_else dto.target_date g.target_date;
  duration_months = or_else dto.duration_months g.duration_months;
}

unfoldable pub update_goal : ℕ → ℕ → UpdateSavingsGoal → Action SavingsDb (Unit {0})
unfolding require_goal
update_goal b i dto = do
  require_goal b i
  modify (λ db. record db { goals = update_unique (λ g. g.id) i (change_goal dto) db.goals })

abbrev pub with_goal_status : GoalStatus → Goal → Goal
with_goal_status s g = record g { status = s }

unfoldable pub update_status : ℕ → ℕ → GoalStatus → Action SavingsDb (Unit {0})
unfolding require_goal
update_status b i status = do
  require_goal b i
  modify
      (λ db. record db { goals = update_unique (λ g. g.id) i (with_goal_status status) db.goals })

unfoldable pub delete_goal : ℕ → ℕ → Action SavingsDb (Unit {0})
unfolding require_goal
delete_goal b i = do
  require_goal b i
  entries ← gets (λ db. db.entries)
  throw_if (any (λ (e : GoalEntry). e.savings_goal_id == i) entries) goal_in_use
  modify (λ db. record db { goals = filter (λ g. not (g.id == i)) db.goals })

abbrev pub is_open_goal : ℕ → Goal → Bool
is_open_goal i g = g.id == i && is_open g.status

-- `updateMany` on a goal that is still active or paused.
abbrev pub complete : ℕ → SavingsDb → SavingsDb
complete i db = record db {
  goals = update_where (is_open_goal i) (with_goal_status GoalStatus.completed) db.goals;
}

unfoldable pub maybe_mark_completed : Goal → Action SavingsDb (Unit {0})
maybe_mark_completed goal = modify λ db.
    if not (is_open goal.status)
    then db
    else if ltb_ℤ (compute_current_amount goal.id db.entries) goal.target_amount
    then db
    else complete goal.id db
