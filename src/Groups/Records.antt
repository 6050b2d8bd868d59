-- ===== src/Groups/Records.antt =====
-- Members, contributions and expenses of a group, and the month budgets:
-- src/group-expenses/group-expenses.service.ts. An absent field of an update is `none`. An
-- amount is the one that its column keeps, since the data transfer objects let more decimals in.
use cashfo_backend.Base.{
  ℕ, Bool, false, not, Option, none, some, List, [], ◌∷◌, ◌++◌, ℤ, ◌==◌, ◌&&◌, ◌||◌, if◌then◌else◌,
  truthy, is_some, or_else, same_option, any, filter, find_unique, find_where, update_unique,
}
use cashfo_backend.Schema.{
  Context, Action, ok, err, ◌>>=◌, ◌>>◌, pure, throw_if, gets, modify, member_not_found,
  contribution_not_found, expense_not_found, budget_not_found, budget_exists,
}
use cashfo_backend.Groups.Rows.{
  MemberStatus, Member, Contribution, Expense, MonthBudget, Settlement, GroupDb,
}

-- The row with an id, if it is of the group.
unfoldable pub require_member : ℕ → ℕ → Action GroupDb Member
require_member b i db = elim (find_unique (λ (m : Member). m.id) i db.members) [
  | none ↦ err member_not_found
  | some m ↦ if m.business_id == b then ok (m, db) else err member_not_found
]

unfoldable pub require_contribution : ℕ → ℕ → Action GroupDb Contribution
require_contribution b i db = elim (find_unique (λ (c : Contribution). c.id) i db.contributions) [
  | none ↦ err contribution_not_found
  | some c ↦ if c.business_id == b then ok (c, db) else err contribution_not_found
]

unfoldable pub require_expense : ℕ → ℕ → Action GroupDb Expense
require_expense b i db = elim (find_unique (λ (e : Expense). e.id) i db.expenses) [
  | none ↦ err expense_not_found
  | some e ↦ if e.business_id == b then ok (e, db) else err expense_not_found
]

unfoldable pub require_month_budget : ℕ → ℕ → Action GroupDb MonthBudget
require_month_budget b i db = elim (find_unique (λ (m : MonthBudget). m.id) i db.budgets) [
  | none ↦ err budget_not_found
  | some m ↦ if m.business_id == b then ok (m, db) else err budget_not_found
]

unfoldable pub create_member : Context → ℕ → ℕ → Option ℕ → Option ℕ → Action GroupDb (Unit {0})
create_member ctx b name phone photo_url = modify λ db. record db {
  members =
      db.members
      ++ record {
        id = ctx.new_id;
        business_id = b;
        name = name;
        phone = phone;
        photo_url = photo_url;
        status = MemberStatus.active;
        created_at = ctx.now;
      }
        ∷ [];
}

abbrev pub change_member : Option ℕ → Option ℕ → Option ℕ → Option MemberStatus → Member → Member
change_member name phone photo_url status m = record m {
  name = or_else name m.name;
  phone = elim phone [ none ↦ m.phone | some p ↦ some p ];
  photo_url = elim photo_url [ none ↦ m.photo_url | some p ↦ some p ];
  status = or_else status m.status;
}

unfoldable pub update_member :
    ℕ → ℕ → Option ℕ → Option ℕ → Option ℕ → Option MemberStatus → Action GroupDb (Unit {0})
unfolding require_member
update_member b i name phone photo_url status = do
  require_member b i
  modify (λ db. record db {
    members = update_unique (λ m. m.id) i (change_member name phone photo_url status) db.members;
  })

abbrev pub names_member : ℕ → Settlement → Bool
names_member i s = any (λ m. m.group_member_id == i) s.members

-- Whether a contribution, an expense or a closed settlement refers to the member.
abbrev pub is_used : ℕ → GroupDb → Bool
is_used i db =
    any (λ c. c.group_member_id == i) db.contributions
    || any (λ e. same_option e.paid_by_member_id (some i)) db.expenses
    || any (names_member i) db.settlements

-- The result says whether the member was deleted; one in use is archived.
unfoldable pub delete_member : ℕ → ℕ → Action GroupDb Bool
unfolding require_member
delete_member b i = do
  require_member b i
  used ← gets (is_used i)
  modify (λ db. record db {
    members =
        if used
        then update_unique (λ m. m.id) i (λ m. record m { status = MemberStatus.archived })
            db.members
        else filter (λ m. not (m.id == i)) db.members;
  })
  pure (not used)

unfoldable pub create_contribution : Context → ℕ → ℕ → ℤ → ℕ → Option ℕ → Action GroupDb (Unit {0})
unfolding require_member
create_contribution ctx b member_id amount date note = do
  require_member b member_id
  modify (λ db. record db {
    contributions =
        db.contributions
        ++ record {
          id = ctx.new_id;
          business_id = b;
          group_member_id = member_id;
          amount = amount;
          date = date;
          note = note;
        }
          ∷ [];
  })

abbrev pub change_contribution :
    Option ℕ → Option ℤ → Option ℕ → Option ℕ → Contribution → Contribution
change_contribution member_id amount date note c = record c {
  group_member_id = or_else member_id c.group_member_id;
  amount = or_else amount c.amount;
  date = or_else date c.date;
  note = elim note [ none ↦ c.note | some n ↦ some n ];
}

-- `if (id) await this.requireMember(businessId, id)`
unfoldable pub require_named_member : ℕ → Option ℕ → Action GroupDb (Unit {0})
unfolding require_member
require_named_member b member_id db = elim (truthy member_id) [
  | none ↦ ok (tt, db)
  | some i ↦ elim (require_member b i db) [ ok (m, db') ↦ ok (tt, db') | err e ↦ err e ]
]

unfoldable pub update_contribution :
    ℕ → ℕ → Option ℕ → Option ℤ → Option ℕ → Option ℕ → Action GroupDb (Unit {0})
unfolding require_contribution require_named_member
update_contribution b i member_id amount date note = do
  require_contribution b i
  require_named_member b member_id
  modify (λ db. record db {
    contributions =
        update_unique (λ c. c.id) i (change_contribution member_id amount date note)
          db.contributions;
  })

unfoldable pub delete_contribution : ℕ → ℕ → Action GroupDb (Unit {0})
unfolding require_contribution
delete_contribution b i = do
  require_contribution b i
  modify (λ db. record db { contributions = filter (λ c. not (c.id == i)) db.contributions })

-- The category that stands in for none is a parameter, the number of the text "Other".
unfoldable pub create_expense :
    Context → ℕ → ℕ → ℤ → ℕ → Option ℕ → Option ℕ → Option ℕ → Action GroupDb (Unit {0})
unfolding require_named_member
create_expense ctx other b amount date category description paid_by = do
  require_named_member b paid_by
  modify (λ db. record db {
    expenses =
        db.expenses
        ++ record {
          id = ctx.new_id;
          business_id = b;
          amount = amount;
          date = date;
          category = or_else category other;
          description = description;
          paid_by_member_id = paid_by;
        }
          ∷ [];
  })

-- An empty id for the payer clears it.
abbrev pub change_expense : Option ℤ → Option ℕ → Option ℕ → Option ℕ → Option ℕ → Expense → Expense
change_expense amount date category description paid_by e = record e {
  amount = or_else amount e.amount;
  date = or_else date e.date;
  category = or_else category e.category;
  description = elim description [ none ↦ e.description | some d ↦ some d ];
  paid_by_member_id = elim paid_by [ none ↦ e.paid_by_member_id | some i ↦ truthy (some i) ];
}

unfoldable pub update_expense :
    ℕ → ℕ → Option ℤ → Option ℕ → Option ℕ → Option ℕ → Option ℕ → Action GroupDb (Unit {0})
unfolding require_expense require_named_member
update_expense b i amount date category description paid_by = do
  require_expense b i
  require_named_member b paid_by
  modify (λ db. record db {
    expenses =
        update_unique (λ e. e.id) i (change_expense amount date category description paid_by)
          db.expenses;
  })

unfoldable pub delete_expense : ℕ → ℕ → Action GroupDb (Unit {0})
unfolding require_expense
delete_expense b i = do
  require_expense b i
  modify (λ db. record db { expenses = filter (λ e. not (e.id == i)) db.expenses })

abbrev pub is_budget_for : ℕ → ℕ → ℕ → MonthBudget → Bool
is_budget_for b month year m = m.business_id == b && m.month == month && m.year == year

unfoldable pub create_month_budget : Context → ℕ → ℕ → ℕ → ℤ → Action GroupDb (Unit {0})
create_month_budget ctx b month year amount = do
  budgets ← gets (λ db. db.budgets)
  throw_if (any (is_budget_for b month year) budgets) budget_exists
  modify (λ db. record db {
    budgets =
        db.budgets
        ++ record {
          id = ctx.new_id;
          business_id = b;
          month = month;
          year = year;
          budget_amount = amount;
        }
          ∷ [];
  })

-- The clash that an update looks for: another budget of the month that it moves to.
abbrev pub budget_clash : ℕ → ℕ → Option ℕ → Option ℕ → MonthBudget → List MonthBudget → Bool
budget_clash b i month year old budgets =
    (is_some month || is_some year)
    && (elim (find_where (is_budget_for b (or_else month old.month) (or_else year old.year))
        budgets) [ none ↦ false | some clash ↦ not (clash.id == i) ])

unfoldable pub update_month_budget :
    ℕ → ℕ → Option ℕ → Option ℕ → Option ℤ → Action GroupDb (Unit {0})
unfolding require_month_budget
update_month_budget b i month year amount = do
  old ← require_month_budget b i
  budgets ← gets (λ db. db.budgets)
  throw_if (budget_clash b i month year old budgets) budget_exists
  modify (λ db. record db {
    budgets =
        update_unique (λ m. m.id) i
          (λ m. record m {
            month = or_else month m.month;
            year = or_else year m.year;
            budget_amount = or_else amount m.budget_amount;
          })
          db.budgets;
  })

unfoldable pub delete_month_budget : ℕ → ℕ → Action GroupDb (Unit {0})
unfolding require_month_budget
delete_month_budget b i = do
  require_month_budget b i
  modify (λ db. record db { budgets = filter (λ m. not (m.id == i)) db.budgets })
