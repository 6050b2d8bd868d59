-- ===== src/Savings/Solvent.antt =====
-- The invariant of the savings and every request that changes them:
-- src/savings-goals/savings-goals.service.ts.
use cashfo_backend.Base.{
  ℕ, ◌≡◌, sym, ◌∙◌, ap, subst, true, List, ℤ, pos, ◌+ℤ◌, ◌≤ℤ◌, ◌<ℤ◌, int_laws, ◌==◌, arith, inl,
  inr, Bool-cases,
}
use cashfo_backend.Schema.{
  Transaction, CreateTransaction, Context, Db, Action, ok, step-cases, ◌>>◌, pure,
}
use cashfo_backend.Ledger.Posting.{post, create_racing}
use cashfo_backend.Ledger.Invariant.{IsSound, create_racing-IsSound}
use cashfo_backend.Savings.Rows.{
  GoalStatus, GoalEntryType, GoalEntry, SavingsDb, compute_current_amount, link_entry,
}
use cashfo_backend.Savings.Goals.{
  CreateSavingsGoal, UpdateSavingsGoal, create_goal, update_goal, update_status, delete_goal,
  require_goal,
}
use cashfo_backend.Savings.Money.{
  is_money, AddContribution, CreateSavingsTransfer, WithdrawSavingsGoal, add_contribution, transfer,
  withdraw, contribution_entry, transfer_entry,
}
use cashfo_backend.Savings.Saved.{saved, effect, compute-snoc, transfer-IsMoved, transfer-moves}
use cashfo_backend.Savings.Paying.{add_contribution-IsContributed}
use cashfo_backend.Savings.Withdrawing.{withdraw-IsPaidOut, withdraw-leaves}

-- No goal has less than nothing saved, and the ledger is sound.
pub record IsSolvent (db : SavingsDb) : Type 0 where
  pub not_negative : (i : ℕ) → pos 0 ≤ℤ saved i db
  pub sound : IsSound db.ledger

pub data SavingsRequest : Type 0 where
  goal_made : CreateSavingsGoal → SavingsRequest
  goal_changed : ℕ → UpdateSavingsGoal → SavingsRequest
  status_set : ℕ → GoalStatus → SavingsRequest
  goal_removed : ℕ → SavingsRequest
  contribution_made : ℕ → AddContribution → SavingsRequest
  savings_moved : CreateSavingsTransfer → SavingsRequest
  savings_paid : ℕ → WithdrawSavingsGoal → SavingsRequest

abbrev pub serve : Context → ℕ → SavingsRequest → Action SavingsDb (Unit {0})
serve ctx b (goal_made dto) = create_goal ctx b dto
serve ctx b (goal_changed i dto) = update_goal b i dto
serve ctx b (status_set i s) = update_status b i s
serve ctx b (goal_removed i) = delete_goal b i
serve ctx b (contribution_made i dto) = add_contribution ctx b i dto >> pure tt
serve ctx b (savings_moved dto) = transfer b dto
serve ctx b (savings_paid i dto) = withdraw ctx b i dto >> pure tt

-- What `@IsMoney()` asks of the amount of a request.
abbrev pub HasMoney : SavingsRequest → Type 0
HasMoney (contribution_made i dto) = is_money dto.amount ≡ true
HasMoney (savings_moved dto) = is_money dto.amount ≡ true
HasMoney _ = Unit {0}

is_money-positive : (a : ℤ) → is_money a ≡ true → pos 0 <ℤ a
is_money-positive a h = ground arith

posted-IsSound :
    (ctx : Context) (b : ℕ) (dto : CreateTransaction) (db : Db) (t : Transaction) (db' : Db)
    → IsSound db
    → post ctx b dto db ≡ ok (t, db')
    → IsSound db'
unfolding post create_racing
posted-IsSound ctx b dto db t db' sound h =
    let answered : create_racing db.transactions ctx b dto db ≡ ok (t, db') = ground arith in
    create_racing-IsSound db.transactions ctx b dto db t db' sound answered

-- The links that other features keep are no part of the ledger's invariant.
linked-IsSound : (e : GoalEntry) (l : Db) → IsSound l → IsSound (link_entry e l)
linked-IsSound e l sound = record {
  consistent = record { cached = sound.consistent.cached };
  double_entry = sound.double_entry;
  unique_keys = sound.unique_keys;
}

contributed-IsSolvent :
    (ctx : Context) (b i : ℕ) (dto : AddContribution) (db : SavingsDb) (e : GoalEntry)
    (db' : SavingsDb)
    → IsSolvent db
    → pos 0 <ℤ dto.amount
    → add_contribution ctx b i dto db ≡ ok (e, db')
    → IsSolvent db'
contributed-IsSolvent ctx b i dto db e db' solvent positive h =
    let (a, s, c) = add_contribution-IsContributed ctx b i dto db e db' h in
    record {
      not_negative = λ j.
          let before = solvent.not_negative j in
          let entry = contribution_entry b i dto a s c.transaction in
          let after : saved j db' ≡ saved j db +ℤ effect j entry =
            ap (compute_current_amount j) c.rows
            ∙ compute-snoc j db.entries e
            ∙ ap (λ (x : GoalEntry). saved j db +ℤ effect j x) c.row in
          subst (λ (v : ℤ). pos 0 ≤ℤ v) (sym after)
            (elim (Bool-cases (i == j)) [
              | inl here ↦ rw here (omega (int_laws, before, positive))
              | inr there ↦ rw there (omega (int_laws, before))
            ]);
      sound = subst IsSound (sym c.books) (
          linked-IsSound e c.ledger
            (posted-IsSound ctx b _ db.ledger c.transaction c.ledger solvent.sound c.posting));
    }

moved-IsSolvent :
    (b : ℕ) (dto : CreateSavingsTransfer) (db db' : SavingsDb)
    → IsSolvent db
    → pos 0 <ℤ dto.amount
    → transfer b dto db ≡ ok (tt, db')
    → IsSolvent db'
moved-IsSolvent b dto db db' solvent positive h =
    let m = transfer-IsMoved b dto db db' h in
    let out = transfer_entry b m.from_goal.id GoalEntryType.transfer_out m.to_goal.id dto in
    let into = transfer_entry b m.to_goal.id GoalEntryType.transfer_in m.from_goal.id dto in
    record {
      not_negative = λ j.
          let before = solvent.not_negative j in
          let (after, enough, _, _) = transfer-moves b dto db db' j h in
          subst (λ (v : ℤ). pos 0 ≤ℤ v) (sym after)
            (elim (Bool-cases (dto.from_goal_id == j)) [
              | inl here ↦
                  let enough_here : dto.amount ≤ℤ saved j db =
                    subst (λ (k : ℕ). dto.amount ≤ℤ saved k db) (ground arith) enough in
                  rw here (omega (int_laws, enough_here))
              | inr away ↦ elim (Bool-cases (dto.to_goal_id == j)) [
                | inl there ↦ rw (away, there) (omega (int_laws, before, positive))
                | inr off ↦ rw (away, off) (omega (int_laws, before))
              ]
            ]);
      sound = subst IsSound (sym m.same_ledger) (
          linked-IsSound into (link_entry out db.ledger)
            (linked-IsSound out db.ledger solvent.sound));
    }

paid-IsSolvent :
    (ctx : Context) (b i : ℕ) (dto : WithdrawSavingsGoal) (db : SavingsDb) (e : GoalEntry)
    (db' : SavingsDb)
    → IsSolvent db
    → withdraw ctx b i dto db ≡ ok (e, db')
    → IsSolvent db'
paid-IsSolvent ctx b i dto db e db' solvent h =
    let p = withdraw-IsPaidOut ctx b i dto db e db' h in
    record {
      not_negative = λ j.
          let before = solvent.not_negative j in
          let (_, after) = withdraw-leaves ctx b i dto db e db' j h in
          subst (λ (v : ℤ). pos 0 ≤ℤ v) (sym after)
            (elim (Bool-cases (i == j)) [
              | inl here ↦ rw here (omega arith)
              | inr there ↦ rw there before
            ]);
      sound = subst IsSound (sym p.books) (
          linked-IsSound e p.ledger
            (posted-IsSound ctx b _ db.ledger p.transaction p.ledger solvent.sound p.posting));
    }

kept-IsSolvent :
    (db db' : SavingsDb)
    → db'.entries ≡ db.entries
    → db'.ledger ≡ db.ledger
    → IsSolvent db
    → IsSolvent db'
kept-IsSolvent db db' rows books solvent = record {
  not_negative = λ j.
      subst (λ (es : List GoalEntry). pos 0 ≤ℤ compute_current_amount j es) (sym rows)
        (solvent.not_negative j);
  sound = subst IsSound (sym books) solvent.sound;
}

-- Every request on the savings that goes through, of any kind, keeps them solvent: no goal has
-- less than nothing saved, and the ledger keeps its invariant. The amount of a contribution or a
-- transfer passes the check `isMoney` of its data transfer object.
pub serve-IsSolvent :
    (ctx : Context) (b : ℕ) (request : SavingsRequest) (db db' : SavingsDb)
    → HasMoney request
    → IsSolvent db
    → serve ctx b request db ≡ ok (tt, db')
    → IsSolvent db'
unfolding create_goal update_goal update_status delete_goal require_goal
serve-IsSolvent ctx b (goal_made dto) db db' money solvent h =
    kept-IsSolvent db db' (ground arith) (ground arith) solvent
serve-IsSolvent ctx b (goal_changed i dto) db db' money solvent h =
    kept-IsSolvent db db' (ground arith) (ground arith) solvent
serve-IsSolvent ctx b (status_set i s) db db' money solvent h =
    kept-IsSolvent db db' (ground arith) (ground arith) solvent
serve-IsSolvent ctx b (goal_removed i) db db' money solvent h =
    kept-IsSolvent db db' (ground arith) (ground arith) solvent
serve-IsSolvent ctx b (contribution_made i dto) db db' money solvent h =
    elim (step-cases (add_contribution ctx b i dto db)) [
      | inl (x, failed) ↦ absurd (ground arith)
      | inr (e, db1, passed) ↦
          let last : db1 ≡ db' = ground arith in
          subst IsSolvent last (
            contributed-IsSolvent ctx b i dto db e db1 solvent (is_money-positive dto.amount money)
              passed)
    ]
serve-IsSolvent ctx b (savings_moved dto) db db' money solvent h =
    moved-IsSolvent b dto db db' solvent (is_money-positive dto.amount money) h
serve-IsSolvent ctx b (savings_paid i dto) db db' money solvent h =
    elim (step-cases (withdraw ctx b i dto db)) [
      | inl (x, failed) ↦ absurd (ground arith)
      | inr (e, db1, passed) ↦
          let last : db1 ≡ db' = ground arith in
          subst IsSolvent last (paid-IsSolvent ctx b i dto db e db1 solvent passed)
    ]
