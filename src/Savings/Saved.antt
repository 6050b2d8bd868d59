-- ===== src/Savings/Saved.antt =====
-- What the operations do to the saved amounts of the goals:
-- src/savings-goals/savings-goals.service.ts.
use cashfo_backend.Base.{
  ℕ, ◌≡◌, refl, sym, ◌∙◌, ap, subst, false, some, List, [], ◌∷◌, ◌++◌, ℤ, pos, ◌+ℤ◌, ◌≤ℤ◌, negated,
  int_laws, arith, ◌==◌, ◌&&◌, if◌then◌else◌, inl, inr, sum_of-append, find_unique-key, Bool-cases,
  Option-cases, ltb_ℤ,
}
use cashfo_backend.Schema.{Db, ok, step-cases}
use cashfo_backend.Savings.Rows.{
  Goal, GoalEntry, GoalEntryType, SavingsDb, type_index, is_outgoing, grouped_sum, signed_sum,
  compute_current_amount,
}
use cashfo_backend.Savings.Goals.{require_goal, find_goal, maybe_mark_completed}
use cashfo_backend.Savings.Money.{CreateSavingsTransfer, transfer, move_saved, transfer_entry}

abbrev pub saved : ℕ → SavingsDb → ℤ
saved i db = compute_current_amount i db.entries

-- What an entry adds to the saved amount of a goal.
abbrev pub effect : ℕ → GoalEntry → ℤ
effect i e =
    if e.savings_goal_id == i
    then (if is_outgoing e.entry_type then negated e.amount else e.amount)
    else pos 0

grouped_sum-snoc :
    (i : ℕ) (ty : GoalEntryType) (es : List GoalEntry) (e : GoalEntry)
    → grouped_sum i ty (es ++ e ∷ [])
      ≡ grouped_sum i ty es
        +ℤ (if e.savings_goal_id == i && type_index e.entry_type == type_index ty
            then e.amount
            else pos 0)
grouped_sum-snoc i ty es e =
    rw
      (sum_of-append
        (λ (x : GoalEntry).
          if x.savings_goal_id == i && type_index x.entry_type == type_index ty
          then x.amount
          else pos 0)
        es (e ∷ []))
      (omega int_laws)

-- What the four sums make of one entry.
effect-sums :
    (i : ℕ) (e : GoalEntry) (ty : GoalEntryType)
    → e.entry_type ≡ ty
    → signed_sum i (e ∷ []) GoalEntryType.contribution
        +ℤ (signed_sum i (e ∷ []) GoalEntryType.transfer_out
            +ℤ (signed_sum i (e ∷ []) GoalEntryType.transfer_in
                +ℤ (signed_sum i (e ∷ []) GoalEntryType.withdrawal +ℤ pos 0)))
      ≡ effect i e
effect-sums i e GoalEntryType.contribution same = elim (Bool-cases (e.savings_goal_id == i)) [
  | inl here ↦ rw (here, same) (omega int_laws)
  | inr there ↦ rw there (omega int_laws)
]
effect-sums i e GoalEntryType.transfer_out same = elim (Bool-cases (e.savings_goal_id == i)) [
  | inl here ↦ rw (here, same) (omega int_laws)
  | inr there ↦ rw there (omega int_laws)
]
effect-sums i e GoalEntryType.transfer_in same = elim (Bool-cases (e.savings_goal_id == i)) [
  | inl here ↦ rw (here, same) (omega int_laws)
  | inr there ↦ rw there (omega int_laws)
]
effect-sums i e GoalEntryType.withdrawal same = elim (Bool-cases (e.savings_goal_id == i)) [
  | inl here ↦ rw (here, same) (omega int_laws)
  | inr there ↦ rw there (omega int_laws)
]

pub compute-snoc :
    (i : ℕ) (es : List GoalEntry) (e : GoalEntry)
    → compute_current_amount i (es ++ e ∷ []) ≡ compute_current_amount i es +ℤ effect i e
unfolding compute_current_amount
compute-snoc i es e =
    rw
      (
        grouped_sum-snoc i GoalEntryType.contribution es e,
        grouped_sum-snoc i GoalEntryType.transfer_out es e,
        grouped_sum-snoc i GoalEntryType.transfer_in es e,
        grouped_sum-snoc i GoalEntryType.withdrawal es e,
        sym (effect-sums i e e.entry_type refl),
      )
      (omega int_laws)

pub require_goal-found :
    (b i : ℕ) (db db' : SavingsDb) (g : Goal)
    → require_goal b i db ≡ ok (g, db')
    → (db' ≡ db) × (find_goal i db.goals ≡ some g) × (g.id ≡ i)
unfolding require_goal
require_goal-found b i db db' g h = elim (Option-cases (find_goal i db.goals)) [
  | inl e ↦ absurd (ground arith)
  | inr (x, e) ↦
      let found : find_goal i db.goals ≡ some g = ground arith in
      (ground arith, found, find_unique-key (λ (r : Goal). r.id) i db.goals g found)
]

pub maybe_mark_completed-entries :
    (g : Goal) (db db' : SavingsDb)
    → maybe_mark_completed g db ≡ ok (tt, db')
    → (db'.entries ≡ db.entries) × (db'.ledger ≡ db.ledger)
unfolding maybe_mark_completed
maybe_mark_completed-entries g db db' h = (ground arith, ground arith)

-- A transfer that went through.
pub record IsMoved (b : ℕ) (dto : CreateSavingsTransfer) (db db' : SavingsDb) : Type 0 where
  pub from_goal : Goal
  pub to_goal : Goal
  pub from_id : from_goal.id ≡ dto.from_goal_id
  pub to_id : to_goal.id ≡ dto.to_goal_id
  pub apart : (dto.from_goal_id == dto.to_goal_id) ≡ false
  pub enough : ltb_ℤ (saved from_goal.id db) dto.amount ≡ false
  pub rows : db'.entries ≡ (move_saved b from_goal to_goal dto db).entries
  pub same_ledger : db'.ledger ≡ (move_saved b from_goal to_goal dto db).ledger

pub transfer-IsMoved :
    (b : ℕ) (dto : CreateSavingsTransfer) (db db' : SavingsDb)
    → transfer b dto db ≡ ok (tt, db')
    → IsMoved b dto db db'
unfolding transfer
transfer-IsMoved b dto db db' h = elim (Bool-cases (dto.from_goal_id == dto.to_goal_id)) [
  | inl same ↦ absurd (ground arith)
  | inr apart ↦ elim (step-cases (require_goal b dto.from_goal_id db)) [
    | inl (e, failed) ↦ absurd (ground arith)
    | inr (f, db1, passed) ↦
        let (same1, _, from_id) = require_goal-found b dto.from_goal_id db db1 f passed in
        elim (step-cases (require_goal b dto.to_goal_id db1)) [
          | inl (e, failed) ↦ absurd (ground arith)
          | inr (g, db2, passed2) ↦
              let (same2, _, to_id) = require_goal-found b dto.to_goal_id db1 db2 g passed2 in
              let enough2 : ltb_ℤ (saved f.id db2) dto.amount ≡ false = ground arith in
              let last : maybe_mark_completed g (move_saved b f g dto db2) ≡ ok (tt, db') =
                ground arith in
              let (rows2, ledger2) =
                maybe_mark_completed-entries g (move_saved b f g dto db2) db' last in
              let same : db2 ≡ db = same2 ∙ same1 in
              record {
                from_goal = f;
                to_goal = g;
                from_id = from_id;
                to_id = to_id;
                apart = apart;
                enough =
                    subst (λ (x : SavingsDb). ltb_ℤ (saved f.id x) dto.amount ≡ false) same enough2;
                rows = rows2 ∙ ap (λ (x : SavingsDb). (move_saved b f g dto x).entries) same;
                same_ledger =
                    ledger2 ∙ ap (λ (x : SavingsDb). (move_saved b f g dto x).ledger) same;
              }
        ]
  ]
]

-- What a transfer adds to the saved amount of a goal.
abbrev pub shifted : CreateSavingsTransfer → ℕ → ℤ
shifted dto i =
    if dto.from_goal_id == i
    then negated dto.amount
    else if dto.to_goal_id == i
    then dto.amount
    else pos 0

moved-saved :
    (b : ℕ) (dto : CreateSavingsTransfer) (db db' : SavingsDb) (i : ℕ)
    → IsMoved b dto db db'
    → saved i db' ≡ saved i db +ℤ shifted dto i
moved-saved b dto db db' i m =
    let out = transfer_entry b m.from_goal.id GoalEntryType.transfer_out m.to_goal.id dto in
    let into = transfer_entry b m.to_goal.id GoalEntryType.transfer_in m.from_goal.id dto in
    let after =
      ap (compute_current_amount i) m.rows
      ∙ compute-snoc i (db.entries ++ out ∷ []) into
      ∙ ap (λ (v : ℤ). v +ℤ effect i into) (compute-snoc i db.entries out) in
    let apart = m.apart in
    after
    ∙ rw (m.from_id, m.to_id)
        (elim (Bool-cases (dto.from_goal_id == i)) [
          | inl at_from ↦
              let off : (dto.to_goal_id == i) ≡ false = ground arith in
              rw (at_from, off) (omega int_laws)
          | inr off_from ↦ elim (Bool-cases (dto.to_goal_id == i)) [
            | inl at_to ↦ rw (off_from, at_to) (omega int_laws)
            | inr off_to ↦ rw (off_from, off_to) (omega int_laws)
          ]
        ])

-- A transfer between goals that goes through takes its amount from the one goal's savings, which
-- held that much, and adds it to the other's. Every other goal keeps its savings, and no account
-- and no posting of the ledger changes.
pub transfer-moves :
    (b : ℕ) (dto : CreateSavingsTransfer) (db db' : SavingsDb) (i : ℕ)
    → transfer b dto db ≡ ok (tt, db')
    → (saved i db' ≡ saved i db +ℤ shifted dto i)
      × (dto.amount ≤ℤ saved dto.from_goal_id db)
      × (db'.ledger.accounts ≡ db.ledger.accounts)
      × (db'.ledger.transactions ≡ db.ledger.transactions)
transfer-moves b dto db db' i h =
    let m = transfer-IsMoved b dto db db' h in
    let enough : ltb_ℤ (saved dto.from_goal_id db) dto.amount ≡ false =
      subst (λ (j : ℕ). ltb_ℤ (saved j db) dto.amount ≡ false) m.from_id m.enough in
    (
      moved-saved b dto db db' i m,
      ground arith,
      ap (λ (l : Db). l.accounts) m.same_ledger,
      ap (λ (l : Db). l.transactions) m.same_ledger,
    )
