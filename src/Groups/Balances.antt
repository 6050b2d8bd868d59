-- ===== src/Groups/Balances.antt =====
-- The balances of a settlement: src/group-expenses/group-expenses.service.ts, `computeSettlement`.
use cashfo_backend.Base.{
  ℕ, suc, ◌<◌, ◌≡◌, refl, sym, ◌∙◌, ap, true, false, some, List, [], ◌∷◌, ◌++◌, map, ℤ, pos, ◌+ℤ◌,
  ◌-ℤ◌, ◌==◌, ◌&&◌, inl, inr, int_laws, pos_part, neg_part, arith, if◌then◌else◌, or_else, ltb_ℤ,
  leb, length, filter, elem, All, sum_of, sum_of-append, sum_of-sum_at, UniqueIds, HasKeyIn,
  Bool-cases,
}
use cashfo_backend.Groups.Rows.{Member, Contribution, Expense, GroupDb, is_active}
use cashfo_backend.Groups.Settlement.{
  Totals, no_totals, totals_of, set_totals, count_in, add_contribution, totals_by_member,
  SettlementRow, settlement_row, settlement_rows, insert_by_created, order_by_created, members_of,
  contributions_of, expenses_of, is_former_contributor, is_within, compute_settlement,
}
use cashfo_backend.Groups.Shares.{compute_settlement-shares}

totals_of-set_totals :
    (i j : ℕ) (t : Totals) (m : List (ℕ × Totals))
    → totals_of j (set_totals i t m) ≡ (if i == j then some t else totals_of j m)
unfolding totals_of set_totals
totals_of-set_totals i j t [] = ground arith
totals_of-set_totals i j t (e ∷ m) = ground (arith, totals_of-set_totals i j t m)

-- Deposits less returns.
abbrev net : List (ℕ × Totals) → ℕ → ℤ
net m i = let t = or_else (totals_of i m) no_totals in t.deposited -ℤ t.returned

net-count_in :
    (amount : ℤ) (t : Totals)
    → (count_in amount t).deposited -ℤ (count_in amount t).returned
      ≡ t.deposited -ℤ t.returned +ℤ amount
net-count_in amount t = elim (Bool-cases (ltb_ℤ amount (pos 0))) [
  | inl e ↦ rw e (omega int_laws)
  | inr e ↦ rw e (omega int_laws)
]

abbrev amount_for : ℕ → Contribution → ℤ
amount_for i c = if c.group_member_id == i then c.amount else pos 0

net-add_contribution :
    (m : List (ℕ × Totals)) (c : Contribution) (i : ℕ)
    → net (add_contribution m c) i ≡ net m i +ℤ amount_for i c
unfolding add_contribution
net-add_contribution m c i = elim (Bool-cases (c.group_member_id == i)) [
  | inl e ↦
      let same : c.group_member_id ≡ i = ground arith in
      rw
        (
          totals_of-set_totals c.group_member_id i
              (count_in c.amount (or_else (totals_of c.group_member_id m) no_totals)) m,
          e,
          same,
        )
        (net-count_in c.amount (or_else (totals_of i m) no_totals))
  | inr e ↦
      rw
        (
          totals_of-set_totals c.group_member_id i
              (count_in c.amount (or_else (totals_of c.group_member_id m) no_totals)) m,
          e,
        )
        (omega int_laws)
]

abbrev pub contributed_by : List Contribution → ℕ → ℤ
contributed_by cs i = sum_of (amount_for i) cs

net-totals_by_member :
    (m : List (ℕ × Totals)) (cs : List Contribution) (i : ℕ)
    → net (totals_by_member m cs) i ≡ net m i +ℤ contributed_by cs i
unfolding totals_by_member
net-totals_by_member m [] i = omega int_laws
net-totals_by_member m (c ∷ cs) i =
    rw (net-totals_by_member (add_contribution m c) cs i, net-add_contribution m c i)
      (omega int_laws)

net-of_contributions :
    (cs : List Contribution) (i : ℕ) → net (totals_by_member [] cs) i ≡ contributed_by cs i
unfolding totals_of
net-of_contributions cs i = rw (net-totals_by_member [] cs i) (omega int_laws)

-- The sums of the rows, as sums over the members that they are about.
sum-contributed :
    (cs : List Contribution) (total : ℤ) (n i : ℕ) (ms : List Member)
    → sum_of
        (λ (r : SettlementRow). r.contributed)
        (settlement_rows (totals_by_member [] cs) total n i ms)
      ≡ sum_of (λ (m : Member). contributed_by cs m.id) ms
unfolding settlement_rows settlement_row
sum-contributed cs total n i [] = refl
sum-contributed cs total n i (m ∷ ms) =
    rw (net-of_contributions cs m.id, sum-contributed cs total n (suc i) ms) refl

sum-balance :
    (by_member : List (ℕ × Totals)) (total : ℤ) (n i : ℕ) (ms : List Member)
    → sum_of (λ (r : SettlementRow). r.balance) (settlement_rows by_member total n i ms)
      ≡ sum_of (λ (r : SettlementRow). r.contributed) (settlement_rows by_member total n i ms)
        -ℤ sum_of (λ (r : SettlementRow). r.share) (settlement_rows by_member total n i ms)
unfolding settlement_rows settlement_row
sum-balance by_member total n i [] = omega int_laws
sum-balance by_member total n i (m ∷ ms) =
    rw (sum-balance by_member total n (suc i) ms) (omega int_laws)

-- Someone with no row among the contributions has put nothing in.
contributed_by-absent :
    (cs : List Contribution) (i : ℕ)
    → elem i (map (λ (c : Contribution). c.group_member_id) cs) ≡ false
    → contributed_by cs i ≡ pos 0
contributed_by-absent [] i h = refl
contributed_by-absent (c ∷ cs) i h =
    let rest = contributed_by-absent cs i (ground arith) in
    let here : amount_for i c ≡ pos 0 = ground arith in rw (here, rest) (omega int_laws)

-- The active members and the former contributors together hold all contributions.
listed_sum :
    (cs : List Contribution) (ms : List Member)
    → sum_of (λ (m : Member). contributed_by cs m.id) (filter is_active ms)
        +ℤ sum_of (λ (m : Member). contributed_by cs m.id) (filter (is_former_contributor cs) ms)
      ≡ sum_of (λ (m : Member). contributed_by cs m.id) ms
listed_sum cs [] = omega int_laws
listed_sum cs (m ∷ ms) = elim (Bool-cases (is_active m)) [
  | inl active ↦
      let rest = listed_sum cs ms in
      rw active (omega (int_laws, ap pos_part rest, ap neg_part rest))
  | inr former ↦ elim (Bool-cases (elem m.id (map (λ (c : Contribution). c.group_member_id) cs))) [
    | inl there ↦
        let rest = listed_sum cs ms in
        rw (former, there) (omega (int_laws, ap pos_part rest, ap neg_part rest))
    | inr gone ↦
        let rest = listed_sum cs ms in
        let nothing = contributed_by-absent cs m.id gone in
        rw (former, gone, nothing) (omega (int_laws, ap pos_part rest, ap neg_part rest))
  ]
]

sum_of-insert_by_created :
    (f : Member → ℤ) (m : Member) (ms : List Member)
    → sum_of f (insert_by_created m ms) ≡ f m +ℤ sum_of f ms
unfolding insert_by_created
sum_of-insert_by_created f m [] = refl
sum_of-insert_by_created f m (n ∷ ns) = elim (Bool-cases (leb m.created_at n.created_at)) [
  | inl e ↦ rw e refl
  | inr e ↦ rw (e, sum_of-insert_by_created f m ns) (omega int_laws)
]

sum_of-order_by_created :
    (f : Member → ℤ) (ms : List Member) → sum_of f (order_by_created ms) ≡ sum_of f ms
unfolding order_by_created
sum_of-order_by_created f [] = refl
sum_of-order_by_created f (m ∷ ms) =
    rw (sum_of-insert_by_created f m (order_by_created ms), sum_of-order_by_created f ms) refl

sum_of-map :
    (f : ℕ → ℤ) (ms : List Member) → sum_of f (map (λ m. m.id) ms) ≡ sum_of (λ m. f m.id) ms
sum_of-map f [] = refl
sum_of-map f (m ∷ ms) = rw (sum_of-map f ms) refl

-- The ids of a group's members.
abbrev pub member_ids : ℕ → List Member → List ℕ
member_ids b ms = map (λ m. m.id) (filter (λ m. m.business_id == b) ms)

-- A contribution is of a member of its own group.
abbrev pub IsOfMember : List Member → Contribution → Type 0
IsOfMember ms c = elem c.group_member_id (member_ids c.business_id ms) ≡ true

period-HasKeyIn :
    (b from to : ℕ) (ms : List Member) (cs : List Contribution)
    → All (IsOfMember ms) cs
    → All
        (HasKeyIn (λ (c : Contribution). c.group_member_id) (λ c. c.amount) (member_ids b ms))
        (filter (λ c. c.business_id == b && is_within from to c.date) cs)
period-HasKeyIn b from to ms [] h = tt
period-HasKeyIn b from to ms (c ∷ cs) h =
    elim (Bool-cases (c.business_id == b && is_within from to c.date)) [
      | inl e ↦
          let same : c.business_id ≡ b = ground arith in
          rw e (rw same at h.0, period-HasKeyIn b from to ms cs h.1)
      | inr e ↦ rw e (period-HasKeyIn b from to ms cs h.1)
    ]

elem-member_ids :
    (i b : ℕ) (ms : List Member)
    → elem i (map (λ (m : Member). m.id) ms) ≡ false
    → elem i (member_ids b ms) ≡ false
elem-member_ids i b [] h = refl
elem-member_ids i b (m ∷ ms) h = ground (arith, elem-member_ids i b ms)

UniqueIds-member_ids :
    (b : ℕ) (ms : List Member)
    → UniqueIds (map (λ (m : Member). m.id) ms)
    → UniqueIds (member_ids b ms)
UniqueIds-member_ids b [] h = tt
UniqueIds-member_ids b (m ∷ ms) h = elim (Bool-cases (m.business_id == b)) [
  | inl e ↦ rw e (elem-member_ids m.id b ms h.0, UniqueIds-member_ids b ms h.1)
  | inr e ↦ rw e (UniqueIds-member_ids b ms h.1)
]

-- Where member ids are unique and every contribution is of a member of its group, a settlement of
-- a group with an active member leaves nothing out: the members' balances add up to what was put
-- in during the period, net of what was returned, less what was spent in it.
pub compute_settlement-balances :
    (b from to : ℕ) (db : GroupDb)
    → UniqueIds (map (λ (m : Member). m.id) db.members)
    → All (IsOfMember db.members) db.contributions
    → 0 < (compute_settlement b from to db).member_count
    → sum_of (λ (r : SettlementRow). r.balance) (compute_settlement b from to db).members
      ≡ sum_of (λ (c : Contribution). c.amount) (contributions_of b from to db)
        -ℤ sum_of (λ (e : Expense). e.amount) (expenses_of b from to db)
unfolding compute_settlement members_of contributions_of
compute_settlement-balances b from to db unique linked h =
    let cs = contributions_of b from to db in
    let all_members = members_of b db in
    let total = sum_of (λ (e : Expense). e.amount) (expenses_of b from to db) in
    let n = length (filter is_active all_members) in
    let listed = filter is_active all_members ++ filter (is_former_contributor cs) all_members in
    let some_member : (n == 0) ≡ false = ground arith in
    let shares = compute_settlement-shares b from to db h in
    let put_in : sum_of (λ (m : Member). contributed_by cs m.id) listed
        ≡ sum_of (λ (c : Contribution). c.amount) cs =
      sum_of-append (λ (m : Member). contributed_by cs m.id) (filter is_active all_members)
        (filter (is_former_contributor cs) all_members)
      ∙ listed_sum cs all_members
      ∙ sum_of-order_by_created (λ m. contributed_by cs m.id)
          (filter (λ m. m.business_id == b) db.members)
      ∙ sym (sum_of-map (contributed_by cs) (filter (λ m. m.business_id == b) db.members))
      ∙ sum_of-sum_at (λ c. c.group_member_id) (λ c. c.amount) (member_ids b db.members) cs
          (UniqueIds-member_ids b db.members unique)
          (period-HasKeyIn b from to db.members db.contributions linked) in
    let by_member = totals_by_member [] cs in
    let paid : sum_of (λ (r : SettlementRow). r.share) (settlement_rows by_member total n 0 listed)
        ≡ total =
      rw some_member at shares in
    rw some_member (
      sum-balance by_member total n 0 listed
      ∙ ap
          (λ (v : ℤ).
            v
            -ℤ sum_of (λ (r : SettlementRow). r.share) (settlement_rows by_member total n 0 listed))
          (sum-contributed cs total n 0 listed ∙ put_in)
      ∙ ap (λ (v : ℤ). sum_of (λ (c : Contribution). c.amount) cs -ℤ v) paid)
