-- ===== src/Groups/Links.antt =====
-- Contributions and the members that they name: `deleteMember` and `createContribution` of
-- src/group-expenses/group-expenses.service.ts.
use cashfo_backend.Base.{
  ℕ, ◌≡◌, refl, sym, ◌∙◌, ap, subst, Bool, true, false, not, Option, some, List, [], ◌∷◌, ◌++◌, map,
  ◌==◌, ℤ, arith, inl, inr, if◌then◌else◌, elem, filter, any, All, All-append, UniqueIds,
  find_unique, update_unique, Bool-cases, Option-cases,
}
use cashfo_backend.Schema.{Context, ok, step-cases}
use cashfo_backend.Groups.Rows.{Member, MemberStatus, Contribution, GroupDb}
use cashfo_backend.Groups.Balances.{member_ids, IsOfMember}
use cashfo_backend.Groups.Records.{require_member, is_used, delete_member, create_contribution}

-- What the settlement relies on.
pub record IsLinked (db : GroupDb) : Type 0 where
  pub unique : UniqueIds (map (λ (m : Member). m.id) db.members)
  pub linked : All (IsOfMember db.members) db.contributions

-- A member that is found in a group is one of its members.
known_member :
    (i b : ℕ) (ms : List Member) (m : Member)
    → find_unique (λ (r : Member). r.id) i ms ≡ some m
    → (m.business_id == b) ≡ true
    → elem i (member_ids b ms) ≡ true
known_member i b [] m e own = absurd (ground arith)
known_member i b (n ∷ ms) m e own = elim (Bool-cases (n.id == i)) [
  | inl here ↦
      let same : n ≡ m = ground arith in
      let mine : (n.business_id == b) ≡ true = ap (λ (x : Member). x.business_id == b) same ∙ own in
      rw mine (ground arith)
  | inr there ↦ ground (arith, known_member i b ms m)
]

require_member-known :
    (b i : ℕ) (db db' : GroupDb) (m : Member)
    → require_member b i db ≡ ok (m, db')
    → (elem i (member_ids b db.members) ≡ true) × (db' ≡ db)
unfolding require_member
require_member-known b i db db' m h =
    elim (Option-cases (find_unique (λ (r : Member). r.id) i db.members)) [
      | inl e ↦ absurd (ground arith)
      | inr (n, e) ↦ elim (Bool-cases (n.business_id == b)) [
        | inl own ↦ (known_member i b db.members n e own, ground arith)
        | inr other ↦ absurd (ground arith)
      ]
    ]

-- An update that keeps ids and groups keeps the ids of every group.
module _ (f : Member → Member) (keeps_id : (m : Member) → (f m).id ≡ m.id)
    (keeps_group : (m : Member) → (f m).business_id ≡ m.business_id) (i : ℕ) where
  ids-update :
      (ms : List Member)
      → map (λ (m : Member). m.id) (update_unique (λ m. m.id) i f ms)
        ≡ map (λ (m : Member). m.id) ms
  ids-update [] = refl
  ids-update (m ∷ ms) = elim (Bool-cases (m.id == i)) [
    | inl e ↦ rw (e, keeps_id m, ids-update ms)
    | inr e ↦ rw (e, ids-update ms)
  ]

  member_ids-update :
      (b : ℕ) (ms : List Member) → member_ids b (update_unique (λ m. m.id) i f ms) ≡ member_ids b ms
  member_ids-update b [] = refl
  member_ids-update b (m ∷ ms) = elim (Bool-cases (m.id == i)) [
    | inl e ↦ elim (Bool-cases (m.business_id == b)) [
      | inl own ↦ rw (e, keeps_group m, own, keeps_id m, member_ids-update b ms)
      | inr other ↦ rw (e, keeps_group m, other, member_ids-update b ms)
    ]
    | inr e ↦ elim (Bool-cases (m.business_id == b)) [
      | inl own ↦ rw (e, own, member_ids-update b ms)
      | inr other ↦ rw (e, other, member_ids-update b ms)
    ]
  ]

  linked-update :
      (ms : List Member) (cs : List Contribution)
      → All (IsOfMember ms) cs
      → All (IsOfMember (update_unique (λ m. m.id) i f ms)) cs
  linked-update ms [] h = tt
  linked-update ms (c ∷ cs) h =
      (rw (member_ids-update c.business_id ms) h.0, linked-update ms cs h.1)

-- Without the member that has an id.
elem-deleted :
    (i j b : ℕ) (ms : List Member)
    → elem j (member_ids b (filter (λ m. not (m.id == i)) ms))
      ≡ (if j == i then false else elem j (member_ids b ms))
elem-deleted i j b [] = ground arith
elem-deleted i j b (m ∷ ms) = ground (arith, elem-deleted i j b ms)

elem-deleted_ids :
    (i j : ℕ) (ms : List Member)
    → elem j (map (λ (m : Member). m.id) ms) ≡ false
    → elem j (map (λ (m : Member). m.id) (filter (λ m. not (m.id == i)) ms)) ≡ false
elem-deleted_ids i j [] h = refl
elem-deleted_ids i j (m ∷ ms) h = ground (arith, elem-deleted_ids i j ms)

UniqueIds-deleted :
    (i : ℕ) (ms : List Member)
    → UniqueIds (map (λ (m : Member). m.id) ms)
    → UniqueIds (map (λ (m : Member). m.id) (filter (λ m. not (m.id == i)) ms))
UniqueIds-deleted i [] h = tt
UniqueIds-deleted i (m ∷ ms) h = elim (Bool-cases (m.id == i)) [
  | inl e ↦ rw e (UniqueIds-deleted i ms h.1)
  | inr e ↦ rw e (elem-deleted_ids i m.id ms h.0, UniqueIds-deleted i ms h.1)
]

linked-deleted :
    (i : ℕ) (ms : List Member) (cs : List Contribution)
    → any (λ (c : Contribution). c.group_member_id == i) cs ≡ false
    → All (IsOfMember ms) cs
    → All (IsOfMember (filter (λ m. not (m.id == i)) ms)) cs
linked-deleted i ms [] unused h = tt
linked-deleted i ms (c ∷ cs) unused h = (
  ground (arith, elem-deleted i c.group_member_id c.business_id ms),
  linked-deleted i ms cs (ground arith) h.1,
)

abbrev without_member : ℕ → GroupDb → GroupDb
without_member i db = record db {
  members =
      if is_used i db
      then update_unique (λ m. m.id) i (λ m. record m { status = MemberStatus.archived }) db.members
      else filter (λ m. not (m.id == i)) db.members;
}

delete_member-db :
    (b i : ℕ) (db : GroupDb) (deleted : Bool) (db' : GroupDb)
    → delete_member b i db ≡ ok (deleted, db')
    → db' ≡ without_member i db
unfolding delete_member
delete_member-db b i db deleted db' e = elim (step-cases (require_member b i db)) [
  | inl (x, failed) ↦ absurd (ground arith)
  | inr (m, db1, passed) ↦
      let same = (require_member-known b i db db1 m passed).1 in
      let went : db' ≡ without_member i db1 = ground arith in went ∙ ap (without_member i) same
]

without_member-IsLinked : (i : ℕ) (db : GroupDb) → IsLinked db → IsLinked (without_member i db)
without_member-IsLinked i db h = elim (Bool-cases (is_used i db)) [
  | inl used ↦ rw used (record {
    unique =
        rw
          (ids-update (λ m. record m { status = MemberStatus.archived }) (λ m. refl) (λ m. refl) i
            db.members)
          h.unique;
    linked =
        linked-update (λ m. record m { status = MemberStatus.archived }) (λ m. refl) (λ m. refl) i
          db.members db.contributions h.linked;
  })
  | inr unused ↦ rw unused (record {
    unique = UniqueIds-deleted i db.members h.unique;
    linked = linked-deleted i db.members db.contributions (ground arith) h.linked;
  })
]

-- Deleting a member, or archiving one in use, keeps the member ids unique and every contribution
-- with a member of its own group.
pub delete_member-IsLinked :
    (b i : ℕ) (db : GroupDb) (deleted : Bool) (db' : GroupDb)
    → IsLinked db
    → delete_member b i db ≡ ok (deleted, db')
    → IsLinked db'
delete_member-IsLinked b i db deleted db' h e =
    subst IsLinked (sym (delete_member-db b i db deleted db' e)) (without_member-IsLinked i db h)

-- Recording a contribution keeps them too.
pub create_contribution-IsLinked :
    (ctx : Context) (b i : ℕ) (amount : ℤ) (date : ℕ) (note : Option ℕ) (db db' : GroupDb)
    → IsLinked db
    → create_contribution ctx b i amount date note db ≡ ok (tt, db')
    → IsLinked db'
unfolding create_contribution
create_contribution-IsLinked ctx b i amount date note db db' h e =
    elim (step-cases (require_member b i db)) [
      | inl (x, failed) ↦ absurd (ground arith)
      | inr (m, db1, passed) ↦
          let (known, same) = require_member-known b i db db1 m passed in
          let new : Contribution = record {
            id = ctx.new_id;
            business_id = b;
            group_member_id = i;
            amount = amount;
            date = date;
            note = note;
          } in
          let went : db' ≡ record db1 { contributions = db1.contributions ++ new ∷ [] } =
            ground arith in
          subst IsLinked
            (sym (
              went
              ∙ ap (λ (x : GroupDb). record x { contributions = x.contributions ++ new ∷ [] })
                  same))
            (record {
              unique = h.unique;
              linked =
                  All-append (IsOfMember db.members) db.contributions (new ∷ []) h.linked
                    (known, tt);
            })
    ]
