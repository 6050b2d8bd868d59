-- ===== src/Groups/Closing.antt =====
-- Closed settlements: `closeSettlement` of src/group-expenses/group-expenses.service.ts.
use cashfo_backend.Base.{
  ℕ, ◌≤◌, ◌<◌, ◌≡◌, refl, sym, ◌∙◌, subst, Bool, false, List, [], ◌∷◌, ◌++◌, map, arith, any, All,
  All-append, sum_of,
}
use cashfo_backend.Schema.{Context, ok}
use cashfo_backend.Groups.Rows.{Expense, Settlement, SettlementMember, GroupDb}
use cashfo_backend.Groups.Settlement.{
  SettlementRow, compute_settlement, expenses_of, snapshot, overlaps, settlement_of,
  close_settlement,
}
use cashfo_backend.Groups.Shares.{compute_settlement-shares}

-- A closed settlement ends no earlier than it starts, and its members' shares are its total.
pub record IsSettled (s : Settlement) : Type 0 where
  pub forward : s.period_start ≤ s.period_end
  pub exact : sum_of (λ (m : SettlementMember). m.share) s.members ≡ s.total_expense

abbrev pub overlaps_one : Settlement → Settlement → Bool
overlaps_one s = overlaps s.business_id s.period_start s.period_end

-- No two settlements of one group share a day.
abbrev pub AreDisjoint : List Settlement → Type 0
AreDisjoint [] = Unit
AreDisjoint (s ∷ ss) = (any (overlaps_one s) ss ≡ false) × AreDisjoint ss

pub record IsHistory (db : GroupDb) : Type 0 where
  pub settled : All IsSettled db.settlements
  pub disjoint : AreDisjoint db.settlements

any-snoc_disjoint :
    (s n : Settlement) (ss : List Settlement)
    → any (overlaps_one s) ss ≡ false
    → overlaps_one n s ≡ false
    → any (overlaps_one s) (ss ++ n ∷ []) ≡ false
any-snoc_disjoint s n [] h k = ground arith
any-snoc_disjoint s n (x ∷ ss) h k = ground (arith, any-snoc_disjoint s n ss)

AreDisjoint-snoc :
    (n : Settlement) (ss : List Settlement)
    → any (overlaps_one n) ss ≡ false
    → AreDisjoint ss
    → AreDisjoint (ss ++ n ∷ [])
AreDisjoint-snoc n [] h k = ground arith
AreDisjoint-snoc n (s ∷ ss) h k =
    (any-snoc_disjoint s n ss k.0 (ground arith), AreDisjoint-snoc n ss (ground arith) k.1)

snapshot_shares :
    (rows : List SettlementRow)
    → sum_of (λ (m : SettlementMember). m.share) (map snapshot rows)
      ≡ sum_of (λ (r : SettlementRow). r.share) rows
snapshot_shares [] = refl
snapshot_shares (r ∷ rows) = rw (snapshot_shares rows) refl

-- The figures that a computed settlement carries over.
pub computed_period :
    (b from to : ℕ) (db : GroupDb)
    → ((compute_settlement b from to db).period_start ≡ from)
      × ((compute_settlement b from to db).period_end ≡ to)
      × ((compute_settlement b from to db).total_expense
          ≡ sum_of (λ (e : Expense). e.amount) (expenses_of b from to db))
unfolding compute_settlement
computed_period b from to db = (refl, refl, refl)

pub record IsClosing (ctx : Context) (b from to : ℕ) (db : GroupDb) (s : Settlement) (db' : GroupDb)
    : Type 0 where
  pub forward : from ≤ to
  pub apart : any (overlaps b from to) db.settlements ≡ false
  pub has_members : 0 < (compute_settlement b from to db).member_count
  pub row : s ≡ settlement_of ctx b (compute_settlement b from to db)
  pub after : db' ≡ record db { settlements = db.settlements ++ s ∷ [] }

pub close_settlement-IsClosing :
    (ctx : Context) (b from to : ℕ) (db : GroupDb) (s : Settlement) (db' : GroupDb)
    → close_settlement ctx b from to db ≡ ok (s, db')
    → IsClosing ctx b from to db s db'
unfolding close_settlement
close_settlement-IsClosing ctx b from to db s db' h = ground arith

-- Closing a settlement keeps the history right: no two closed settlements of a group share a day,
-- each ends no earlier than it starts, and the shares stored with each add up to its total.
pub close_settlement-IsHistory :
    (ctx : Context) (b from to : ℕ) (db : GroupDb) (s : Settlement) (db' : GroupDb)
    → IsHistory db
    → close_settlement ctx b from to db ≡ ok (s, db')
    → IsHistory db'
close_settlement-IsHistory ctx b from to db s db' h e =
    let c = close_settlement-IsClosing ctx b from to db s db' e in
    let (starts, ends, total) = computed_period b from to db in
    let shares = compute_settlement-shares b from to db c.has_members in
    let result = compute_settlement b from to db in
    let fresh : IsSettled (settlement_of ctx b result) = record {
      forward = rw (starts, ends) c.forward;
      exact = snapshot_shares result.members ∙ shares ∙ sym total;
    } in
    let apart : any (overlaps_one (settlement_of ctx b result)) db.settlements ≡ false =
      rw (starts, ends) c.apart in
    subst IsHistory (sym c.after) (record {
      settled =
          All-append IsSettled db.settlements (s ∷ []) h.settled
            (subst IsSettled (sym c.row) fresh, tt);
      disjoint =
          AreDisjoint-snoc s db.settlements
            (subst (λ (x : Settlement). any (overlaps_one x) db.settlements ≡ false) (sym c.row)
              apart)
            h.disjoint;
    })
