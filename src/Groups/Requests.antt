-- ===== src/Groups/Requests.antt =====
-- The requests on a group, one after another, and the closed settlements:
-- src/group-expenses/group-expenses.service.ts. A request that is refused changes nothing.
use cashfo_backend.Base.{
  ℕ, ◌≤◌, ◌≡◌, ◌≢◌, sym, ◌∙◌, ap, subst, Bool, true, Option, List, [], ◌∷◌, ◌++◌, ℤ, arith, any,
  inl, inr,
}
use cashfo_backend.Schema.{Context, Result, ok, err, step-cases}
use cashfo_backend.Groups.Rows.{MemberStatus, Settlement, GroupDb}
use cashfo_backend.Groups.Settlement.{compute_settlement, settlement_of, overlaps, close_settlement}
use cashfo_backend.Groups.Records.{
  require_member, require_contribution, require_expense, require_month_budget, require_named_member,
  create_member, update_member, delete_member, create_contribution, update_contribution,
  delete_contribution, create_expense, update_expense, delete_expense, create_month_budget,
  update_month_budget, delete_month_budget,
}
use cashfo_backend.Groups.Closing.{computed_period, close_settlement-IsClosing}

pub data GroupRequest : Type 0 where
  adds_member : Context → ℕ → ℕ → Option ℕ → Option ℕ → GroupRequest
  changes_member : ℕ → ℕ → Option ℕ → Option ℕ → Option ℕ → Option MemberStatus → GroupRequest
  removes_member : ℕ → ℕ → GroupRequest
  adds_contribution : Context → ℕ → ℕ → ℤ → ℕ → Option ℕ → GroupRequest
  changes_contribution : ℕ → ℕ → Option ℕ → Option ℤ → Option ℕ → Option ℕ → GroupRequest
  removes_contribution : ℕ → ℕ → GroupRequest
  adds_expense : Context → ℕ → ℕ → ℤ → ℕ → Option ℕ → Option ℕ → Option ℕ → GroupRequest
  changes_expense : ℕ → ℕ → Option ℤ → Option ℕ → Option ℕ → Option ℕ → Option ℕ → GroupRequest
  removes_expense : ℕ → ℕ → GroupRequest
  adds_budget : Context → ℕ → ℕ → ℕ → ℤ → GroupRequest
  changes_budget : ℕ → ℕ → Option ℕ → Option ℕ → Option ℤ → GroupRequest
  removes_budget : ℕ → ℕ → GroupRequest
  closes : Context → ℕ → ℕ → ℕ → GroupRequest

-- The database after a request.
abbrev pub left_by : {A : Type 0} → GroupDb → Result (A × GroupDb) → GroupDb
left_by db (ok (_, db')) = db'
left_by db (err e) = db

unfoldable pub serve_group : GroupRequest → GroupDb → GroupDb
serve_group (adds_member ctx b name phone photo) db =
    left_by db (create_member ctx b name phone photo db)
serve_group (changes_member b i name phone photo status) db =
    left_by db (update_member b i name phone photo status db)
serve_group (removes_member b i) db = left_by db (delete_member b i db)
serve_group (adds_contribution ctx b i amount date text) db =
    left_by db (create_contribution ctx b i amount date text db)
serve_group (changes_contribution b i member amount date text) db =
    left_by db (update_contribution b i member amount date text db)
serve_group (removes_contribution b i) db = left_by db (delete_contribution b i db)
serve_group (adds_expense ctx other b amount date category description paid_by) db =
    left_by db (create_expense ctx other b amount date category description paid_by db)
serve_group (changes_expense b i amount date category description paid_by) db =
    left_by db (update_expense b i amount date category description paid_by db)
serve_group (removes_expense b i) db = left_by db (delete_expense b i db)
serve_group (adds_budget ctx b month year amount) db =
    left_by db (create_month_budget ctx b month year amount db)
serve_group (changes_budget b i month year amount) db =
    left_by db (update_month_budget b i month year amount db)
serve_group (removes_budget b i) db = left_by db (delete_month_budget b i db)
serve_group (closes ctx b from to) db = left_by db (close_settlement ctx b from to db)

unfoldable pub serve_all : List GroupRequest → GroupDb → GroupDb
unfolding serve_group
serve_all [] db = db
serve_all (r ∷ rs) db = serve_all rs (serve_group r db)

any-append_left :
    (p : Settlement → Bool) (xs ys : List Settlement) → any p xs ≡ true → any p (xs ++ ys) ≡ true
any-append_left p [] ys h = absurd (ground arith)
any-append_left p (x ∷ xs) ys h = ground (arith, any-append_left p xs ys)

module _ (p : Settlement → Bool) where
  abbrev Holds : GroupDb → Type 0
  Holds db = any p db.settlements ≡ true

  close_settlement-keeps :
      (ctx : Context) (b from to : ℕ) (db : GroupDb)
      → Holds db
      → Holds (left_by db (close_settlement ctx b from to db))
  close_settlement-keeps ctx b from to db h =
      elim (step-cases (close_settlement ctx b from to db)) [
        | inl (e, failed) ↦ rw failed h
        | inr (s, db', passed) ↦
            let rows =
              ap (λ (x : GroupDb). any p x.settlements)
                (close_settlement-IsClosing ctx b from to db s db' passed).after in
            rw passed (rows ∙ any-append_left p db.settlements (s ∷ []) h)
      ]

  -- What holds of a closed settlement holds after any request.
  serve_group-keeps : (r : GroupRequest) (db : GroupDb) → Holds db → Holds (serve_group r db)
  unfolding serve_group create_member update_member delete_member create_contribution
      update_contribution delete_contribution create_expense update_expense delete_expense
      create_month_budget update_month_budget delete_month_budget require_member
      require_contribution require_expense require_month_budget require_named_member
  serve_group-keeps (GroupRequest.adds_member ctx b name phone photo) db h = ground arith
  serve_group-keeps (GroupRequest.changes_member b i name phone photo status) db h = ground arith
  serve_group-keeps (GroupRequest.removes_member b i) db h = ground arith
  serve_group-keeps (GroupRequest.adds_contribution ctx b i amount date text) db h = ground arith
  serve_group-keeps (GroupRequest.changes_contribution b i member amount date text) db h =
      ground arith
  serve_group-keeps (GroupRequest.removes_contribution b i) db h = ground arith
  serve_group-keeps (GroupRequest.adds_expense ctx other b amount date category description paid_by)
        db h =
      ground arith
  serve_group-keeps (GroupRequest.changes_expense b i amount date category description paid_by) db
        h =
      ground arith
  serve_group-keeps (GroupRequest.removes_expense b i) db h = ground arith
  serve_group-keeps (GroupRequest.adds_budget ctx b month year amount) db h = ground arith
  serve_group-keeps (GroupRequest.changes_budget b i month year amount) db h = ground arith
  serve_group-keeps (GroupRequest.removes_budget b i) db h = ground arith
  serve_group-keeps (GroupRequest.closes ctx b from to) db h =
      close_settlement-keeps ctx b from to db h

  pub serve_all-keeps :
      (rs : List GroupRequest) (db : GroupDb)
      → any p db.settlements ≡ true
      → any p (serve_all rs db).settlements ≡ true
  unfolding serve_all
  serve_all-keeps [] db h = h
  serve_all-keeps (r ∷ rs) db h = serve_all-keeps rs (serve_group r db) (serve_group-keeps r db h)

any-snoc_self :
    (p : Settlement → Bool) (s : Settlement) (ss : List Settlement)
    → p s ≡ true
    → any p (ss ++ s ∷ []) ≡ true
any-snoc_self p s [] h = ground arith
any-snoc_self p s (x ∷ ss) h = ground (arith, any-snoc_self p s ss h)

-- After a close, and any requests after it on the members, contributions, expenses, month budgets
-- and settlements of any group, whichever of them go through, no close of a period of the same
-- group that shares a day with it goes through: a double click or a second tab closes nothing
-- twice, and none of these requests makes a closed period free again.
pub close_settlement-once :
    (ctx ctx' : Context) (b from to from' to' : ℕ) (db : GroupDb) (s : Settlement) (db1 : GroupDb)
    (rs : List GroupRequest) (s' : Settlement) (db2 : GroupDb)
    → close_settlement ctx b from to db ≡ ok (s, db1)
    → from ≤ to'
    → from' ≤ to
    → close_settlement ctx' b from' to' (serve_all rs db1) ≢ ok (s', db2)
close_settlement-once ctx ctx' b from to from' to' db s db1 rs s' db2 first k k' second =
    let c = close_settlement-IsClosing ctx b from to db s db1 first in
    let c' = close_settlement-IsClosing ctx' b from' to' (serve_all rs db1) s' db2 second in
    let (starts, ends, _) = computed_period b from to db in
    let result = compute_settlement b from to db in
    let hit : overlaps b from' to' (settlement_of ctx b result) ≡ true =
      rw (starts, ends) (ground arith) in
    let clash =
      any-snoc_self (overlaps b from' to') s db.settlements
        (subst (λ (x : Settlement). overlaps b from' to' x ≡ true) (sym c.row) hit) in
    let rows = ap (λ (x : GroupDb). any (overlaps b from' to') x.settlements) c.after in
    let still = serve_all-keeps (overlaps b from' to') rs db1 (rows ∙ clash) in
    let none_left = c'.apart in ground arith
