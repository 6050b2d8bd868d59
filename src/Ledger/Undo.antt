-- ===== src/Ledger/Undo.antt =====
-- A void against the posting that it undoes: src/transactions/transactions.service.ts.
use cashfo_backend.Base.{
  ℕ, ◌≡◌, sym, ◌∙◌, ap, subst, none, some, List, [], ◌∷◌, ◌++◌, ℤ, ◌+ℤ◌, negated, int_laws, arith,
  ◌==◌, inl, inr, find_where-append, Option-cases,
}
use cashfo_backend.Schema.{
  Account, Transaction, CreateTransaction, Context, Db, ok, find_account, find_transaction,
  with_balance,
}
use cashfo_backend.Ledger.Posting.{post_new, find_by_key, create_transaction}
use cashfo_backend.Ledger.Voiding.{void_transaction}
use cashfo_backend.Ledger.Inversion.{post_new-IsPosted, IsVoided, void_seeing-IsVoided}
use cashfo_backend.Ledger.Deltas.{delta}
use cashfo_backend.Ledger.Consistency.{
  IsConsistent, post_new-account, post_new-entries, post_new-IsSettled, post_new-IsConsistent,
  void-account, voiding_IsSettled,
}
use cashfo_backend.Ledger.Keys.{Outcome, create_racing-Outcome}

-- A request whose key is new goes through by posting a new row.
pub posted_if_new :
    (ctx : Context) (b : ℕ) (dto : CreateTransaction) (db : Db) (t : Transaction) (db' : Db)
    → find_by_key dto db.transactions ≡ none
    → create_transaction ctx b dto db ≡ ok (t, db')
    → post_new ctx b dto db ≡ ok (t, db')
unfolding create_transaction
posted_if_new ctx b dto db t db' new h =
    of_outcome (create_racing-Outcome db.transactions ctx b dto db t db' h)
  where
    of_outcome : Outcome db.transactions ctx b dto db t db' → post_new ctx b dto db ≡ ok (t, db')
    of_outcome (Outcome.posted p) = p
    of_outcome (Outcome.replayed (inl f) own same) = absurd (ground arith)
    of_outcome (Outcome.replayed (inr f) own same) = absurd (ground arith)

-- A posting under a new key stores one row, which holds the request's entries, and raises the
-- cached balance of each account by what these entries say: on an asset or expense account debits
-- less credits, on any other account credits less debits. The rest of an account stays.
pub create_transaction-moves :
    (ctx : Context) (b : ℕ) (dto : CreateTransaction) (db : Db) (t : Transaction) (db' : Db) (i : ℕ)
    (a : Account)
    → IsConsistent db
    → find_by_key dto db.transactions ≡ none
    → create_transaction ctx b dto db ≡ ok (t, db')
    → find_account i db.accounts ≡ some a
    → (db'.transactions ≡ db.transactions ++ t ∷ [])
      × (t.entries ≡ dto.entries)
      × (find_account i db'.accounts
          ≡ some (with_balance (a.current_balance +ℤ delta a dto.entries) a))
create_transaction-moves ctx b dto db t db' i a valid new h e =
    let p = posted_if_new ctx b dto db t db' new h in
    let same = post_new-entries ctx b dto db t db' p in
    (
      ap (λ (x : Db). x.transactions) (post_new-IsSettled ctx b dto db t db' p).rest,
      same,
      subst
          (λ es.
            find_account i db'.accounts ≡ some (with_balance (a.current_balance +ℤ delta a es) a))
          same (post_new-account ctx b dto db t db' p i a valid e),
    )

find_transaction-snoc :
    (i : ℕ) (t : Transaction) (ts : List Transaction)
    → find_transaction i ts ≡ none
    → t.id ≡ i
    → find_transaction i (ts ++ t ∷ []) ≡ some t
find_transaction-snoc i t ts absent same =
    ground (arith, find_where-append (λ (r : Transaction). r.id == i) ts (t ∷ []))

undone : (a : Account) (d : ℤ) → with_balance (a.current_balance +ℤ d +ℤ negated d) a ≡ a
undone a d =
    let same : a.current_balance +ℤ d +ℤ negated d ≡ a.current_balance = omega int_laws in
    ap (λ (v : ℤ). with_balance v a) same

module _ (ctx ctx' : Context) (b reason : ℕ) (dto : CreateTransaction) (db : Db) (t : Transaction)
    (db1 : Db) (r : ℕ × Transaction) (db2 : Db) (valid : IsConsistent db)
    (new_key : find_by_key dto db.transactions ≡ none)
    (new_row : find_transaction ctx.new_id db.transactions ≡ none)
    (posting : create_transaction ctx b dto db ≡ ok (t, db1))
    (voiding : void_transaction ctx' b ctx.new_id reason db1 ≡ ok (r, db2)) where
  the_post : post_new ctx b dto db ≡ ok (t, db1)
  the_post = posted_if_new ctx b dto db t db1 new_key posting

  the_row : find_transaction ctx.new_id db1.transactions ≡ some t
  the_row =
      let rows : db1.transactions ≡ db.transactions ++ t ∷ [] =
        ap (λ (x : Db). x.transactions) (post_new-IsSettled ctx b dto db t db1 the_post).rest in
      let same_id : t.id ≡ ctx.new_id =
        ap (λ (x : Transaction). x.id) (post_new-IsPosted ctx b dto db t db1 the_post).row in
      rw rows (find_transaction-snoc ctx.new_id t db.transactions new_row same_id)

  the_void : IsVoided db1.transactions ctx' b ctx.new_id reason db1 t r.1 db2
  unfolding void_transaction
  the_void =
      let (u, v, _) =
        void_seeing-IsVoided db1.transactions ctx' b ctx.new_id reason db1 r.0 r.1 db2 voiding in
      let same : u ≡ t = ground (arith, v.found, the_row) in
      subst (λ (x : Transaction). IsVoided db1.transactions ctx' b ctx.new_id reason db1 x r.1 db2)
        same v

  known_restored :
      (i : ℕ) (a : Account)
      → find_account i db.accounts ≡ some a
      → find_account i db2.accounts ≡ some a
  unfolding delta
  known_restored i a e =
      let moved = post_new-account ctx b dto db t db1 the_post i a valid e in
      let a1 : Account = with_balance (a.current_balance +ℤ delta a t.entries) a in
      let back =
        void-account db1.transactions ctx' b ctx.new_id reason db1 t r.1 db2 the_void i a1
          (post_new-IsConsistent ctx b dto db t db1 the_post valid) moved in
      back ∙ ap some (undone a (delta a t.entries))

  unknown_restored :
      (i : ℕ) → find_account i db.accounts ≡ none → find_account i db2.accounts ≡ none
  unknown_restored i e =
      let s1 = (post_new-IsSettled ctx b dto db t db1 the_post).accounts i in
      let s2 =
        (voiding_IsSettled db1.transactions ctx' b ctx.new_id reason db1 t r.1 db2
            the_void).accounts
          i in
      ground arith

  -- Voiding a posting right after it was made puts every account back to what it was, for a
  -- posting under a new key and a new row id.
  pub post-void-restores : (i : ℕ) → find_account i db2.accounts ≡ find_account i db.accounts
  post-void-restores i = elim (Option-cases (find_account i db.accounts)) [
    | inl e ↦ unknown_restored i e ∙ sym e
    | inr (a, e) ↦ known_restored i a e ∙ sym e
  ]
