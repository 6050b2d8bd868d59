-- ===== src/Ledger/Once.antt =====
-- A retried posting: src/transactions/transactions.service.ts, `createTransaction`.
use cashfo_backend.Base.{
  ℕ, ◌≡◌, refl, ◌∙◌, ap, true, none, some, List, arith, ◌==◌, inl, inr, truthy, find_where,
}
use cashfo_backend.Schema.{Transaction, CreateTransaction, Context, Db, ok, has_key}
use cashfo_backend.Ledger.Posting.{
  find_by_key, post_seeing, replay, create_racing, create_transaction,
}
use cashfo_backend.Ledger.Inversion.{post_new-IsPosted}
use cashfo_backend.Ledger.Later.{Later}
use cashfo_backend.Ledger.Standing.{as_it_stands, StandsUnder-later}
use cashfo_backend.Ledger.Keys.{
  Outcome, create_racing-Outcome, stored_after, find_by_key-same, find_by_key-taken,
}

module _ (ctx ctx' : Context) (b k : ℕ) (dto dto' : CreateTransaction) (db : Db) (t : Transaction)
    (db1 : Db) (keyed : truthy dto.idempotency_key ≡ some k)
    (same_key : dto'.idempotency_key ≡ dto.idempotency_key)
    (first : create_transaction ctx b dto db ≡ ok (t, db1)) where
  stored : (find_by_key dto' db1.transactions ≡ some t) × ((t.business_id == b) ≡ true)
  unfolding create_transaction
  stored =
      let s =
        stored_after ctx b k dto db t db1 keyed
          (create_racing-Outcome db.transactions ctx b dto db t db1 first) in
      (find_by_key-same dto dto' db1.transactions same_key ∙ s.0, s.1)

  -- Once a request with an idempotency key (not empty) has gone through, and any number of
  -- postings and voids, under ids that no transaction has, and of requests that leave the
  -- transactions alone after it, a request of the same workspace with that key, whatever else it
  -- says, changes nothing and is answered with the same transaction as it stands then: the same
  -- row, save for the marks of a void.
  pub create_transaction-repeat :
      (db2 : Db)
      → Later db1 db2
      → (u : Transaction) × (u ≡ as_it_stands u t)
        × (create_transaction ctx' b dto' db2 ≡ ok (u, db2))
  unfolding create_transaction create_racing post_seeing replay find_by_key
  create_transaction-repeat db2 later =
      let key : truthy dto'.idempotency_key ≡ some k = ap truthy same_key ∙ keyed in
      let found : find_where (has_key (some k)) db1.transactions ≡ some t =
        ground (arith, stored.0) in
      let s =
        StandsUnder-later k t db1 db2 later (record { row = t; found = found; same = refl }) in
      let own : (s.row.business_id == b) ≡ true =
        ap (λ (x : Transaction). x.business_id == b) s.same ∙ stored.1 in
      (s.row, s.same, ground (arith, s.found))

  loser :
      (seen : List Transaction) (u : Transaction) (db2 : Db)
      → find_by_key dto' seen ≡ none
      → Outcome seen ctx' b dto' db1 u db2
      → ◌≡◌ {A = Transaction × Db} (u, db2) (t, db1)
  loser seen u db2 early (Outcome.posted h) =
      let p = post_new-IsPosted ctx' b dto' db1 u db2 h in
      let taken = find_by_key-taken dto' t db1.transactions stored.0 in absurd (ground arith)
  loser seen u db2 early (Outcome.replayed (inl h) own same) = absurd (ground arith)
  loser seen u db2 early (Outcome.replayed (inr h) own same) = ground (arith, stored.0)

  -- A request that raced another of its workspace with the same key, and looked the key up before
  -- that one committed, posts nothing of its own: if it goes through, it answers with the
  -- winner's transaction and leaves the database as the winner left it.
  pub create_racing-loser :
      (seen : List Transaction) (u : Transaction) (db2 : Db)
      → find_by_key dto' seen ≡ none
      → create_racing seen ctx' b dto' db1 ≡ ok (u, db2)
      → ◌≡◌ {A = Transaction × Db} (u, db2) (t, db1)
  create_racing-loser seen u db2 early h =
      loser seen u db2 early (create_racing-Outcome seen ctx' b dto' db1 u db2 h)
