-- ===== src/Ledger/Preserving.antt =====
-- Actions on the ledger that keep its invariant, composed as the code composes them: the services
-- that post through src/transactions/transactions.service.ts.
use cashfo_backend.Base.{ℕ, ◌≡◌, sym, subst, Bool, arith, inl, inr}
use cashfo_backend.Schema.{
  CreateTransaction, Context, Db, Tx, ok, Error, step-cases, ◌>>=◌, throw_if,
}
use cashfo_backend.Ledger.Posting.{post, create_racing, create_transaction}
use cashfo_backend.Ledger.Invariant.{IsSound, create_racing-IsSound}

-- The action leaves a sound ledger sound, whenever it goes through.
pub record Preserves {A : Type 0} (m : Tx A) : Type 0 where
  pub sound_after : (db db' : Db) (a : A) → IsSound db → m db ≡ ok (a, db') → IsSound db'

pub bind-Preserves :
    {A B : Type 0} (m : Tx A) (k : A → Tx B)
    → Preserves m
    → ((a : A) → Preserves (k a))
    → Preserves (m >>= k)
bind-Preserves m k first later = record {
  sound_after = λ db db' b sound h. elim (step-cases (m db)) [
    | inl (e, failed) ↦ absurd (ground arith)
    | inr (a, db1, passed) ↦
        let went : k a db1 ≡ ok (b, db') = ground arith in
        (later a).sound_after db1 db' b (first.sound_after db db1 a sound passed) went
  ];
}

-- A lookup changes nothing.
pub lookup-Preserves :
    {A : Type 0} (m : Tx A) → ((db db' : Db) (a : A) → m db ≡ ok (a, db') → db' ≡ db) → Preserves m
lookup-Preserves m keeps = record {
  sound_after = λ db db' a sound h. subst IsSound (sym (keeps db db' a h)) sound;
}

pub throw_if-Preserves : (c : Bool) (e : Error) → Preserves (throw_if c e)
throw_if-Preserves c e = lookup-Preserves (throw_if c e) λ db db' a h. ground arith

pub create_transaction-Preserves :
    (ctx : Context) (b : ℕ) (dto : CreateTransaction) → Preserves (create_transaction ctx b dto)
unfolding create_transaction
create_transaction-Preserves ctx b dto = record {
  sound_after =
      λ db db' t sound h. create_racing-IsSound db.transactions ctx b dto db t db' sound h;
}

pub post-Preserves : (ctx : Context) (b : ℕ) (dto : CreateTransaction) → Preserves (post ctx b dto)
unfolding post create_racing
post-Preserves ctx b dto = record {
  sound_after = λ db db' t sound h.
      let answered : create_racing db.transactions ctx b dto db ≡ ok (t, db') = ground arith in
      create_racing-IsSound db.transactions ctx b dto db t db' sound answered;
}
