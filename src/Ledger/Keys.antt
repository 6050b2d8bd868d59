-- ===== src/Ledger/Keys.antt =====
-- Idempotency keys: a posting goes through once for each key, also when two requests race.
use cashfo_backend.Base.{
  ℕ, ◌≡◌, ◌⊎◌, refl, ◌∙◌, ap, Bool, true, false, Option, none, some, List, [], ◌∷◌, ◌++◌, arith,
  ◌==◌, truthy, any, find_where, find_where-append, Option-cases, inl, inr,
}
use cashfo_backend.Schema.{
  Transaction, CreateTransaction, Context, Db, Result, ok, err, Error, has_key, key_taken,
  unique_violation,
}
use cashfo_backend.Ledger.Posting.{
  post_new, find_by_key, post_seeing, retry_on_violation, create_racing,
}
use cashfo_backend.Ledger.Inversion.{post_new-IsPosted}
use cashfo_backend.Ledger.Consistency.{post_new-IsSettled}

-- A call that went through either posted a new row, or answered with a stored row under its key,
-- of its own workspace, and changed nothing.
pub data Outcome (seen : List Transaction) (ctx : Context) (b : ℕ) (dto : CreateTransaction)
    (db : Db) (t : Transaction) (db' : Db) : Type 0 where
  posted : post_new ctx b dto db ≡ ok (t, db') → Outcome seen ctx b dto db t db'
  replayed :
      (find_by_key dto seen ≡ some t) ⊎ (find_by_key dto db.transactions ≡ some t)
      → (t.business_id == b) ≡ true
      → db' ≡ db
      → Outcome seen ctx b dto db t db'

post_seeing-Outcome :
    (seen : List Transaction) (ctx : Context) (b : ℕ) (dto : CreateTransaction) (db : Db)
    (t : Transaction) (db' : Db)
    → post_seeing seen ctx b dto db ≡ ok (t, db')
    → Outcome seen ctx b dto db t db'
unfolding post_seeing
post_seeing-Outcome seen ctx b dto db t db' h = elim (Option-cases (find_by_key dto seen)) [
  | inl e ↦ posted (ground arith)
  | inr (u, e) ↦ replayed (inl (ground arith)) (ground arith) (ground arith)
]

retry-Outcome :
    (ctx : Context) (b : ℕ) (dto : CreateTransaction) (db : Db) (e : Error) (t : Transaction)
    (db' : Db)
    → retry_on_violation ctx b dto db e ≡ ok (t, db')
    → post_seeing db.transactions ctx b dto db ≡ ok (t, db')
unfolding retry_on_violation
retry-Outcome ctx b dto db unique_violation t db' h = ground arith
retry-Outcome ctx b dto db e t db' h = cc

result-cases :
    (r : Result (Transaction × Db))
    → ((x : Transaction × Db) × (r ≡ ok x)) ⊎ ((e : Error) × (r ≡ err e))
result-cases (ok x) = inl (x, refl)
result-cases (err e) = inr (e, refl)

pub create_racing-Outcome :
    (seen : List Transaction) (ctx : Context) (b : ℕ) (dto : CreateTransaction) (db : Db)
    (t : Transaction) (db' : Db)
    → create_racing seen ctx b dto db ≡ ok (t, db')
    → Outcome seen ctx b dto db t db'
unfolding create_racing post_seeing
create_racing-Outcome seen ctx b dto db t db' h =
    elim (result-cases (post_seeing seen ctx b dto db)) [
      | inl (x, e) ↦ post_seeing-Outcome seen ctx b dto db t db' (ground arith)
      | inr (x, e) ↦
          elim (post_seeing-Outcome db.transactions ctx b dto db t db'
            (retry-Outcome ctx b dto db x t db' (ground arith))) [
              | posted p ↦ posted p
              | replayed f own same ↦ replayed (inr (ground arith)) own same
            ]
    ]

-- The idempotency keys of the stored rows are different from one another; any number has none.
abbrev pub UniqueKeys : List Transaction → Type 0
UniqueKeys [] = Unit
UniqueKeys (t ∷ ts) = (key_taken t.idempotency_key ts ≡ false) × UniqueKeys ts

key_taken-snoc :
    (u t : Transaction) (ts : List Transaction)
    → key_taken u.idempotency_key ts ≡ false
    → key_taken t.idempotency_key (u ∷ ts) ≡ false
    → key_taken u.idempotency_key (ts ++ t ∷ []) ≡ false
key_taken-snoc u t [] h k = ground arith
key_taken-snoc u t (x ∷ ts) h k = ground (arith, key_taken-snoc u t ts)

pub UniqueKeys-snoc :
    (t : Transaction) (ts : List Transaction)
    → key_taken t.idempotency_key ts ≡ false
    → UniqueKeys ts
    → UniqueKeys (ts ++ t ∷ [])
UniqueKeys-snoc t [] h k = ground arith
UniqueKeys-snoc t (x ∷ ts) h k =
    (key_taken-snoc x t ts k.0 h, UniqueKeys-snoc t ts (ground arith) k.1)

find_where-of-any {ℓ} :
    {A : Type ℓ} (p : A → Bool) (xs : List A) → any p xs ≡ false → find_where p xs ≡ none
find_where-of-any p [] h = refl
find_where-of-any p (x ∷ xs) h = ground (arith, find_where-of-any p xs)

any-of-find_where {ℓ} :
    {A : Type ℓ} (p : A → Bool) (xs : List A) {x : A} → find_where p xs ≡ some x → any p xs ≡ true
any-of-find_where p [] h = cc
any-of-find_where p (y ∷ xs) {x = x} h = ground (arith, any-of-find_where p xs {x = x})

truthy-some : (o : Option ℕ) (k : ℕ) → truthy o ≡ some k → o ≡ some k
truthy-some none k h = cc
truthy-some (some n) k h = ground arith

find_by_key-snoc :
    (dto : CreateTransaction) (k : ℕ) (t : Transaction) (ts : List Transaction)
    → truthy dto.idempotency_key ≡ some k
    → t.idempotency_key ≡ some k
    → key_taken (some k) ts ≡ false
    → find_by_key dto (ts ++ t ∷ []) ≡ some t
unfolding find_by_key
find_by_key-snoc dto k t ts key same free = ground (
  arith,
  find_where-append (has_key (some k)) ts (t ∷ []),
  find_where-of-any (has_key (some k)) ts free,
)

pub find_by_key-taken :
    (dto : CreateTransaction) (t : Transaction) (ts : List Transaction)
    → find_by_key dto ts ≡ some t
    → key_taken dto.idempotency_key ts ≡ true
unfolding find_by_key
find_by_key-taken dto t ts h = elim (Option-cases (truthy dto.idempotency_key)) [
  | inl e ↦ absurd (ground arith)
  | inr (k, e) ↦
      rw (truthy-some dto.idempotency_key k e)
        (any-of-find_where (has_key (some k)) ts {x = t} (ground arith))
]

pub find_by_key-same :
    (dto dto' : CreateTransaction) (ts : List Transaction)
    → dto'.idempotency_key ≡ dto.idempotency_key
    → find_by_key dto' ts ≡ find_by_key dto ts
unfolding find_by_key
find_by_key-same dto dto' ts e = rw e

module _ (ctx : Context) (b k : ℕ) (dto : CreateTransaction) (db : Db) (t : Transaction) (db1 : Db)
    (keyed : truthy dto.idempotency_key ≡ some k) where
  -- After a posting under a key the row is found under that key.
  stored_after_posting :
      post_new ctx b dto db ≡ ok (t, db1)
      → (find_by_key dto db1.transactions ≡ some t) × ((t.business_id == b) ≡ true)
  stored_after_posting h =
      let p = post_new-IsPosted ctx b dto db t db1 h in
      let key : dto.idempotency_key ≡ some k = truthy-some dto.idempotency_key k keyed in
      let row_key : t.idempotency_key ≡ some k =
        ap (λ (x : Transaction). x.idempotency_key) p.row ∙ key in
      let row_own : t.business_id ≡ b = ap (λ (x : Transaction). x.business_id) p.row in
      let rows : db1.transactions ≡ db.transactions ++ t ∷ [] =
        ap (λ (x : Db). x.transactions) (post_new-IsSettled ctx b dto db t db1 h).rest in
      let free : key_taken (some k) db.transactions ≡ false = rw key at p.free in
      (rw rows (find_by_key-snoc dto k t db.transactions keyed row_key free), ground arith)

  pub stored_after :
      Outcome db.transactions ctx b dto db t db1
      → (find_by_key dto db1.transactions ≡ some t) × ((t.business_id == b) ≡ true)
  stored_after (posted h) = stored_after_posting h
  stored_after (replayed (inl h) own same) = (rw same h, own)
  stored_after (replayed (inr h) own same) = (rw same h, own)
