-- ===== src/Ledger/Finality.antt =====
-- A transaction is voided once: src/transactions/transactions.service.ts, `voidTransaction`.
use cashfo_backend.Base.{
  ℕ, ◌≡◌, ◌≢◌, refl, sym, ◌∙◌, ap, subst, true, false, none, List, [], ◌∷◌, ◌++◌, arith, ◌==◌, any,
  length, filter, update_where, Bool-cases, inl, inr,
}
use cashfo_backend.Schema.{Transaction, Context, Db, ok, find_transaction}
use cashfo_backend.Ledger.Voiding.{void_seeing, is_claimable, mark_voided}
use cashfo_backend.Ledger.Inversion.{void_seeing-IsVoided}
use cashfo_backend.Ledger.Consistency.{void-transactions}
use cashfo_backend.Ledger.Later.{Later, Change, Step-Change}

-- A row with the id is stored, and none with it is posted.
record IsGone (i : ℕ) (rows : List Transaction) : Type 0 where
  stored : any (λ (t : Transaction). t.id == i) rows ≡ true
  settled : any (is_claimable i) rows ≡ false

stored-append :
    (i : ℕ) (rows more : List Transaction)
    → any (λ (t : Transaction). t.id == i) rows ≡ true
    → any (λ (t : Transaction). t.id == i) (rows ++ more) ≡ true
stored-append i [] more h = absurd (ground arith)
stored-append i (t ∷ rows) more h = ground (arith, stored-append i rows more)

stored-update :
    (i j reason : ℕ) (ctx : Context) (rows : List Transaction)
    → any
        (λ (t : Transaction). t.id == i)
        (update_where (is_claimable j) (mark_voided ctx reason) rows)
      ≡ any (λ (t : Transaction). t.id == i) rows
stored-update i j reason ctx [] = refl
stored-update i j reason ctx (t ∷ rows) = elim (Bool-cases (is_claimable j t)) [
  | inl c ↦ rw (c, stored-update i j reason ctx rows) refl
  | inr c ↦ rw (c, stored-update i j reason ctx rows) refl
]

settled-append :
    (i : ℕ) (rows : List Transaction) (t : Transaction)
    → any (is_claimable i) rows ≡ false
    → (t.id == i) ≡ false
    → any (is_claimable i) (rows ++ t ∷ []) ≡ false
settled-append i [] t h k = ground arith
settled-append i (r ∷ rows) t h k = ground (arith, settled-append i rows t)

settled-update :
    (i j reason : ℕ) (ctx : Context) (rows : List Transaction)
    → any (is_claimable i) rows ≡ false
    → any (is_claimable i) (update_where (is_claimable j) (mark_voided ctx reason) rows) ≡ false
settled-update i j reason ctx [] h = refl
settled-update i j reason ctx (t ∷ rows) h = elim (Bool-cases (is_claimable j t)) [
  | inl c ↦ rw c (ground (arith, settled-update i j reason ctx rows))
  | inr c ↦ rw c (ground (arith, settled-update i j reason ctx rows))
]

-- An id that no row has is another than one that is stored.
fresh-apart :
    (i n : ℕ) (rows : List Transaction)
    → find_transaction n rows ≡ none
    → any (λ (t : Transaction). t.id == i) rows ≡ true
    → (n == i) ≡ false
fresh-apart i n [] fresh h = absurd (ground arith)
fresh-apart i n (t ∷ rows) fresh h = ground (arith, fresh-apart i n rows)

IsGone-changed :
    (i : ℕ) (rows rows' : List Transaction) → Change rows rows' → IsGone i rows → IsGone i rows'
IsGone-changed i rows rows' (Change.kept e) g = subst (IsGone i) (sym e) g
IsGone-changed i rows rows' (Change.added t fresh e) g = subst (IsGone i) (sym e) (record {
  stored = stored-append i rows (t ∷ []) g.stored;
  settled = settled-append i rows t g.settled (fresh-apart i t.id rows fresh g.stored);
})
IsGone-changed i rows rows' (Change.marked j reason ctx rev fresh e) g =
    subst (IsGone i) (sym e) (record {
      stored = stored-append i _ (rev ∷ []) (stored-update i j reason ctx rows ∙ g.stored);
      settled =
          settled-append i _ rev (settled-update i j reason ctx rows g.settled)
            (fresh-apart i rev.id rows fresh g.stored);
    })

-- A transaction that is no longer posted stays so.
IsGone-later :
    (i : ℕ) (db db' : Db) → Later db db' → IsGone i db.transactions → IsGone i db'.transactions
IsGone-later i db db' Later.at_once g = g
IsGone-later i db db' (Later.after {db1 = db1} first rest) g =
    IsGone-later i db1 db' rest
      (IsGone-changed i db.transactions db1.transactions (Step-Change first) g)

-- A row that can be claimed is stored.
claimable-stored :
    (i : ℕ) (rows : List Transaction)
    → length (filter (is_claimable i) rows) ≢ 0
    → any (λ (t : Transaction). t.id == i) rows ≡ true
claimable-stored i [] h = absurd (ground arith)
claimable-stored i (t ∷ rows) h = elim (Bool-cases (is_claimable i t)) [
  | inl c ↦ ground (arith, c)
  | inr c ↦
      let more : length (filter (is_claimable i) rows) ≢ 0 =
        subst (λ (n : ℕ). n ≢ 0) (rw c refl) h in
      let here = claimable-stored i rows more in ground arith
]

none-claimable :
    (i : ℕ) (rows : List Transaction)
    → any (is_claimable i) rows ≡ false
    → length (filter (is_claimable i) rows) ≡ 0
none-claimable i [] h = refl
none-claimable i (t ∷ rows) h = ground (arith, none-claimable i rows)

-- The claim leaves none.
claimed-settled :
    (i reason : ℕ) (ctx : Context) (rows : List Transaction)
    → any (is_claimable i) (update_where (is_claimable i) (mark_voided ctx reason) rows) ≡ false
claimed-settled i reason ctx [] = refl
claimed-settled i reason ctx (t ∷ rows) = elim (Bool-cases (is_claimable i t)) [
  | inl c ↦ rw c (ground (arith, claimed-settled i reason ctx rows))
  | inr c ↦ rw (c, c) (claimed-settled i reason ctx rows)
]

voided-IsGone :
    (seen : List Transaction) (ctx : Context) (b i reason : ℕ) (db : Db) (r : ℕ × Transaction)
    (db' : Db)
    → find_transaction ctx.new_id db.transactions ≡ none
    → void_seeing seen ctx b i reason db ≡ ok (r, db')
    → IsGone i db'.transactions
voided-IsGone seen ctx b i reason db (o, rev) db' fresh h =
    let (t, v, _) = void_seeing-IsVoided seen ctx b i reason db o rev db' h in
    let stored = claimable-stored i db.transactions v.claimable in
    let new : find_transaction rev.id db.transactions ≡ none =
      ap (λ (x : Transaction). find_transaction x.id db.transactions) v.row ∙ fresh in
    subst (IsGone i) (sym (void-transactions seen ctx b i reason db t rev db' v)) (record {
      stored = stored-append i _ (rev ∷ []) (stored-update i i reason ctx db.transactions ∙ stored);
      settled =
          settled-append i _ rev (claimed-settled i reason ctx db.transactions)
            (fresh-apart i rev.id db.transactions new stored);
    })

-- Once a void of a transaction has gone through, and any number of postings, voids and requests
-- that leave the transactions alone after it, no void of that transaction does, whoever asks, from
-- whichever workspace, and whichever transactions its first read saw: a void that raced the first
-- one posts no second reversal. The database draws ids that no transaction has.
pub void_seeing-once :
    (seen seen' : List Transaction) (ctx ctx' : Context) (b b' i reason reason' : ℕ) (db : Db)
    (r : ℕ × Transaction) (db1 db2 : Db) (r' : ℕ × Transaction) (db3 : Db)
    → find_transaction ctx.new_id db.transactions ≡ none
    → void_seeing seen ctx b i reason db ≡ ok (r, db1)
    → Later db1 db2
    → void_seeing seen' ctx' b' i reason' db2 ≢ ok (r', db3)
void_seeing-once seen seen' ctx ctx' b b' i reason reason' db r db1 db2 (o', rev') db3 fresh h later
      h' =
    let gone = IsGone-later i db1 db2 later (voided-IsGone seen ctx b i reason db r db1 fresh h) in
    let (t', v', _) = void_seeing-IsVoided seen' ctx' b' i reason' db2 o' rev' db3 h' in
    v'.claimable (none-claimable i db2.transactions gone.settled)
