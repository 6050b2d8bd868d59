-- ===== src/Ledger/Later.antt =====
-- What the stored transactions become while other requests go through:
-- src/transactions/transactions.service.ts.
use cashfo_backend.Base.{ℕ, ◌≡◌, ◌∙◌, ap, none, List, [], ◌∷◌, ◌++◌, update_where}
use cashfo_backend.Schema.{Transaction, CreateTransaction, Context, Db, ok, find_transaction}
use cashfo_backend.Ledger.Posting.{create_racing}
use cashfo_backend.Ledger.Voiding.{void_seeing, is_claimable, mark_voided}
use cashfo_backend.Ledger.Inversion.{post_new-IsPosted, void_seeing-IsVoided}
use cashfo_backend.Ledger.Consistency.{post_new-IsSettled, void-transactions}
use cashfo_backend.Ledger.Keys.{Outcome, create_racing-Outcome}

-- One request that goes through: a posting or a void, whichever transactions its first read saw, or
-- one of any other part that leaves the transactions alone. The database draws an id that no
-- transaction has.
pub data Step (db db' : Db) : Type 0 where
  posts :
      (seen : List Transaction) (ctx : Context) (b : ℕ) (dto : CreateTransaction) (t : Transaction)
      → find_transaction ctx.new_id db.transactions ≡ none
      → create_racing seen ctx b dto db ≡ ok (t, db')
      → Step db db'
  voids :
      (seen : List Transaction) (ctx : Context) (b i reason o : ℕ) (rev : Transaction)
      → find_transaction ctx.new_id db.transactions ≡ none
      → void_seeing seen ctx b i reason db ≡ ok ((o, rev), db')
      → Step db db'
  beside : db'.transactions ≡ db.transactions → Step db db'

-- Any number of requests.
pub data Later : Db → Db → Type 0 where
  at_once : {db : Db} → Later db db
  after : {db db1 db2 : Db} → Step db db1 → Later db1 db2 → Later db db2

-- What a request does to the rows.
pub data Change (rows rows' : List Transaction) : Type 0 where
  kept : rows' ≡ rows → Change rows rows'
  added :
      (t : Transaction)
      → find_transaction t.id rows ≡ none
      → rows' ≡ rows ++ t ∷ []
      → Change rows rows'
  marked :
      (i reason : ℕ) (ctx : Context) (rev : Transaction)
      → find_transaction rev.id rows ≡ none
      → rows' ≡ update_where (is_claimable i) (mark_voided ctx reason) rows ++ rev ∷ []
      → Change rows rows'

pub Step-Change : {db db' : Db} → Step db db' → Change db.transactions db'.transactions
Step-Change {db} {db'} (Step.posts seen ctx b dto t fresh h) =
    of_outcome (create_racing-Outcome seen ctx b dto db t db' h)
  where
    of_outcome : Outcome seen ctx b dto db t db' → Change db.transactions db'.transactions
    of_outcome (Outcome.posted p) =
        added t
          (ap (λ (x : Transaction). find_transaction x.id db.transactions)
              (post_new-IsPosted ctx b dto db t db' p).row
            ∙ fresh)
          (ap (λ (x : Db). x.transactions) (post_new-IsSettled ctx b dto db t db' p).rest)
    of_outcome (Outcome.replayed found own same) = kept (ap (λ (x : Db). x.transactions) same)
Step-Change {db} {db'} (Step.voids seen ctx b i reason o rev fresh h) =
    let (t, v, _) = void_seeing-IsVoided seen ctx b i reason db o rev db' h in
    marked i reason ctx rev
      (ap (λ (x : Transaction). find_transaction x.id db.transactions) v.row ∙ fresh)
      (void-transactions seen ctx b i reason db t rev db' v)
Step-Change (Step.beside same) = kept same
