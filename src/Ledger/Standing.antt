-- ===== src/Ledger/Standing.antt =====
-- A stored row under an idempotency key while other requests go through:
-- src/transactions/transactions.service.ts.
use cashfo_backend.Base.{
  ℕ, ◌≡◌, sym, ◌∙◌, ap, subst, some, List, [], ◌∷◌, ◌++◌, arith, inl, inr, if◌then◌else◌,
  find_where, find_where-append, update_where, Bool-cases,
}
use cashfo_backend.Schema.{Transaction, Context, Db, has_key}
use cashfo_backend.Ledger.Voiding.{is_claimable, mark_voided}
use cashfo_backend.Ledger.Later.{Later, Change, Step-Change}

-- A row as it stands now: the same as before, save for what a void marks.
abbrev pub as_it_stands : Transaction → Transaction → Transaction
as_it_stands u t = record t {
  status = u.status;
  voided_at = u.voided_at;
  voided_reason = u.voided_reason;
}

pub record StandsUnder (k : ℕ) (t : Transaction) (rows : List Transaction) : Type 0 where
  pub row : Transaction
  pub found : find_where (has_key (some k)) rows ≡ some row
  pub same : row ≡ as_it_stands row t

find_key-update :
    (k i reason : ℕ) (ctx : Context) (rows : List Transaction) (u : Transaction)
    → find_where (has_key (some k)) rows ≡ some u
    → find_where (has_key (some k)) (update_where (is_claimable i) (mark_voided ctx reason) rows)
      ≡ some (if is_claimable i u then mark_voided ctx reason u else u)
find_key-update k i reason ctx [] u h = absurd (ground arith)
find_key-update k i reason ctx (t ∷ rows) u h =
    ground (arith, find_key-update k i reason ctx rows u)

find_key-append :
    (k : ℕ) (rows more : List Transaction) (u : Transaction)
    → find_where (has_key (some k)) rows ≡ some u
    → find_where (has_key (some k)) (rows ++ more) ≡ some u
find_key-append k rows more u h = ground (arith, find_where-append (has_key (some k)) rows more)

StandsUnder-changed :
    (k : ℕ) (t : Transaction) (rows rows' : List Transaction)
    → Change rows rows'
    → StandsUnder k t rows
    → StandsUnder k t rows'
StandsUnder-changed k t rows rows' (Change.kept e) s = subst (StandsUnder k t) (sym e) s
StandsUnder-changed k t rows rows' (Change.added r fresh e) s =
    subst (StandsUnder k t) (sym e)
      (record { row = s.row; found = find_key-append k rows (r ∷ []) s.row s.found; same = s.same })
StandsUnder-changed k t rows rows' (Change.marked i reason ctx rev fresh e) s =
    let found = find_key-update k i reason ctx rows s.row s.found in
    subst (StandsUnder k t) (sym e) (elim (Bool-cases (is_claimable i s.row)) [
      | inl c ↦ record {
        row = mark_voided ctx reason s.row;
        found =
            find_key-append k (update_where (is_claimable i) (mark_voided ctx reason) rows)
              (rev ∷ []) (mark_voided ctx reason s.row) (found ∙ ground (arith, c));
        same = ap (mark_voided ctx reason) s.same;
      }
      | inr c ↦ record {
        row = s.row;
        found =
            find_key-append k (update_where (is_claimable i) (mark_voided ctx reason) rows)
              (rev ∷ []) s.row (found ∙ ground (arith, c));
        same = s.same;
      }
    ])

-- The row under a key stays the one that it is.
pub StandsUnder-later :
    (k : ℕ) (t : Transaction) (db db' : Db)
    → Later db db'
    → StandsUnder k t db.transactions
    → StandsUnder k t db'.transactions
StandsUnder-later k t db db' Later.at_once s = s
StandsUnder-later k t db db' (Later.after {db1 = db1} first rest) s =
    StandsUnder-later k t db1 db' rest
      (StandsUnder-changed k t db.transactions db1.transactions (Step-Change first) s)
