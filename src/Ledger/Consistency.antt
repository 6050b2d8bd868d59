-- ===== src/Ledger/Consistency.antt =====
-- The cached balance of an account against the balance computed from scratch, and what a posting and
-- a void do to both: src/accounts/account-balance.service.ts.
use cashfo_backend.Base.{
  ℕ, ◌≡◌, refl, sym, ◌∙◌, ap, subst, false, Option, none, some, List, [], ◌∷◌, ◌++◌, map, ℤ, pos,
  ◌+ℤ◌, negated, int_laws, arith, elem, Option-cases, Bool-cases, inl, inr, find_unique-key,
  +ℤ-zero, update_where,
}
use mathlib.Core.Option
use cashfo_backend.Schema.{
  Account, Transaction, CreateTransaction, Context, Db, ok, find_account, with_balance,
}
use cashfo_backend.Ledger.Balance.{fresh_balance}
use cashfo_backend.Ledger.Posting.{account_ids, post_new}
use cashfo_backend.Ledger.Voiding.{flip_entry, is_claimable, mark_voided}
use cashfo_backend.Ledger.Inversion.{post_new-IsPosted, IsVoided}
use cashfo_backend.Ledger.Settling.{IsSettled, refresh, for_each-IsSettled}
use cashfo_backend.Ledger.Deltas.{
  delta, delta-untouched, delta-flip_entry, fresh_balance-append, fresh_balance-claimed,
}

-- Every account that is found holds in its cache the balance computed from scratch.
pub record IsConsistent (db : Db) : Type 0 where
  pub cached :
      (i : ℕ)
      → find_account i db.accounts
        ≡ Option.map (refresh db.transactions) (find_account i db.accounts)

pub cached_balance :
    {db : Db} (valid : IsConsistent db) (i : ℕ) (a : Account)
    → find_account i db.accounts ≡ some a
    → a.current_balance ≡ fresh_balance db.transactions a
cached_balance valid i a e =
    let same = valid.cached i in
    let r : some a ≡ Option.map (refresh _) (some a) = rw e at same in
    ap (λ (o : Option Account). elim o [ none ↦ pos 0 | some x ↦ x.current_balance ]) r

IsConsistent-of :
    (db : Db)
    → ((i : ℕ) (a : Account)
        → find_account i db.accounts ≡ some a
        → a.current_balance ≡ fresh_balance db.transactions a)
    → IsConsistent db
IsConsistent-of db h = record {
  cached = λ i. elim (Option-cases (find_account i db.accounts)) [
    | inl e ↦ rw e refl
    | inr (a, e) ↦ rw e (ap (λ (v : ℤ). some (with_balance v a)) (h i a e))
  ];
}

-- The rows `ts'` differ from those of `db` by `d a` on each account, by nothing outside `ids`.
pub record Differs (ids : List ℕ) (d : Account → ℤ) (db : Db) (ts' : List Transaction)
    : Type 0 where
  pub by : (a : Account) → fresh_balance ts' a ≡ fresh_balance db.transactions a +ℤ d a
  pub outside : (a : Account) → elem a.id ids ≡ false → d a ≡ pos 0

module _ {ids : List ℕ} {d : Account → ℤ} {db db' : Db} {ts' : List Transaction}
    (valid : IsConsistent db) (moved : Differs ids d db ts')
    (settled : IsSettled ids (record db { transactions = ts' }) db') where
  -- A known account has moved by its difference.
  pub settled_account :
      (i : ℕ) (a : Account)
      → find_account i db.accounts ≡ some a
      → find_account i db'.accounts ≡ some (with_balance (a.current_balance +ℤ d a) a)
  settled_account i a e =
      let same_id = find_unique-key (λ (r : Account). r.id) i db.accounts a e in
      let cache = cached_balance valid i a e in
      let change = moved.by a in
      elim (Bool-cases (elem i ids)) [
        | inl named ↦
            let value : fresh_balance ts' a ≡ a.current_balance +ℤ d a =
              change ∙ ap (λ (v : ℤ). v +ℤ d a) (sym cache) in
            ground (arith, settled.accounts i)
        | inr other ↦
            let still : d a ≡ pos 0 = moved.outside a (rw same_id other) in
            let value : a.current_balance +ℤ d a ≡ a.current_balance =
              rw still (+ℤ-zero a.current_balance) in
            ground (arith, settled.accounts i)
      ]

  settled_none : (i : ℕ) → find_account i db.accounts ≡ none → find_account i db'.accounts ≡ none
  settled_none i e = ground (arith, settled.accounts i)

  settled_transactions : db'.transactions ≡ ts'
  settled_transactions = ap (λ (x : Db). x.transactions) settled.rest

  cached_after :
      (i : ℕ) (a a' : Account)
      → find_account i db.accounts ≡ some a
      → find_account i db'.accounts ≡ some a'
      → a'.current_balance ≡ fresh_balance ts' a'
  unfolding fresh_balance
  cached_after i a a' e e' =
      let same : a' ≡ with_balance (a.current_balance +ℤ d a) a =
        ground (arith, settled_account i a e) in
      let value : a.current_balance +ℤ d a ≡ fresh_balance ts' a =
        ap (λ (v : ℤ). v +ℤ d a) (cached_balance valid i a e) ∙ sym (moved.by a) in
      rw same value

  pub settled-IsConsistent : IsConsistent db'
  settled-IsConsistent = IsConsistent-of db' λ i a' e'.
      elim (Option-cases (find_account i db.accounts)) [
        | inl e ↦ absurd (ground (arith, settled_none i e))
        | inr (a, e) ↦ rw settled_transactions (cached_after i a a' e e')
      ]

-- A posting raises each balance by what its entries say.
posting_Differs :
    (db : Db) (t : Transaction)
    → Differs (account_ids t.entries) (λ a. delta a t.entries) db (db.transactions ++ t ∷ [])
posting_Differs db t = record {
  by = fresh_balance-append db.transactions t;
  outside = λ a out. delta-untouched a t.entries out;
}

module _ (ctx : Context) (b : ℕ) (dto : CreateTransaction) (db : Db) (t : Transaction) (db' : Db)
    (posted : post_new ctx b dto db ≡ ok (t, db')) where
  pub post_new-entries : t.entries ≡ dto.entries
  post_new-entries =
      ap (λ (x : Transaction). x.entries) (post_new-IsPosted ctx b dto db t db' posted).row

  pub post_new-IsSettled :
      IsSettled (account_ids t.entries) (record db { transactions = db.transactions ++ t ∷ [] }) db'
  post_new-IsSettled =
      subst
        (λ es.
          IsSettled (account_ids es) (record db { transactions = db.transactions ++ t ∷ [] }) db')
        (sym post_new-entries)
        (for_each-IsSettled (account_ids dto.entries)
          (record db { transactions = db.transactions ++ t ∷ [] }) db'
          (post_new-IsPosted ctx b dto db t db' posted).settled)

  pub post_new-IsConsistent : IsConsistent db → IsConsistent db'
  post_new-IsConsistent valid = settled-IsConsistent valid (posting_Differs db t) post_new-IsSettled

  pub post_new-account :
      (i : ℕ) (a : Account)
      → IsConsistent db
      → find_account i db.accounts ≡ some a
      → find_account i db'.accounts ≡ some (with_balance (a.current_balance +ℤ delta a t.entries) a)
  post_new-account i a valid e =
      settled_account valid (posting_Differs db t) post_new-IsSettled i a e

-- A void moves each balance back.
module _ (seen : List Transaction) (ctx : Context) (b i reason : ℕ) (db : Db) (t rev : Transaction)
    (db' : Db) (done : IsVoided seen ctx b i reason db t rev db') where
  abbrev pub claimed_rows : List Transaction
  claimed_rows = update_where (is_claimable i) (mark_voided ctx reason) db.transactions

  rev-entries : rev.entries ≡ map flip_entry t.entries
  rev-entries = ap (λ (x : Transaction). x.entries) done.row

  voiding_Differs :
      Differs
        (account_ids t.entries)
        (λ a. negated (delta a t.entries))
        db
        (claimed_rows ++ rev ∷ [])
  voiding_Differs = record {
    by = λ a.
        fresh_balance-append claimed_rows rev a
        ∙ ap (λ (v : ℤ). v +ℤ delta a rev.entries)
            (fresh_balance-claimed ctx i reason db.transactions a)
        ∙ ap (λ (v : ℤ). fresh_balance db.transactions a +ℤ v)
            (ap (delta a) rev-entries ∙ delta-flip_entry a t.entries);
    outside = λ a out. rw (delta-untouched a t.entries out) (omega int_laws);
  }

  pub voiding_IsSettled :
      IsSettled (account_ids t.entries) (record db { transactions = claimed_rows ++ rev ∷ [] }) db'
  voiding_IsSettled =
      for_each-IsSettled (account_ids t.entries)
        (record db { transactions = claimed_rows ++ rev ∷ [] }) db' done.settled

  pub void-IsConsistent : IsConsistent db → IsConsistent db'
  void-IsConsistent valid = settled-IsConsistent valid voiding_Differs voiding_IsSettled

  pub void-account :
      (j : ℕ) (a : Account)
      → IsConsistent db
      → find_account j db.accounts ≡ some a
      → find_account j db'.accounts
        ≡ some (with_balance (a.current_balance +ℤ negated (delta a t.entries)) a)
  void-account j a valid e = settled_account valid voiding_Differs voiding_IsSettled j a e

  pub void-transactions : db'.transactions ≡ claimed_rows ++ rev ∷ []
  void-transactions = ap (λ (x : Db). x.transactions) voiding_IsSettled.rest
