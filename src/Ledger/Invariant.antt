-- ===== src/Ledger/Invariant.antt =====
-- The invariant of the ledger and that postings and voids preserve it, also when they race.
use cashfo_backend.Base.{
  ℕ, ◌≤◌, ◌≡◌, refl, sym, ◌∙◌, ap, subst, false, not, Option, none, some, List, [], ◌∷◌, ◌++◌, map,
  pos, ◌<ℤ◌, arith, ◌==◌, inl, inr, ltb_ℤ, length, All, All-append, All-find, any, update_where,
  eqb_ℤ_sound, Bool-cases,
}
use cashfo_backend.Schema.{
  Entry, EntryType, Transaction, CreateTransaction, Context, Db, ok, key_taken,
}
use cashfo_backend.Ledger.Posting.{sum_entries, create_racing, post_new}
use cashfo_backend.Ledger.Voiding.{void_seeing, flip_entry, is_claimable, mark_voided}
use cashfo_backend.Ledger.Inversion.{IsPosted, post_new-IsPosted, IsVoided, void_seeing-IsVoided}
use cashfo_backend.Ledger.Consistency.{
  IsConsistent, post_new-IsConsistent, post_new-IsSettled, void-IsConsistent, void-transactions,
}
use cashfo_backend.Ledger.Keys.{UniqueKeys, UniqueKeys-snoc, Outcome, create_racing-Outcome}

abbrev pub IsPositive : Entry → Type 0
IsPositive e = pos 0 <ℤ e.amount

-- Double entry: two entries or more, each of a positive amount, with equal sums on both sides.
pub record IsDoubleEntry (es : List Entry) : Type 0 where
  pub long_enough : 2 ≤ length es
  pub positive : All IsPositive es
  pub balanced : sum_entries EntryType.debit es ≡ sum_entries EntryType.credit es

abbrev pub IsDoubleEntryRow : Transaction → Type 0
IsDoubleEntryRow t = IsDoubleEntry t.entries

-- Every cached balance is the balance from scratch, every stored transaction is double entry, and
-- no idempotency key stands twice.
pub record IsSound (db : Db) : Type 0 where
  pub consistent : IsConsistent db
  pub double_entry : All IsDoubleEntryRow db.transactions
  pub unique_keys : UniqueKeys db.transactions

All-IsPositive :
    (es : List Entry) → any (λ e. not (ltb_ℤ (pos 0) e.amount)) es ≡ false → All IsPositive es
All-IsPositive [] h = tt
All-IsPositive (e ∷ es) h = (ground arith, All-IsPositive es (ground arith))

posted-IsDoubleEntry :
    (ctx : Context) (b : ℕ) (dto : CreateTransaction) (db : Db) (t : Transaction) (db' : Db)
    → IsPosted ctx b dto db t db'
    → IsDoubleEntry t.entries
posted-IsDoubleEntry ctx b dto db t db' p = subst IsDoubleEntryRow (sym p.row) (record {
  long_enough = p.long_enough;
  positive = All-IsPositive dto.entries p.positive;
  balanced = eqb_ℤ_sound _ _ p.balanced;
})

posted-IsSound :
    (ctx : Context) (b : ℕ) (dto : CreateTransaction) (db : Db) (t : Transaction) (db' : Db)
    → IsSound db
    → post_new ctx b dto db ≡ ok (t, db')
    → IsSound db'
posted-IsSound ctx b dto db t db' sound h =
    let p = post_new-IsPosted ctx b dto db t db' h in
    let rows : db.transactions ++ t ∷ [] ≡ db'.transactions =
      sym (ap (λ (x : Db). x.transactions) (post_new-IsSettled ctx b dto db t db' h).rest) in
    let free : key_taken t.idempotency_key db.transactions ≡ false =
      subst (λ (u : Transaction). key_taken u.idempotency_key db.transactions ≡ false) (sym p.row)
        p.free in
    record {
      consistent = post_new-IsConsistent ctx b dto db t db' h sound.consistent;
      double_entry = subst (All IsDoubleEntryRow) rows (
          All-append IsDoubleEntryRow db.transactions (t ∷ []) sound.double_entry
            (posted-IsDoubleEntry ctx b dto db t db' p, tt));
      unique_keys =
          subst UniqueKeys rows (UniqueKeys-snoc t db.transactions free sound.unique_keys);
    }

Outcome-IsSound :
    (seen : List Transaction) (ctx : Context) (b : ℕ) (dto : CreateTransaction) (db : Db)
    (t : Transaction) (db' : Db)
    → IsSound db
    → Outcome seen ctx b dto db t db'
    → IsSound db'
Outcome-IsSound seen ctx b dto db t db' sound (Outcome.posted h) =
    posted-IsSound ctx b dto db t db' sound h
Outcome-IsSound seen ctx b dto db t db' sound (Outcome.replayed f own same) =
    subst IsSound (sym same) sound

-- `createTransaction` keeps the invariant of the ledger, whichever transactions its idempotency
-- lookup saw: every account's cached balance is the one computed from scratch, every stored
-- transaction is double entry, and no idempotency key stands twice.
pub create_racing-IsSound :
    (seen : List Transaction) (ctx : Context) (b : ℕ) (dto : CreateTransaction) (db : Db)
    (t : Transaction) (db' : Db)
    → IsSound db
    → create_racing seen ctx b dto db ≡ ok (t, db')
    → IsSound db'
create_racing-IsSound seen ctx b dto db t db' sound h =
    Outcome-IsSound seen ctx b dto db t db' sound (create_racing-Outcome seen ctx b dto db t db' h)

-- The mirror of a double entry.
flip_sums :
    (es : List Entry)
    → (sum_entries EntryType.debit (map flip_entry es) ≡ sum_entries EntryType.credit es)
      × (sum_entries EntryType.credit (map flip_entry es) ≡ sum_entries EntryType.debit es)
flip_sums [] = (refl, refl)
flip_sums (e ∷ es) = let (d, c) = flip_sums es in ground arith

flip_long : (es : List Entry) → length (map flip_entry es) ≡ length es
flip_long [] = refl
flip_long (e ∷ es) = omega (arith, flip_long es)

flip-IsPositive : (es : List Entry) → All IsPositive es → All IsPositive (map flip_entry es)
flip-IsPositive [] h = tt
flip-IsPositive (e ∷ es) h = (h.0, flip-IsPositive es h.1)

flip-IsDoubleEntry : (es : List Entry) → IsDoubleEntry es → IsDoubleEntry (map flip_entry es)
flip-IsDoubleEntry es h = record {
  long_enough = omega (arith, flip_long es, h.long_enough);
  positive = flip-IsPositive es h.positive;
  balanced = (flip_sums es).0 ∙ sym h.balanced ∙ sym (flip_sums es).1;
}

module _ (ctx : Context) (i reason : ℕ) where
  claimed-double :
      (ts : List Transaction)
      → All IsDoubleEntryRow ts
      → All IsDoubleEntryRow (update_where (is_claimable i) (mark_voided ctx reason) ts)
  claimed-double [] h = tt
  claimed-double (t ∷ ts) h = elim (Bool-cases (is_claimable i t)) [
    | inl e ↦ rw e (
      record { long_enough = h.0.long_enough; positive = h.0.positive; balanced = h.0.balanced },
      claimed-double ts h.1,
    )
    | inr e ↦ rw e (h.0, claimed-double ts h.1)
  ]

  claimed-taken :
      (k : Option ℕ) (ts : List Transaction)
      → key_taken k (update_where (is_claimable i) (mark_voided ctx reason) ts) ≡ key_taken k ts
  claimed-taken none ts = refl
  claimed-taken (some k) [] = refl
  claimed-taken (some k) (t ∷ ts) = elim (Bool-cases (is_claimable i t)) [
    | inl e ↦ rw (e, claimed-taken (some k) ts)
    | inr e ↦ rw (e, claimed-taken (some k) ts)
  ]

  claimed-keys :
      (ts : List Transaction)
      → UniqueKeys ts
      → UniqueKeys (update_where (is_claimable i) (mark_voided ctx reason) ts)
  claimed-keys [] h = tt
  claimed-keys (t ∷ ts) h = elim (Bool-cases (is_claimable i t)) [
    | inl e ↦ rw e (claimed-taken t.idempotency_key ts ∙ h.0, claimed-keys ts h.1)
    | inr e ↦ rw e (claimed-taken t.idempotency_key ts ∙ h.0, claimed-keys ts h.1)
  ]

voided-IsSound :
    (seen : List Transaction) (ctx : Context) (b i reason : ℕ) (db : Db) (t rev : Transaction)
    (db' : Db)
    → IsSound db
    → All IsDoubleEntryRow seen
    → IsVoided seen ctx b i reason db t rev db'
    → IsSound db'
voided-IsSound seen ctx b i reason db t rev db' sound whole v =
    let rows = sym (void-transactions seen ctx b i reason db t rev db' v) in
    let claimed = update_where (is_claimable i) (mark_voided ctx reason) db.transactions in
    let mirror : IsDoubleEntryRow rev = subst IsDoubleEntryRow (sym v.row) (
      flip-IsDoubleEntry t.entries
        (All-find IsDoubleEntryRow (λ r. r.id == i) seen t whole v.found)) in
    let free : key_taken rev.idempotency_key claimed ≡ false = rw v.row refl in
    record {
      consistent = void-IsConsistent seen ctx b i reason db t rev db' v sound.consistent;
      double_entry = subst (All IsDoubleEntryRow) rows (
          All-append IsDoubleEntryRow claimed (rev ∷ [])
            (claimed-double ctx i reason db.transactions sound.double_entry) (mirror, tt));
      unique_keys = subst UniqueKeys rows (
          UniqueKeys-snoc rev claimed free
            (claimed-keys ctx i reason db.transactions sound.unique_keys));
    }

-- `voidTransaction` keeps the invariant of the ledger, whichever double-entry transactions its
-- first read saw.
pub void_seeing-IsSound :
    (seen : List Transaction) (ctx : Context) (b i reason : ℕ) (db : Db) (r : ℕ × Transaction)
    (db' : Db)
    → IsSound db
    → All IsDoubleEntryRow seen
    → void_seeing seen ctx b i reason db ≡ ok (r, db')
    → IsSound db'
void_seeing-IsSound seen ctx b i reason db (o, rev) db' sound whole h =
    let (t, v, _) = void_seeing-IsVoided seen ctx b i reason db o rev db' h in
    voided-IsSound seen ctx b i reason db t rev db' sound whole v
