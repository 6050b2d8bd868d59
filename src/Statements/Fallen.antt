-- ===== src/Statements/Fallen.antt =====
-- A void leaves nothing of a balance among the lines that stand no more: `voidTransaction` of
-- src/transactions/transactions.service.ts and the figures of src/accounts/account-balance.service.ts.
use cashfo_backend.Base.{
  ℕ, ◌≡◌, refl, sym, ◌∙◌, ap, Bool, true, false, not, none, some, List, [], ◌∷◌, map, ℤ, pos, ◌+ℤ◌,
  negated, int_laws, arith, inl, inr, ◌==◌, if◌then◌else◌, Bool-cases, elem, filter, sum_of,
  sum_of-append, sum_of-filter, update_where, UniqueIds,
}
use cashfo_backend.Schema.{
  Account, Entry, Transaction, Context, Db, ok, is_posted, find_transaction,
}
use cashfo_backend.Ledger.Balance.{is_debit_positive}
use cashfo_backend.Ledger.Deltas.{delta, delta-flip_entry}
use cashfo_backend.Ledger.Voiding.{is_claimable, mark_voided, reversal_row, void_transaction}
use cashfo_backend.Ledger.Inversion.{void_seeing-IsVoided}
use cashfo_backend.Ledger.Consistency.{void-transactions}
use cashfo_backend.Statements.Defs.{Line, line_delta, is_on, lines_of, lines_within}
use cashfo_backend.Statements.Closing.{delta_of-within}
use cashfo_backend.Statements.Summary.{is_live}
use cashfo_backend.Statements.InOut.{fallen}

-- What a transaction leaves of a balance after it has fallen.
abbrev remnant : Account → Transaction → ℤ
remnant a t = if is_live t then pos 0 else delta a t.entries

abbrev fallen_line : Bool → ℕ → Line → ℤ
fallen_line dp i l =
    if is_on i l then (if not (is_live l.transaction) then line_delta dp l else pos 0) else pos 0

either_way : (c : Bool) → (if c then pos 0 else pos 0) ≡ pos 0
either_way true = refl
either_way false = refl

fallen_within-live :
    (dp : Bool) (i : ℕ) (t : Transaction) (es : List Entry)
    → is_live t ≡ true
    → sum_of (fallen_line dp i) (lines_within t es) ≡ pos 0
fallen_within-live dp i t [] h = refl
fallen_within-live dp i t (e ∷ es) h =
    rw (fallen_within-live dp i t es h)
      (rw h (ap (λ (v : ℤ). v +ℤ pos 0) (either_way (e.account_id == i)) ∙ omega int_laws))

fallen_within-fallen :
    (dp : Bool) (i : ℕ) (t : Transaction) (es : List Entry)
    → is_live t ≡ false
    → sum_of (fallen_line dp i) (lines_within t es)
      ≡ sum_of (λ l. if is_on i l then line_delta dp l else pos 0) (lines_within t es)
fallen_within-fallen dp i t [] h = refl
fallen_within-fallen dp i t (e ∷ es) h = rw (fallen_within-fallen dp i t es h) (rw h refl)

fallen_within :
    (a : Account) (t : Transaction)
    → sum_of (fallen_line (is_debit_positive a.account_type) a.id) (lines_within t t.entries)
      ≡ remnant a t
unfolding delta
fallen_within a t = elim (Bool-cases (is_live t)) [
  | inl stands ↦ fallen_within-live _ a.id t t.entries stands ∙ rw stands refl
  | inr fell ↦
      fallen_within-fallen _ a.id t t.entries fell
      ∙ delta_of-within _ a.id t t.entries
      ∙ rw fell refl
]

remnants-lines :
    (a : Account) (ts : List Transaction)
    → sum_of (fallen_line (is_debit_positive a.account_type) a.id) (lines_of ts)
      ≡ sum_of (remnant a) ts
remnants-lines a [] = refl
remnants-lines a (t ∷ ts) =
    sum_of-append (fallen_line (is_debit_positive a.account_type) a.id) (lines_within t t.entries)
      (lines_of ts)
    ∙ rw (fallen_within a t, remnants-lines a ts) refl

fallen-remnants : (a : Account) (db : Db) → fallen a db ≡ sum_of (remnant a) db.transactions
fallen-remnants a db =
    let dp = is_debit_positive a.account_type in
    sum_of-filter (λ (l : Line). not (is_live l.transaction)) (line_delta dp)
      (filter (is_on a.id) (lines_of db.transactions))
    ∙ sum_of-filter (is_on a.id)
        (λ (l : Line). if not (is_live l.transaction) then line_delta dp l else pos 0)
        (lines_of db.transactions)
    ∙ remnants-lines a db.transactions

voided_sum : (d s : ℤ) → d +ℤ s ≡ pos 0 +ℤ s +ℤ d
voided_sum d s = omega int_laws

-- A voided row leaves what it had moved, and its reversal takes that back.
module _ (ctx : Context) (i reason : ℕ) (a : Account) where
  claim_absent :
      (ts : List Transaction)
      → elem i (map (λ (t : Transaction). t.id) ts) ≡ false
      → sum_of (remnant a) (update_where (is_claimable i) (mark_voided ctx reason) ts)
        ≡ sum_of (remnant a) ts
  claim_absent [] h = refl
  claim_absent (t ∷ ts) h =
      let apart : is_claimable i t ≡ false = ground arith in
      rw (apart, claim_absent ts (ground arith)) refl

  claim_found :
      (ts : List Transaction) (t : Transaction)
      → UniqueIds (map (λ (x : Transaction). x.id) ts)
      → find_transaction i ts ≡ some t
      → is_live t ≡ true
      → sum_of (remnant a) (update_where (is_claimable i) (mark_voided ctx reason) ts)
        ≡ sum_of (remnant a) ts +ℤ delta a t.entries
  claim_found [] t u e h = absurd (ground arith)
  claim_found (x ∷ ts) t u e h = elim (Bool-cases (x.id == i)) [
    | inl here ↦
        let same : x ≡ t = ground arith in
        let stands : is_live x ≡ true = ap is_live same ∙ h in
        let claimed : is_claimable i x ≡ true = ground arith in
        let at : x.id ≡ i = ground arith in
        let absent = ap (λ (k : ℕ). elem k (map (λ (y : Transaction). y.id) ts)) (sym at) ∙ u.0 in
        let kept : remnant a x ≡ pos 0 = rw stands refl in
        let entries : delta a x.entries ≡ delta a t.entries =
          ap (λ (y : Transaction). delta a y.entries) same in
        rw (claimed, claim_absent ts absent)
          (ap (λ (v : ℤ). v +ℤ sum_of (remnant a) ts) entries
            ∙ voided_sum (delta a t.entries) (sum_of (remnant a) ts)
            ∙ ap (λ (v : ℤ). v +ℤ sum_of (remnant a) ts +ℤ delta a t.entries) (sym kept))
    | inr there ↦
        let apart : is_claimable i x ≡ false = ground arith in
        let found : find_transaction i ts ≡ some t = ground arith in
        rw (apart, claim_found ts t u.1 found h) (omega int_laws)
  ]

undone : (s d : ℤ) → s +ℤ d +ℤ (negated d +ℤ pos 0) ≡ s
undone s d = omega int_laws

reversal_remnant :
    (ctx : Context) (b : ℕ) (t : Transaction) (a : Account)
    → remnant a (reversal_row ctx b t) ≡ negated (delta a t.entries)
reversal_remnant ctx b t a = delta-flip_entry a t.entries

-- A void of a transaction that is no reversal, in a ledger whose transactions have unique ids:
-- what the lines that stand no more leave of the balance of any account is the same as before.
pub void_transaction-fallen :
    (ctx : Context) (b i reason : ℕ) (db : Db) (o : ℕ) (rev : Transaction) (db' : Db)
    (t : Transaction) (a : Account)
    → UniqueIds (map (λ (x : Transaction). x.id) db.transactions)
    → find_transaction i db.transactions ≡ some t
    → t.reversal_of_id ≡ none
    → void_transaction ctx b i reason db ≡ ok ((o, rev), db')
    → fallen a db' ≡ fallen a db
unfolding void_transaction
void_transaction-fallen ctx b i reason db o rev db' t a unique e original h =
    let (t', done, _) = void_seeing-IsVoided db.transactions ctx b i reason db o rev db' h in
    let found' = done.found in
    let same : t' ≡ t = ground arith in
    let posted = ap (λ (x : Transaction). is_posted x.status) (sym same) ∙ done.was_posted in
    let stands : is_live t ≡ true = rw (posted, original) refl in
    let rows = void-transactions db.transactions ctx b i reason db t' rev db' done in
    let claimed = update_where (is_claimable i) (mark_voided ctx reason) db.transactions in
    let reversed =
      ap (remnant a) done.row
      ∙ reversal_remnant ctx b t' a
      ∙ ap (λ (x : Transaction). negated (delta a x.entries)) same in
    fallen-remnants a db'
    ∙ ap (sum_of (remnant a)) rows
    ∙ sum_of-append (remnant a) claimed (rev ∷ [])
    ∙ ap (λ (v : ℤ). v +ℤ (remnant a rev +ℤ pos 0))
        (claim_found ctx i reason a db.transactions t unique e stands)
    ∙ ap (λ (v : ℤ). sum_of (remnant a) db.transactions +ℤ delta a t.entries +ℤ (v +ℤ pos 0))
        reversed
    ∙ undone (sum_of (remnant a) db.transactions) (delta a t.entries)
    ∙ sym (fallen-remnants a db)
