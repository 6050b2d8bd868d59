-- ===== src/QuickEntries/Shifts.antt =====
-- What a posting of two entries does to the balances: src/transactions/transactions.service.ts, as
-- src/quick-entries/quick-entries.service.ts and the other features call it.
use cashfo_backend.Base.{
  ℕ, ◌≡◌, refl, sym, ◌∙◌, ap, subst, Bool, true, false, Option, none, some, List, ℤ, pos, ◌+ℤ◌,
  negated, int_laws, arith, ◌==◌, if◌then◌else◌, inl, inr, Bool-cases, ==_iff, find_unique-key,
}
use cashfo_backend.Schema.{
  TransactionType, Text, Account, Entry, Transaction, Context, Db, ok, find_account, with_balance,
}
use cashfo_backend.Ledger.Balance.{is_debit_positive}
use cashfo_backend.Ledger.Posting.{create_transaction, post, post_new, post_seeing, find_by_key}
use cashfo_backend.Ledger.Deltas.{delta}
use cashfo_backend.Ledger.Consistency.{IsConsistent, post_new-account, post_new-entries}
use cashfo_backend.Ledger.Undo.{posted_if_new}
use cashfo_backend.QuickEntries.Defs.{two_entries, plain_request}

-- What the two entries of an amount do to an account.
abbrev pub signed : Account → ℤ → ℤ
signed a amount = if is_debit_positive a.account_type then amount else negated amount

-- What one of two accounts gains, the other loses.
abbrev pub shift : Account → ℕ → ℕ → ℤ → ℤ
shift a debited credited amount =
    if debited == a.id
    then signed a amount
    else if credited == a.id
    then negated (signed a amount)
    else pos 0

delta-two_entries :
    (a : Account) (debited credited : ℕ) (amount : ℤ) (c n c' n' : Option ℕ)
    → (debited == credited) ≡ false
    → delta a (two_entries debited credited amount c n c' n') ≡ shift a debited credited amount
unfolding delta
delta-two_entries a debited credited amount c n c' n' apart = elim (Bool-cases (debited == a.id)) [
  | inl d ↦
      let not_c : (credited == a.id) ≡ false = ground arith in
      elim (Bool-cases (is_debit_positive a.account_type)) [
        | inl p ↦ rw (d, not_c, p) (omega int_laws)
        | inr p ↦ rw (d, not_c, p) (omega int_laws)
      ]
  | inr d ↦ elim (Bool-cases (credited == a.id)) [
    | inl k ↦ elim (Bool-cases (is_debit_positive a.account_type)) [
      | inl p ↦ rw (d, k, p) (omega int_laws)
      | inr p ↦ rw (d, k, p) (omega int_laws)
    ]
    | inr k ↦ elim (Bool-cases (is_debit_positive a.account_type)) [
      | inl p ↦ rw (d, k, p) (omega int_laws)
      | inr p ↦ rw (d, k, p) (omega int_laws)
    ]
  ]
]

no_key :
    (ty : TransactionType) (date : ℕ) (text : Option Text) (es : List Entry) (ts : List Transaction)
    → find_by_key (plain_request ty date text es) ts ≡ none
unfolding find_by_key
no_key ty date text es ts = refl

-- What an account gains: the one that is debited rises, as an asset or an expense account, and the
-- one that is credited falls if it is of these, and rises if it is of another type.
abbrev pub gain : ℕ → ℕ → Bool → ℕ → ℤ → ℤ
gain debited credited falls i amount =
    if debited == i
    then amount
    else if credited == i
    then (if falls then negated amount else amount)
    else pos 0

-- Two accounts of the workspace, debited and credited.
pub record IsPair (db : Db) (debited credited : ℕ) (falls : Bool) (x y : Account) : Type 0 where
  pub found_x : find_account debited db.accounts ≡ some x
  pub found_y : find_account credited db.accounts ≡ some y
  pub x_rises : is_debit_positive x.account_type ≡ true
  pub y_falls : is_debit_positive y.account_type ≡ falls
  pub apart : (debited == credited) ≡ false

positive_at :
    (db : Db) (d i : ℕ) (x a : Account) (falls : Bool)
    → (d == i) ≡ true
    → find_account d db.accounts ≡ some x
    → find_account i db.accounts ≡ some a
    → is_debit_positive x.account_type ≡ falls
    → is_debit_positive a.account_type ≡ falls
positive_at db d i x a falls here found e p =
    let same_id : d ≡ i = (==_iff d i).0 here in
    let same_row : some x ≡ some a =
      sym found ∙ ap (λ (j : ℕ). find_account j db.accounts) same_id ∙ e in
    let same : x ≡ a = ap (λ (o : Option Account). elim o [ none ↦ x | some r ↦ r ]) same_row in
    subst (λ (r : Account). is_debit_positive r.account_type ≡ falls) same p

fallen :
    (falls : Bool) (amount : ℤ)
    → negated (if falls then amount else negated amount)
      ≡ (if falls then negated amount else amount)
fallen true amount = refl
fallen false amount = omega int_laws

shift-gain :
    (db : Db) (d k : ℕ) (falls : Bool) (x y : Account) (i : ℕ) (a : Account) (amount : ℤ)
    → IsPair db d k falls x y
    → find_account i db.accounts ≡ some a
    → shift a d k amount ≡ gain d k falls i amount
shift-gain db d k falls x y i a amount pair e =
    let own : a.id ≡ i = find_unique-key (λ (r : Account). r.id) i db.accounts a e in
    elim (Bool-cases (d == i)) [
      | inl here ↦
          let p = positive_at db d i x a true here pair.found_x e pair.x_rises in
          rw (own, here, p) refl
      | inr there ↦ elim (Bool-cases (k == i)) [
        | inl here ↦
            let p = positive_at db k i y a falls here pair.found_y e pair.y_falls in
            rw (own, there, here, p) (fallen falls amount)
        | inr away ↦ rw (own, there, away) refl
      ]
    ]

module _ (ctx : Context) (b : ℕ) (ty : TransactionType) (date : ℕ) (text : Option Text) (d k : ℕ)
    (amount : ℤ) (c n c' n' : Option ℕ) (db : Db) (t : Transaction) (db' : Db) (falls : Bool)
    (x y : Account) (pair : IsPair db d k falls x y) (valid : IsConsistent db) where
  new-gain :
      post_new ctx b (plain_request ty date text (two_entries x.id y.id amount c n c' n')) db
        ≡ ok (t, db')
      → (i : ℕ) (a : Account) → find_account i db.accounts ≡ some a
      → find_account i db'.accounts
        ≡ some (with_balance (a.current_balance +ℤ gain d k falls i amount) a)
  new-gain h i a e =
      let request = plain_request ty date text (two_entries x.id y.id amount c n c' n') in
      let x_id = find_unique-key (λ (r : Account). r.id) d db.accounts x pair.found_x in
      let y_id = find_unique-key (λ (r : Account). r.id) k db.accounts y pair.found_y in
      let entries = post_new-entries ctx b request db t db' h in
      let value : delta a t.entries ≡ gain d k falls i amount =
        ap (delta a) entries
        ∙ ap (λ (j : ℕ). delta a (two_entries j y.id amount c n c' n')) x_id
        ∙ ap (λ (j : ℕ). delta a (two_entries d j amount c n c' n')) y_id
        ∙ delta-two_entries a d k amount c n c' n' pair.apart
        ∙ shift-gain db d k falls x y i a amount pair e in
      post_new-account ctx b request db t db' h i a valid e
      ∙ ap (λ (v : ℤ). some (with_balance (a.current_balance +ℤ v) a)) value

  pub post-gain :
      post ctx b (plain_request ty date text (two_entries x.id y.id amount c n c' n')) db
        ≡ ok (t, db')
      → (i : ℕ) (a : Account) → find_account i db.accounts ≡ some a
      → find_account i db'.accounts
        ≡ some (with_balance (a.current_balance +ℤ gain d k falls i amount) a)
  unfolding post post_seeing find_by_key
  post-gain h = new-gain h

  pub create_transaction-gain :
      create_transaction ctx b
          (plain_request ty date text (two_entries x.id y.id amount c n c' n'))
          db
        ≡ ok (t, db')
      → (i : ℕ) (a : Account) → find_account i db.accounts ≡ some a
      → find_account i db'.accounts
        ≡ some (with_balance (a.current_balance +ℤ gain d k falls i amount) a)
  create_transaction-gain h =
      let request = plain_request ty date text (two_entries x.id y.id amount c n c' n') in
      new-gain (
        posted_if_new ctx b request db t db'
          (no_key ty date text (two_entries x.id y.id amount c n c' n') db.transactions) h)
