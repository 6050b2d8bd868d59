-- ===== src/Ledger/Deltas.antt =====
-- How a balance computed from scratch moves when a row is added, mirrored or marked as voided.
use cashfo_backend.Base.{
  ℕ, ◌≡◌, refl, false, List, [], ◌∷◌, ◌++◌, map, ℤ, pos, ◌+ℤ◌, ◌-ℤ◌, negated, int_laws, arith,
  if◌then◌else◌, elem, sum_of-append, update_where, elem-distinct, Bool-cases, inl, inr,
}
use cashfo_backend.Schema.{Account, Entry, EntryType, Transaction, Context}
use cashfo_backend.Ledger.Balance.{
  is_debit_positive, amount_on, sum_entries_on, aggregate, fresh_balance,
}
use cashfo_backend.Ledger.Posting.{account_ids}
use cashfo_backend.Ledger.Voiding.{flip_entry, mark_voided, is_claimable}

-- By how much the entries raise the balance of an account.
unfoldable pub delta : Account → List Entry → ℤ
delta a es =
    let debits = sum_entries_on a.id EntryType.debit es in
    let credits = sum_entries_on a.id EntryType.credit es in
    if is_debit_positive a.account_type then debits -ℤ credits else credits -ℤ debits

aggregate-append :
    (i : ℕ) (ty : EntryType) (ts : List Transaction) (t : Transaction)
    → aggregate i ty (ts ++ t ∷ []) ≡ aggregate i ty ts +ℤ sum_entries_on i ty t.entries
aggregate-append i ty ts t =
    rw (sum_of-append (λ (u : Transaction). sum_entries_on i ty u.entries) ts (t ∷ []))
      (omega int_laws)

pub fresh_balance-append :
    (ts : List Transaction) (t : Transaction) (a : Account)
    → fresh_balance (ts ++ t ∷ []) a ≡ fresh_balance ts a +ℤ delta a t.entries
unfolding fresh_balance delta
fresh_balance-append ts t a =
    rw (aggregate-append a.id EntryType.debit ts t, aggregate-append a.id EntryType.credit ts t)
      (elim (Bool-cases (is_debit_positive a.account_type)) [
        | inl e ↦ rw e (omega int_laws)
        | inr e ↦ rw e (omega int_laws)
      ])

sum_entries_on-untouched :
    (i : ℕ) (ty : EntryType) (es : List Entry)
    → elem i (map (λ (e : Entry). e.account_id) es) ≡ false
    → sum_entries_on i ty es ≡ pos 0
sum_entries_on-untouched i ty [] h = refl
sum_entries_on-untouched i ty (e ∷ es) h =
    let rest : sum_entries_on i ty es ≡ pos 0 = sum_entries_on-untouched i ty es (ground arith) in
    let here : amount_on i ty e ≡ pos 0 = ground arith in rw (here, rest) (omega int_laws)

-- Entries on other accounts leave a balance alone.
pub delta-untouched :
    (a : Account) (es : List Entry) → elem a.id (account_ids es) ≡ false → delta a es ≡ pos 0
unfolding delta
delta-untouched a es h =
    let out : elem a.id (map (λ (e : Entry). e.account_id) es) ≡ false =
      rw (elem-distinct a.id (map (λ (e : Entry). e.account_id) es)) at h in
    rw
      (
        sum_entries_on-untouched a.id EntryType.debit es out,
        sum_entries_on-untouched a.id EntryType.credit es out,
      )
      (elim (Bool-cases (is_debit_positive a.account_type)) [
        | inl e ↦ rw e (omega int_laws)
        | inr e ↦ rw e (omega int_laws)
      ])

flipped_debits :
    (i : ℕ) (es : List Entry)
    → sum_entries_on i EntryType.debit (map flip_entry es) ≡ sum_entries_on i EntryType.credit es
flipped_debits i [] = refl
flipped_debits i (e ∷ es) = ground (arith, flipped_debits i es)

flipped_credits :
    (i : ℕ) (es : List Entry)
    → sum_entries_on i EntryType.credit (map flip_entry es) ≡ sum_entries_on i EntryType.debit es
flipped_credits i [] = refl
flipped_credits i (e ∷ es) = ground (arith, flipped_credits i es)

-- The mirrored entries move a balance back.
pub delta-flip_entry :
    (a : Account) (es : List Entry) → delta a (map flip_entry es) ≡ negated (delta a es)
unfolding delta
delta-flip_entry a es =
    rw (flipped_debits a.id es, flipped_credits a.id es)
      (elim (Bool-cases (is_debit_positive a.account_type)) [
        | inl e ↦ rw e (omega int_laws)
        | inr e ↦ rw e (omega int_laws)
      ])

aggregate-claimed :
    (ctx : Context) (i reason j : ℕ) (ty : EntryType) (ts : List Transaction)
    → aggregate j ty (update_where (is_claimable i) (mark_voided ctx reason) ts) ≡ aggregate j ty ts
aggregate-claimed ctx i reason j ty [] = refl
aggregate-claimed ctx i reason j ty (t ∷ ts) = elim (Bool-cases (is_claimable i t)) [
  | inl e ↦ rw (e, aggregate-claimed ctx i reason j ty ts)
  | inr e ↦ rw (e, aggregate-claimed ctx i reason j ty ts)
]

-- A voided row still counts.
pub fresh_balance-claimed :
    (ctx : Context) (i reason : ℕ) (ts : List Transaction) (a : Account)
    → fresh_balance (update_where (is_claimable i) (mark_voided ctx reason) ts) a
      ≡ fresh_balance ts a
unfolding fresh_balance
fresh_balance-claimed ctx i reason ts a = rw (
  aggregate-claimed ctx i reason a.id EntryType.debit ts,
  aggregate-claimed ctx i reason a.id EntryType.credit ts,
)
