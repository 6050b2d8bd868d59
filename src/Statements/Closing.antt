-- ===== src/Statements/Closing.antt =====
-- The closing balance of an account's ledger against the balance computed from scratch:
-- `getLedger` and `recalculateBalance` in src/accounts/account-balance.service.ts.
use cashfo_backend.Base.{
  ℕ, ◌≤◌, ◌≡◌, refl, sym, ◌∙◌, ap, subst, Bool, true, false, Option, none, some, List, [], ◌∷◌, ℤ,
  pos, ◌+ℤ◌, ◌-ℤ◌, int_laws, arith, inl, inr, Bool-cases, filter, sum_of, sum_of-append,
  sum_of-filter, sum_of-sort_by, find_unique-key, ◌&&◌, if◌then◌else◌, ◌==◌, negated,
}
use cashfo_backend.Schema.{
  Account, Db, ok, find_account, Entry, Transaction, EntryType, same_entry_type,
}
use cashfo_backend.Ledger.Balance.{
  is_debit_positive, fresh_balance, sum_entries_on, aggregate, amount_on,
}
use cashfo_backend.Ledger.Consistency.{cached_balance}
use cashfo_backend.Ledger.Invariant.{IsSound}
use cashfo_backend.Statements.Defs.{
  LedgerFilters, Line, LedgerPage, line_delta, is_on, is_prior, is_from, lines_within, lines_of,
  add_deltas, brought_forward, is_earlier, running_rows, closing_of, lines_between, ledger_page,
  get_ledger, Ties,
}
use cashfo_backend.Statements.Pages.{paged, page-whole, get_ledger-found}

abbrev pub delta_of : Bool → List Line → ℤ
delta_of dp = sum_of (line_delta dp)

add_deltas-sum :
    (dp : Bool) (start : ℤ) (ls : List Line) → add_deltas dp start ls ≡ start +ℤ delta_of dp ls
unfolding add_deltas
add_deltas-sum dp start [] = omega int_laws
add_deltas-sum dp start (l ∷ ls) = add_deltas-sum dp (start +ℤ line_delta dp l) ls ∙ omega int_laws

closing_of-rows :
    (dp : Bool) (start : ℤ) (ls : List Line)
    → closing_of start (running_rows dp start ls) ≡ start +ℤ delta_of dp ls
unfolding closing_of running_rows
closing_of-rows dp start [] = omega int_laws
closing_of-rows dp start (l ∷ ls) =
    closing_of-rows dp (start +ℤ line_delta dp l) ls ∙ omega int_laws

-- What one side adds and the other takes away, by the kind of the account.
abbrev pub signed : Bool → ℤ → ℤ → ℤ
signed dp debits credits = if dp then debits -ℤ credits else credits -ℤ debits

pub signed-step :
    (dp : Bool) (d c ds cs : ℤ) → signed dp (d +ℤ ds) (c +ℤ cs) ≡ signed dp d c +ℤ signed dp ds cs
signed-step true d c ds cs = omega int_laws
signed-step false d c ds cs = omega int_laws

pub signed-zero : (dp : Bool) → pos 0 ≡ signed dp (pos 0) (pos 0)
signed-zero true = omega int_laws
signed-zero false = omega int_laws

pub side-signed :
    (dp : Bool) (ty : EntryType) (v : ℤ)
    → (if same_entry_type ty EntryType.debit
        then (if dp then v else negated v)
        else (if dp then negated v else v))
      ≡ signed dp
          (if same_entry_type ty EntryType.debit then v else pos 0)
          (if same_entry_type ty EntryType.credit then v else pos 0)
side-signed true EntryType.debit v = omega int_laws
side-signed true EntryType.credit v = omega int_laws
side-signed false EntryType.debit v = omega int_laws
side-signed false EntryType.credit v = omega int_laws

-- What a line adds to the balance of an account: nothing where it is on another.
line_delta-signed :
    (dp : Bool) (i : ℕ) (t : Transaction) (e : Entry)
    → (if e.account_id == i then line_delta dp (record { transaction = t; entry = e }) else pos 0)
      ≡ signed dp (amount_on i EntryType.debit e) (amount_on i EntryType.credit e)
line_delta-signed dp i t e = elim (Bool-cases (e.account_id == i)) [
  | inl here ↦ rw here (side-signed dp e.entry_type e.amount)
  | inr elsewhere ↦ rw elsewhere (signed-zero dp)
]

-- The entries on an account raise its balance by the difference of its two totals.
pub delta_of-within :
    (dp : Bool) (i : ℕ) (t : Transaction) (es : List Entry)
    → sum_of (λ l. if is_on i l then line_delta dp l else pos 0) (lines_within t es)
      ≡ signed dp (sum_entries_on i EntryType.debit es) (sum_entries_on i EntryType.credit es)
delta_of-within dp i t [] = signed-zero dp
delta_of-within dp i t (e ∷ es) =
    rw (line_delta-signed dp i t e, delta_of-within dp i t es)
      (sym (
        signed-step dp (amount_on i EntryType.debit e) (amount_on i EntryType.credit e)
          (sum_entries_on i EntryType.debit es) (sum_entries_on i EntryType.credit es)))

delta_of-lines :
    (dp : Bool) (i : ℕ) (ts : List Transaction)
    → sum_of (λ l. if is_on i l then line_delta dp l else pos 0) (lines_of ts)
      ≡ signed dp (aggregate i EntryType.debit ts) (aggregate i EntryType.credit ts)
delta_of-lines dp i [] = signed-zero dp
delta_of-lines dp i (t ∷ ts) =
    rw
      (
        sum_of-append (λ l. if is_on i l then line_delta dp l else pos 0) (lines_within t t.entries)
            (lines_of ts),
        delta_of-within dp i t t.entries,
        delta_of-lines dp i ts,
      )
      (sym (
        signed-step dp (sum_entries_on i EntryType.debit t.entries)
          (sum_entries_on i EntryType.credit t.entries) (aggregate i EntryType.debit ts)
          (aggregate i EntryType.credit ts)))

signed-opening :
    (dp : Bool) (opening debits credits : ℤ)
    → opening +ℤ signed dp debits credits
      ≡ (if dp then opening +ℤ debits -ℤ credits else opening +ℤ credits -ℤ debits)
signed-opening true opening debits credits = omega int_laws
signed-opening false opening debits credits = omega int_laws

-- The balance from scratch by the lines on the account.
pub fresh_balance-lines :
    (a : Account) (ts : List Transaction)
    → fresh_balance ts a
      ≡ a.opening_balance
        +ℤ delta_of (is_debit_positive a.account_type) (filter (is_on a.id) (lines_of ts))
unfolding fresh_balance
fresh_balance-lines a ts =
    let dp = is_debit_positive a.account_type in
    let lines =
      sum_of-filter (is_on a.id) (line_delta dp) (lines_of ts) ∙ delta_of-lines dp a.id ts in
    sym (
      signed-opening dp a.opening_balance (aggregate a.id EntryType.debit ts)
        (aggregate a.id EntryType.credit ts))
    ∙ ap (λ (v : ℤ). a.opening_balance +ℤ v) (sym lines)

sum_swap : (x y z : ℤ) → x +ℤ y +ℤ z ≡ x +ℤ (y +ℤ z)
sum_swap x y z = omega int_laws

sum_past : (x y z : ℤ) → x +ℤ (y +ℤ z) ≡ y +ℤ (x +ℤ z)
sum_past x y z = omega int_laws

-- The lines before a day and those from it on.
split_at_day :
    (f : Line → ℤ) (d : ℕ) (ls : List Line)
    → sum_of f (filter (is_prior d) ls) +ℤ sum_of f (filter (is_from (some d)) ls) ≡ sum_of f ls
unfolding ◌+ℤ◌
split_at_day f d [] = refl
split_at_day f d (l ∷ ls) = elim (Bool-cases (is_prior d l)) [
  | inl before ↦
      let later : is_from (some d) l ≡ false = ground arith in
      rw (before, later) (sum_swap (f l) _ _ ∙ ap (λ (v : ℤ). f l +ℤ v) (split_at_day f d ls))
  | inr after ↦
      let later : is_from (some d) l ≡ true = ground arith in
      rw (after, later) (sum_past _ (f l) _ ∙ ap (λ (v : ℤ). f l +ℤ v) (split_at_day f d ls))
]

pub filter-same :
    (p q : Line → Bool) → ((l : Line) → p l ≡ q l) → (ls : List Line) → filter p ls ≡ filter q ls
filter-same p q same [] = refl
filter-same p q same (l ∷ ls) = rw (same l, filter-same p q same ls) refl

pub filter-true : (ls : List Line) → filter (λ l. true) ls ≡ ls
filter-true [] = refl
filter-true (l ∷ ls) = ap (λ (xs : List Line). l ∷ xs) (filter-true ls)

-- The filters of a ledger that has no last day.
abbrev pub since : Option ℕ → LedgerFilters
since date_from = record { date_from = date_from; date_to = none; page = none; limit = none }

-- The balance brought forward and all lines from the first day on.
closing_since :
    (ties : Ties) (a : Account) (ls : List Line) (date_from : Option ℕ)
    → brought_forward a ls date_from
        +ℤ delta_of (is_debit_positive a.account_type) (lines_between ties (since date_from) ls)
      ≡ a.opening_balance +ℤ delta_of (is_debit_positive a.account_type) ls
unfolding brought_forward lines_between
closing_since ties a ls none =
    let dp = is_debit_positive a.account_type in
    let everything : filter (λ (l : Line). true && true) ls ≡ ls = filter-true ls in
    ap (λ (v : ℤ). a.opening_balance +ℤ v)
      (sum_of-sort_by (is_earlier ties) (line_delta dp) _ ∙ ap (delta_of dp) everything)
closing_since ties a ls (some d) =
    let dp = is_debit_positive a.account_type in
    let later =
      filter-same (λ l. is_from (some d) l && true) (is_from (some d)) (λ l. ground arith) ls in
    let sorted =
      sum_of-sort_by (is_earlier ties) (line_delta dp) (filter (λ l. is_from (some d) l && true) ls)
      ∙ ap (delta_of dp) later in
    rw (add_deltas-sum dp a.opening_balance (filter (is_prior d) ls), sorted)
      (sum_swap a.opening_balance _ _
        ∙ ap (λ (v : ℤ). a.opening_balance +ℤ v) (split_at_day (line_delta dp) d ls))

page-closing :
    (ties : Ties) (a : Account) (ls : List Line) (date_from : Option ℕ) (m : ℕ)
    → (ledger_page ties (paged 1 m (since date_from)) a ls).total ≤ m
    → (ledger_page ties (paged 1 m (since date_from)) a ls).closing_balance
      ≡ a.opening_balance +ℤ delta_of (is_debit_positive a.account_type) ls
unfolding ledger_page lines_between
page-closing ties a ls date_from m h =
    let start = brought_forward a ls date_from in
    ap (closing_of start) (page-whole ties (since date_from) a ls m h)
    ∙ closing_of-rows (is_debit_positive a.account_type) start
        (lines_between ties (since date_from) ls)
    ∙ closing_since ties a ls date_from

-- The ledger of an account in a sound workspace, from any first day or from none, with no last
-- day and in one page (its limit is at least the number of entries): its closing balance is the
-- account's current balance, however the database orders ties.
pub get_ledger-closing :
    (ties : Ties) (b i : ℕ) (date_from : Option ℕ) (m : ℕ) (db : Db) (s : LedgerPage) (a : Account)
    → IsSound db
    → find_account i db.accounts ≡ some a
    → get_ledger ties b i (paged 1 m (since date_from)) db ≡ ok s
    → s.total ≤ m
    → s.closing_balance ≡ a.current_balance
get_ledger-closing ties b i date_from m db s a sound e h long =
    let (a', e', s_is) = get_ledger-found ties b i (paged 1 m (since date_from)) db s h in
    let same : a' ≡ a = cc in
    let same_id = find_unique-key (λ (r : Account). r.id) i db.accounts a e in
    let ls = filter (is_on i) (lines_of db.transactions) in
    let page =
      s_is ∙ ap (λ (x : Account). ledger_page ties (paged 1 m (since date_from)) x ls) same in
    let fits = subst (λ (x : LedgerPage). x.total ≤ m) page long in
    let own =
      ap
        (λ (k : ℕ).
          a.opening_balance
          +ℤ delta_of (is_debit_positive a.account_type)
              (filter (is_on k) (lines_of db.transactions)))
        same_id in
    ap (λ (x : LedgerPage). x.closing_balance) page
    ∙ page-closing ties a ls date_from m fits
    ∙ sym own
    ∙ sym (fresh_balance-lines a db.transactions)
    ∙ sym (cached_balance sound.consistent i a e)
