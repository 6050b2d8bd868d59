-- ===== src/Statements/Pages.antt =====
-- The pages of an account's ledger: `getLedger` in src/accounts/account-balance.service.ts.
use cashfo_backend.Base.{
  ℕ, zero, suc, ◌+◌, ◌-◌, ◌*◌, ◌≤◌, ◌≡◌, refl, sym, ◌∙◌, ap, subst, Bool, some, List, [], ◌∷◌, ℤ,
  ◌+ℤ◌, arith, inl, inr, Option-cases, filter, take, drop, length, false, All, Bool-cases,
  insert_by, sort_by, All-sort_by, All-filter,
}
use cashfo_backend.Schema.{Account, Db, ok, find_account}
use cashfo_backend.Ledger.Balance.{is_debit_positive}
use cashfo_backend.Statements.Defs.{
  LedgerFilters, Line, LedgerRow, LedgerPage, line_delta, row_of, running_rows, lines_between,
  brought_forward, ledger_page, lines_of, is_on, get_ledger, Ties, has_same_keys, is_earlier,
}

abbrev pub paged : ℕ → ℕ → LedgerFilters → LedgerFilters
paged page limit f = record f { page = some page; limit = some limit }

-- The running balance of a row depends on the rows before it alone.
running_rows-take :
    (dp : Bool) (n : ℕ) (start : ℤ) (ls : List Line)
    → running_rows dp start (take n ls) ≡ take n (running_rows dp start ls)
unfolding running_rows
running_rows-take dp zero start ls = refl
running_rows-take dp (suc n) start [] = refl
running_rows-take dp (suc n) start (l ∷ ls) =
    ap (λ (xs : List LedgerRow). row_of (start +ℤ line_delta dp l) l ∷ xs)
      (running_rows-take dp n (start +ℤ line_delta dp l) ls)

running_rows-length :
    (dp : Bool) (start : ℤ) (ls : List Line) → length (running_rows dp start ls) ≡ length ls
unfolding running_rows
running_rows-length dp start [] = refl
running_rows-length dp start (l ∷ ls) =
    ap suc (running_rows-length dp (start +ℤ line_delta dp l) ls)

take-take : {A : Type 0} (n : ℕ) (xs : List A) → take n (take n xs) ≡ take n xs
take-take zero xs = refl
take-take (suc n) [] = refl
take-take (suc n) (x ∷ xs) = ap (λ (ys : List _). x ∷ ys) (take-take n xs)

-- A page of a prefix that reaches the end of the page.
take-drop-take :
    {A : Type 0} (n k m : ℕ) (xs : List A)
    → m ≡ k + n
    → take n (drop k (take m xs)) ≡ take n (drop k xs)
take-drop-take n zero m xs e = let same : m ≡ n = omega (arith, e) in rw same (take-take n xs)
take-drop-take n (suc k) zero xs e = absurd (omega (arith, e))
take-drop-take n (suc k) (suc m) [] e = refl
take-drop-take n (suc k) (suc m) (x ∷ xs) e = take-drop-take n k m xs (omega (arith, e))

pub take-all : {A : Type 0} (n : ℕ) (xs : List A) → length xs ≤ n → take n xs ≡ xs
take-all zero [] h = refl
take-all zero (x ∷ xs) h = absurd (omega (arith, h))
take-all (suc n) [] h = refl
take-all (suc n) (x ∷ xs) h = ap (λ (ys : List _). x ∷ ys) (take-all n xs (omega (arith, h)))

module _ (ties : Ties) (f : LedgerFilters) (a : Account) (entries : List Line) where
  -- All rows, with no page cut out.
  abbrev pub every_row : List LedgerRow
  every_row =
      running_rows (is_debit_positive a.account_type) (brought_forward a entries f.date_from)
        (lines_between ties f entries)

  page-slice :
      (p n : ℕ)
      → (ledger_page ties (paged (suc p) n f) a entries).entries ≡ take n (drop (p * n) every_row)
  unfolding ledger_page lines_between
  page-slice p n =
      let end : suc p * n ≡ p * n + n = omega arith in
      let start : suc p - 1 ≡ p = omega arith in
      let width : suc p * n - p * n ≡ n = omega arith in
      rw
        (
          running_rows-take (is_debit_positive a.account_type) (suc p * n)
              (brought_forward a entries f.date_from) (lines_between ties f entries),
          start,
          width,
        )
        (take-drop-take n (p * n) (suc p * n) every_row end)

  pub page-whole :
      (m : ℕ)
      → (ledger_page ties (paged 1 m f) a entries).total ≤ m
      → (ledger_page ties (paged 1 m f) a entries).entries ≡ every_row
  unfolding ledger_page lines_between
  page-whole m h =
      let long : length every_row ≤ m = omega (
        arith,
        h,
        running_rows-length (is_debit_positive a.account_type)
            (brought_forward a entries f.date_from) (lines_between ties f entries),
      ) in
      let zeroth : 0 * m ≡ 0 = omega arith in
      page-slice 0 m ∙ ap (λ (k : ℕ). take m (drop k every_row)) zeroth ∙ take-all m every_row long

-- What the answer is made from.
pub get_ledger-found :
    (ties : Ties) (b i : ℕ) (f : LedgerFilters) (db : Db) (s : LedgerPage)
    → get_ledger ties b i f db ≡ ok s
    → (a : Account) × (find_account i db.accounts ≡ some a)
      × (s ≡ ledger_page ties f a (filter (is_on i) (lines_of db.transactions)))
unfolding get_ledger
get_ledger-found ties b i f db s h = elim (Option-cases (find_account i db.accounts)) [
  | inl e ↦ absurd (ground arith)
  | inr (a, e) ↦ (a, e, ground arith)
]

-- No two lines have both the same date and the same time.
abbrev pub AreUntied : List Line → Type 0
AreUntied [] = Unit
AreUntied (l ∷ ls) = All (λ (m : Line). has_same_keys l m ≡ false) ls × AreUntied ls

AreUntied-filter : (p : Line → Bool) (ls : List Line) → AreUntied ls → AreUntied (filter p ls)
AreUntied-filter p [] h = tt
AreUntied-filter p (l ∷ ls) h = elim (Bool-cases (p l)) [
  | inl kept ↦ rw kept (All-filter _ p ls h.0, AreUntied-filter p ls h.1)
  | inr dropped ↦ rw dropped (AreUntied-filter p ls h.1)
]

-- Where there are no ties, every query gives the same order.
module _ (ties ties' : Ties) where
  insert-untied :
      (l : Line) (ls : List Line)
      → All (λ (m : Line). has_same_keys l m ≡ false) ls
      → insert_by (is_earlier ties) l ls ≡ insert_by (is_earlier ties') l ls
  unfolding insert_by
  insert-untied l [] h = refl
  insert-untied l (m ∷ ls) h =
      let first : is_earlier ties l m ≡ is_earlier ties' l m = rw h.0 refl in
      rw (first, insert-untied l ls h.1) refl

  sort-untied :
      (ls : List Line) → AreUntied ls → sort_by (is_earlier ties) ls ≡ sort_by (is_earlier ties') ls
  unfolding sort_by
  sort-untied [] h = refl
  sort-untied (l ∷ ls) h =
      ap (insert_by (is_earlier ties) l) (sort-untied ls h.1)
      ∙ insert-untied l (sort_by (is_earlier ties') ls) (All-sort_by _ _ ls h.0)

  lines_between-untied :
      (f : LedgerFilters) (ls : List Line)
      → AreUntied ls
      → lines_between ties f ls ≡ lines_between ties' f ls
  unfolding lines_between
  lines_between-untied f ls h = sort-untied _ (AreUntied-filter _ ls h)

  every_row-untied :
      (f : LedgerFilters) (a : Account) (ls : List Line)
      → AreUntied ls
      → every_row ties f a ls ≡ every_row ties' f a ls
  every_row-untied f a ls h =
      ap (running_rows (is_debit_positive a.account_type) (brought_forward a ls f.date_from))
        (lines_between-untied f ls h)

-- A page of an account's ledger against the ledger in one page (its limit is at least the number
-- of entries), where no two entries on the account have both the same date and the same time of
-- creation: page `p + 1` of `n` entries holds the `n` rows after the first `p * n`, with the
-- running balances that the whole ledger has there, and counts as many entries in total, however
-- the database orders ties in either query.
pub get_ledger-pages :
    (ties ties' : Ties) (b i : ℕ) (f : LedgerFilters) (db : Db) (p n m : ℕ) (s w : LedgerPage)
    → AreUntied (filter (is_on i) (lines_of db.transactions))
    → get_ledger ties b i (paged (suc p) n f) db ≡ ok s
    → get_ledger ties' b i (paged 1 m f) db ≡ ok w
    → w.total ≤ m
    → (s.entries ≡ take n (drop (p * n) w.entries)) × (s.total ≡ w.total)
unfolding ledger_page
get_ledger-pages ties ties' b i f db p n m s w untied hs hw long =
    let (a, e, s_is) = get_ledger-found ties b i (paged (suc p) n f) db s hs in
    let (a', e', w_is) = get_ledger-found ties' b i (paged 1 m f) db w hw in
    let same : a' ≡ a = cc in
    let entries = filter (is_on i) (lines_of db.transactions) in
    let w_page : w ≡ ledger_page ties' (paged 1 m f) a entries =
      w_is ∙ ap (λ (x : Account). ledger_page ties' (paged 1 m f) x entries) same in
    let long_page = subst (λ (x : LedgerPage). x.total ≤ m) w_page long in
    let whole =
      ap (λ (x : LedgerPage). x.entries) w_page ∙ page-whole ties' f a entries m long_page in
    let rows = every_row-untied ties ties' f a entries untied in
    (
      ap (λ (x : LedgerPage). x.entries) s_is
          ∙ page-slice ties f a entries p n
          ∙ ap (λ (rs : List LedgerRow). take n (drop (p * n) rs)) (rows ∙ sym whole),
      ap (λ (x : LedgerPage). x.total) s_is
          ∙ ap length (lines_between-untied ties ties' (paged (suc p) n f) entries untied)
          ∙ sym (ap (λ (x : LedgerPage). x.total) w_page),
    )
