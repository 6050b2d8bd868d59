-- ===== src/Statements/InOut.antt =====
-- The figures of an account against its balance: `getAccountSummary` and `recalculateBalance` in
-- src/accounts/account-balance.service.ts.
use cashfo_backend.Base.{
  ℕ, ◌≡◌, refl, sym, ◌∙◌, ap, subst, Bool, true, false, not, none, some, List, [], ◌∷◌, ℤ, pos,
  ◌+ℤ◌, ◌-ℤ◌, int_laws, arith, inl, inr, ◌&&◌, if◌then◌else◌, Bool-cases, filter, sum_of, sum_of-+ℤ,
  sum_of-filter, find_unique-key, +ℤ-zero,
}
use cashfo_backend.Schema.{Account, EntryType, Db, ok, same_entry_type, find_account}
use cashfo_backend.Ledger.Balance.{is_debit_positive, fresh_balance}
use cashfo_backend.Ledger.Consistency.{cached_balance}
use cashfo_backend.Ledger.Invariant.{IsSound}
use cashfo_backend.Statements.Defs.{Line, line_delta, is_on, lines_of}
use cashfo_backend.Statements.Closing.{
  signed, signed-step, signed-zero, side-signed, delta_of, fresh_balance-lines,
}
use cashfo_backend.Statements.Summary.{
  SummaryFilters, AccountSummary, is_live, is_transfer, is_within, is_other, is_moved,
  aggregate_lines, summary_on, get_account_summary,
}

-- A line counts where it is within the dates and its transaction still stands.
abbrev counts : SummaryFilters → Line → Bool
counts f l = is_within f l && is_live l.transaction

abbrev part : (Line → Bool) → EntryType → Line → ℤ
part p ty l = if p l && same_entry_type l.entry.entry_type ty then l.entry.amount else pos 0

aggregate_lines-parts :
    (p : Line → Bool) (ty : EntryType) (ls : List Line)
    → aggregate_lines p ty ls ≡ sum_of (part p ty) ls
aggregate_lines-parts p ty ls =
    sum_of-filter (λ (l : Line). p l && same_entry_type l.entry.entry_type ty)
      (λ (l : Line). l.entry.amount) ls

signed-sums :
    (dp : Bool) (f g : Line → ℤ) (ls : List Line)
    → signed dp (sum_of f ls) (sum_of g ls) ≡ sum_of (λ l. signed dp (f l) (g l)) ls
signed-sums dp f g [] = sym (signed-zero dp)
signed-sums dp f g (l ∷ ls) =
    signed-step dp (f l) (g l) (sum_of f ls) (sum_of g ls)
    ∙ ap (λ (v : ℤ). signed dp (f l) (g l) +ℤ v) (signed-sums dp f g ls)

-- One of the two aggregates of a kind of line, signed.
signed-part :
    (dp : Bool) (p : Line → Bool) (l : Line)
    → signed dp (part p EntryType.debit l) (part p EntryType.credit l)
      ≡ (if p l then line_delta dp l else pos 0)
signed-part dp p l = elim (Bool-cases (p l)) [
  | inl here ↦ rw here (sym (side-signed dp l.entry.entry_type l.entry.amount))
  | inr there ↦ rw there (sym (signed-zero dp))
]

-- A line that counts is of one kind or of the other.
either_kind :
    (w l m : Bool) (v : ℤ)
    → (if w && l && not m then v else pos 0) +ℤ (if w && l && m then v else pos 0)
      ≡ (if w && l then v else pos 0)
either_kind true true true v = omega int_laws
either_kind true true false v = omega int_laws
either_kind true false m v = omega int_laws
either_kind false l m v = omega int_laws

sum_of-same :
    (f g : Line → ℤ) → ((l : Line) → f l ≡ g l) → (ls : List Line) → sum_of f ls ≡ sum_of g ls
sum_of-same f g same [] = refl
sum_of-same f g same (l ∷ ls) = rw (same l, sum_of-same f g same ls) refl

regroup :
    (f : SummaryFilters) (dp : Bool) (l : Line)
    → (if is_other f l then line_delta dp l else pos 0)
        +ℤ (if is_moved f l then line_delta dp l else pos 0)
      ≡ (if counts f l then line_delta dp l else pos 0)
regroup f dp l =
    either_kind (is_within f l) (is_live l.transaction) (is_transfer l.transaction)
      (line_delta dp l)

kinds-sum :
    (f : SummaryFilters) (dp : Bool) (ls : List Line)
    → signed dp
          (aggregate_lines (is_other f) EntryType.debit ls)
          (aggregate_lines (is_other f) EntryType.credit ls)
        +ℤ signed dp
            (aggregate_lines (is_moved f) EntryType.debit ls)
            (aggregate_lines (is_moved f) EntryType.credit ls)
      ≡ delta_of dp (filter (counts f) ls)
kinds-sum f dp ls =
    let kind : (p : Line → Bool)
        → signed dp (aggregate_lines p EntryType.debit ls) (aggregate_lines p EntryType.credit ls)
          ≡ sum_of (λ l. if p l then line_delta dp l else pos 0) ls =
      λ p.
        ap (λ (v : ℤ). signed dp v (aggregate_lines p EntryType.credit ls))
          (aggregate_lines-parts p EntryType.debit ls)
        ∙ ap (signed dp (sum_of (part p EntryType.debit) ls))
            (aggregate_lines-parts p EntryType.credit ls)
        ∙ signed-sums dp (part p EntryType.debit) (part p EntryType.credit) ls
        ∙ sum_of-same _ _ (signed-part dp p) ls in
    ap
      (λ (v : ℤ).
        v
        +ℤ signed dp (aggregate_lines (is_moved f) EntryType.debit ls)
            (aggregate_lines (is_moved f) EntryType.credit ls))
      (kind (is_other f))
    ∙ ap (λ (v : ℤ). sum_of (λ l. if is_other f l then line_delta dp l else pos 0) ls +ℤ v)
        (kind (is_moved f))
    ∙ sym (sum_of-+ℤ _ _ ls)
    ∙ sum_of-same _ _ (regroup f dp) ls
    ∙ sym (sum_of-filter (counts f) (line_delta dp) ls)

-- No first and no last day.
abbrev pub no_dates : SummaryFilters
no_dates = record { date_from = none; date_to = none }

-- What voided transactions and their reversals leave of an account's balance: the lines that stand
-- no more.
abbrev pub fallen : Account → Db → ℤ
fallen a db = delta_of (is_debit_positive a.account_type) (
    filter (λ (l : Line). not (is_live l.transaction))
      (filter (is_on a.id) (lines_of db.transactions)))

shift_left : (x y z : ℤ) → x +ℤ (y +ℤ z) ≡ x +ℤ y +ℤ z
shift_left x y z = omega int_laws

shift_right : (x y z : ℤ) → x +ℤ (y +ℤ z) ≡ y +ℤ (x +ℤ z)
shift_right x y z = omega int_laws

live_and_fallen :
    (f : Line → ℤ) (ls : List Line)
    → sum_of f ls
      ≡ sum_of f (filter (counts no_dates) ls)
        +ℤ sum_of f (filter (λ (l : Line). not (is_live l.transaction)) ls)
live_and_fallen f [] = omega int_laws
live_and_fallen f (l ∷ ls) = elim (Bool-cases (is_live l.transaction)) [
  | inl stands ↦ rw stands (ap (λ (v : ℤ). f l +ℤ v) (live_and_fallen f ls) ∙ shift_left (f l) _ _)
  | inr fell ↦ rw fell (ap (λ (v : ℤ). f l +ℤ v) (live_and_fallen f ls) ∙ shift_right (f l) _ _)
]

-- The two sums of a summary, with the transfers between them.
in_out :
    (dp : Bool) (d c td tc : ℤ)
    → (if dp then d else c) -ℤ (if dp then c else d) +ℤ (if dp then td -ℤ tc else tc -ℤ td)
      ≡ signed dp d c +ℤ signed dp td tc
in_out true d c td tc = refl
in_out false d c td tc = refl

summary-balances :
    (a : Account) (db : Db)
    → fallen a db ≡ pos 0
    → let s = summary_on no_dates a (filter (is_on a.id) (lines_of db.transactions)) in
      fresh_balance db.transactions a
      ≡ a.opening_balance +ℤ (s.total_in -ℤ s.total_out +ℤ s.adjustment)
summary-balances a db cancelled =
    let dp = is_debit_positive a.account_type in
    let ls = filter (is_on a.id) (lines_of db.transactions) in
    let whole : delta_of dp ls ≡ delta_of dp (filter (counts no_dates) ls) =
      live_and_fallen (line_delta dp) ls
      ∙ ap (λ (v : ℤ). delta_of dp (filter (counts no_dates) ls) +ℤ v) cancelled
      ∙ +ℤ-zero (delta_of dp (filter (counts no_dates) ls)) in
    let kinds =
      in_out dp (aggregate_lines (is_other no_dates) EntryType.debit ls)
        (aggregate_lines (is_other no_dates) EntryType.credit ls)
        (aggregate_lines (is_moved no_dates) EntryType.debit ls)
        (aggregate_lines (is_moved no_dates) EntryType.credit ls) in
    fresh_balance-lines a db.transactions
    ∙ ap (λ (v : ℤ). a.opening_balance +ℤ v) (whole ∙ sym (kinds-sum no_dates dp ls) ∙ sym kinds)

-- The summary of an account in a sound workspace, over all days, where the voided transactions and
-- their reversals leave nothing of its balance: its current balance is its opening balance, and
-- what came in, less what went out, and the balance of its transfers.
pub get_account_summary-balances :
    (b i : ℕ) (db : Db) (s : AccountSummary) (a : Account)
    → IsSound db
    → find_account i db.accounts ≡ some a
    → fallen a db ≡ pos 0
    → get_account_summary b i no_dates db ≡ ok s
    → s.current_balance ≡ a.opening_balance +ℤ (s.total_in -ℤ s.total_out +ℤ s.adjustment)
unfolding get_account_summary
get_account_summary-balances b i db s a sound e cancelled h =
    let same_id = find_unique-key (λ (r : Account). r.id) i db.accounts a e in
    let is_summary : s ≡ summary_on no_dates a (filter (is_on i) (lines_of db.transactions)) =
      ground arith in
    let own =
      is_summary
      ∙ ap (λ (k : ℕ). summary_on no_dates a (filter (is_on k) (lines_of db.transactions)))
          (sym same_id) in
    subst
      (λ (x : AccountSummary).
        x.current_balance ≡ a.opening_balance +ℤ (x.total_in -ℤ x.total_out +ℤ x.adjustment))
      (sym own) (cached_balance sound.consistent i a e ∙ summary-balances a db cancelled)
