-- ===== src/Dues/Rounds.antt =====
-- One round of the loop that settles the oldest invoices first:
-- src/receivables-payables/receivables-payables.service.ts, `computeDirection`.
use cashfo_backend.Base.{
  ◌≡◌, refl, true, false, List, [], ◌∷◌, ℤ, pos, ◌-ℤ◌, ◌≤ℤ◌, ◌<ℤ◌, int_laws, arith, ltb_ℤ, sum_of,
}
use cashfo_backend.Dues.Defs.{Due, max_ℤ, min_ℤ, add_paid, settle_fifo, remaining_of}

-- What the invoices owe, each at least nothing.
unfoldable pub owed_in_all : List Due → ℤ
owed_in_all ds = sum_of remaining_of ds

pub remaining_of_pos : (d : Due) → pos 0 ≤ℤ remaining_of d
remaining_of_pos d = ground arith

pub max-none : (x : ℤ) → x ≤ℤ pos 0 → max_ℤ (pos 0) x ≡ pos 0
max-none x h = ground arith

pub max-some : (x : ℤ) → pos 0 <ℤ x → max_ℤ (pos 0) x ≡ x
max-some x h = ground arith

pub owed_in_all_pos : (ds : List Due) → pos 0 ≤ℤ owed_in_all ds
unfolding owed_in_all
owed_in_all_pos [] = omega arith
owed_in_all_pos (d ∷ ds) = omega (int_laws, remaining_of_pos d, owed_in_all_pos ds)

-- The three ways of one round of the loop.
module _ (left : ℤ) (d : Due) (ds : List Due) where
  pub settle_fifo-spent :
      ltb_ℤ (pos 0) left ≡ false → settle_fifo left (d ∷ ds) ≡ record { dues = d ∷ ds; pool = left }
  unfolding settle_fifo
  settle_fifo-spent spent = rw spent refl

  pub settle_fifo-skips :
      ltb_ℤ (pos 0) left ≡ true
      → ltb_ℤ (pos 0) (d.original -ℤ d.paid) ≡ false
      → settle_fifo left (d ∷ ds)
        ≡ record { dues = d ∷ (settle_fifo left ds).dues; pool = (settle_fifo left ds).pool }
  unfolding settle_fifo
  settle_fifo-skips some_left paid_off = rw (some_left, paid_off) refl

  pub settle_fifo-pays :
      ltb_ℤ (pos 0) left ≡ true
      → ltb_ℤ (pos 0) (d.original -ℤ d.paid) ≡ true
      → let share = min_ℤ (d.original -ℤ d.paid) left in
        let rest = settle_fifo (left -ℤ share) ds in
        settle_fifo left (d ∷ ds) ≡ record { dues = add_paid share d ∷ rest.dues; pool = rest.pool }
  unfolding settle_fifo
  settle_fifo-pays some_left owes = rw (some_left, owes) refl
