-- ===== src/Dues/Totals.antt =====
-- The remaining amounts of the invoices against the figures of the whole:
-- src/receivables-payables/receivables-payables.service.ts, `computeDirection`.
use cashfo_backend.Base.{
  ◌≡◌, sym, ◌∙◌, ap, List, [], ◌∷◌, ℤ, pos, ◌+ℤ◌, ◌-ℤ◌, ◌≤ℤ◌, ◌<ℤ◌, int_laws, arith, inl, inr,
  ltb_ℤ, Bool-cases,
}
use cashfo_backend.Dues.Defs.{Due, Allocation, min_ℤ, max_ℤ, add_paid, settle_fifo, remaining_of}
use cashfo_backend.Dues.Rounds.{
  settle_fifo-spent, settle_fifo-skips, settle_fifo-pays, owed_in_all, owed_in_all_pos, max-none,
  max-some,
}

pub max-keeps : (x : ℤ) → pos 0 ≤ℤ x → max_ℤ (pos 0) x ≡ x
max-keeps x h = elim (Bool-cases (ltb_ℤ (pos 0) x)) [
  | inl above ↦ max-some x (ground arith)
  | inr at ↦
      let below : x ≤ℤ pos 0 = ground arith in
      let zero : pos 0 ≡ x = omega (int_laws, h, below) in max-none x below ∙ zero
]

remaining-paid :
    (d : Due) (share : ℤ)
    → share ≤ℤ d.original -ℤ d.paid
    → remaining_of (add_paid share d) ≡ d.original -ℤ d.paid -ℤ share
remaining-paid d share h =
    let after : d.original -ℤ (d.paid +ℤ share) ≡ d.original -ℤ d.paid -ℤ share = omega int_laws in
    max-keeps (d.original -ℤ (d.paid +ℤ share)) (omega (int_laws, h)) ∙ after

pool_empty :
    (o pool : ℤ) → pos 0 ≤ℤ o → pool ≤ℤ pos 0 → pos 0 ≤ℤ pool → o ≡ max_ℤ (pos 0) (o -ℤ pool)
pool_empty o pool k below above =
    let same : o -ℤ pool ≡ o = omega (int_laws, below, above) in
    sym (max-keeps (o -ℤ pool) (omega (int_laws, k, below)) ∙ same)

zero_first : (x : ℤ) → pos 0 +ℤ x ≡ x
zero_first x = omega int_laws

owes_nothing :
    (r o pool : ℤ) → r ≡ pos 0 → r +ℤ max_ℤ (pos 0) (o -ℤ pool) ≡ max_ℤ (pos 0) (r +ℤ o -ℤ pool)
owes_nothing r o pool e =
    let inside : pos 0 +ℤ o -ℤ pool ≡ o -ℤ pool = omega int_laws in
    ap (λ (v : ℤ). v +ℤ max_ℤ (pos 0) (o -ℤ pool)) e
    ∙ zero_first (max_ℤ (pos 0) (o -ℤ pool))
    ∙ ap (max_ℤ (pos 0)) (sym inside)
    ∙ ap (λ (v : ℤ). max_ℤ (pos 0) (v +ℤ o -ℤ pool)) (sym e)

-- The share of an invoice that owes `r`, and the rest.
share_taken :
    (r o pool : ℤ)
    → pos 0 ≤ℤ o
    → r -ℤ min_ℤ r pool +ℤ max_ℤ (pos 0) (o -ℤ (pool -ℤ min_ℤ r pool))
      ≡ max_ℤ (pos 0) (r +ℤ o -ℤ pool)
share_taken r o pool k = elim (Bool-cases (ltb_ℤ r pool)) [
  | inl less ↦
      let inside : o -ℤ (pool -ℤ r) ≡ r +ℤ o -ℤ pool = omega int_laws in
      let none_left : r -ℤ r +ℤ max_ℤ (pos 0) (o -ℤ (pool -ℤ r))
          ≡ max_ℤ (pos 0) (o -ℤ (pool -ℤ r)) =
        omega int_laws in
      rw less (none_left ∙ ap (max_ℤ (pos 0)) inside)
  | inr enough ↦
      let within : pool ≤ℤ r = ground arith in
      let same : o -ℤ (pool -ℤ pool) ≡ o = omega int_laws in
      let rest = ap (max_ℤ (pos 0)) same ∙ max-keeps o k in
      let whole = max-keeps (r +ℤ o -ℤ pool) (omega (int_laws, within, k)) in
      let sums : r -ℤ pool +ℤ o ≡ r +ℤ o -ℤ pool = omega int_laws in
      rw enough (ap (λ (v : ℤ). r -ℤ pool +ℤ v) rest ∙ sums ∙ sym whole)
]

pub min-within : (r pool : ℤ) → min_ℤ r pool ≤ℤ r
min-within r pool = ground arith

min_left : (r pool : ℤ) → pos 0 ≤ℤ pool -ℤ min_ℤ r pool
min_left r pool = elim (Bool-cases (ltb_ℤ r pool)) [
  | inl less ↦ let below : r <ℤ pool = ground arith in rw less (omega (int_laws, below))
  | inr enough ↦ rw enough (omega int_laws)
]

-- The loop lowers what is owed by the pool, to nothing at least.
pub owed-settled :
    (pool : ℤ) (ds : List Due)
    → pos 0 ≤ℤ pool
    → owed_in_all (settle_fifo pool ds).dues ≡ max_ℤ (pos 0) (owed_in_all ds -ℤ pool)
unfolding settle_fifo owed_in_all
owed-settled pool [] h = sym (max-none (pos 0 -ℤ pool) (omega (int_laws, h)))
owed-settled pool (d ∷ ds) h = elim (Bool-cases (ltb_ℤ (pos 0) pool)) [
  | inr spent ↦
      ap (λ (x : Allocation). owed_in_all x.dues) (settle_fifo-spent pool d ds spent)
      ∙ pool_empty (owed_in_all (d ∷ ds)) pool (owed_in_all_pos (d ∷ ds)) (ground arith) h
  | inl some_left ↦ elim (Bool-cases (ltb_ℤ (pos 0) (d.original -ℤ d.paid))) [
    | inr paid_off ↦
        ap (λ (x : Allocation). owed_in_all x.dues) (settle_fifo-skips pool d ds some_left paid_off)
        ∙ ap (λ (v : ℤ). remaining_of d +ℤ v) (owed-settled pool ds h)
        ∙ owes_nothing (remaining_of d) (owed_in_all ds) pool
            (max-none (d.original -ℤ d.paid) (ground arith))
    | inl owes ↦
        let r = d.original -ℤ d.paid in
        let share = min_ℤ (d.original -ℤ d.paid) pool in
        let owing : remaining_of d ≡ d.original -ℤ d.paid =
          max-some (d.original -ℤ d.paid) (ground arith) in
        ap (λ (x : Allocation). owed_in_all x.dues) (settle_fifo-pays pool d ds some_left owes)
        ∙ ap (λ (v : ℤ). v +ℤ owed_in_all (settle_fifo (pool -ℤ share) ds).dues)
            (remaining-paid d share (min-within r pool))
        ∙ ap (λ (v : ℤ). r -ℤ share +ℤ v)
            (owed-settled (pool -ℤ min_ℤ (d.original -ℤ d.paid) pool) ds (min_left r pool))
        ∙ share_taken r (owed_in_all ds) pool (owed_in_all_pos ds)
        ∙ ap (λ (v : ℤ). max_ℤ (pos 0) (v +ℤ owed_in_all ds -ℤ pool)) (sym owing)
  ]
]
