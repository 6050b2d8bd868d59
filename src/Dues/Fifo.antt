-- ===== src/Dues/Fifo.antt =====
-- The loop that settles the oldest invoices first, against its meaning:
-- src/receivables-payables/receivables-payables.service.ts, `computeDirection`.
use cashfo_backend.Base.{
  ◌≡◌, refl, sym, ◌∙◌, ap, true, false, List, [], ◌∷◌, ℤ, pos, ◌+ℤ◌, ◌-ℤ◌, ◌≤ℤ◌, ◌<ℤ◌, int_laws,
  arith, inl, inr, ltb_ℤ, Bool-cases,
}
use cashfo_backend.Dues.Defs.{Due, Allocation, max_ℤ, min_ℤ, add_paid, settle_fifo, remaining_of}
use cashfo_backend.Dues.Rounds.{
  max-none, max-some, owed_in_all, owed_in_all_pos, remaining_of_pos, settle_fifo-pays,
  settle_fifo-skips, settle_fifo-spent,
}

-- What an invoice gets of a pool when those before it owe so much: what it owes itself, or what
-- they leave of the pool.
abbrev pub fair_share : ℤ → ℤ → Due → ℤ
fair_share pool owed_before d = min_ℤ (remaining_of d) (max_ℤ (pos 0) (pool -ℤ owed_before))

-- The allocation of a pool that is never spent down: each share is read off the pool and what the
-- invoices before owe.
unfoldable pub allocate : ℤ → ℤ → List Due → List Due
allocate pool owed_before [] = []
allocate pool owed_before (d ∷ ds) =
    add_paid (fair_share pool owed_before d) d ∷ allocate pool (owed_before +ℤ remaining_of d) ds

add_paid-zero : (d : Due) → add_paid (pos 0) d ≡ d
add_paid-zero d =
    let same : d.paid +ℤ pos 0 ≡ d.paid = omega int_laws in
    ap (λ (v : ℤ). record d { paid = v }) same

-- The share where nothing of the pool is left, and where something is.
share-none :
    (pool owed_before : ℤ) (d : Due) → pool ≤ℤ owed_before → fair_share pool owed_before d ≡ pos 0
share-none pool owed_before d h =
    let nothing = max-none (pool -ℤ owed_before) (omega (int_laws, h)) in
    rw nothing (ground (arith, remaining_of_pos d))

share-left :
    (pool owed_before : ℤ) (d : Due)
    → owed_before <ℤ pool
    → fair_share pool owed_before d ≡ min_ℤ (remaining_of d) (pool -ℤ owed_before)
share-left pool owed_before d h = rw (max-some (pool -ℤ owed_before) (omega (int_laws, h))) refl

-- A pool that the invoices before use up leaves the rest as it is.
allocate-spent :
    (pool owed_before : ℤ) (ds : List Due) → pool ≤ℤ owed_before → allocate pool owed_before ds ≡ ds
unfolding allocate
allocate-spent pool owed_before [] h = refl
allocate-spent pool owed_before (d ∷ ds) h =
    let none_left : fair_share pool owed_before d ≡ pos 0 = share-none pool owed_before d h in
    let same : add_paid (fair_share pool owed_before d) d ≡ d = rw none_left (add_paid-zero d) in
    let still : pool ≤ℤ owed_before +ℤ remaining_of d = omega (int_laws, remaining_of_pos d) in
    rw (same, allocate-spent pool (owed_before +ℤ remaining_of d) ds still) refl

nothing_left : (x left : ℤ) → left ≡ max_ℤ (pos 0) x → ltb_ℤ (pos 0) left ≡ false → x ≤ℤ pos 0
nothing_left x left h e = ground arith

something_left : (x left : ℤ) → left ≡ max_ℤ (pos 0) x → ltb_ℤ (pos 0) left ≡ true → pos 0 <ℤ x
something_left x left h e = ground arith

-- What is left after an invoice, and after it and those before.
left_after :
    (pool owed_before owing : ℤ)
    → pool -ℤ owed_before -ℤ min_ℤ owing (pool -ℤ owed_before)
      ≡ max_ℤ (pos 0) (pool -ℤ (owed_before +ℤ owing))
left_after pool owed_before owing = elim (Bool-cases (ltb_ℤ owing (pool -ℤ owed_before))) [
  | inl less ↦
      let below : owing <ℤ pool -ℤ owed_before = ground arith in
      let rest = max-some (pool -ℤ (owed_before +ℤ owing)) (omega (int_laws, below)) in
      rw (less, rest) (omega int_laws)
  | inr all_of_it ↦
      let above : pool -ℤ owed_before ≤ℤ owing = ground arith in
      let rest = max-none (pool -ℤ (owed_before +ℤ owing)) (omega (int_laws, above)) in
      rw (all_of_it, rest) (omega int_laws)
]

min-nothing : (v left : ℤ) → v ≡ pos 0 → pos 0 <ℤ left → min_ℤ v left ≡ pos 0
min-nothing v left e h = ground arith

spend_nothing :
    (pool owed_before v : ℤ) → v ≡ pos 0 → pool -ℤ owed_before ≡ pool -ℤ (owed_before +ℤ v)
spend_nothing pool owed_before v e = rw e (omega int_laws)

owed_later :
    (pool owed_before v : ℤ) (ds : List Due)
    → pool -ℤ (owed_before +ℤ v +ℤ owed_in_all ds) ≡ pool -ℤ (owed_before +ℤ (v +ℤ owed_in_all ds))
owed_later pool owed_before v ds = omega int_laws

-- What the loop makes of the invoices and of what the invoices before leave of a pool.
abbrev IsAllocated : ℤ → ℤ → ℤ → List Due → Type 0
IsAllocated pool owed_before left ds =
    ((settle_fifo left ds).dues ≡ allocate pool owed_before ds)
    × ((settle_fifo left ds).pool ≡ max_ℤ (pos 0) (pool -ℤ (owed_before +ℤ owed_in_all ds)))

module _ (pool owed_before left : ℤ) (d : Due) (ds : List Due)
    (h : left ≡ max_ℤ (pos 0) (pool -ℤ owed_before)) where
  allocate_spent : ltb_ℤ (pos 0) left ≡ false → IsAllocated pool owed_before left (d ∷ ds)
  allocate_spent spent =
      let gone = nothing_left (pool -ℤ owed_before) left h spent in
      let used : pool ≤ℤ owed_before = omega (int_laws, gone) in
      let owed = owed_in_all_pos (d ∷ ds) in
      let after =
        max-none (pool -ℤ (owed_before +ℤ owed_in_all (d ∷ ds))) (omega (int_laws, used, owed)) in
      let now = max-none (pool -ℤ owed_before) gone in
      let round = settle_fifo-spent left d ds spent in
      (
        ap (λ (x : Allocation). x.dues) round ∙ sym (allocate-spent pool owed_before (d ∷ ds) used),
        ap (λ (x : Allocation). x.pool) round ∙ h ∙ now ∙ sym after,
      )

  module _ (some_left : ltb_ℤ (pos 0) left ≡ true) where
    left_is : left ≡ pool -ℤ owed_before
    left_is =
        h ∙ max-some (pool -ℤ owed_before) (something_left (pool -ℤ owed_before) left h some_left)

    left_over : owed_before <ℤ pool
    left_over =
        let more = something_left (pool -ℤ owed_before) left h some_left in omega (int_laws, more)

    -- An invoice that is paid off is passed over.
    skip_step :
        ltb_ℤ (pos 0) (d.original -ℤ d.paid) ≡ false
        → left ≡ max_ℤ (pos 0) (pool -ℤ (owed_before +ℤ remaining_of d))
    skip_step paid_off =
        let owing = max-none (d.original -ℤ d.paid) (ground arith) in
        h ∙ ap (max_ℤ (pos 0)) (spend_nothing pool owed_before (remaining_of d) owing)

    allocate_skips :
        ltb_ℤ (pos 0) (d.original -ℤ d.paid) ≡ false
        → IsAllocated pool (owed_before +ℤ remaining_of d) left ds
        → IsAllocated pool owed_before left (d ∷ ds)
    unfolding allocate owed_in_all
    allocate_skips paid_off later =
        let (dues, rest) = later in
        let owing = max-none (d.original -ℤ d.paid) (ground arith) in
        let more = something_left (pool -ℤ owed_before) left h some_left in
        let no_share : fair_share pool owed_before d ≡ pos 0 =
          share-left pool owed_before d left_over
          ∙ min-nothing (remaining_of d) (pool -ℤ owed_before) owing more in
        let same_due = ap (λ (v : ℤ). add_paid v d) no_share ∙ add_paid-zero d in
        let round = settle_fifo-skips left d ds some_left paid_off in
        (
          ap (λ (x : Allocation). x.dues) round
              ∙ ap (λ (xs : List Due). d ∷ xs) dues
              ∙ ap (λ (x : Due). x ∷ allocate pool (owed_before +ℤ remaining_of d) ds)
                  (sym same_due),
          ap (λ (x : Allocation). x.pool) round
              ∙ rest
              ∙ ap (max_ℤ (pos 0)) (owed_later pool owed_before (remaining_of d) ds),
        )

    -- An invoice that owes gets its share.
    abbrev share : ℤ
    share = min_ℤ (d.original -ℤ d.paid) left

    pay_step :
        ltb_ℤ (pos 0) (d.original -ℤ d.paid) ≡ true
        → left -ℤ share ≡ max_ℤ (pos 0) (pool -ℤ (owed_before +ℤ remaining_of d))
    pay_step owes =
        let owing = max-some (d.original -ℤ d.paid) (ground arith) in
        ap (λ (v : ℤ). v -ℤ min_ℤ (d.original -ℤ d.paid) v) left_is
        ∙ left_after pool owed_before (d.original -ℤ d.paid)
        ∙ ap (λ (v : ℤ). max_ℤ (pos 0) (pool -ℤ (owed_before +ℤ v))) (sym owing)

    allocate_pays :
        ltb_ℤ (pos 0) (d.original -ℤ d.paid) ≡ true
        → IsAllocated pool (owed_before +ℤ remaining_of d) (left -ℤ share) ds
        → IsAllocated pool owed_before left (d ∷ ds)
    unfolding allocate owed_in_all
    allocate_pays owes later =
        let (dues, rest) = later in
        let owing = max-some (d.original -ℤ d.paid) (ground arith) in
        let same_share : share ≡ fair_share pool owed_before d =
          ap (λ (v : ℤ). min_ℤ v left) (sym owing)
          ∙ ap (min_ℤ (remaining_of d)) left_is
          ∙ sym (share-left pool owed_before d left_over) in
        let round = settle_fifo-pays left d ds some_left owes in
        (
          ap (λ (x : Allocation). x.dues) round
              ∙ ap (λ (xs : List Due). add_paid share d ∷ xs) dues
              ∙ ap (λ (v : ℤ). add_paid v d ∷ allocate pool (owed_before +ℤ remaining_of d) ds)
                  same_share,
          ap (λ (x : Allocation). x.pool) round
              ∙ rest
              ∙ ap (max_ℤ (pos 0)) (owed_later pool owed_before (remaining_of d) ds),
        )

-- The loop, started with what the invoices before leave of a pool.
settle_fifo-IsAllocated :
    (pool owed_before left : ℤ) (ds : List Due)
    → left ≡ max_ℤ (pos 0) (pool -ℤ owed_before)
    → IsAllocated pool owed_before left ds
unfolding settle_fifo allocate owed_in_all
settle_fifo-IsAllocated pool owed_before left [] h =
    let same : pool -ℤ owed_before ≡ pool -ℤ (owed_before +ℤ pos 0) = omega int_laws in
    (refl, h ∙ ap (max_ℤ (pos 0)) same)
settle_fifo-IsAllocated pool owed_before left (d ∷ ds) h = elim (Bool-cases (ltb_ℤ (pos 0) left)) [
  | inr spent ↦ allocate_spent pool owed_before left d ds h spent
  | inl some_left ↦ elim (Bool-cases (ltb_ℤ (pos 0) (d.original -ℤ d.paid))) [
    | inr paid_off ↦ allocate_skips pool owed_before left d ds h some_left paid_off (
        settle_fifo-IsAllocated pool (owed_before +ℤ remaining_of d) left ds
          (skip_step pool owed_before left d ds h some_left paid_off))
    | inl owes ↦ allocate_pays pool owed_before left d ds h some_left owes (
        settle_fifo-IsAllocated pool (owed_before +ℤ remaining_of d)
          (left -ℤ min_ℤ (d.original -ℤ d.paid) left) ds
          (pay_step pool owed_before left d ds h some_left owes))
  ]
]

-- A pool that is settled by the loop, oldest invoice first: each invoice gets the smaller of what
-- it owes and of what the whole pool leaves after all that the invoices before it owe (`allocate`
-- reads that off the pool, and spends nothing down), and what remains of the pool is what exceeds
-- all that the invoices owe, or nothing. The pool is not negative.
pub settle_fifo-allocates :
    (pool : ℤ) (ds : List Due)
    → pos 0 ≤ℤ pool
    → ((settle_fifo pool ds).dues ≡ allocate pool (pos 0) ds)
      × ((settle_fifo pool ds).pool ≡ max_ℤ (pos 0) (pool -ℤ owed_in_all ds))
settle_fifo-allocates pool ds h =
    let whole : pool ≡ max_ℤ (pos 0) (pool -ℤ pos 0) =
      let exact : pool -ℤ pos 0 ≡ pool = omega int_laws in rw exact (ground arith) in
    let same : pos 0 +ℤ owed_in_all ds ≡ owed_in_all ds = omega int_laws in
    let (dues, rest) = settle_fifo-IsAllocated pool (pos 0) pool ds whole in
    (dues, rest ∙ ap (λ (v : ℤ). max_ℤ (pos 0) (pool -ℤ v)) same)
