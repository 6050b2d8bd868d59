-- ===== src/Accounts/Walk.antt =====
-- The walk of `refuseParentCycle` in src/accounts/accounts.service.ts: it ends, and it finds the
-- account among the ancestors where it is one.
use Prim.Native.Nat.{zero}
use cashfo_backend.Base.{
  ℕ, suc, ◌+◌, ◌≤◌, ◌<◌, ◌≡◌, ◌≢◌, ◌⊎◌, refl, ◌∙◌, ap, subst, Bool, true, false, not, Option, none,
  some, List, [], ◌∷◌, ◌==◌, arith, inl, inr, elem, length, filter, Bool-cases, Option-cases,
}
use cashfo_backend.Schema.{Account, find_account}
use cashfo_backend.Accounts.Defs.{parent_of, meets}

-- The ancestor so many steps up.
unfoldable pub up : List Account → ℕ → ℕ → Option ℕ
up accounts zero i = some i
up accounts (suc k) i = elim (parent_of accounts i) [ none ↦ none | some p ↦ up accounts k p ]

module _ (accounts : List Account) (i : ℕ) where
  -- The places seen are not `i`, and lead to one another or to `current`.
  abbrev Leads : List ℕ → Option ℕ → ℕ → Type 0
  Leads seen current x =
      (x ≢ i)
      × ((parent_of accounts x ≡ current)
          ⊎ ((y : ℕ) × (parent_of accounts x ≡ some y) × (elem y seen ≡ true)))

  abbrev IsTrail : List ℕ → Option ℕ → Type 0
  IsTrail seen current = (x : ℕ) → elem x seen ≡ true → Leads seen current x

  -- The walk has ended at the top.
  never_at_top :
      (seen : List ℕ)
      → IsTrail seen none
      → (k x : ℕ) → elem x seen ≡ true
      → up accounts k x ≢ some i
  unfolding up
  never_at_top seen trail zero x h = λ e. (trail x h).0 (ground arith)
  never_at_top seen trail (suc k) x h = elim (trail x h).1 [
    | inl top ↦ λ e. absurd (ground arith)
    | inr (y, next, there) ↦ λ e. never_at_top seen trail k y there (ground arith)
  ]

  -- The walk has come back to a place that it has seen.
  never_in_loop :
      (seen : List ℕ) (c : ℕ)
      → elem c seen ≡ true
      → IsTrail seen (some c)
      → (k x : ℕ) → elem x seen ≡ true
      → up accounts k x ≢ some i
  unfolding up
  never_in_loop seen c again trail zero x h = λ e. (trail x h).0 (ground arith)
  never_in_loop seen c again trail (suc k) x h = elim (trail x h).1 [
    | inl back ↦ λ e. never_in_loop seen c again trail k c again (ground arith)
    | inr (y, next, there) ↦ λ e. never_in_loop seen c again trail k y there (ground arith)
  ]

  longer-IsTrail :
      (seen : List ℕ) (c : ℕ)
      → IsTrail seen (some c)
      → c ≢ i
      → IsTrail (c ∷ seen) (parent_of accounts c)
  longer-IsTrail seen c trail other x h = elim (Bool-cases (x == c)) [
    | inl e ↦
        let same : c ≡ x = ground arith in
        subst (λ (y : ℕ). Leads (c ∷ seen) (parent_of accounts c) y) same (other, inl refl)
    | inr e ↦
        let old : elem x seen ≡ true = ground arith in
        (
          (trail x old).0,
          elim (trail x old).1 [
            | inl back ↦ inr (c, back, ground arith)
            | inr (y, next, there) ↦ inr (y, next, ground arith)
          ],
        )
  ]

  -- Where the walk says no, `i` is nowhere above.
  pub meets-never :
      (fuel : ℕ) (seen : List ℕ) (current : Option ℕ)
      → meets fuel accounts i seen current ≡ some false
      → IsTrail seen current
      → (k x : ℕ) → (elem x seen ≡ true) ⊎ (current ≡ some x)
      → up accounts k x ≢ some i
  unfolding meets
  meets-never zero seen current h trail k x at_x = absurd (ground arith)
  meets-never (suc fuel) seen none h trail k x (inl there) = never_at_top seen trail k x there
  meets-never (suc fuel) seen none h trail k x (inr here) = absurd (ground arith)
  meets-never (suc fuel) seen (some c) h trail k x at_x = elim (Bool-cases (elem c seen)) [
    | inl again ↦
        never_in_loop seen c again trail k x
          (elim at_x [ inl there ↦ there | inr here ↦ (ground arith) ])
    | inr new ↦
        let other : c ≢ i = λ e. absurd (ground arith) in
        meets-never fuel (c ∷ seen) (parent_of accounts c) (ground arith)
          (longer-IsTrail seen c trail other) k x
          (inl (elim at_x [ inl there ↦ (ground arith) | inr here ↦ (ground arith) ]))
  ]

-- The accounts that the walk has not seen.
abbrev unseen : List ℕ → Account → Bool
unseen seen a = not (elem a.id seen)

fewer_unseen :
    (c : ℕ) (seen : List ℕ) (accounts : List Account)
    → length (filter (unseen (c ∷ seen)) accounts) ≤ length (filter (unseen seen) accounts)
fewer_unseen c seen [] = omega arith
fewer_unseen c seen (a ∷ accounts) = ground (arith, fewer_unseen c seen accounts)

one_fewer_unseen :
    (c : ℕ) (seen : List ℕ) (accounts : List Account) (a : Account)
    → elem c seen ≡ false
    → find_account c accounts ≡ some a
    → length (filter (unseen (c ∷ seen)) accounts) < length (filter (unseen seen) accounts)
one_fewer_unseen c seen [] a new h = absurd (ground arith)
one_fewer_unseen c seen (b ∷ accounts) a new h = elim (Bool-cases (b.id == c)) [
  | inl here ↦
      let same : b.id ≡ c = ground arith in
      let was_new : elem b.id seen ≡ false = ap (λ (x : ℕ). elem x seen) same ∙ new in
      rw (was_new, here) (omega (arith, fewer_unseen c seen accounts))
  | inr there ↦ ground (arith, one_fewer_unseen c seen accounts a new)
]

-- The walk takes a step for each account at most, and one more.
pub meets-ends :
    (fuel : ℕ) (accounts : List Account) (i : ℕ) (seen : List ℕ) (current : Option ℕ)
    → length (filter (unseen seen) accounts) + 1 < fuel
    → meets fuel accounts i seen current ≢ none
unfolding meets parent_of
meets-ends zero accounts i seen current h = λ e. absurd (omega arith)
meets-ends (suc fuel) accounts i seen none h = λ e. absurd (ground arith)
meets-ends (suc zero) accounts i seen (some c) h = λ e. absurd (omega arith)
meets-ends (suc (suc fuel)) accounts i seen (some c) h = elim (Bool-cases (elem c seen)) [
  | inl again ↦ λ e. absurd (ground arith)
  | inr new ↦ elim (Option-cases (find_account c accounts)) [
    | inl missing ↦ λ e. absurd (ground arith)
    | inr (a, found) ↦
        let less = one_fewer_unseen c seen accounts a new found in
        let rest =
          meets-ends (suc fuel) accounts i (c ∷ seen) (parent_of accounts c) (omega arith) in
        λ e. rest (ground arith)
  ]
]

-- Where the walk says yes, `i` is above.
pub meets-found :
    (fuel : ℕ) (accounts : List Account) (i : ℕ) (seen : List ℕ) (c : ℕ)
    → meets fuel accounts i seen (some c) ≡ some true
    → (k : ℕ) × (up accounts k c ≡ some i)
unfolding meets up
meets-found zero accounts i seen c h = absurd (ground arith)
meets-found (suc fuel) accounts i seen c h = elim (Bool-cases (elem c seen)) [
  | inl again ↦ absurd (ground arith)
  | inr new ↦ elim (Bool-cases (c == i)) [
    | inl here ↦ (0, ground arith)
    | inr there ↦ elim (Option-cases (parent_of accounts c)) [
      | inl top ↦ absurd (top_is_no fuel (ground arith))
      | inr (q, next) ↦
          let (k, above) = meets-found fuel accounts i (c ∷ seen) q (ground arith) in
          (suc k, ground arith)
    ]
  ]
]
  where
    top_is_no : (fuel : ℕ) → meets fuel accounts i (c ∷ seen) none ≢ some true
    top_is_no zero = λ e. absurd (ground arith)
    top_is_no (suc fuel) = λ e. absurd (ground arith)
