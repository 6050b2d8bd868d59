-- ===== src/Accounts/Tree.antt =====
-- The accounts stay a forest: `update` of src/accounts/accounts.service.ts.
use Prim.Native.Nat.{zero}
use cashfo_backend.Base.{
  ℕ, suc, ◌+◌, ◌-◌, ◌≤◌, ◌≡◌, ◌≢◌, ◌⊎◌, refl, sym, ◌∙◌, ap, subst, false, none, some, List, [],
  ◌==◌, arith, inl, inr, length, truthy, Bool-cases, Option-cases, find_unique-update_unique,
}
use cashfo_backend.Schema.{Account, find_account, update_account}
use cashfo_backend.Accounts.Defs.{Patch, parent_of, meets}
use cashfo_backend.Accounts.Changes.{UpdateAccount, apply_update}
use cashfo_backend.Accounts.Walk.{up, meets-never}

-- No account is among its own ancestors.
pub record IsForest (accounts : List Account) : Type 0 where
  pub acyclic : (k i : ℕ) → up accounts (suc k) i ≢ some i

up-+ :
    (accounts : List Account) (j k x y : ℕ)
    → up accounts j x ≡ some y
    → up accounts (j + k) x ≡ up accounts k y
unfolding up
up-+ accounts zero k x y h = let same : 0 + k ≡ k = omega arith in rw same (ground arith)
up-+ accounts (suc j) k x y h = elim (Option-cases (parent_of accounts x)) [
  | inl top ↦ absurd (ground arith)
  | inr (p, next) ↦
      let same : suc j + k ≡ suc (j + k) = omega arith in
      rw (same, next, up) (up-+ accounts j k p y (ground arith))
]

-- Two tables that differ in the parent of `i` alone.
module _ (old new : List Account) (i p : ℕ) (moved : parent_of new i ≡ some p)
    (same_elsewhere : (x : ℕ) → (x == i) ≡ false → parent_of new x ≡ parent_of old x)
    (clear : (k : ℕ) → up old k p ≢ some i) where
  -- The paths from `p` do not pass `i`, so they are the old ones.
  up-from_p : (k x j : ℕ) → up old j p ≡ some x → up new k x ≡ up old k x
  unfolding up
  up-from_p zero x j h = refl
  up-from_p (suc k) x j h =
      let off : (x == i) ≡ false = elim (Bool-cases (x == i)) [
        | inl e ↦ absurd (clear j (h ∙ (ground arith)))
        | inr e ↦ e
      ] in
      elim (Option-cases (parent_of old x)) [
        | inl top ↦ let top' = same_elsewhere x off ∙ top in ground arith
        | inr (q, next) ↦
            let next' = same_elsewhere x off ∙ next in
            let there : up old (j + 1) p ≡ some q = up-+ old j 1 p x h ∙ (ground arith) in
            let rest = up-from_p k q (j + 1) there in ground arith
      ]

  -- A path of the new table that does not meet `i` is a path of the old one.
  meets_or_same :
      (k x : ℕ) → ((j : ℕ) × (j ≤ k) × (up new j x ≡ some i)) ⊎ (up new k x ≡ up old k x)
  unfolding up
  meets_or_same zero x = inr refl
  meets_or_same (suc k) x = elim (Bool-cases (x == i)) [
    | inl e ↦ inl (0, omega arith, ground arith)
    | inr e ↦ elim (Option-cases (parent_of old x)) [
      | inl top ↦ let top' = same_elsewhere x e ∙ top in inr (ground arith)
      | inr (q, next) ↦
          let next' = same_elsewhere x e ∙ next in
          elim (meets_or_same k q) [
            | inl (j, below, hit) ↦ inl (suc j, omega arith, ground arith)
            | inr same ↦ inr (ground arith)
          ]
    ]
  ]

  -- From `i` the new table never comes back to `i`.
  not_back : (k : ℕ) → up new (suc k) i ≢ some i
  unfolding up
  not_back k e =
      let back : up new k p ≡ some i = ground arith in clear k (sym (up-from_p k p 0 refl) ∙ back)

  pub IsForest-moved : IsForest old → IsForest new
  IsForest-moved forest = record {
    acyclic = λ k x e. elim (meets_or_same (suc k) x) [
      | inl (j, below, hit) ↦
          let rest = suc k - j in
          let whole : j + rest ≡ suc k = omega arith in
          let whole' : rest + j ≡ suc k = omega arith in
          let on : up new rest i ≡ some x =
            sym (up-+ new j rest x i hit) ∙ ap (λ (n : ℕ). up new n x) whole ∙ e in
          let around : up new (suc k) i ≡ some i =
            ap (λ (n : ℕ). up new n i) (sym whole') ∙ up-+ new rest j i x on ∙ hit in
          not_back k around
      | inr same ↦ forest.acyclic k x (sym same ∙ e)
    ];
  }

-- A table in which each parent is the old one or none.
module _ (old new : List Account)
    (cut : (x : ℕ) → (parent_of new x ≡ parent_of old x) ⊎ (parent_of new x ≡ none)) where
  up-cut : (k x y : ℕ) → up new k x ≡ some y → up old k x ≡ some y
  unfolding up
  up-cut zero x y h = h
  up-cut (suc k) x y h = elim (cut x) [
    | inl same ↦ elim (Option-cases (parent_of old x)) [
      | inl top ↦ absurd (ground arith)
      | inr (q, next) ↦ let rest = up-cut k q y (ground arith) in ground arith
    ]
    | inr top ↦ absurd (ground arith)
  ]

  pub IsForest-cut : IsForest old → IsForest new
  IsForest-cut forest = record { acyclic = λ k x e. forest.acyclic k x (up-cut (suc k) x x e) }

abbrev pub updated : ℕ → UpdateAccount → List Account → List Account
updated i dto = update_account i (apply_update dto)

parent_of-elsewhere :
    (i x : ℕ) (dto : UpdateAccount) (accounts : List Account)
    → (x == i) ≡ false
    → parent_of (updated i dto accounts) x ≡ parent_of accounts x
unfolding parent_of
parent_of-elsewhere i x dto accounts e = ground (
  arith,
  find_unique-update_unique (λ (a : Account). a.id) (apply_update dto) i x accounts (λ a. refl),
)

parent_of-updated :
    (i : ℕ) (dto : UpdateAccount) (accounts : List Account) (a : Account)
    → find_account i accounts ≡ some a
    → parent_of (updated i dto accounts) i ≡ truthy (apply_update dto a).parent_id
unfolding parent_of
parent_of-updated i dto accounts a e = ground (
  arith,
  find_unique-update_unique (λ (r : Account). r.id) (apply_update dto) i i accounts (λ r. refl),
)

parent_of-found :
    (i : ℕ) (accounts : List Account) (a : Account)
    → find_account i accounts ≡ some a
    → parent_of accounts i ≡ truthy a.parent_id
unfolding parent_of
parent_of-found i accounts a e = ground arith

-- What a parent check that went through has seen.
abbrev pub IsClearedParent : ℕ → Patch ℕ → List Account → Type 0
IsClearedParent i Patch.absent accounts = Unit {0}
IsClearedParent i Patch.null accounts = Unit {0}
IsClearedParent i (Patch.value p) accounts =
    meets (suc (suc (length accounts))) accounts i [] (truthy (some p)) ≡ some false

module _ (i : ℕ) (dto : UpdateAccount) (accounts : List Account) (a : Account)
    (found : find_account i accounts ≡ some a) (forest : IsForest accounts) where
  same_parent_cut :
      truthy (apply_update dto a).parent_id ≡ truthy a.parent_id
        ⊎ truthy (apply_update dto a).parent_id ≡ none
      → IsForest (updated i dto accounts)
  same_parent_cut at_i =
      IsForest-cut accounts (updated i dto accounts)
        (λ x. elim (Bool-cases (x == i)) [
          | inl e ↦
              let same : x ≡ i = ground arith in
              subst
                (λ (y : ℕ).
                  (parent_of (updated i dto accounts) y ≡ parent_of accounts y)
                  ⊎ (parent_of (updated i dto accounts) y ≡ none))
                (sym same)
                (elim at_i [
                  | inl kept ↦ inl (
                      parent_of-updated i dto accounts a found
                      ∙ kept
                      ∙ sym (parent_of-found i accounts a found))
                  | inr gone ↦ inr (parent_of-updated i dto accounts a found ∙ gone)
                ])
          | inr e ↦ inl (parent_of-elsewhere i x dto accounts e)
        ])
        forest

  moved_under :
      (p : ℕ)
      → truthy (apply_update dto a).parent_id ≡ some p
      → meets (suc (suc (length accounts))) accounts i [] (some p) ≡ some false
      → IsForest (updated i dto accounts)
  moved_under p at_i clear =
      IsForest-moved accounts (updated i dto accounts) i p
        (parent_of-updated i dto accounts a found ∙ at_i)
        (λ x e. parent_of-elsewhere i x dto accounts e)
        (λ k.
          meets-never accounts i (suc (suc (length accounts))) [] (some p) clear
            (λ x h. absurd (ground arith)) k p (inr refl))
        forest

  pub updated-IsForest :
      (patch : Patch ℕ)
      → dto.parent_id ≡ patch
      → IsClearedParent i patch accounts
      → IsForest (updated i dto accounts)
  updated-IsForest Patch.absent e clear = same_parent_cut (inl (rw e refl))
  updated-IsForest Patch.null e clear = same_parent_cut (inr (rw e refl))
  updated-IsForest (Patch.value p) e clear = elim (Option-cases (truthy (some p))) [
    | inl empty ↦ same_parent_cut (inr (rw e empty))
    | inr (q, full) ↦ moved_under q (rw e full) (rw full at clear)
  ]
