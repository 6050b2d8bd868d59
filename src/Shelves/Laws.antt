-- ===== src/Shelves/Laws.antt =====
-- What an item on a shelf looks like after any change: src/common/shelf.ts, `settleShelf`.
use cashfo_backend.Base.{
  ℕ, ◌≡◌, ◌≢◌, ◌≤◌, ◌<◌, subst, Bool, true, false, Option, none, some, arith, inl, inr, ◌==◌, ◌&&◌,
  if◌then◌else◌, ltb, is_some, or_else,
}
use cashfo_backend.Schema.{Error, ok, err, Result-cases}
use cashfo_backend.Shelves.Settle.{
  Shelf, ShelfItem, ShelfChange, SettledShelf, Place, is_todo, is_done, settle_place, settled_item,
  new_item, is_over, settle_shelf,
}

-- The progress of each shelf: none, less than all, and all.
abbrev pub is_placed : Shelf → ℕ → ℕ → Bool
is_placed s progress total =
    if is_todo s then progress == 0 else if is_done s then progress == total else ltb progress total

-- An item has a start unless it is to do, and an end exactly where it is done.
pub record IsShelved (total : ℕ) (item : ShelfItem) : Type 0 where
  pub placed : is_placed item.status item.progress total ≡ true
  pub started : is_some item.started_at ≡ (if is_todo item.status then false else true)
  pub ended : is_some item.done_at ≡ is_done item.status

settle_place-placed :
    (status : Option Shelf) (progress : Option ℕ) (total : ℕ) (from : ShelfItem) (p : Place)
    → settle_place status progress total from ≡ ok p
    → is_placed p.status p.progress total ≡ true
unfolding settle_place
settle_place-placed (some Shelf.done) progress total from p h = ground arith
settle_place-placed (some Shelf.todo) progress total from p h = ground arith
settle_place-placed (some Shelf.doing) progress total from p h = ground arith
settle_place-placed none progress total from p h = ground arith

settled_item-IsShelved :
    (status : Option Shelf) (from : ShelfItem) (now : ℕ) (p : Place) (total : ℕ)
    → is_placed p.status p.progress total ≡ true
    → IsShelved total (settled_item status from now p).item
settled_item-IsShelved status from now p total h = record {
  placed = h;
  started = ground arith;
  ended = ground arith;
}

-- Whatever item a change starts from, and whatever it asks, an item that is settled stands on its
-- shelf as it should: nothing done and no start on the first, less than all and a start on the
-- second, all of it on the third, and an end there alone.
pub settle_shelf-IsShelved :
    (current : Option ShelfItem) (change : ShelfChange) (now : ℕ) (settled : SettledShelf)
    → settle_shelf current change now ≡ ok settled
    → IsShelved change.total settled.item
unfolding settle_shelf
settle_shelf-IsShelved current change now settled h =
    elim (Result-cases
      (settle_place change.status change.progress change.total (or_else current new_item))) [
        | inl (e, failed) ↦ absurd (ground arith)
        | inr (p, placed) ↦
            let at_shelf =
              settle_place-placed change.status change.progress change.total
                (or_else current new_item) p placed in
            let same : settled_item change.status (or_else current new_item) now p ≡ settled =
              ground arith in
            subst (λ (x : SettledShelf). IsShelved change.total x.item) same
              (settled_item-IsShelved change.status (or_else current new_item) now p change.total
                at_shelf)
      ]

abbrev pub no_change : ℕ → ShelfChange
no_change total = record { status = none; progress = none; total = total }

-- A settled item stays as it is under a change that sends nothing, at any later time, where there
-- is something to do: the same shelf, progress and dates.
pub settle_shelf-stable :
    (total now : ℕ) (item : ShelfItem)
    → 0 < total
    → IsShelved total item
    → settle_shelf (some item) (no_change total) now
      ≡ ok (record { item = item; progress_reported = false })
unfolding settle_shelf settle_place
settle_shelf-stable total now item more shelved =
    let placed = shelved.placed in
    let started = shelved.started in let ended = shelved.ended in ground arith

abbrev pub wants_todo : Option Shelf → Bool
wants_todo none = false
wants_todo (some s) = is_todo s

settle_place-fits :
    (status : Option Shelf) (progress : Option ℕ) (total : ℕ) (from : ShelfItem) (e : Error)
    → is_over progress total ≡ false
    → (wants_todo status && ltb 0 (or_else progress 0)) ≡ false
    → from.progress ≤ total
    → settle_place status progress total from ≢ err e
unfolding settle_place
settle_place-fits (some Shelf.done) progress total from e fits plain below =
    λ h. absurd (ground arith)
settle_place-fits (some Shelf.todo) progress total from e fits plain below =
    λ h. absurd (ground arith)
settle_place-fits (some Shelf.doing) progress total from e fits plain below =
    λ h. absurd (ground arith)
settle_place-fits none progress total from e fits plain below = λ h. absurd (ground arith)

-- A change is settled whenever the progress that it sends is no more than the total, it does not
-- send progress with a move to the first shelf, and the total is not lowered below the progress of
-- the item.
pub settle_shelf-settles :
    (current : Option ShelfItem) (change : ShelfChange) (now : ℕ)
    → is_over change.progress change.total ≡ false
    → (wants_todo change.status && ltb 0 (or_else change.progress 0)) ≡ false
    → (or_else current new_item).progress ≤ change.total
    → (settled : SettledShelf) × (settle_shelf current change now ≡ ok settled)
unfolding settle_shelf
settle_shelf-settles current change now fits plain below =
    let from = or_else current new_item in
    elim (Result-cases (settle_place change.status change.progress change.total from)) [
      | inl (e, failed) ↦ absurd (
          settle_place-fits change.status change.progress change.total from e fits plain below
            failed)
      | inr (p, placed) ↦ (settled_item change.status from now p, ground arith)
    ]
