-- ===== src/Shelves/Settle.antt =====
-- `settleShelf` of src/common/shelf.ts. The three shelves are the same whatever a feature calls
-- them, and progress and total are whole numbers.
use cashfo_backend.Base.{
  ℕ, Bool, true, false, Option, none, some, ◌==◌, ◌&&◌, if◌then◌else◌, ltb, leb, is_some, or_else,
}
use cashfo_backend.Schema.{Result, ok, err, over_total, not_started}

pub data Shelf : Type 0 where
  todo doing done : Shelf

pub record ShelfItem : Type 0 where
  pub status : Shelf
  pub progress : ℕ
  pub started_at : Option ℕ
  pub done_at : Option ℕ

pub record ShelfChange : Type 0 where
  pub status : Option Shelf
  pub progress : Option ℕ
  pub total : ℕ

pub record SettledShelf : Type 0 where
  pub item : ShelfItem
  pub progress_reported : Bool

abbrev pub is_todo : Shelf → Bool
is_todo Shelf.todo = true
is_todo _ = false

abbrev pub is_doing : Shelf → Bool
is_doing Shelf.doing = true
is_doing _ = false

abbrev pub is_done : Shelf → Bool
is_done Shelf.done = true
is_done _ = false

-- The shelf and the progress that a change comes to, and whether the progress was reported.
pub record Place : Type 0 where
  pub status : Shelf
  pub progress : ℕ
  pub reported : Bool

-- An item at a progress that fits: all of it is done.
abbrev pub place_at : Shelf → ℕ → ℕ → Bool → Result Place
place_at below progress total reported =
    if ltb total progress
    then err over_total
    else ok (record {
      status = if leb total progress then Shelf.done else below;
      progress = progress;
      reported = reported;
    })

-- The shelf of an item with no status sent that is not done.
abbrev pub shelf_below : Shelf → ℕ → Shelf
shelf_below from_status progress =
    if ltb 0 progress then Shelf.doing else if is_done from_status then Shelf.doing else from_status

unfoldable pub settle_place : Option Shelf → Option ℕ → ℕ → ShelfItem → Result Place
settle_place (some Shelf.done) progress total from =
    ok (record { status = Shelf.done; progress = total; reported = false })
settle_place (some Shelf.todo) progress total from =
    if ltb 0 (or_else progress 0)
    then err not_started
    else ok (record { status = Shelf.todo; progress = 0; reported = false })
settle_place (some Shelf.doing) progress total from =
    place_at Shelf.doing (or_else progress (if is_done from.status then 0 else from.progress)) total
      (is_some progress)
settle_place none progress total from =
    let settled = or_else progress (if is_done from.status then total else from.progress) in
    place_at (shelf_below from.status settled) settled total (is_some progress)

abbrev pub new_item : ShelfItem
new_item = record { status = Shelf.todo; progress = 0; started_at = none; done_at = none }

-- An explicit move of a done item back to zero.
abbrev pub restarted : Option Shelf → ShelfItem → ℕ → Bool
restarted status from progress =
    (elim status [ none ↦ false | some s ↦ is_doing s ]) && is_done from.status && progress == 0

abbrev pub settled_start : Option Shelf → ShelfItem → Place → ℕ → Option ℕ
settled_start status from p now = if is_todo p.status then none else elim from.started_at [
  | none ↦ some now
  | some t ↦ some (if restarted status from p.progress then now else t)
]

abbrev pub settled_end : ShelfItem → Place → ℕ → Option ℕ
settled_end from p now = if is_done p.status then some (or_else from.done_at now) else none

abbrev pub settled_item : Option Shelf → ShelfItem → ℕ → Place → SettledShelf
settled_item status from now p = record {
  item = record {
    status = p.status;
    progress = p.progress;
    started_at = settled_start status from p now;
    done_at = settled_end from p now;
  };
  progress_reported = p.reported;
}

-- The progress that was sent is more than the total.
abbrev pub is_over : Option ℕ → ℕ → Bool
is_over none total = false
is_over (some n) total = ltb total n

unfoldable pub settle_shelf : Option ShelfItem → ShelfChange → ℕ → Result SettledShelf
unfolding settle_place
settle_shelf current change now =
    let from = or_else current new_item in
    if is_over change.progress change.total
    then err over_total
    else elim (settle_place change.status change.progress change.total from) [
      | err e ↦ err e
      | ok p ↦ ok (settled_item change.status from now p)
    ]
