-- ===== src/Shelves/Tests.antt =====
-- Runs of the shelves on a book of 300 pages, and their theorems at these runs.
use cashfo_backend.Base.{◌≡◌, refl, true, false, none, some, arith}
use cashfo_backend.Schema.{ok, err, over_total}
use cashfo_backend.Shelves.Settle.{
  Shelf, ShelfItem, ShelfChange, SettledShelf, settle_place, settle_shelf,
}
use cashfo_backend.Shelves.Laws.{
  IsShelved, no_change, settle_shelf-IsShelved, settle_shelf-stable, settle_shelf-settles,
}

abbrev reading : ShelfItem
reading = record { status = Shelf.doing; progress = 120; started_at = some 5; done_at = none }

-- The last page is reported.
abbrev last_page : ShelfChange
last_page = record { status = none; progress = some 300; total = 300 }

abbrev finished : SettledShelf
finished = record {
  item = record { status = Shelf.done; progress = 300; started_at = some 5; done_at = some 9 };
  progress_reported = true;
}

finishes : settle_shelf (some reading) last_page 9 ≡ ok finished
unfolding settle_shelf settle_place
finishes = refl

-- The book is taken up again from the start.
starts_over :
    settle_shelf
      (some finished.item)
      (record { status = some Shelf.doing; progress = none; total = 300 })
      12
    ≡ ok (record {
      item = record { status = Shelf.doing; progress = 0; started_at = some 12; done_at = none };
      progress_reported = false;
    })
unfolding settle_shelf settle_place
starts_over = refl

-- A total below the pages read is refused.
refuses_total :
    settle_shelf (some reading) (record { status = none; progress = none; total = 100 }) 9
    ≡ err over_total
unfolding settle_shelf settle_place
refuses_total = refl

settle_shelf-IsShelved_example : IsShelved 300 finished.item
settle_shelf-IsShelved_example = settle_shelf-IsShelved (some reading) last_page 9 finished finishes

reading-IsShelved : IsShelved 300 reading
reading-IsShelved = record { placed = refl; started = refl; ended = refl }

settle_shelf-stable_example :
    settle_shelf (some reading) (no_change 300) 9
    ≡ ok (record { item = reading; progress_reported = false })
settle_shelf-stable_example = settle_shelf-stable 300 9 reading (omega arith) reading-IsShelved

settle_shelf-settles_example :
    (settled : SettledShelf) × (settle_shelf (some reading) last_page 9 ≡ ok settled)
settle_shelf-settles_example =
    settle_shelf-settles (some reading) last_page 9 refl refl (omega arith)
