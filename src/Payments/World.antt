-- ===== src/Payments/World.antt =====
-- Requests that race: each reads its payment at one time and commits at a later one, and others
-- commit in between. The steps are the database transactions of src/payments/payments.service.ts.
use cashfo_backend.Base.{ℕ, zero, suc, ◌≡◌, Option, none, some, List, [], ◌∷◌}
use cashfo_backend.Schema.{ok}
use cashfo_backend.Payments.Rows.{
  Payment, Refund, Invoice, PaymentsDb, Surroundings, RefundPayment, SimulatePayment,
}
use cashfo_backend.Payments.Defs.{find_payment, retry_seeing, refund_seeing, simulate_payment}

abbrev pub nth : ℕ → List Payment → Option Payment
nth n [] = none
nth zero (p ∷ ps) = some p
nth (suc n) (p ∷ ps) = nth n ps

-- The database, and the payments that requests have read so far.
pub record World : Type 0 where
  pub db : PaymentsDb
  pub seen : List Payment

abbrev pub committed : PaymentsDb → World → World
committed db w = record w { db = db }

pub data Step : World → World → Type 0 where
  reads :
      {w : World} (i : ℕ) (p : Payment)
      → find_payment i w.db.payments ≡ some p
      → Step w (record w { seen = p ∷ w.seen })
  retries :
      {w : World} (n : ℕ) (p : Payment) (ctx : Surroundings) (q : Payment) (db' : PaymentsDb)
      → nth n w.seen ≡ some p
      → retry_seeing p ctx p.id w.db ≡ ok (q, db')
      → Step w (committed db' w)
  refunds :
      {w : World} (n : ℕ) (p : Payment) (ctx : Surroundings) (dto : RefundPayment) (q : Payment)
      (r : Refund) (db' : PaymentsDb)
      → nth n w.seen ≡ some p
      → refund_seeing p ctx p.id dto w.db ≡ ok ((q, r), db')
      → Step w (committed db' w)
  -- The database draws an id that no payment has.
  simulates :
      {w : World} (ctx : Surroundings) (dto : SimulatePayment) (q : Payment) (v : Invoice)
      (db' : PaymentsDb)
      → find_payment ctx.payment_id w.db.payments ≡ none
      → simulate_payment ctx dto w.db ≡ ok ((q, v), db')
      → Step w (committed db' w)

-- Any number of steps.
pub data Reach : World → World → Type 0 where
  here : {w : World} → Reach w w
  step : {w v u : World} → Step w v → Reach v u → Reach w u
