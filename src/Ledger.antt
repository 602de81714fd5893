-- ===== src/Ledger.antt =====
-- The story that the tables tell of one payment, and the steps by which the program changes them.
-- The repository's calls are the steps, each in an environment of its own, in any order and for any
-- payments: this is how concurrent requests and the webhook worker meet in the database.
pub mod Story
pub mod Change
pub mod Invariant
pub mod Worker
pub mod History
pub mod Progress
pub mod Runs
pub mod Events
pub mod Order
mod Tests
use pay_flow_mock.Prelude.{ℤ, ◌≤ℤ◌, Text, ℕ, ◌≡◌, Bool, some, []}
use pay_flow_mock.Domain.{initiated, processing, success, Payment}
use pay_flow_mock.Errors.{ok}
use pay_flow_mock.Repository.{PaymentRow, Db, Env, find_payment}
use pay_flow_mock.Repository.Outbox.{
  claim_batch, reclaim_stale_processing, mark_delivered, mark_retry, mark_dead,
}
use pay_flow_mock.Repository.Payments.{PaymentRepo, create_payment}
use pay_flow_mock.Repository.Updates.{
  update_payment_status, update_payment_status_with_psp, update_payment_failed,
}
use pay_flow_mock.Repository.Updates.Refunds.{refund_payment_atomic}

-- A call that ended well, with the transitions for which the service makes it. A refund is of no
-- more than the payment, as the service checks.
pub data Step (r : PaymentRepo) (db : Db) (after : Db) : Type 0 where
  create :
      (env : Env) (request stored : Payment)
      → create_payment r env (some request) db ≡ (ok stored, after)
      → Step r db after
  start_processing :
      (env : Env) (i : ℕ)
      → update_payment_status r env i initiated processing db ≡ (ok tt, after)
      → Step r db after
  succeed_payment :
      (env : Env) (i : ℕ) (psp_name psp_reference_id : Text)
      → update_payment_status_with_psp r env i processing success psp_name psp_reference_id db
        ≡ (ok tt, after)
      → Step r db after
  fail_payment :
      (env : Env) (i : ℕ) (psp_name psp_reference_id reason : Text)
      → update_payment_failed r env i processing psp_name psp_reference_id reason db
        ≡ (ok tt, after)
      → Step r db after
  refund_payment :
      (env : Env) (i : ℕ) (amount : ℤ) (key : Text) (refund_id : ℕ) (row : PaymentRow)
      → find_payment i db.payments ≡ some row
      → amount ≤ℤ row.amount
      → refund_payment_atomic r env i amount key db ≡ (ok refund_id, after)
      → Step r db after
  claim :
      (env : Env) (locked : ℕ → Bool) (limit : ℤ)
      → after ≡ (claim_batch env locked limit db).1
      → Step r db after
  reclaim :
      (env : Env) (stale_after : ℤ)
      → after ≡ (reclaim_stale_processing env stale_after db).1
      → Step r db after
  deliver : (env : Env) (i : ℕ) → after ≡ (mark_delivered env i db).1 → Step r db after
  retry_later :
      (env : Env) (i next_at : ℕ) (last_err : Text)
      → after ≡ (mark_retry env i next_at last_err db).1
      → Step r db after
  give_up :
      (env : Env) (i : ℕ) (last_err : Text)
      → after ≡ (mark_dead env i last_err db).1
      → Step r db after

abbrev pub empty_db : Db
empty_db = record { payments = []; refunds = []; outbox = [] }

-- What so many steps lead to from empty tables.
pub data Reach (r : PaymentRepo) : Db → Type 0 where
  fresh : Reach r empty_db
  step : {db after : Db} → Reach r db → Step r db after → Reach r after
