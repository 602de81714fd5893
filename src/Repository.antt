-- ===== src/Repository.antt =====
-- The tables of migrations/up, with the rows that a query finds by a unique column, and the
-- environment of a repository call. A statement that fails for a reason outside the tables (a lost
-- connection, a full disk) is a fault of the environment. Of a statement that ends a transaction
-- only the answer may be lost: it is done, and the caller gets an error.
pub mod Outbox
pub mod Payments
pub mod Updates
pub mod Up
use pay_flow_mock.Prelude.{
  ◌==◌, if◌then◌else◌, ℤ, Text, text_eq, ℕ, ◌*◌, ◌/◌, ◌≡◌, Bool, true, false, ◌&&◌, Option, none,
  some, List, [], ◌∷◌, arith,
}
use pay_flow_mock.Domain.{Status, status_eq}
use pay_flow_mock.Domain.Outbox.{OutboxEvent}

-- A nullable column is an Option. `amount` is a BIGINT.
pub record PaymentRow : Type 0 where
  pub id : ℕ
  pub merchant_id : ℕ
  pub amount : ℤ
  pub currency : Text
  pub status : Status
  pub idempotency_key : Text
  pub psp : Option Text
  pub psp_reference_id : Option Text
  pub failure_reason : Option Text
  pub created_at : ℕ
  pub updated_at : ℕ

pub record RefundRow : Type 0 where
  pub id : ℕ
  pub payment_id : ℕ
  pub amount : ℤ
  pub status : Status
  pub idempotency_key : Text
  pub created_at : ℕ

pub record Db : Type 0 where
  pub payments : List PaymentRow
  pub refunds : List RefundRow
  pub outbox : List OutboxEvent

-- The places at which a repository call talks to Postgres.
pub data Statement : Type 0 where
  begin_stmt update_stmt resolve_stmt insert_stmt insert_event_stmt select_stmt commit_stmt :
      Statement

pub record Env : Type 0 where
  pub fails : Statement → Bool
  pub lands : Bool  -- a COMMIT, or a change outside a transaction, that fails is done all the same
  pub now : ℕ  -- time.Now(), and NOW() where Postgres has the same clock
  pub new_id : Option ℕ  -- domain.NewID, `none` for its error
  pub random_uuid : ℕ  -- gen_random_uuid()

-- What a TIMESTAMPTZ column keeps of a time: its whole microseconds.
unfoldable pub column_time : ℕ → ℕ
column_time t = t / 1000 * 1000

-- NOW()
abbrev pub pg_now : Env → ℕ
pg_now env = column_time env.now

-- `WHERE id = $1`, for the primary key.
abbrev pub find_payment : ℕ → List PaymentRow → Option PaymentRow
find_payment i [] = none
find_payment i (r ∷ rows) = if r.id == i then some r else find_payment i rows

-- `WHERE idempotency_key = $1`, for the unique column.
unfoldable pub find_payment_by_key : Text → List PaymentRow → Option PaymentRow
find_payment_by_key k [] = none
find_payment_by_key k (r ∷ rows) =
    if text_eq r.idempotency_key k then some r else find_payment_by_key k rows

-- The row takes the place of the one with its id.
abbrev pub put_payment : PaymentRow → List PaymentRow → List PaymentRow
put_payment row [] = []
put_payment row (r ∷ rows) = if r.id == row.id then row ∷ rows else r ∷ put_payment row rows

-- `UPDATE payments SET … WHERE id = $id AND status = $from RETURNING …`: the row as it is
-- afterwards, and the table; `none` where no row fits.
unfoldable pub update_payment_where :
    ℕ → Status → (PaymentRow → PaymentRow) → List PaymentRow → Option (PaymentRow × List PaymentRow)
update_payment_where i from f rows = elim (find_payment i rows) [
  | none ↦ none
  | some r ↦ if status_eq r.status from then some (f r, put_payment (f r) rows) else none
]

abbrev pub find_refund : ℕ → List RefundRow → Option RefundRow
find_refund i [] = none
find_refund i (r ∷ rows) = if r.id == i then some r else find_refund i rows

unfoldable pub find_refund_by_key : Text → List RefundRow → Option RefundRow
find_refund_by_key k [] = none
find_refund_by_key k (r ∷ rows) =
    if text_eq r.idempotency_key k then some r else find_refund_by_key k rows

abbrev pub find_event : ℕ → List OutboxEvent → Option OutboxEvent
find_event i [] = none
find_event i (e ∷ events) = if e.id == i then some e else find_event i events

abbrev pub put_event : OutboxEvent → List OutboxEvent → List OutboxEvent
put_event event [] = []
put_event event (e ∷ events) =
    if e.id == event.id then event ∷ events else e ∷ put_event event events

abbrev pub is_some {ℓ} : {A : Type ℓ} → Option A → Bool
is_some none = false
is_some (some a) = true

pub find_payment-put :
    (i : ℕ) (row : PaymentRow) (rows : List PaymentRow)
    → find_payment i (put_payment row rows)
      ≡ (if row.id == i && is_some (find_payment i rows) then some row else find_payment i rows)
find_payment-put i row [] = ground arith
find_payment-put i row (r ∷ rows) = ground (arith, find_payment-put i row rows)

-- A row that is found has the id that was asked for.
pub find_payment-id :
    (i : ℕ) (rows : List PaymentRow) {r : PaymentRow} → find_payment i rows ≡ some r → r.id ≡ i
find_payment-id i [] h = cc
find_payment-id i (q ∷ rows) {r} h = ground (arith, find_payment-id i rows {r = r})

pub find_event-put :
    (i : ℕ) (event : OutboxEvent) (events : List OutboxEvent)
    → find_event i (put_event event events)
      ≡ (if event.id == i && is_some (find_event i events) then some event else find_event i events)
find_event-put i event [] = ground arith
find_event-put i event (e ∷ events) = ground (arith, find_event-put i event events)

pub find_event-id :
    (i : ℕ) (events : List OutboxEvent) {e : OutboxEvent} → find_event i events ≡ some e → e.id ≡ i
find_event-id i [] h = cc
find_event-id i (q ∷ events) {e} h = ground (arith, find_event-id i events {e = e})
