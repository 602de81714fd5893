-- ===== src/Repository/Up.antt =====
-- The methods of internal/repository/payment_repo.go while Postgres answers: when they succeed.
use pay_flow_mock.Prelude.{
  ==_ne, Text, ℕ, ◌≡◌, refl, ◌≢◌, true, false, none, some, List, [], ◌∷◌, arith,
}
use pay_flow_mock.Domain.{
  Status, status_eq, status_eq_iff, nil_id, Payment, is_known_status, valid_transition,
}
use pay_flow_mock.Errors.{Label, update_status_with_psp, ok}
use pay_flow_mock.Repository.{
  PaymentRow, Db, Statement, begin_stmt, update_stmt, insert_stmt, insert_event_stmt, commit_stmt,
  Env, find_payment, find_payment_by_key, put_payment, update_payment_where, find_event,
  find_payment-put, find_payment-id,
}
use pay_flow_mock.Repository.Payments.{
  PaymentRepo, EventSource, outbox_event, enqueue_outbox_payment_event_tx,
  validate_payment_for_create, payment_row, insert_payment_row, create_payment,
}
use pay_flow_mock.Repository.Payments.Store.{stamped}
use pay_flow_mock.Repository.Updates.Success.{paid, with_status}
use pay_flow_mock.Domain.Lifecycle.{◌⟶◌, start, succeed, fail, refund, valid_transition-iff_edge}
use pay_flow_mock.Repository.Updates.{
  run_tx, update_payment_status, update_returning, update_and_enqueue, event_source,
  update_payment_status_with_psp,
}
use pay_flow_mock.Repository.Outbox.{event_row, enqueue_tx}
use pay_flow_mock.Domain.Outbox.{payment_success}

-- No statement fails.
abbrev pub IsUp : Env → Type 0
IsUp env = (s : Statement) → env.fails s ≡ false

abbrev pub IsConfigured : PaymentRepo → Type 0
IsConfigured r = (r.has_db ≡ true) × (r.has_outbox ≡ true)

-- A row that takes the place of one with its id is found.
pub put-found :
    (i : ℕ) (new : PaymentRow) (rows : List PaymentRow) {row : PaymentRow}
    → find_payment i rows ≡ some row
    → new.id ≡ row.id
    → find_payment i (put_payment new rows) ≡ some new
put-found i new rows {row} found same =
    ground (arith, find_payment-put i new rows, find_payment-id i rows {r = row})

-- The checks of an update let a valid transition through.
known_edge :
    (s t : Status)
    → valid_transition s t ≡ true
    → (is_known_status s ≡ true) × (is_known_status t ≡ true) × (status_eq s t ≡ false)
unfolding is_known_status status_eq
known_edge s t valid = known ((valid_transition-iff_edge s t).0 valid)
  where
    known :
        {s t : Status}
        → s ⟶ t
        → (is_known_status s ≡ true) × (is_known_status t ≡ true) × (status_eq s t ≡ false)
    known start = (refl, refl, refl)
    known succeed = (refl, refl, refl)
    known fail = (refl, refl, refl)
    known refund = (refl, refl, refl)

module _ (r : PaymentRepo) (configured : IsConfigured r) (env : Env) (up : IsUp env) where
  -- A valid payment with a free id and a free key is stored.
  pub create_payment-up :
      (p : Payment) (db : Db)
      → validate_payment_for_create (some p) ≡ ok p
      → find_payment p.id db.payments ≡ none
      → find_payment_by_key p.idempotency_key db.payments ≡ none
      → create_payment r env (some p) db
        ≡ (ok (stamped env p), record db { payments = payment_row (stamped env p) ∷ db.payments })
  unfolding create_payment insert_payment_row payment_row
  create_payment-up p db valid new_id new_key =
      rw (configured.0, valid, up insert_stmt, new_id, new_key) refl

  same_status :
      (row : PaymentRow) (from : Status) → row.status ≡ from → status_eq row.status from ≡ true
  same_status row from e = (status_eq_iff row.status from).1 e

  -- A row in the expected status takes the next one.
  pub update_payment_status-up :
      (i : ℕ) (from to : Status) (db : Db) (row : PaymentRow)
      → i ≢ nil_id
      → valid_transition from to ≡ true
      → find_payment i db.payments ≡ some row
      → row.status ≡ from
      → (update_payment_status r env i from to db)
        ≡ (ok tt, record db { payments = put_payment (with_status env to row) db.payments })
  unfolding update_payment_status update_payment_where
  update_payment_status-up i from to db row some_id valid found same =
      let (known_from, known_to, differ) = known_edge from to valid in
      let expected = same_status row from same in
      let ready = up update_stmt in ground (arith, configured.0)

  update_returning-up :
      (label : Label) (i : ℕ) (from : Status) (change : PaymentRow → PaymentRow) (db : Db)
      (row : PaymentRow)
      → find_payment i db.payments ≡ some row
      → row.status ≡ from
      → update_returning env label i from change db
        ≡ ok (change row, record db { payments = put_payment (change row) db.payments })
  unfolding update_returning update_payment_where
  update_returning-up label i from change db row found same =
      rw (up update_stmt, found, same_status row from same) refl

  -- An event with a new id is enqueued for a payment that is there.
  enqueue-up :
      (src : EventSource) (db : Db) (event_id : ℕ) (row : PaymentRow)
      → env.new_id ≡ some event_id
      → event_id ≢ nil_id
      → find_event event_id db.outbox ≡ none
      → find_payment src.payment_id db.payments ≡ some row
      → enqueue_outbox_payment_event_tx r env src db
        ≡ ok (record db {
          outbox = event_row env.now (outbox_event r event_id env.now src) ∷ db.outbox;
        })
  unfolding enqueue_outbox_payment_event_tx enqueue_tx outbox_event
  enqueue-up src db event_id row drawn some_id new found =
      rw (configured.1, drawn, ==_ne _ _ some_id, up insert_event_stmt, new, found) refl

  -- A row in the expected status takes the next one, with an event in the outbox.
  pub update_payment_status_with_psp-up :
      (i : ℕ) (from to : Status) (psp_name psp_reference_id : Text) (db : Db) (row : PaymentRow)
      (event_id : ℕ)
      → i ≢ nil_id
      → valid_transition from to ≡ true
      → find_payment i db.payments ≡ some row
      → row.status ≡ from
      → env.new_id ≡ some event_id
      → event_id ≢ nil_id
      → find_event event_id db.outbox ≡ none
      → (after : Db) × (update_payment_status_with_psp r env i from to psp_name psp_reference_id db
          ≡ (ok tt, after))
  unfolding update_payment_status_with_psp run_tx update_and_enqueue
  update_payment_status_with_psp-up i from to n f db row event_id some_id valid found same drawn
        some_event new =
      let (known_from, known_to, differ) = known_edge from to valid in
      let change = paid env to n f in
      let updated = record db { payments = put_payment (change row) db.payments } in
      let still : find_payment i updated.payments ≡ some (change row) =
        put-found i (change row) db.payments found refl in
      let first = update_returning-up update_status_with_psp i from change db row found same in
      let second =
        enqueue-up (event_source payment_success i to n f [] (change row)) updated event_id
          (change row) drawn some_event new still in
      let begun = up begin_stmt in
      let committed = up commit_stmt in
      (
        record updated {
          outbox =
              event_row env.now (
                outbox_event r event_id env.now
                  (event_source payment_success i to n f [] (change row)))
              ∷ db.outbox;
        },
        ground (arith, configured.0, first, second),
      )
