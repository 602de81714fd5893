-- ===== src/Repository/Updates/Refunds.antt =====
-- RefundPaymentAtomic of internal/repository/payment_repo.go.
use pay_flow_mock.Prelude.{
  ltb, ◌==◌, if◌then◌else◌, length, ℤ, is_nonpos, Text, is_empty, trim_space, ℕ, not, ◌||◌, none,
  some, [], ◌∷◌,
}
use pay_flow_mock.Domain.{success, refunded, nil_id}
use pay_flow_mock.Domain.Outbox.{payment_refunded}
use pay_flow_mock.Errors.{
  invalid_payment, invalid_amount, invalid_idempotency_key, conflict, status_mismatch, bare,
  id_required, key_too_long, unique_violation, foreign_key_violation, unavailable, insert_refund,
  update_refunded, Error, sentinel, driver, wrapped, Result, ok, err, fail_if, ◌>>=◌, ◌>>◌,
}
use pay_flow_mock.Repository.{
  PaymentRow, RefundRow, Db, update_stmt, insert_stmt, Env, pg_now, find_payment,
  update_payment_where, find_refund, find_refund_by_key, is_some,
}
use pay_flow_mock.Repository.Payments.{
  PaymentRepo, or_empty, EventSource, enqueue_outbox_payment_event_tx, is_unique_violation,
  not_configured,
}
use pay_flow_mock.Repository.Updates.{run_tx}

-- INSERT INTO refunds, under its keys and its reference to payments; the row's id is generated.
unfoldable pub insert_refund_row : Env → ℕ → ℤ → Text → Db → Result (ℕ × Db)
insert_refund_row env payment_id amount key db = do
  fail_if (env.fails insert_stmt) (driver unavailable)
  fail_if
      (is_some (find_refund env.random_uuid db.refunds)
        || is_some (find_refund_by_key key db.refunds))
      (driver unique_violation)
  fail_if (not (is_some (find_payment payment_id db.payments))) (driver foreign_key_violation)
  let row : RefundRow = record {
    id = env.random_uuid;
    payment_id = payment_id;
    amount = amount;
    status = success;
    idempotency_key = key;
    created_at = pg_now env;
  }
  ok (env.random_uuid, record db { refunds = row ∷ db.refunds })

-- The error of a failed insert: ErrConflict for a key that is taken.
abbrev pub refund_insert_failed : Error → Error
refund_insert_failed e =
    if is_unique_violation e then sentinel conflict bare else wrapped insert_refund e

abbrev pub or_refund_error : {A : Type 0} → Result A → Result A
or_refund_error (ok a) = ok a
or_refund_error (err e) = err (refund_insert_failed e)

-- The UPDATE of the refund's transaction, where a payment that is not in `success` is one error.
unfoldable pub mark_refunded : Env → ℕ → Db → Result (PaymentRow × Db)
unfolding update_payment_where
mark_refunded env payment_id db =
    if env.fails update_stmt
    then err (wrapped update_refunded (driver unavailable))
    else (let refund =
          λ (row : PaymentRow). record row { status = refunded; updated_at = pg_now env } in
        elim (update_payment_where payment_id success refund db.payments) [
          | none ↦ err (sentinel status_mismatch bare)
          | some (row, rows) ↦ ok (row, record db { payments = rows })
        ])

unfoldable pub refund_tx : PaymentRepo → Env → ℕ → ℤ → Text → Db → Result (ℕ × Db)
unfolding is_unique_violation
refund_tx r env payment_id amount key db = do
  (refund_id, inserted) ← or_refund_error (insert_refund_row env payment_id amount key db)
  (row, marked) ← mark_refunded env payment_id inserted
  let source : EventSource = record {
    event_type = payment_refunded;
    payment_id = payment_id;
    merchant_id = row.merchant_id;
    amount = row.amount;
    currency = row.currency;
    status = refunded;
    psp_name = or_empty row.psp;
    psp_reference_id = or_empty row.psp_reference_id;
    failure_reason = [];
    refund = some (refund_id, amount);
  }
  complete ← enqueue_outbox_payment_event_tx r env source marked
  ok (refund_id, complete)

-- The checks before the transaction; the key comes back trimmed.
unfoldable pub check_refund : PaymentRepo → ℕ → ℤ → Text → Result Text
check_refund r payment_id amount idempotency_key = do
  fail_if (not r.has_db) not_configured
  fail_if (payment_id == nil_id) (sentinel invalid_payment id_required)
  let key = trim_space idempotency_key
  fail_if (is_empty key) (sentinel invalid_idempotency_key bare)
  fail_if (ltb 255 (length key)) (sentinel invalid_idempotency_key key_too_long)
  fail_if (is_nonpos amount) (sentinel invalid_amount bare)
  ok key

-- RefundPaymentAtomic
unfoldable pub refund_payment_atomic : PaymentRepo → Env → ℕ → ℤ → Text → Db → Result ℕ × Db
unfolding check_refund
refund_payment_atomic r env payment_id amount idempotency_key db =
    elim (check_refund r payment_id amount idempotency_key) [
      | err e ↦ (err e, db)
      | ok key ↦ run_tx env db (refund_tx r env payment_id amount key)
    ]
