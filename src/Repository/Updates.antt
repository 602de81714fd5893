-- ===== src/Repository/Updates.antt =====
-- The status changes of internal/repository/payment_repo.go. Those that tell the merchant write
-- the payment and the outbox in one transaction.
pub mod Atomic
pub mod Effects
pub mod Refunds
pub mod Success
pub mod RefundSuccess
use pay_flow_mock.Prelude.{
  ◌==◌, if◌then◌else◌, Text, ℕ, Bool, true, false, not, ◌||◌, none, some, [],
}
use pay_flow_mock.Domain.{Status, failed, status_eq, nil_id, is_known_status, valid_transition}
use pay_flow_mock.Domain.Outbox.{EventType, payment_success, payment_failed}
use pay_flow_mock.Errors.{
  invalid_payment, not_found, status_mismatch, invalid_status_transition, bare, id_required,
  unknown_status, current_expected, cannot_go, unavailable, Label, update_status,
  update_status_with_psp, update_failed, begin_tx, commit, resolve_row, Error, sentinel, driver,
  wrapped, Result, ok, err, fail_if, ◌>>=◌, ◌>>◌,
}
use pay_flow_mock.Repository.{
  PaymentRow, Db, begin_stmt, update_stmt, resolve_stmt, commit_stmt, Env, pg_now, find_payment,
  update_payment_where,
}
use pay_flow_mock.Repository.Payments.{
  PaymentRepo, str_or_nil, EventSource, enqueue_outbox_payment_event_tx, not_configured,
}

-- BeginTx, the statements, and Commit or, on any error, Rollback.
unfoldable pub run_tx : {A : Type 0} → Env → Db → (Db → Result (A × Db)) → Result A × Db
run_tx env db statements =
    if env.fails begin_stmt
    then (err (wrapped begin_tx (driver unavailable)), db)
    else elim (statements db) [
      | err e ↦ (err e, db)
      | ok (a, db') ↦
          if env.fails commit_stmt
          then (err (wrapped commit (driver unavailable)), if env.lands then db' else db)
          else (ok a, db')
    ]

-- The query after an UPDATE that met no row: is it missing, or in another status?
unfoldable pub resolve_missing : Env → ℕ → Status → Db → Error
resolve_missing env i expected db =
    if env.fails resolve_stmt
    then wrapped resolve_row (driver unavailable)
    else elim (find_payment i db.payments) [
      | none ↦ sentinel not_found bare
      | some row ↦ sentinel status_mismatch (current_expected row.status expected)
    ]

-- The checks with which each update begins; `false` where there is nothing to do.
unfoldable pub check_update : PaymentRepo → ℕ → Status → Status → Result Bool
check_update r i from to = do
  fail_if (not r.has_db) not_configured
  fail_if (i == nil_id) (sentinel invalid_payment id_required)
  fail_if (not (is_known_status from) || not (is_known_status to))
      (sentinel invalid_status_transition unknown_status)
  ok (not (status_eq from to))

-- The query before a transition that is not valid: what is wrong besides?
unfoldable pub resolve_invalid : Env → ℕ → Status → Status → Db → Error
resolve_invalid env i from to db =
    if env.fails resolve_stmt
    then wrapped resolve_row (driver unavailable)
    else elim (find_payment i db.payments) [
      | none ↦ sentinel not_found bare
      | some row ↦
          if status_eq row.status from
          then sentinel invalid_status_transition (cannot_go from to)
          else sentinel status_mismatch (current_expected row.status from)
    ]

-- The UPDATE of UpdatePaymentStatus and what comes after it, if it is answered.
abbrev pub move_status : Env → ℕ → Status → Status → Db → Result (Unit {0}) × Db
move_status env i from to db =
    let moved = λ (row : PaymentRow). record row { status = to; updated_at = pg_now env } in
    elim (update_payment_where i from moved db.payments) [
      | none ↦ (err (resolve_missing env i from db), db)
      | some (row, rows) ↦ (ok tt, record db { payments = rows })
    ]

-- UpdatePaymentStatus
unfoldable pub update_payment_status :
    PaymentRepo → Env → ℕ → Status → Status → Db → Result (Unit {0}) × Db
unfolding check_update resolve_missing resolve_invalid update_payment_where
update_payment_status r env i from to db = elim (check_update r i from to) [
  | err e ↦ (err e, db)
  | ok false ↦ (ok tt, db)
  | ok true ↦
      if not (valid_transition from to)
      then (err (resolve_invalid env i from to db), db)
      else (if env.fails update_stmt
          then (
            err (wrapped update_status (driver unavailable)),
            if env.lands then (move_status env i from to db).1 else db,
          )
          else move_status env i from to db)
]

-- `UPDATE payments … RETURNING …` within a transaction: the row as it is afterwards.
unfoldable pub update_returning :
    Env → Label → ℕ → Status → (PaymentRow → PaymentRow) → Db → Result (PaymentRow × Db)
unfolding update_payment_where resolve_missing
update_returning env label i from change db =
    if env.fails update_stmt
    then err (wrapped label (driver unavailable))
    else elim (update_payment_where i from change db.payments) [
      | none ↦ err (resolve_missing env i from db)
      | some (row, rows) ↦ ok (row, record db { payments = rows })
    ]

-- The transaction of UpdatePaymentStatusWithPSP and UpdatePaymentFailed: the update and its event.
unfoldable pub update_and_enqueue :
    PaymentRepo
    → Env
    → Label
    → ℕ
    → Status
    → (PaymentRow → PaymentRow)
    → (PaymentRow → EventSource)
    → Db
    → Result (Unit {0} × Db)
update_and_enqueue r env label i from change source db = do
  (row, db') ← update_returning env label i from change db
  db'' ← enqueue_outbox_payment_event_tx r env (source row) db'
  ok (tt, db'')

-- What the transaction tells of the updated row; the texts are the call's own.
abbrev pub event_source : EventType → ℕ → Status → Text → Text → Text → PaymentRow → EventSource
event_source event_type payment_id to psp_name psp_reference_id failure_reason row = record {
  event_type = event_type;
  payment_id = payment_id;
  merchant_id = row.merchant_id;
  amount = row.amount;
  currency = row.currency;
  status = to;
  psp_name = psp_name;
  psp_reference_id = psp_reference_id;
  failure_reason = failure_reason;
  refund = none;
}

-- UpdatePaymentStatusWithPSP
unfoldable pub update_payment_status_with_psp :
    PaymentRepo → Env → ℕ → Status → Status → Text → Text → Db → Result (Unit {0}) × Db
unfolding check_update
update_payment_status_with_psp r env i from to psp_name psp_reference_id db =
    elim (check_update r i from to) [
      | err e ↦ (err e, db)
      | ok false ↦ (ok tt, db)
      | ok true ↦
          if not (valid_transition from to)
          then (err (sentinel invalid_status_transition (cannot_go from to)), db)
          else run_tx env db (
              update_and_enqueue r env update_status_with_psp i from
                (λ row. record row {
                  status = to;
                  psp = str_or_nil psp_name;
                  psp_reference_id = str_or_nil psp_reference_id;
                  updated_at = pg_now env;
                })
                (event_source payment_success i to psp_name psp_reference_id []))
    ]

-- UpdatePaymentFailed
unfoldable pub update_payment_failed :
    PaymentRepo → Env → ℕ → Status → Text → Text → Text → Db → Result (Unit {0}) × Db
unfolding check_update
update_payment_failed r env i from psp_name psp_reference_id failure_reason db =
    elim (check_update r i from failed) [
      | err e ↦ (err e, db)
      | ok false ↦ (ok tt, db)
      | ok true ↦
          if not (valid_transition from failed)
          then (err (sentinel invalid_status_transition (cannot_go from failed)), db)
          else run_tx env db (
              update_and_enqueue r env update_failed i from
                (λ row. record row {
                  status = failed;
                  psp = str_or_nil psp_name;
                  psp_reference_id = str_or_nil psp_reference_id;
                  failure_reason = str_or_nil failure_reason;
                  updated_at = pg_now env;
                })
                (event_source payment_failed i failed psp_name psp_reference_id failure_reason))
    ]
