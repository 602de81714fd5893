-- ===== src/Repository/Payments.antt =====
-- internal/repository/payment_repo.go. A transaction is a function of the tables: what it has
-- written is kept when it ends well and the commit goes through, and dropped otherwise.
pub mod Store
use pay_flow_mock.Prelude.{
  ltb, ◌==◌, if◌then◌else◌, length, ℤ, is_nonpos, is_int64, Text, is_empty, trim_space, to_upper, ℕ,
  Bool, true, false, not, ◌&&◌, ◌||◌, Option, none, some, [], ◌∷◌,
}
use pay_flow_mock.Domain.{
  Status, initiated, other, nil_id, Payment, valid_currency, is_known_status,
}
use pay_flow_mock.Domain.Outbox.{
  OutboxStatus, unset, EventType, OutboxWebhookData, OutboxWebhookEnvelope, OutboxEvent,
}
use pay_flow_mock.Errors.{
  repository_not_configured, invalid_payment, invalid_amount, invalid_idempotency_key, not_found,
  conflict, bare, is_nil, id_required, merchant_id_required, key_too_long, amount_not_positive,
  currency_not_three_letters, unsupported_currency, status_not_new, unknown_status,
  unique_violation, unavailable, insert_payment, load_by_id, load_by_key, new_event_id, Error,
  sentinel, driver, id_source_failed, wrapped, Result, ok, err, fail_if, ◌>>=◌, ◌>>◌,
}
use pay_flow_mock.Repository.{
  PaymentRow, Db, insert_stmt, select_stmt, Env, column_time, find_payment, find_payment_by_key,
  is_some,
}
use pay_flow_mock.Repository.Outbox.{or_time, enqueue_tx}

-- The fields of PaymentRepo: whether there are a pool and an outbox, and the registry's WebhookURL
-- (`none` for a nil registry).
pub record PaymentRepo : Type 0 where
  pub has_db : Bool
  pub has_outbox : Bool
  pub registry : Option (ℕ → Option Text)

abbrev pub or_empty : Option Text → Text
or_empty none = []
or_empty (some s) = s

unfoldable pub webhook_url_for_merchant : PaymentRepo → ℕ → Text
webhook_url_for_merchant r merchant_id = elim r.registry [
  | none ↦ []
  | some webhook_url ↦ or_empty (webhook_url merchant_id)
]

-- strOrNil
unfoldable pub str_or_nil : Text → Option Text
str_or_nil [] = none
str_or_nil (c ∷ s) = some (c ∷ s)

-- What a caller of enqueueOutboxPaymentEventTx tells of the payment.
pub record EventSource : Type 0 where
  pub event_type : EventType
  pub payment_id : ℕ
  pub merchant_id : ℕ
  pub amount : ℤ
  pub currency : Text
  pub status : Status
  pub psp_name : Text
  pub psp_reference_id : Text
  pub failure_reason : Text
  pub refund : Option (ℕ × ℤ)

-- marshalOutboxPayload, up to the JSON text
unfoldable pub marshal_outbox_payload :
    ℕ → EventType → ℕ → OutboxWebhookData → OutboxWebhookEnvelope
marshal_outbox_payload event_id event_type created_at body = record {
  id = event_id;
  event_type = event_type;
  created_at = created_at;
  body = body;
}

-- The event that enqueueOutboxPaymentEventTx builds.
unfoldable pub outbox_event : PaymentRepo → ℕ → ℕ → EventSource → OutboxEvent
unfolding webhook_url_for_merchant marshal_outbox_payload
outbox_event r event_id created_at src = record {
  id = event_id;
  payment_id = src.payment_id;
  merchant_id = src.merchant_id;
  event_type = src.event_type;
  webhook_url = webhook_url_for_merchant r src.merchant_id;
  payload = marshal_outbox_payload event_id src.event_type created_at (record {
    payment_id = src.payment_id;
    merchant_id = src.merchant_id;
    amount = src.amount;
    currency = src.currency;
    status = src.status;
    psp = src.psp_name;
    psp_reference_id = src.psp_reference_id;
    failure_reason = src.failure_reason;
    refund = src.refund;
  });
  status = OutboxStatus.unset;
  last_error = [];
  attempt_count = 0;
  next_retry_at = 0;
  delivered_at = 0;
  created_at = 0;
  updated_at = 0;
}

-- enqueueOutboxPaymentEventTx
unfoldable pub enqueue_outbox_payment_event_tx : PaymentRepo → Env → EventSource → Db → Result Db
enqueue_outbox_payment_event_tx r env src db =
    if not r.has_outbox then err (sentinel repository_not_configured bare) else elim env.new_id [
      | none ↦ err (wrapped new_event_id id_source_failed)
      | some event_id ↦ enqueue_tx env (outbox_event r event_id env.now src) db
    ]

-- isUniqueViolation, by errors.As
unfoldable pub is_unique_violation : Error → Bool
is_unique_violation (driver unique_violation) = true
is_unique_violation (wrapped l e) = is_unique_violation e
is_unique_violation _ = false

-- The switch over the status of a new payment.
unfoldable pub new_status : Status → Result Status
new_status initiated = ok initiated
new_status (other []) = ok initiated
new_status s = err (sentinel invalid_payment status_not_new)

-- validatePaymentForCreate: it returns the payment as it has changed it.
unfoldable pub validate_payment_for_create : Option Payment → Result Payment
validate_payment_for_create none = err (sentinel invalid_payment is_nil)
validate_payment_for_create (some p) = do
  fail_if (p.id == nil_id) (sentinel invalid_payment id_required)
  fail_if (p.merchant_id == nil_id) (sentinel invalid_payment merchant_id_required)
  let key = trim_space p.idempotency_key
  fail_if (is_empty key) (sentinel invalid_idempotency_key bare)
  fail_if (ltb 255 (length key)) (sentinel invalid_idempotency_key key_too_long)
  fail_if (is_nonpos p.amount) (sentinel invalid_amount amount_not_positive)
  fail_if (not (is_int64 p.amount)) (sentinel invalid_amount bare)
  let curr = trim_space (to_upper p.currency)
  fail_if (not (length curr == 3)) (sentinel invalid_payment currency_not_three_letters)
  fail_if (not (valid_currency curr)) (sentinel invalid_payment unsupported_currency)
  status ← new_status p.status
  fail_if (not (is_known_status status)) (sentinel invalid_payment unknown_status)
  ok (record p { idempotency_key = key; currency = curr; status = status })

-- scanPayment
unfoldable pub scan_payment : PaymentRow → Payment
scan_payment row = record {
  id = row.id;
  merchant_id = row.merchant_id;
  amount = row.amount;
  currency = row.currency;
  status = row.status;
  idempotency_key = row.idempotency_key;
  psp = or_empty row.psp;
  psp_reference_id = or_empty row.psp_reference_id;
  failure_reason = or_empty row.failure_reason;
  created_at = row.created_at;
  updated_at = row.updated_at;
}

-- The row that CreatePayment inserts.
unfoldable pub payment_row : Payment → PaymentRow
unfolding str_or_nil column_time
payment_row p = record {
  id = p.id;
  merchant_id = p.merchant_id;
  amount = p.amount;
  currency = p.currency;
  status = p.status;
  idempotency_key = p.idempotency_key;
  psp = str_or_nil p.psp;
  psp_reference_id = str_or_nil p.psp_reference_id;
  failure_reason = str_or_nil p.failure_reason;
  created_at = column_time p.created_at;
  updated_at = column_time p.updated_at;
}

-- INSERT INTO payments, under the primary key and the unique idempotency key
unfoldable pub insert_payment_row : Env → PaymentRow → Db → Result Db
insert_payment_row env row db = do
  fail_if (env.fails insert_stmt) (driver unavailable)
  fail_if
      (is_some (find_payment row.id db.payments)
        || is_some (find_payment_by_key row.idempotency_key db.payments))
      (driver unique_violation)
  ok (record db { payments = row ∷ db.payments })

abbrev insert_failed : Error → Error
insert_failed e = if is_unique_violation e then sentinel conflict bare else wrapped insert_payment e

-- The environment in which every answer gets through.
abbrev pub answered : Env → Env
answered env = record env { fails = λ s. false }

-- The tables after an INSERT of which only the answer is lost.
abbrev pub landed : Bool → Result Db → Db → Db
landed true (ok db') db = db'
landed _ _ db = db

abbrev pub not_configured : Error
not_configured = sentinel repository_not_configured bare

-- CreatePayment: the payment as the call leaves it.
unfoldable pub create_payment : PaymentRepo → Env → Option Payment → Db → Result Payment × Db
create_payment r env payment db =
    if not r.has_db then (err not_configured, db) else elim (validate_payment_for_create payment) [
      | err e ↦ (err e, db)
      | ok p ↦
          (let created_at = or_time p.created_at env.now in
            let updated_at = or_time p.updated_at created_at in
            let p' = record p { created_at = created_at; updated_at = updated_at } in
            elim (insert_payment_row env (payment_row p') db) [
              | err e ↦ (
                err (insert_failed e),
                landed (env.fails insert_stmt && env.lands)
                    (insert_payment_row (answered env) (payment_row p') db) db,
              )
              | ok db' ↦ (ok p', db')
            ])
    ]

-- GetPaymentByID
unfoldable pub get_payment_by_id : PaymentRepo → Env → ℕ → Db → Result Payment
unfolding scan_payment
get_payment_by_id r env i db = do
  fail_if (not r.has_db) not_configured
  fail_if (i == nil_id) (sentinel invalid_payment id_required)
  fail_if (env.fails select_stmt) (wrapped load_by_id (driver unavailable))
  elim (find_payment i db.payments) [
    | none ↦ err (sentinel not_found bare)
    | some row ↦ ok (scan_payment row)
  ]

-- GetPaymentStatusByIdempotencyKey
unfoldable pub get_payment_status_by_idempotency_key :
    PaymentRepo → Env → Text → Db → Result Payment
unfolding scan_payment
get_payment_status_by_idempotency_key r env key db = do
  fail_if (not r.has_db) not_configured
  fail_if (is_empty (trim_space key)) (sentinel invalid_idempotency_key bare)
  fail_if (env.fails select_stmt) (wrapped load_by_key (driver unavailable))
  elim (find_payment_by_key (trim_space key) db.payments) [
    | none ↦ err (sentinel not_found bare)
    | some row ↦ ok (scan_payment row)
  ]
