-- ===== src/Service.antt =====
-- internal/service/payment_service.go. A call of the service is an action on the tables and on the
-- state `X` outside the process; before each call of the repository other requests and the worker
-- may have changed the tables. Spans and metrics are not modelled.
pub mod Payments
pub mod Kept
pub mod Answers
pub mod Validated
pub mod Tests
pub mod Refunded
pub mod Live
use pay_flow_mock.Prelude.{
  ltb, ◌==◌, if◌then◌else◌, length, is_nonpos, is_int64, Text, codes, is_empty, trim_space,
  to_upper, ℕ, not, ◌||◌, Option, none, some, ◌++◌,
}
use pay_flow_mock.Domain.{nil_id, CreatePaymentRequest, RefundRequest, valid_currency}
use pay_flow_mock.Errors.{
  validation, Detail, is_nil, merchant_id_required, key_required, key_too_long, amount_not_positive,
  amount_not_int64, unsupported_currency, generate_payment_id, max_retries_exceeded, Error,
  sentinel, psp_error, no_route, nil_router, id_source_failed, unknown_adapter, wrapped,
  without_cause, as_psp_error, Result, ok, err, fail_if, ◌>>=◌, ◌>>◌,
}
use pay_flow_mock.Repository.{Db, Env}
use pay_flow_mock.Repository.Payments.{PaymentRepo}
use pay_flow_mock.Psp.{declined, charge_error, ChargeResponse, PspAdapter, psp_error_text}
use pay_flow_mock.Psp.Router.{Router}
use pay_flow_mock.Floats.{Float64}
use pay_flow_mock.Retry.{Config, default_config}

-- The calls of the repository that the service makes.
pub data Call : Type 0 where
  create_call start_call finish_call get_call refund_call : Call

abbrev pub State : Type 0 → Type 0
State X = Db × X

-- What the service meets outside: fresh ids, the world before a call of the repository, the context
-- and the timer of the retries, and the texts of errors from elsewhere.
pub record Outside (fl : Float64) (X : Type 0) : Type 0 where
  pub new_id : X → Option ℕ × X
  pub before : Call → State X → Env × State X
  pub ctx_err : X → Option Error
  pub wait : ℕ → X → Option Error × X
  pub fraction : ℕ → X → fl.F
  pub foreign_text : Error → Text

-- The struct PaymentService; a nil field is `none`.
pub record PaymentService (fl : Float64) (X : Type 0) : Type 0 where
  pub repo : Option PaymentRepo
  pub router : Option (Router (PspAdapter X))
  pub retry_cfg : Config fl.F

-- NewPaymentService
unfoldable pub new_payment_service :
    (fl : Float64) {X : Type 0}
    → Option PaymentRepo
    → Option (Router (PspAdapter X))
    → Option (PaymentService fl X)
new_payment_service fl (some repo) (some router) =
    some (record { repo = some repo; router = some router; retry_cfg = default_config fl })
new_payment_service fl none router = none
new_payment_service fl (some repo) none = none

-- A part of a method: it ends with an error or goes on, and changes the state either way.
abbrev pub Act : Type 0 → Type 0 → Type 0
Act X A = State X → Result A × State X

module _ {X A B : Type 0} where
  abbrev pub then_do : (A → Act X B) → Result A × State X → Result B × State X
  then_do rest (ok a, s) = rest a s
  then_do rest (err e, s) = (err e, s)

  -- A call, and the rest if there is no error.
  abbrev pub chain : Act X A → (A → Act X B) → Act X B
  chain act rest s = then_do rest (act s)

-- A test or a value that touches no state.
abbrev pub pure : {X A : Type 0} → Result A → Act X A
pure result s = (result, s)

abbrev pub with_drawn_id : {X : Type 0} → Db → Option ℕ × X → Result ℕ × State X
with_drawn_id db (none, x) = (err (wrapped generate_payment_id id_source_failed), (db, x))
with_drawn_id db (some i, x) = (ok i, (db, x))

module _ {fl : Float64} {X : Type 0} (out : Outside fl X) where
  -- A call of the repository, in the tables as they are by then.
  abbrev pub repo_call : {A : Type 0} → Call → (Env → Db → Result A × Db) → Act X A
  repo_call call method s =
      let (env, (db, x)) = out.before call s in
      let (result, db') = method env db in (result, (db', x))

  -- domain.NewID with its error
  abbrev pub generate_id : Act X ℕ
  generate_id (db, x) = with_drawn_id db (out.new_id x)

abbrev pub invalid : Detail → Error
invalid detail = sentinel validation detail

-- What both validations ask of the currency and of the key.
unfoldable pub validate_currency_and_key : Text → Text → Result (Unit {0})
validate_currency_and_key currency idempotency_key = do
  let curr = trim_space (to_upper currency)
  fail_if (not (length curr == 3) || not (valid_currency curr)) (invalid unsupported_currency)
  let key = trim_space idempotency_key
  fail_if (is_empty key) (invalid key_required)
  fail_if (ltb 255 (length key)) (invalid key_too_long)

-- validateCreatePaymentRequest
unfoldable pub validate_create_payment_request : Option CreatePaymentRequest → Result (Unit {0})
unfolding validate_currency_and_key
validate_create_payment_request none = err (invalid is_nil)
validate_create_payment_request (some req) = do
  fail_if (req.merchant_id == nil_id) (invalid merchant_id_required)
  fail_if (is_nonpos req.amount) (invalid amount_not_positive)
  fail_if (not (is_int64 req.amount)) (invalid amount_not_int64)
  validate_currency_and_key req.currency req.idempotency_key

-- validateRefundRequest
unfoldable pub validate_refund_request : Option RefundRequest → Result (Unit {0})
unfolding validate_currency_and_key
validate_refund_request none = err (invalid is_nil)
validate_refund_request (some req) = do
  fail_if (is_nonpos req.amount) (invalid amount_not_positive)
  validate_currency_and_key req.currency req.idempotency_key

-- `err.Error()` of the errors that the router and a charge return; `foreign` tells it of those from
-- other packages. The name of an adapter needs no escapes under `%q`.
unfoldable pub error_text : (Error → Text) → Error → Text
unfolding psp_error_text
error_text foreign no_route = codes "psp: no routing rule matched currency and amount"
error_text foreign nil_router = codes "psp: nil router"
error_text foreign (unknown_adapter name) = codes "psp: unknown adapter \"" ++ (name ++ codes "\"")
error_text foreign (psp_error pe) = psp_error_text (some pe)
error_text foreign (wrapped max_retries_exceeded e) =
    codes "max retries exceeded: " ++ error_text foreign e
error_text foreign (without_cause max_retries_exceeded) = codes "max retries exceeded: %!w(<nil>)"
error_text foreign e = foreign e

-- formatChargeFailureReason, of an error that is not nil
unfoldable pub format_charge_failure_reason : (Error → Text) → Error → Text
unfolding error_text
format_charge_failure_reason foreign e = elim (as_psp_error e) [
  | some pe ↦ if is_empty pe.message then pe.code else pe.code ++ (codes ": " ++ pe.message)
  | none ↦ error_text foreign e
]

-- chargeDeclineReason; `none` is the nil response
unfoldable pub charge_decline_reason : Option ChargeResponse → Text
charge_decline_reason none = codes "declined"
charge_decline_reason (some resp) = elim resp.status [
  | charge_error ↦ codes "charge_error"
  | _ ↦ codes "declined"
]
