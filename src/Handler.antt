-- ===== src/Handler.antt =====
-- internal/handler/payment_handler.go: what each route answers. The texts of errors are a
-- parameter; a request's body and id come as the decoder and uuid.Parse leave them, and the JSON of
-- an answer is kept as the value that is encoded.
pub mod Answered
mod Tests
use pay_flow_mock.Prelude.{
  if◌then◌else◌, ℤ, Text, codes, trim_space, ℕ, Bool, true, false, not, ◌||◌, Option, none, some,
}
use pay_flow_mock.Domain.{
  Status, failed, Payment, CreatePaymentRequest, CreatePaymentResponse, RefundRequest,
  RefundResponse,
}
use pay_flow_mock.Errors.{
  repository_not_configured, invalid_payment, invalid_amount, invalid_idempotency_key, not_found,
  conflict, status_mismatch, invalid_status_transition, validation, unavailable, Error, is_error,
  Result, ok, err,
}
use pay_flow_mock.Floats.{Float64}
use pay_flow_mock.Service.{State, Outside, PaymentService, Act, invalid}
use pay_flow_mock.Service.Payments.{
  create_payment_service, get_payment_service, refund_payment_service,
}

-- The interface PaymentServiceAPI.
pub record PaymentServiceApi (X : Type 0) : Type 0 where
  pub create_payment : CreatePaymentRequest → Act X CreatePaymentResponse
  pub get_payment : ℕ → Act X Payment
  pub refund_payment : ℕ → RefundRequest → Act X RefundResponse

-- *PaymentService behind the interface.
abbrev pub payment_service_api :
    {fl : Float64} {X : Type 0} → Outside fl X → Option (PaymentService fl X) → PaymentServiceApi X
payment_service_api out s = record {
  create_payment = create_payment_service out s;
  get_payment = get_payment_service out s;
  refund_payment = refund_payment_service out s;
}

-- paymentHTTPDetail, with the amount and the times before they are printed
pub record PaymentHttpDetail : Type 0 where
  pub id : ℕ
  pub merchant_id : ℕ
  pub amount : ℤ
  pub currency : Text
  pub status : Status
  pub idempotency_key : Text
  pub psp : Text
  pub psp_reference_id : Text
  pub failure_reason : Text
  pub created_at : ℕ
  pub updated_at : ℕ

-- paymentToHTTPDetail, of a payment that is not nil
unfoldable pub payment_to_http_detail : Payment → PaymentHttpDetail
payment_to_http_detail p = record {
  id = p.id;
  merchant_id = p.merchant_id;
  amount = p.amount;
  currency = p.currency;
  status = p.status;
  idempotency_key = p.idempotency_key;
  psp = p.psp;
  psp_reference_id = p.psp_reference_id;
  failure_reason = p.failure_reason;
  created_at = p.created_at;
  updated_at = p.updated_at;
}

-- The bodies that the handlers write.
pub data Body : Type 0 where
  error_body : Text → Text → Body
  created_body : CreatePaymentResponse → Body
  refund_body : RefundResponse → Body
  detail_body : PaymentHttpDetail → Body
  health_ok : Body

pub record HttpResponse : Type 0 where
  pub status : ℕ
  pub body : Body

-- writeErr
abbrev pub write_err : ℕ → Text → Text → HttpResponse
write_err status code message = record { status = status; body = error_body code message }

-- mapServiceError, of an error that is not nil
unfoldable pub map_service_error : (Error → Text) → Error → HttpResponse
map_service_error text_of e =
    if is_error not_found e
    then write_err 404 (codes "NOT_FOUND") (trim_space (text_of e))
    else (if is_error conflict e
        then write_err 409 (codes "CONFLICT") (trim_space (text_of e))
        else (if is_error validation e
              || is_error invalid_payment e
              || is_error invalid_amount e
              || is_error invalid_idempotency_key e
            then write_err 400 (codes "VALIDATION_ERROR") (trim_space (text_of e))
            else (if is_error status_mismatch e || is_error invalid_status_transition e
                then write_err 409 (codes "INVALID_TRANSITION") (trim_space (text_of e))
                else (if is_error repository_not_configured e
                    then write_err 500 (codes "INTERNAL_ERROR") (codes "repository not configured")
                    else write_err 500 (codes "INTERNAL_ERROR") (codes "internal server error")))))

abbrev service_unavailable : HttpResponse
service_unavailable = write_err 500 (codes "INTERNAL_ERROR") (codes "service unavailable")

abbrev invalid_json : HttpResponse
invalid_json = write_err 400 (codes "INVALID_JSON") (codes "request body must be valid JSON")

abbrev invalid_id : HttpResponse
invalid_id = write_err 400 (codes "VALIDATION_ERROR") (codes "invalid payment id")

-- The end of each handler: the answer or the error of the service.
abbrev pub respond :
    {A X : Type 0}
    → (Error → Text)
    → (A → HttpResponse)
    → Result A × State X
    → HttpResponse × State X
respond text_of write (ok a, s) = (write a, s)
respond text_of write (err e, s) = (map_service_error text_of e, s)

module _ {X : Type 0} (text_of : Error → Text) where
  -- createPayment; `none` is a body that is no JSON of the request
  unfoldable pub handle_create :
      Option (PaymentServiceApi X) → Option CreatePaymentRequest → State X → HttpResponse × State X
  handle_create none body s = (service_unavailable, s)
  handle_create (some svc) none s = (invalid_json, s)
  handle_create (some svc) (some req) s =
      respond text_of (λ resp. record { status = 201; body = created_body resp })
        (svc.create_payment req s)

  -- getPayment; `none` is an id that uuid.Parse refuses
  unfoldable pub handle_get :
      Option (PaymentServiceApi X) → Option ℕ → State X → HttpResponse × State X
  unfolding payment_to_http_detail
  handle_get none id s = (service_unavailable, s)
  handle_get (some svc) none s = (invalid_id, s)
  handle_get (some svc) (some id) s =
      respond text_of (λ p. record { status = 200; body = detail_body (payment_to_http_detail p) })
        (svc.get_payment id s)

  -- refundPayment: the id of the path takes the place of the body's.
  unfoldable pub handle_refund :
      Option (PaymentServiceApi X)
      → Option ℕ
      → Option RefundRequest
      → State X
      → HttpResponse × State X
  handle_refund none id body s = (service_unavailable, s)
  handle_refund (some svc) none body s = (invalid_id, s)
  handle_refund (some svc) (some id) none s = (invalid_json, s)
  handle_refund (some svc) (some id) (some req) s =
      respond text_of (λ resp. record { status = 200; body = refund_body resp })
        (svc.refund_payment id (record req { payment_id = id }) s)

-- healthz: whether there is a pool, and whether it answers
unfoldable pub healthz : Option Bool → HttpResponse
healthz none = write_err 503 (codes "DB_UNAVAILABLE") (codes "database client not configured")
healthz (some false) = write_err 503 (codes "DB_UNAVAILABLE") (codes "database ping failed")
healthz (some true) = record { status = 200; body = health_ok }
