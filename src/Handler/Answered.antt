-- ===== src/Handler/Answered.antt =====
-- The status codes against what the calls have done.
use pay_flow_mock.Prelude.{Text, ◌≡◌, refl, ◌≢◌, ◌↔◌, Bool, false, ◌||◌, Option, none, some, arith}
use pay_flow_mock.Domain.{CreatePaymentRequest, CreatePaymentResponse}
use pay_flow_mock.Errors.{
  invalid_payment, invalid_amount, invalid_idempotency_key, not_found, conflict, status_mismatch,
  invalid_status_transition, validation, Label, Error, wrapped, is_error, Result, ok, err,
}
use pay_flow_mock.Repository.Payments.{PaymentRepo}
use pay_flow_mock.Psp.{PspAdapter}
use pay_flow_mock.Psp.Router.{Router}
use pay_flow_mock.Floats.{Float64}
use pay_flow_mock.Retry.{Config}
use pay_flow_mock.Service.{State, Outside}
use pay_flow_mock.Service.Payments.{create_payment_service}
use pay_flow_mock.Service.Answers.{Stored, create-truthful}
use pay_flow_mock.Handler.{
  payment_service_api, created_body, HttpResponse, map_service_error, respond, handle_create,
}

-- The errors for which the caller is answerable: it can send something else, or wait.
abbrev pub is_callers : Error → Bool
is_callers e =
    is_error not_found e
    || is_error conflict e
    || is_error validation e
    || is_error invalid_payment e
    || is_error invalid_amount e
    || is_error invalid_idempotency_key e
    || is_error status_mismatch e
    || is_error invalid_status_transition e

-- A wrap changes no status code, and the code is 500 exactly for the errors that are not the
-- caller's; for them nothing of the error's text is told.
pub map_service_error-class :
    (text_of : Error → Text) (e : Error)
    → (((map_service_error text_of e).status ≡ 500) ↔ (is_callers e ≡ false))
      × ((l : Label)
          → (map_service_error text_of (wrapped l e)).status ≡ (map_service_error text_of e).status)
      × ((other_text : Error → Text)
          → is_callers e ≡ false
          → map_service_error text_of e ≡ map_service_error other_text e)
unfolding map_service_error is_error
map_service_error-class text_of e =
    (ground arith, (λ l. ground arith), (λ other_text h. ground arith))

map_service_error-not_201 :
    (text_of : Error → Text) (e : Error) → (map_service_error text_of e).status ≢ 201
unfolding map_service_error
map_service_error-not_201 text_of e h = ground arith

abbrev write_created : CreatePaymentResponse → HttpResponse
write_created resp = record { status = 201; body = created_body resp }

respond-created :
    {X : Type 0} (text_of : Error → Text) (outcome : Result CreatePaymentResponse × State X)
    → ((resp : CreatePaymentResponse) (after : State X)
        → outcome ≡ (ok resp, after)
        → Stored resp after.0)
    → (respond text_of write_created outcome).0.status ≡ 201
    → (resp : CreatePaymentResponse) × ((respond text_of write_created outcome).0.body
        ≡ created_body resp)
      × Stored resp (respond text_of write_created outcome).1.0
respond-created text_of (ok resp, s) truthful h = (resp, refl, truthful resp s refl)
respond-created text_of (err e, s) truthful h = absurd (map_service_error-not_201 text_of e h)

module _ {fl : Float64} {X : Type 0} (out : Outside fl X) (r : PaymentRepo)
    (router : Option (Router (PspAdapter X))) (config : Config fl.F) (text_of : Error → Text) where
  -- A 201 from POST /v1/payments is for a payment that is stored in the status of the body, which is
  -- success or failed.
  pub created-truthful :
      (body : Option CreatePaymentRequest) (s : State X)
      → (handle_create text_of
          (some (
            payment_service_api out
              (some (record { repo = some r; router = router; retry_cfg = config }))))
          body
          s).0.status
        ≡ 201
      → (resp : CreatePaymentResponse) × ((handle_create text_of
            (some (
              payment_service_api out
                (some (record { repo = some r; router = router; retry_cfg = config }))))
            body
            s).0.body
          ≡ created_body resp)
        × Stored resp
            (handle_create text_of
              (some (
                payment_service_api out
                  (some (record { repo = some r; router = router; retry_cfg = config }))))
              body
              s).1.0
  unfolding handle_create
  created-truthful none s h = absurd (ground arith)
  created-truthful (some req) s h =
      respond-created text_of
        (create_payment_service out
          (some (record { repo = some r; router = router; retry_cfg = config })) req s)
        (λ resp after. create-truthful out r router config req s resp after) h
