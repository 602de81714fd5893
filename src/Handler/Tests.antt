-- ===== src/Handler/Tests.antt =====
-- Answers of the HTTP routes.
use pay_flow_mock.Prelude.{Text, ℕ, ◌≡◌, ap, ◌↔◌, false, Option, some, []}
use pay_flow_mock.Domain.{CreatePaymentResponse}
use pay_flow_mock.Errors.{Label, Error, network_error, wrapped}
use pay_flow_mock.Ledger.{empty_db}
use pay_flow_mock.Ledger.Order.{repo}
use pay_flow_mock.Service.Answers.{Stored}
use pay_flow_mock.Service.Tests.{outside, router, retry_config, request, serves}
use pay_flow_mock.Handler.{
  PaymentServiceApi, payment_service_api, created_body, map_service_error, respond, handle_create,
}
use pay_flow_mock.Handler.Answered.{is_callers, map_service_error-class, created-truthful}

abbrev no_text : Error → Text
no_text e = []

map_service_error-class_example :
    (((map_service_error no_text network_error).status ≡ 500) ↔ (is_callers network_error ≡ false))
    × ((l : Label)
        → (map_service_error no_text (wrapped l network_error)).status
          ≡ (map_service_error no_text network_error).status)
    × ((other_text : Error → Text)
        → is_callers network_error ≡ false
        → map_service_error no_text network_error ≡ map_service_error other_text network_error)
map_service_error-class_example = map_service_error-class no_text network_error

abbrev api : Option (PaymentServiceApi ℕ)
api = some (
    payment_service_api outside
      (some (record { repo = some repo; router = some router; retry_cfg = retry_config })))

answered_201 : (handle_create no_text api (some request) (empty_db, 1)).0.status ≡ 201
unfolding handle_create
answered_201 =
    ap
      (λ o.
        (respond no_text (λ resp. record { status = 201; body = created_body resp }) o).0.status)
      serves

created-truthful_example :
    (resp : CreatePaymentResponse) × ((handle_create no_text api
        (some request)
        (empty_db, 1)).0.body
      ≡ created_body resp)
    × Stored resp (handle_create no_text api (some request) (empty_db, 1)).1.0
created-truthful_example =
    created-truthful outside repo (some router) retry_config no_text (some request) (empty_db, 1)
      answered_201
