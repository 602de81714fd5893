-- ===== src/Service/Payments.antt =====
-- The methods of PaymentService, internal/service/payment_service.go.
use pay_flow_mock.Prelude.{
  ◌==◌, if◌then◌else◌, ltb_ℤ, is_int64, Text, codes, text_eq, trim_space, to_upper, ℕ, not, ◌&&◌,
  Option, none, some, [], ◌++◌,
}
use pay_flow_mock.Domain.{
  initiated, processing, success, failed, status_eq, nil_id, Payment, CreatePaymentRequest,
  CreatePaymentResponse, RefundRequest, RefundResponse,
}
use pay_flow_mock.Errors.{
  status_mismatch, id_required, amount_not_int64, amount_exceeds_payment, currency_mismatch,
  payment_id_mismatch, not_refundable, concurrent_update, Error, service_not_configured, wrapped,
  is_error, Result, ok, err, fail_if, ◌>>◌,
}
use pay_flow_mock.Repository.Payments.{PaymentRepo, create_payment, get_payment_by_id}
use pay_flow_mock.Repository.Updates.{
  update_payment_status, update_payment_status_with_psp, update_payment_failed,
}
use pay_flow_mock.Repository.Updates.Refunds.{refund_payment_atomic}
use pay_flow_mock.Psp.{
  ChargeStatus, authorized, captured, declined, charge_error, other_charge_status, ChargeRequest,
  ChargeResponse, PspAdapter,
}
use pay_flow_mock.Psp.Router.{Router, select}
use pay_flow_mock.Floats.{Float64}
use pay_flow_mock.Retry.{Config, do_with_observer}
use pay_flow_mock.Service.{
  create_call, start_call, finish_call, get_call, refund_call, State, Outside, PaymentService, Act,
  chain, pure, repo_call, generate_id, invalid, validate_create_payment_request,
  validate_refund_request, error_text, format_charge_failure_reason, charge_decline_reason,
}

-- The payment that CreatePayment builds.
unfoldable pub new_payment : CreatePaymentRequest → ℕ → Payment
new_payment req id = record {
  id = id;
  merchant_id = req.merchant_id;
  amount = req.amount;
  currency = to_upper (trim_space req.currency);
  status = initiated;
  idempotency_key = trim_space req.idempotency_key;
  psp = [];
  psp_reference_id = [];
  failure_reason = [];
  created_at = 0;
  updated_at = 0;
}

-- What RefundPayment checks of the stored payment.
unfoldable pub check_refundable : RefundRequest → Payment → Result (Unit {0})
check_refundable req p = do
  fail_if (not (status_eq p.status success)) (invalid (not_refundable p.status))
  fail_if (not (text_eq p.currency (to_upper (trim_space req.currency))))
      (invalid currency_mismatch)
  fail_if (ltb_ℤ p.amount req.amount) (invalid amount_exceeds_payment)
  fail_if (not (is_int64 req.amount)) (invalid amount_not_int64)

-- The error of RefundPaymentAtomic, with a label where the payment has left `success`.
unfoldable pub refund_error : Error → Error
refund_error e = if is_error status_mismatch e then wrapped concurrent_update e else e

abbrev pub label_refund_error : {A X : Type 0} → Result A × State X → Result A × State X
label_refund_error (ok a, s) = (ok a, s)
label_refund_error (err e, s) = (err (refund_error e), s)

module _ {fl : Float64} {X : Type 0} (out : Outside fl X) where
  -- UpdatePaymentFailed, and the answer that the payment has failed.
  unfoldable pub fail_with : PaymentRepo → ℕ → Text → Text → Text → Act X CreatePaymentResponse
  fail_with repo id psp_name psp_reference_id reason =
      chain
        (repo_call out finish_call
          (λ env. update_payment_failed repo env id processing psp_name psp_reference_id reason))
        (λ _. pure (ok (record { payment_id = id; status = failed })))

  -- UpdatePaymentStatusWithPSP, and the answer that the payment has succeeded.
  unfoldable pub succeed_with : PaymentRepo → ℕ → Text → Text → Act X CreatePaymentResponse
  succeed_with repo id psp_name psp_reference_id =
      chain
        (repo_call out finish_call (λ env.
          update_payment_status_with_psp repo env id processing success psp_name psp_reference_id))
        (λ _. pure (ok (record { payment_id = id; status = success })))

  -- The switch over the status of the provider's answer.
  unfoldable pub settle_status :
      PaymentRepo → ℕ → Text → ChargeResponse → ChargeStatus → Act X CreatePaymentResponse
  settle_status repo id psp_name resp captured = succeed_with repo id psp_name resp.psp_reference_id
  settle_status repo id psp_name resp authorized =
      succeed_with repo id psp_name resp.psp_reference_id
  settle_status repo id psp_name resp declined =
      fail_with repo id psp_name resp.psp_reference_id (charge_decline_reason (some resp))
  settle_status repo id psp_name resp charge_error =
      fail_with repo id psp_name resp.psp_reference_id (charge_decline_reason (some resp))
  settle_status repo id psp_name resp (other_charge_status s) =
      fail_with repo id psp_name resp.psp_reference_id (codes "unexpected_psp_status:" ++ s)

  -- What CreatePayment does with the end of the charge.
  unfoldable pub settle :
      PaymentRepo → ℕ → Text → Result ChargeResponse → Act X CreatePaymentResponse
  settle repo id psp_name (err e) =
      fail_with repo id psp_name [] (format_charge_failure_reason out.foreign_text e)
  settle repo id psp_name (ok resp) = settle_status repo id psp_name resp resp.status

  -- The charge with its retries; the tables wait.
  unfoldable pub charge_with_retries :
      PspAdapter X → Config fl.F → ChargeRequest → X → Result ChargeResponse × X
  charge_with_retries adapter config req x =
      let (result, observed, x') =
        do_with_observer fl (adapter.charge req) out.ctx_err out.wait out.fraction config x in
      (result, x')

  -- The request that goes to the provider.
  abbrev pub charge_request : Payment → ChargeRequest
  charge_request payment = record {
    payment_id = payment.id;
    amount = payment.amount;
    currency = payment.currency;
    idempotency_key = payment.idempotency_key;
  }

  -- CreatePayment from what the router answers on.
  unfoldable pub charge_routed :
      PaymentRepo → Config fl.F → Payment → Result (PspAdapter X) → Act X CreatePaymentResponse
  unfolding charge_with_retries
  charge_routed repo config payment (err e) s =
      fail_with repo payment.id [] [] (error_text out.foreign_text e) s
  charge_routed repo config payment (ok adapter) (db, x) =
      let (result, x') = charge_with_retries adapter config (charge_request payment) x in
      settle repo payment.id adapter.name result (db, x')

  abbrev pub route_and_charge :
      PaymentRepo → Router (PspAdapter X) → Config fl.F → Payment → Act X CreatePaymentResponse
  route_and_charge repo router config payment =
      charge_routed repo config payment (select (some router) payment.currency payment.amount)

  -- CreatePayment behind the check that the service is configured.
  unfoldable pub create_configured :
      PaymentRepo
      → Router (PspAdapter X)
      → Config fl.F
      → CreatePaymentRequest
      → Act X CreatePaymentResponse
  create_configured repo router config req =
      chain (pure (validate_create_payment_request (some req))) (λ _. chain (generate_id out) (λ id.
        chain
          (repo_call out create_call (λ env. create_payment repo env (some (new_payment req id))))
          (λ _.
            chain
              (repo_call out start_call
                (λ env. update_payment_status repo env id initiated processing))
              (λ _. route_and_charge repo router config (new_payment req id)))))

  -- CreatePayment. The repository normalizes the payment in place, to what it is already.
  unfoldable pub create_payment_service :
      Option (PaymentService fl X) → CreatePaymentRequest → Act X CreatePaymentResponse
  unfolding create_configured
  create_payment_service none req s = (err service_not_configured, s)
  create_payment_service (some service) req s = elim service.repo [
    | none ↦ (err service_not_configured, s)
    | some repo ↦ elim service.router [
      | none ↦ (err service_not_configured, s)
      | some router ↦ create_configured repo router service.retry_cfg req s
    ]
  ]

  -- GetPayment
  unfoldable pub get_payment_service : Option (PaymentService fl X) → ℕ → Act X Payment
  get_payment_service none id s = (err service_not_configured, s)
  get_payment_service (some service) id s = elim service.repo [
    | none ↦ (err service_not_configured, s)
    | some repo ↦
        if id == nil_id
        then (err (invalid id_required), s)
        else repo_call out get_call (λ env db. (get_payment_by_id repo env id db, db)) s
  ]

  -- RefundPayment from the load of the payment on.
  unfoldable pub refund_configured : PaymentRepo → ℕ → RefundRequest → Act X RefundResponse
  unfolding check_refundable refund_error
  refund_configured repo payment_id req =
      chain (repo_call out get_call (λ env db. (get_payment_by_id repo env payment_id db, db)))
        (λ p. chain (pure (check_refundable req p)) (λ _.
          chain
            (λ s. label_refund_error (
              repo_call out refund_call
                (λ env.
                  refund_payment_atomic repo env payment_id req.amount
                    (trim_space req.idempotency_key))
                s))
            (λ refund_id. pure (ok (record { refund_id = refund_id; status = success })))))

  -- RefundPayment
  unfoldable pub refund_payment_service :
      Option (PaymentService fl X) → ℕ → RefundRequest → Act X RefundResponse
  unfolding refund_configured
  refund_payment_service none payment_id req s = (err service_not_configured, s)
  refund_payment_service (some service) payment_id req s = elim service.repo [
    | none ↦ (err service_not_configured, s)
    | some repo ↦
        if payment_id == nil_id
        then (err (invalid id_required), s)
        else (if not (req.payment_id == nil_id) && not (req.payment_id == payment_id)
            then (err (invalid payment_id_mismatch), s)
            else chain (pure (validate_refund_request (some req)))
                (λ _. refund_configured repo payment_id req) s)
  ]
