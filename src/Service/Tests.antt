-- ===== src/Service/Tests.antt =====
-- The service over adapters that answer at once, with a clock as the state outside.
use pay_flow_mock.Prelude.{
  pos, Text, codes, text_eq, trim_space, to_upper, ℕ, ◌+◌, ◌≡◌, refl, none, some,
}
use pay_flow_mock.Domain.{
  success, status_eq, CreatePaymentRequest, CreatePaymentResponse, RefundRequest, valid_currency,
  is_known_status, valid_transition,
}
use pay_flow_mock.Errors.{network_error, Result, ok, err}
use pay_flow_mock.Floats.Halves.{halves}
use pay_flow_mock.Repository.{find_payment_by_key}
use pay_flow_mock.Repository.Payments.{
  str_or_nil, outbox_event, enqueue_outbox_payment_event_tx, new_status,
  validate_payment_for_create, payment_row, insert_payment_row, create_payment,
}
use pay_flow_mock.Repository.Updates.{
  run_tx, update_payment_status, update_returning, update_and_enqueue,
  update_payment_status_with_psp,
}
use pay_flow_mock.Repository.Outbox.{enqueue_tx}
use pay_flow_mock.Psp.{ChargeStatus, captured, declined, PspAdapter}
use pay_flow_mock.Psp.Router.{
  adapter_stripe_mock, adapter_razorpay_mock, Router, normalize, max_bound, any_currency,
  is_wildcard, find_adapter, select, default_router,
}
use pay_flow_mock.Psp.Router.Defaults.{planned}
use pay_flow_mock.Retry.{Config, default_config, do_with_observer}
use pay_flow_mock.Ledger.{empty_db}
use pay_flow_mock.Ledger.Order.{repo, calm}
use pay_flow_mock.Ledger.Runs.{done}
use pay_flow_mock.Service.{
  State, Outside, validate_currency_and_key, validate_create_payment_request,
}
use pay_flow_mock.Service.Payments.{
  new_payment, fail_with, succeed_with, settle_status, settle, charge_with_retries, charge_routed,
  create_configured, create_payment_service, refund_payment_service,
}
use pay_flow_mock.Service.Kept.{OthersStep, IsRun, create-IsRun}
use pay_flow_mock.Service.Refunded.{refund-IsRun}
use pay_flow_mock.Service.Answers.{Stored, create-truthful}
use pay_flow_mock.Service.Validated.{validate-agrees, validated-routed}

-- Each call of the repository takes ten ticks.
abbrev pub outside : Outside halves ℕ
outside = record {
  new_id = λ x. (some (x + 100), x);
  before = λ c s. (calm s.1, (s.0, s.1 + 10));
  ctx_err = λ x. none;
  wait = λ d x. (none, x + d);
  fraction = λ n x. 1;
  foreign_text = λ e. codes "error";
}

abbrev answering : Text → ChargeStatus → PspAdapter ℕ
answering name status = record {
  name = name;
  charge = λ req x. (ok (record { psp_reference_id = codes "ch_9"; status = status }), x + 1);
  refund = λ req x. (err network_error, x);
}

abbrev pub router : Router (PspAdapter ℕ)
router =
    default_router (λ (a : PspAdapter ℕ). a.name) (answering adapter_stripe_mock captured)
      (answering adapter_razorpay_mock declined)

abbrev pub retry_config : Config ℕ
retry_config = default_config halves

abbrev pub request : CreatePaymentRequest
request = record {
  merchant_id = 3;
  amount = pos 500;
  currency = codes "usd";
  idempotency_key = codes " k-1 ";
}

abbrev pub refund_request : RefundRequest
refund_request = record {
  payment_id = 0;
  amount = pos 200;
  currency = codes "usd";
  idempotency_key = codes "r-1";
}

pub nobody_else : OthersStep outside repo
nobody_else c s = done

create-IsRun_example : IsRun outside repo (
    create_payment_service outside
      (some (record { repo = some repo; router = some router; retry_cfg = retry_config }))
      request)
create-IsRun_example = create-IsRun outside repo nobody_else (some router) retry_config request

refund-IsRun_example : IsRun outside repo (
    refund_payment_service outside
      (some (record { repo = some repo; router = some router; retry_cfg = retry_config }))
      7
      refund_request)
refund-IsRun_example =
    refund-IsRun outside repo nobody_else (some router) retry_config 7 refund_request

unfoldable pub served : Result CreatePaymentResponse × State ℕ
unfolding create_payment_service create_configured charge_routed charge_with_retries settle
    settle_status succeed_with fail_with new_payment validate_create_payment_request
    validate_currency_and_key create_payment validate_payment_for_create insert_payment_row
    payment_row new_status valid_currency text_eq trim_space to_upper is_known_status
    find_payment_by_key str_or_nil update_payment_status valid_transition status_eq
    update_payment_status_with_psp update_and_enqueue run_tx update_returning
    enqueue_outbox_payment_event_tx enqueue_tx outbox_event do_with_observer select default_router
    find_adapter any_currency is_wildcard max_bound normalize default_config
served =
    create_payment_service outside
      (some (record { repo = some repo; router = some router; retry_cfg = retry_config })) request
      (empty_db, 1)

pub serves :
    create_payment_service outside
      (some (record { repo = some repo; router = some router; retry_cfg = retry_config }))
      request
      (empty_db, 1)
    ≡ (ok (record { payment_id = 101; status = success }), served.1)
unfolding served
serves = refl

create-truthful_example : Stored (record { payment_id = 101; status = success }) served.1.0
create-truthful_example =
    create-truthful outside repo (some router) retry_config request (empty_db, 1)
      (record { payment_id = 101; status = success }) served.1 serves

pub request_valid : validate_create_payment_request (some request) ≡ ok tt
unfolding validate_create_payment_request validate_currency_and_key valid_currency text_eq
    trim_space to_upper
request_valid = refl

validate-agrees_example :
    validate_payment_for_create (some (new_payment request 9)) ≡ ok (new_payment request 9)
validate-agrees_example = validate-agrees request 9 request_valid (λ e. cc)

validated-routed_example :
    select
      (some (default_router (λ (a : Text). a) adapter_stripe_mock adapter_razorpay_mock))
      (new_payment request 9).currency
      (new_payment request 9).amount
    ≡ ok (planned adapter_stripe_mock adapter_razorpay_mock (new_payment request 9).currency)
validated-routed_example =
    validated-routed (λ a. a) adapter_stripe_mock adapter_razorpay_mock request 9 refl refl
      request_valid
