-- ===== src/Service/Validated.antt =====
-- What the service's validation spares the repository and the router.
use pay_flow_mock.Prelude.{
  Text, trim_space, to_upper-trim_space, to_upper_idem, trim_space_idem, ℕ, ◌≡◌, ◌≢◌, some, arith,
}
use pay_flow_mock.Domain.{nil_id, CreatePaymentRequest, is_known_status}
use pay_flow_mock.Errors.{ok}
use pay_flow_mock.Repository.Payments.{new_status, validate_payment_for_create}
use pay_flow_mock.Psp.Router.{adapter_stripe_mock, adapter_razorpay_mock, select, default_router}
use pay_flow_mock.Psp.Router.Defaults.{planned, default_router_total}
use pay_flow_mock.Service.{validate_currency_and_key, validate_create_payment_request}
use pay_flow_mock.Service.Payments.{new_payment}

-- A request that the service lets through is in the form that the repository wants: under any id
-- but the nil one, its payment passes the repository's validation and comes back unchanged.
pub validate-agrees :
    (req : CreatePaymentRequest) (id : ℕ)
    → validate_create_payment_request (some req) ≡ ok tt
    → id ≢ nil_id
    → validate_payment_for_create (some (new_payment req id)) ≡ ok (new_payment req id)
unfolding validate_create_payment_request validate_currency_and_key validate_payment_for_create
    new_payment new_status is_known_status
validate-agrees req id valid has_id = ground (
  arith,
  trim_space_idem req.idempotency_key,
  trim_space_idem req.currency,
  to_upper-trim_space req.currency,
  to_upper-trim_space (trim_space req.currency),
  to_upper_idem (trim_space req.currency),
)

-- With the default router, its adapters under the names of the bundled mocks, no request that the
-- service lets through is without a route: INR goes to Razorpay and the rest to Stripe.
pub validated-routed :
    {A : Type 0} (name : A → Text) (stripe razorpay : A) (req : CreatePaymentRequest) (id : ℕ)
    → name stripe ≡ adapter_stripe_mock
    → name razorpay ≡ adapter_razorpay_mock
    → validate_create_payment_request (some req) ≡ ok tt
    → select
        (some (default_router name stripe razorpay))
        (new_payment req id).currency
        (new_payment req id).amount
      ≡ ok (planned stripe razorpay (new_payment req id).currency)
unfolding validate_create_payment_request validate_currency_and_key new_payment
validated-routed name stripe razorpay req id es er valid =
    default_router_total name stripe razorpay (new_payment req id).currency req.amount es er
      (ground (arith, to_upper-trim_space req.currency)) (ground arith) (ground arith)
