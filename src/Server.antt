-- ===== src/Server.antt =====
-- The parts as main of cmd/server/main.go puts them together: the mocks with their default settings,
-- each behind its own breaker, under the default router, and the service over them.
pub mod Live
pub mod Boot
pub mod Routes
mod Tests
use pay_flow_mock.Prelude.{Option, some}
use pay_flow_mock.Floats.{Float64}
use pay_flow_mock.Psp.{ChargeResponse, RefundResponse, PspAdapter}
use pay_flow_mock.Psp.Chance.{Chance}
use pay_flow_mock.Psp.Mock.{default_mock_config, new_stripe_mock, new_razorpay_mock}
use pay_flow_mock.Psp.Breaker.{Execute, IsBreaker, new_circuit_breaker_adapter}
use pay_flow_mock.Psp.Router.{Router, default_router}
use pay_flow_mock.Repository.Payments.{PaymentRepo}
use pay_flow_mock.Service.{PaymentService, new_payment_service}

-- What gobreaker gives to one adapter.
pub record Breakers (X : Type 0) : Type 0 where
  pub execute_charge : Execute X ChargeResponse
  pub execute_refund : Execute X RefundResponse
  pub laws : IsBreaker execute_charge

module _ {X : Type 0} (ch : Chance X) (of_stripe of_razorpay : Breakers X) where
  unfoldable pub stripe_adapter : PspAdapter X
  unfolding new_circuit_breaker_adapter new_stripe_mock
  stripe_adapter =
      new_circuit_breaker_adapter of_stripe.execute_charge of_stripe.execute_refund
        (new_stripe_mock ch (default_mock_config ch))

  unfoldable pub razorpay_adapter : PspAdapter X
  unfolding new_circuit_breaker_adapter new_razorpay_mock
  razorpay_adapter =
      new_circuit_breaker_adapter of_razorpay.execute_charge of_razorpay.execute_refund
        (new_razorpay_mock ch (default_mock_config ch))

  unfoldable pub server_router : Router (PspAdapter X)
  unfolding stripe_adapter razorpay_adapter
  server_router = default_router (λ (a : PspAdapter X). a.name) stripe_adapter razorpay_adapter

  unfoldable pub server_service : (fl : Float64) → PaymentRepo → Option (PaymentService fl X)
  unfolding new_payment_service server_router
  server_service fl repo = new_payment_service fl (some repo) (some server_router)
