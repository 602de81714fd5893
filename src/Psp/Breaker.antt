-- ===== src/Psp/Breaker.antt =====
-- internal/psp/circuit_breaker.go: an adapter behind a circuit breaker. gobreaker is not in the
-- repository: its Execute is a parameter. Spans, logs and latencies are not modelled; the outcome
-- label that Charge and Refund count is returned beside the result.
pub mod Calls
use pay_flow_mock.Prelude.{
  leb, if◌then◌else◌, ℤ, pos, negsuc, ℕ, ◌≡◌, ◌⊎◌, Bool, true, false, ◌||◌, Option, none, some,
}
use pay_flow_mock.Errors.{Error, open_state, too_many_requests, wrapped, Result, ok, err}
use pay_flow_mock.Psp.{
  ChargeRequest, ChargeResponse, RefundRequest, RefundResponse, PspAdapter, is_retryable_psp,
}

-- The labels of psp_attempts_total and psp_retry_attempts_total.
pub data Outcome : Type 0 where
  success_outcome retryable_outcome nonretryable_outcome : Outcome

-- errors.Is(err, gobreaker.ErrOpenState) and errors.Is(err, gobreaker.ErrTooManyRequests)
unfoldable pub is_open_state : Error → Bool
is_open_state open_state = true
is_open_state (wrapped l e) = is_open_state e
is_open_state _ = false

unfoldable pub is_too_many_requests : Error → Bool
is_too_many_requests too_many_requests = true
is_too_many_requests (wrapped l e) = is_too_many_requests e
is_too_many_requests _ = false

-- `none` is the nil error.
unfoldable pub classify_outcome : Option Error → Outcome
unfolding is_open_state is_too_many_requests
classify_outcome none = success_outcome
classify_outcome (some e) =
    if is_retryable_psp e || (is_open_state e || is_too_many_requests e)
    then retryable_outcome
    else nonretryable_outcome

-- gobreaker.State, with a number for any value but the three.
pub data BreakerState : Type 0 where
  closed half_open open_breaker : BreakerState
  unknown_state : ℕ → BreakerState

unfoldable pub circuit_state_value : BreakerState → ℤ
circuit_state_value closed = pos 0
circuit_state_value half_open = pos 1
circuit_state_value open_breaker = pos 2
circuit_state_value (unknown_state n) = negsuc 0

-- ReadyToTrip, on counts.ConsecutiveFailures.
unfoldable pub ready_to_trip : ℕ → Bool
ready_to_trip consecutive_failures = leb 5 consecutive_failures

abbrev pub error_of : {A : Type 0} → Result A → Option Error
error_of (ok a) = none
error_of (err e) = some e

-- (*CircuitBreaker).Execute, at the types of a charge and of a refund.
abbrev pub Execute : Type 0 → Type 0 → Type 0
Execute W A = (W → Result A × W) → W → Result A × W

-- What gobreaker documents of Execute: it runs a request that it accepts, once, and returns what that
-- returns; it refuses any other with ErrOpenState or ErrTooManyRequests, and does not run it.
pub record IsBreaker {W A : Type 0} (execute : Execute W A) : Type 0 where
  pub accepts : W → Bool
  pub enter : W → W  -- the request is counted
  pub leave : Option Error → W → W  -- so is its end
  pub refusal : W → Error
  pub turn_away : W → W
  pub runs :
      (op : W → Result A × W) (w : W)
      → accepts w ≡ true
      → execute op w ≡ (let (result, w') = op (enter w) in (result, leave (error_of result) w'))
  pub stops :
      (op : W → Result A × W) (w : W)
      → accepts w ≡ false
      → execute op w ≡ (err (refusal w), turn_away w)
  pub refusal_known : (w : W) → (refusal w ≡ open_state) ⊎ (refusal w ≡ too_many_requests)

module _ {W : Type 0} (execute_charge : Execute W ChargeResponse)
    (execute_refund : Execute W RefundResponse) (adapter : PspAdapter W) where
  -- (*CircuitBreakerAdapter).Charge
  unfoldable pub breaker_charge : ChargeRequest → W → Result ChargeResponse × Outcome × W
  unfolding classify_outcome
  breaker_charge req w =
      let (result, w') = execute_charge (adapter.charge req) w in
      (result, classify_outcome (error_of result), w')

  -- (*CircuitBreakerAdapter).Refund
  unfoldable pub breaker_refund : RefundRequest → W → Result RefundResponse × Outcome × W
  unfolding classify_outcome
  breaker_refund req w =
      let (result, w') = execute_refund (adapter.refund req) w in
      (result, classify_outcome (error_of result), w')

  -- NewCircuitBreakerAdapter: the wrapped adapter under its own name. What it counts is dropped.
  unfoldable pub new_circuit_breaker_adapter : PspAdapter W
  unfolding breaker_charge breaker_refund
  new_circuit_breaker_adapter = record {
    name = adapter.name;
    charge = λ req w. let (result, _, w') = breaker_charge req w in (result, w');
    refund = λ req w. let (result, _, w') = breaker_refund req w in (result, w');
  }
