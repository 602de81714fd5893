-- ===== src/Psp/Breaker/Calls.antt =====
-- Charge of CircuitBreakerAdapter, internal/psp/circuit_breaker.go, over what gobreaker documents.
use pay_flow_mock.Prelude.{Bool-cases, ◌≡◌, refl, ◌⊎◌, inl, inr, true, false, some}
use pay_flow_mock.Errors.{Error, open_state, too_many_requests, as_psp_error, err}
use pay_flow_mock.Psp.{ChargeRequest, ChargeResponse, RefundResponse, PspAdapter, is_retryable_psp}
use pay_flow_mock.Psp.Breaker.{
  retryable_outcome, is_open_state, is_too_many_requests, classify_outcome, error_of, Execute,
  IsBreaker, breaker_charge,
}
use pay_flow_mock.Retry.{is_deadline_exceeded, is_network_error, is_retryable}

module _ {W : Type 0} (execute_charge : Execute W ChargeResponse)
    (execute_refund : Execute W RefundResponse) (adapter : PspAdapter W)
    (b : IsBreaker execute_charge) where
  pub breaker_charge-runs :
      (req : ChargeRequest) (w : W)
      → b.accepts w ≡ true
      → breaker_charge execute_charge execute_refund adapter req w ≡ (
        (adapter.charge req (b.enter w)).0,
        classify_outcome (error_of (adapter.charge req (b.enter w)).0),
        b.leave (error_of (adapter.charge req (b.enter w)).0) (adapter.charge req (b.enter w)).1,
      )
  unfolding breaker_charge
  breaker_charge-runs req w accepted = rw (b.runs (adapter.charge req) w accepted) refl

  refusal-classes :
      (e : Error)
      → (e ≡ open_state) ⊎ (e ≡ too_many_requests)
      → (classify_outcome (some e) ≡ retryable_outcome) × (is_retryable (some e) ≡ false)
  unfolding classify_outcome is_retryable_psp is_retryable as_psp_error is_open_state
      is_too_many_requests is_deadline_exceeded is_network_error
  refusal-classes e (inl open_now) = rw open_now (refl, refl)
  refusal-classes e (inr crowded) = rw crowded (refl, refl)

  -- A charge through the breaker is one of two: one call of the provider, whose answer comes back
  -- under the label of that answer; or, with no call, a refusal, which is labelled as retryable and
  -- which the retry loop does not try again.
  pub breaker_charge-calls :
      (req : ChargeRequest) (w : W)
      → ((b.accepts w ≡ true)
          × (breaker_charge execute_charge execute_refund adapter req w ≡ (
            (adapter.charge req (b.enter w)).0,
            classify_outcome (error_of (adapter.charge req (b.enter w)).0),
            b.leave
                (error_of (adapter.charge req (b.enter w)).0)
                (adapter.charge req (b.enter w)).1,
          )))
        ⊎ ((b.accepts w ≡ false)
            × (breaker_charge execute_charge execute_refund adapter req w
                ≡ (err (b.refusal w), retryable_outcome, b.turn_away w))
            × (is_retryable (some (b.refusal w)) ≡ false))
  unfolding breaker_charge
  breaker_charge-calls req w = elim (Bool-cases (b.accepts w)) [
    | inl accepted ↦ inl (accepted, breaker_charge-runs req w accepted)
    | inr refused ↦
        let (label, final) = refusal-classes (b.refusal w) (b.refusal_known w) in
        inr (refused, rw (b.stops (adapter.charge req) w refused, label) refl, final)
  ]
