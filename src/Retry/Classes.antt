-- ===== src/Retry/Classes.antt =====
-- Two views of one error: what the retry loop tries again, and what the breaker's adapter counts
-- as retryable.
use pay_flow_mock.Prelude.{◌≡◌, refl, ◌↔◌, ◌⊎◌, inl, inr, Bool, true, false, some, arith}
use pay_flow_mock.Errors.{
  Error, sentinel, psp_error, driver, deadline_exceeded, network_error, open_state,
  too_many_requests, unknown_adapter, wrapped, without_cause, as_psp_error,
}
use pay_flow_mock.Psp.Breaker.{Outcome, retryable_outcome, classify_outcome}
use pay_flow_mock.Psp.{is_retryable_psp}
use pay_flow_mock.Retry.{is_retryable}

abbrev pub is_counted_retryable : Outcome → Bool
is_counted_retryable retryable_outcome = true
is_counted_retryable _ = false

-- The end of the chain of wrapped errors.
abbrev pub cause : Error → Error
cause (wrapped l e) = cause e
cause (sentinel s d) = sentinel s d
cause (psp_error p) = psp_error p
cause (driver d) = driver d
cause (unknown_adapter n) = unknown_adapter n
cause (without_cause l) = without_cause l
cause e = e

-- A refusal of the breaker, a deadline or a network failure.
abbrev pub IsInfrastructure : Error → Type 0
IsInfrastructure e =
    (e ≡ open_state) ⊎ (e ≡ too_many_requests) ⊎ (e ≡ deadline_exceeded) ⊎ (e ≡ network_error)

-- The two agree on an error exactly if its cause is no refusal of the breaker, no deadline and no
-- network failure.
pub is_retryable-eq-counted :
    (e : Error)
    → (is_retryable (some e) ≡ is_counted_retryable (classify_outcome (some e)))
      ↔ (¬ IsInfrastructure (cause e))
unfolding is_retryable classify_outcome is_retryable_psp as_psp_error
is_retryable-eq-counted (wrapped l e) = is_retryable-eq-counted e
is_retryable-eq-counted open_state = (λ h. cc, λ h. absurd (h (inl refl)))
is_retryable-eq-counted too_many_requests = (λ h. cc, λ h. absurd (h (inr (inl refl))))
is_retryable-eq-counted deadline_exceeded = (λ h. cc, λ h. absurd (h (inr (inr (inl refl)))))
is_retryable-eq-counted network_error = (λ h. cc, λ h. absurd (h (inr (inr (inr refl)))))
is_retryable-eq-counted (psp_error p) = ground arith
is_retryable-eq-counted _ = ground arith
