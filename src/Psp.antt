-- ===== src/Psp.antt =====
-- internal/psp/adapter.go: the types of a payment provider, and its errors. RawResponse, the JSON
-- that a provider answers, is not modelled. `W` is the state of the world outside the process.
pub mod Router
pub mod Breaker
pub mod Chance
pub mod Brands
pub mod Mock
mod Tests
use pay_flow_mock.Prelude.{
  if◌then◌else◌, ℤ, Text, codes, is_empty, ℕ, Bool, false, Option, none, some, ◌++◌,
}
use pay_flow_mock.Errors.{PspError, Error, network_error, as_psp_error, Result}

pub data ChargeStatus : Type 0 where
  authorized captured declined charge_error : ChargeStatus
  other_charge_status : Text → ChargeStatus

pub data RefundStatus : Type 0 where
  refund_pending refund_succeeded refund_failed : RefundStatus
  other_refund_status : Text → RefundStatus

pub record ChargeRequest : Type 0 where
  pub payment_id : ℕ
  pub amount : ℤ
  pub currency : Text
  pub idempotency_key : Text

pub record ChargeResponse : Type 0 where
  pub psp_reference_id : Text
  pub status : ChargeStatus

pub record RefundRequest : Type 0 where
  pub payment_id : ℕ
  pub psp_reference_id : Text
  pub amount : ℤ
  pub currency : Text
  pub idempotency_key : Text

pub record RefundResponse : Type 0 where
  pub psp_refund_id : Text
  pub status : RefundStatus

-- The interface PSPAdapter.
pub record PspAdapter (W : Type 0) : Type 0 where
  pub name : Text
  pub charge : ChargeRequest → W → Result ChargeResponse × W
  pub refund : RefundRequest → W → Result RefundResponse × W

abbrev pub code_card_declined : Text
code_card_declined = codes "card_declined"

abbrev pub code_insufficient_funds : Text
code_insufficient_funds = codes "insufficient_funds"

abbrev pub code_invalid_request : Text
code_invalid_request = codes "invalid_request"

abbrev pub code_network_error : Text
code_network_error = codes "network_error"

abbrev pub code_rate_limited : Text
code_rate_limited = codes "rate_limited"

abbrev pub code_service_unavailable : Text
code_service_unavailable = codes "service_unavailable"

-- NewError
unfoldable pub new_error : Text → Text → Bool → PspError
new_error code message retryable = record { code = code; message = message; retryable = retryable }

-- (*Error).Error, `none` for the nil pointer.
unfoldable pub psp_error_text : Option PspError → Text
psp_error_text none = codes "<nil>"
psp_error_text (some e) =
    if is_empty e.message
    then codes "psp: " ++ e.code
    else codes "psp: " ++ (e.code ++ (codes ": " ++ e.message))

-- psp.IsRetryable
unfoldable pub is_retryable_psp : Error → Bool
is_retryable_psp e = elim (as_psp_error e) [ some pe ↦ pe.retryable | none ↦ false ]
