-- ===== src/Errors.antt =====
-- The error values of the program. internal/repository/errors.go and ErrValidation are the
-- sentinels, with what a `%w` adds to them as a detail; other wraps keep a label and the cause.
use pay_flow_mock.Prelude.{
  if◌then◌else◌, Text, ◌≡◌, refl, ◌⊎◌, inl, inr, Bool, true, false, Option, none, some,
}
use pay_flow_mock.Domain.{Status}

pub data Sentinel : Type 0 where
  repository_not_configured invalid_payment invalid_amount invalid_idempotency_key : Sentinel
  not_found conflict status_mismatch invalid_status_transition : Sentinel
  validation : Sentinel

pub data Detail : Type 0 where
  bare : Detail
  is_nil id_required merchant_id_required key_required key_too_long : Detail
  amount_not_positive amount_not_int64 amount_exceeds_payment : Detail
  currency_not_three_letters unsupported_currency currency_mismatch : Detail
  status_not_new unknown_status payment_id_mismatch : Detail
  not_refundable : Status → Detail
  current_expected : Status → Status → Detail
  cannot_go : Status → Status → Detail

-- psp.Error of internal/psp/adapter.go.
pub record PspError : Type 0 where
  pub code : Text
  pub message : Text
  pub retryable : Bool

-- What Postgres or the driver answers.
pub data DriverError : Type 0 where
  no_rows unique_violation foreign_key_violation unavailable : DriverError

pub data Label : Type 0 where
  insert_payment load_by_id load_by_key update_status : Label
  update_status_with_psp update_failed insert_refund update_refunded begin_tx commit : Label
  resolve_row new_event_id generate_payment_id max_retries_exceeded concurrent_update : Label

pub data Error : Type 0 where
  sentinel : Sentinel → Detail → Error
  psp_error : PspError → Error
  driver : DriverError → Error
  deadline_exceeded canceled network_error open_state too_many_requests : Error
  no_route nil_router event_id_required event_not_found : Error
  stale_after_not_positive service_not_configured id_source_failed : Error
  unknown_adapter : Text → Error
  wrapped : Label → Error → Error
  without_cause : Label → Error  -- a `%w` of the nil error

-- Go's `==` on the sentinels, which are distinct pointers.
unfoldable pub sentinel_eq : Sentinel → Sentinel → Bool
sentinel_eq repository_not_configured repository_not_configured = true
sentinel_eq invalid_payment invalid_payment = true
sentinel_eq invalid_amount invalid_amount = true
sentinel_eq invalid_idempotency_key invalid_idempotency_key = true
sentinel_eq not_found not_found = true
sentinel_eq conflict conflict = true
sentinel_eq status_mismatch status_mismatch = true
sentinel_eq invalid_status_transition invalid_status_transition = true
sentinel_eq validation validation = true
sentinel_eq _ _ = false

-- errors.Is(err, sentinel): the chain of wrapped errors holds it.
unfoldable pub is_error : Sentinel → Error → Bool
unfolding sentinel_eq
is_error s (sentinel t d) = sentinel_eq s t
is_error s (wrapped l e) = is_error s e
is_error s _ = false

-- errors.As(err, &pe) for *psp.Error.
unfoldable pub as_psp_error : Error → Option PspError
as_psp_error (psp_error p) = some p
as_psp_error (wrapped l e) = as_psp_error e
as_psp_error _ = none

-- A result beside an error, of which Go returns one.
pub data Result (A : Type 0) : Type 0 where
  ok : A → Result A
  err : Error → Result A

-- `if test { return e }`
abbrev pub fail_if : Bool → Error → Result (Unit {0})
fail_if test e = if test then err e else ok tt

module _ {A B : Type 0} where
  infixl 5 ◌>>=◌
  -- `if err != nil { return err }` between a call and the rest.
  abbrev pub ◌>>=◌ : Result A → (A → Result B) → Result B
  ok value >>= rest = rest value
  err e >>= rest = err e

  -- A chain that went well: its first call did, and so did the rest.
  pub >>=-eq-ok :
      (call : Result A) (rest : A → Result B) {b : B}
      → (call >>= rest) ≡ ok b
      → (value : A) × (call ≡ ok value) × (rest value ≡ ok b)
  >>=-eq-ok (err e) rest h = cc
  >>=-eq-ok (ok value) rest h = (value, refl, h)

pub Result-cases :
    {A : Type 0} (call : Result A)
    → ((value : A) × (call ≡ ok value)) ⊎ ((e : Error) × (call ≡ err e))
Result-cases (ok value) = inl (value, refl)
Result-cases (err e) = inr (e, refl)

infixl 5 ◌>>◌
abbrev pub ◌>>◌ : {B : Type 0} → Result (Unit {0}) → Result B → Result B
first >> rest = first >>= λ _. rest
