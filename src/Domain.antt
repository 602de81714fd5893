-- ===== src/Domain.antt =====
-- internal/domain/payment.go: the payment's data and its status machine. A Status is a Go string;
-- `other` holds any text but those of the five constants, and `other []` is the empty one. An id
-- is a number with uuid.Nil as 0, a time a number of nanoseconds with the zero time as 0.
pub mod Lifecycle
pub mod Outbox
mod Tests
use pay_flow_mock.Prelude.{
  ℤ, Text, codes, text_eq, text_eq_iff, ℕ, ◌≡◌, refl, ◌↔◌, Bool, true, false, ◌||◌, arith,
}

pub data Status : Type 0 where
  initiated processing success failed refunded : Status
  other : Text → Status

-- Go's `==` on statuses.
unfoldable pub status_eq : Status → Status → Bool
status_eq initiated initiated = true
status_eq processing processing = true
status_eq success success = true
status_eq failed failed = true
status_eq refunded refunded = true
status_eq (other s) (other t) = text_eq s t
status_eq _ _ = false

pub status_eq_iff : (s t : Status) → (status_eq s t ≡ true) ↔ (s ≡ t)
unfolding status_eq
status_eq_iff (other s) (other t) = ground (arith, text_eq_iff s t)
status_eq_iff initiated initiated = ground arith
status_eq_iff _ _ = ground arith

pub status_eq_refl : (s : Status) → status_eq s s ≡ true
status_eq_refl s = (status_eq_iff s s).1 refl

abbrev pub nil_id : ℕ
nil_id = 0

pub record Payment : Type 0 where
  pub id : ℕ
  pub merchant_id : ℕ
  pub amount : ℤ
  pub currency : Text
  pub status : Status
  pub idempotency_key : Text
  pub psp : Text
  pub psp_reference_id : Text
  pub failure_reason : Text
  pub created_at : ℕ
  pub updated_at : ℕ

pub record CreatePaymentRequest : Type 0 where
  pub merchant_id : ℕ
  pub amount : ℤ
  pub currency : Text
  pub idempotency_key : Text

pub record CreatePaymentResponse : Type 0 where
  pub payment_id : ℕ
  pub status : Status

pub record RefundRequest : Type 0 where
  pub payment_id : ℕ
  pub amount : ℤ
  pub currency : Text
  pub idempotency_key : Text

pub record RefundResponse : Type 0 where
  pub refund_id : ℕ
  pub status : Status

abbrev pub currency_usd : Text
currency_usd = codes "USD"

abbrev pub currency_eur : Text
currency_eur = codes "EUR"

abbrev pub currency_gbp : Text
currency_gbp = codes "GBP"

abbrev pub currency_inr : Text
currency_inr = codes "INR"

-- The membership test in the map allowedCurrencies.
unfoldable pub valid_currency : Text → Bool
valid_currency c =
    text_eq c currency_usd
    || text_eq c currency_eur
    || text_eq c currency_gbp
    || text_eq c currency_inr

unfoldable pub is_known_status : Status → Bool
is_known_status (other s) = false
is_known_status _ = true

unfoldable pub valid_transition : Status → Status → Bool
valid_transition initiated to = status_eq to processing
valid_transition processing to = status_eq to success || status_eq to failed
valid_transition success to = status_eq to refunded
valid_transition failed to = false
valid_transition refunded to = false
valid_transition (other s) to = false
