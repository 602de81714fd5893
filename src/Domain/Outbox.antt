-- ===== src/Domain/Outbox.antt =====
-- internal/domain/outbox.go, with the webhook's payload of internal/repository/payment_repo.go.
-- The payload is kept as the value that is encoded; its JSON text is not modelled.
use pay_flow_mock.Prelude.{ℤ, Text, ℕ, ◌≡◌, ◌↔◌, Bool, true, false, Option, arith}
use pay_flow_mock.Domain.{Status}

-- `unset` is the empty text, which EnqueueTx replaces.
pub data OutboxStatus : Type 0 where
  unset pending processing delivered dead : OutboxStatus

pub data EventType : Type 0 where
  payment_success payment_failed payment_refunded : EventType

pub record OutboxWebhookData : Type 0 where
  pub payment_id : ℕ
  pub merchant_id : ℕ
  pub amount : ℤ
  pub currency : Text
  pub status : Status
  pub psp : Text
  pub psp_reference_id : Text
  pub failure_reason : Text
  pub refund : Option (ℕ × ℤ)  -- refund_id and refund_amount, left out where there is no refund

pub record OutboxWebhookEnvelope : Type 0 where
  pub id : ℕ
  pub event_type : EventType
  pub created_at : ℕ
  pub body : OutboxWebhookData

-- A nullable column is the empty text or the zero time, as scanOutboxEvent reads it.
pub record OutboxEvent : Type 0 where
  pub id : ℕ
  pub payment_id : ℕ
  pub merchant_id : ℕ
  pub event_type : EventType
  pub webhook_url : Text
  pub payload : OutboxWebhookEnvelope
  pub status : OutboxStatus
  pub last_error : Text
  pub attempt_count : ℕ
  pub next_retry_at : ℕ
  pub delivered_at : ℕ
  pub created_at : ℕ
  pub updated_at : ℕ

-- Go's `==` on the statuses of an event.
unfoldable pub outbox_status_eq : OutboxStatus → OutboxStatus → Bool
outbox_status_eq unset unset = true
outbox_status_eq pending pending = true
outbox_status_eq processing processing = true
outbox_status_eq delivered delivered = true
outbox_status_eq dead dead = true
outbox_status_eq _ _ = false

pub outbox_status_eq_iff : (s t : OutboxStatus) → (outbox_status_eq s t ≡ true) ↔ (s ≡ t)
unfolding outbox_status_eq
outbox_status_eq_iff unset unset = ground arith
outbox_status_eq_iff _ _ = ground arith
