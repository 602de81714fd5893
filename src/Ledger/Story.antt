-- ===== src/Ledger/Story.antt =====
-- The story of one payment: its row, the events that were written for it and its refunds, all three
-- of which have to agree.
use pay_flow_mock.Prelude.{
  ◌==◌, if◌then◌else◌, ℤ, pos, ◌≤ℤ◌, ◌<ℤ◌, ℕ, ◌≡◌, Option, none, some, List, [], ◌∷◌,
}
use pay_flow_mock.Domain.{Status, success, failed, refunded, other}
use pay_flow_mock.Domain.Outbox.{
  EventType, payment_success, payment_failed, payment_refunded, OutboxEvent,
}
use pay_flow_mock.Repository.{PaymentRow, RefundRow, Db, find_payment}
use pay_flow_mock.Repository.Payments.Store.{IsSound}

-- The kinds of the events of a payment, the latest first.
unfoldable pub events_of : ℕ → List OutboxEvent → List EventType
events_of i [] = []
events_of i (e ∷ events) =
    let rest = events_of i events in if e.payment_id == i then e.event_type ∷ rest else rest

-- The amounts of the refunds of a payment, the latest first.
unfoldable pub refunds_of : ℕ → List RefundRow → List ℤ
refunds_of i [] = []
refunds_of i (f ∷ refunds) =
    let rest = refunds_of i refunds in if f.payment_id == i then f.amount ∷ rest else rest

-- One event for each end that a payment has come to.
abbrev pub expected_events : Status → List EventType
expected_events success = payment_success ∷ []
expected_events failed = payment_failed ∷ []
expected_events refunded = payment_refunded ∷ payment_success ∷ []
expected_events _ = []

-- A refunded payment has one refund, of more than 0 and at most the payment; another has none.
abbrev pub IsSettled : Status → ℤ → List ℤ → Type 0
IsSettled refunded amount refunds = (x : ℤ) × (refunds ≡ x ∷ []) × (pos 0 <ℤ x) × (x ≤ℤ amount)
IsSettled _ amount refunds = refunds ≡ []

-- The statuses that a stored payment can have.
abbrev pub IsProper : Status → Type 0
IsProper (other s) = ⊥
IsProper _ = Unit

pub record Told (row : PaymentRow) (events : List EventType) (refunds : List ℤ) : Type 0 where
  pub sound : IsSound row
  pub proper : IsProper row.status
  pub announced : events ≡ expected_events row.status
  pub settled : IsSettled row.status row.amount refunds

abbrev pub Story : Option PaymentRow → List EventType → List ℤ → Type 0
Story none events refunds = (events ≡ []) × (refunds ≡ [])
Story (some row) events refunds = Told row events refunds

-- Every payment's story is told, also that of an id with no payment.
pub record IsConsistent (db : Db) : Type 0 where
  pub stories :
      (i : ℕ) → Story (find_payment i db.payments) (events_of i db.outbox) (refunds_of i db.refunds)
