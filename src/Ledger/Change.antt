-- ===== src/Ledger/Change.antt =====
-- The effect of one changed payment on all stories.
use pay_flow_mock.Prelude.{
  ◌==◌, if◌then◌else◌, ==_iff, Bool-cases, ℤ, ℕ, ◌≡◌, refl, sym, ap, subst, subst₂, ◌∙◌, inl, inr,
  some, List, [], ◌∷◌, ◌++◌, arith,
}
use pay_flow_mock.Domain.Outbox.{EventType, OutboxEvent}
use pay_flow_mock.Repository.Payments.Store.{IsSound}
use pay_flow_mock.Repository.{
  PaymentRow, RefundRow, Db, find_payment, put_payment, find_event, put_event, find_payment-put,
  find_payment-id,
}
use pay_flow_mock.Ledger.Story.{
  events_of, refunds_of, expected_events, IsSettled, IsProper, Told, IsConsistent,
}
use pay_flow_mock.Domain.{Status}

-- A table of stories, and one after which payment `i` has a new row, with `told` and `paid` added.
module _ (before after : Db) (i : ℕ) (new : PaymentRow) (told : List EventType) (paid : List ℤ)
    (rows : (j : ℕ)
      → find_payment j after.payments
        ≡ (if i == j then some new else find_payment j before.payments))
    (events : (j : ℕ)
      → events_of j after.outbox
        ≡ (if i == j then told ++ events_of j before.outbox else events_of j before.outbox))
    (refunds : (j : ℕ)
      → refunds_of j after.refunds ≡ (
          if i == j
          then paid ++ refunds_of j before.refunds
          else refunds_of j before.refunds)) where
  pub change-IsConsistent :
      Told new (told ++ events_of i before.outbox) (paid ++ refunds_of i before.refunds)
      → IsConsistent before
      → IsConsistent after
  change-IsConsistent next c = record {
    stories = λ j. elim (Bool-cases (i == j)) [
      | inr other_id ↦ rw (rows j, events j, refunds j, other_id) (c.stories j)
      | inl same ↦
          rw (rows j, events j, refunds j, same)
            (subst
              (λ k.
                Told new (told ++ events_of k before.outbox) (paid ++ refunds_of k before.refunds))
              ((==_iff i j).0 same) next)
    ];
  }

-- Events that keep their payment and their kind, in place.
abbrev pub SameTale : OutboxEvent → OutboxEvent → Type 0
SameTale e f = (f.payment_id ≡ e.payment_id) × (f.event_type ≡ e.event_type)

pub events_of-put :
    (j : ℕ) (event e : OutboxEvent) (events : List OutboxEvent)
    → find_event event.id events ≡ some e
    → SameTale e event
    → events_of j (put_event event events) ≡ events_of j events
unfolding events_of
events_of-put j event e [] found same = refl
events_of-put j event e (f ∷ events) found same = ground (arith, events_of-put j event e events)

pub events_of-cons :
    (j : ℕ) (e : OutboxEvent) (events : List OutboxEvent)
    → events_of j (e ∷ events)
      ≡ (if e.payment_id == j then e.event_type ∷ events_of j events else events_of j events)
unfolding events_of
events_of-cons j e events = refl

pub refunds_of-cons :
    (j : ℕ) (f : RefundRow) (refunds : List RefundRow)
    → refunds_of j (f ∷ refunds)
      ≡ (if f.payment_id == j then f.amount ∷ refunds_of j refunds else refunds_of j refunds)
unfolding refunds_of
refunds_of-cons j f refunds = refl

-- The put row is found in its place, where the table has one with its id.
pub find_payment-changed :
    (i : ℕ) (old new : PaymentRow) (rows : List PaymentRow) (j : ℕ)
    → find_payment i rows ≡ some old
    → new.id ≡ old.id
    → find_payment j (put_payment new rows) ≡ (if i == j then some new else find_payment j rows)
find_payment-changed i old new rows j found same =
    ground (arith, find_payment-put j new rows, find_payment-id i rows {r = old})

-- One event more, for payment `i`.
pub events_of-told :
    (j i : ℕ) (event : OutboxEvent) (before after : List OutboxEvent)
    → after ≡ event ∷ before
    → event.payment_id ≡ i
    → events_of j after
      ≡ (if i == j then event.event_type ∷ events_of j before else events_of j before)
events_of-told j i event before after more of_i =
    ap (events_of j) more
    ∙ events_of-cons j event before
    ∙ ap (λ k. if k == j then event.event_type ∷ events_of j before else events_of j before) of_i

-- Rows that differ in no field but the status, the PSP's fields, the reason and the times.
abbrev pub SameData : PaymentRow → PaymentRow → Type 0
SameData old new =
    (new.id ≡ old.id)
    × (new.merchant_id ≡ old.merchant_id)
    × (new.amount ≡ old.amount)
    × (new.currency ≡ old.currency)
    × (new.idempotency_key ≡ old.idempotency_key)

SameData-IsSound : (old new : PaymentRow) → SameData old new → IsSound old → IsSound new
SameData-IsSound old new (i, m, a, c, k) s = record {
  has_id = ground (arith, s.has_id);
  has_merchant = ground (arith, s.has_merchant);
  positive = rw a s.positive;
  fits = rw a s.fits;
  supported = rw c s.supported;
  key_given = ground (arith, s.key_given);
  key_short = rw k s.key_short;
}

module _ (old new : PaymentRow) (events told : List EventType) (refunds paid : List ℤ)
    (t : Told old events refunds) (same : SameData old new) where
  -- The story goes on with a new status.
  pub retell :
      (from to : Status)
      → old.status ≡ from
      → new.status ≡ to
      → IsProper to
      → (events ≡ expected_events from → told ++ events ≡ expected_events to)
      → (IsSettled from old.amount refunds → IsSettled to old.amount (paid ++ refunds))
      → Told new (told ++ events) (paid ++ refunds)
  retell from to was is proper tells settles = record {
    sound = SameData-IsSound old new same t.sound;
    proper = subst IsProper (sym is) proper;
    announced =
        subst (λ s. told ++ events ≡ expected_events s) (sym is)
          (tells (subst (λ s. events ≡ expected_events s) was t.announced));
    settled =
        subst₂ (λ s a. IsSettled s a (paid ++ refunds)) (sym is) (sym same.2)
          (settles (subst (λ s. IsSettled s old.amount refunds) was t.settled));
  }
