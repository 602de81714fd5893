-- ===== src/Repository/Updates/RefundSuccess.antt =====
-- What RefundPaymentAtomic has written when it returned no error.
use pay_flow_mock.Prelude.{
  Option-cases, ℤ, pos, ◌<ℤ◌, Text, trim_space, ℕ, ◌≡◌, refl, sym, ap, subst, subst₂, ◌∙◌, inl, inr,
  none, ◌∷◌, arith,
}
use pay_flow_mock.Domain.{success, refunded}
use pay_flow_mock.Domain.Outbox.{payment_refunded, OutboxEvent}
use pay_flow_mock.Errors.{ok, >>=-eq-ok}
use pay_flow_mock.Repository.{
  PaymentRow, RefundRow, Db, Env, pg_now, update_payment_where, find_event,
}
use pay_flow_mock.Repository.Payments.{PaymentRepo, outbox_event, enqueue_outbox_payment_event_tx}
use pay_flow_mock.Repository.Updates.{run_tx}
use pay_flow_mock.Repository.Updates.Refunds.{
  insert_refund_row, or_refund_error, mark_refunded, refund_tx, refund_payment_atomic,
}
use pay_flow_mock.Repository.Updates.Atomic.{run_tx-ok}
use pay_flow_mock.Repository.Updates.Effects.{
  Changed, update_payment_where-ok, enqueue-ok, ok-injective,
}
use pay_flow_mock.Repository.Updates.Success.{with_status}
use pay_flow_mock.Repository.Outbox.{event_row}

-- What a refund has written: the refund's row, the payment's new status and the event.
pub record Refunded (r : PaymentRepo) (env : Env) (i : ℕ) (amount : ℤ) (before after : Db)
    (old : PaymentRow) (refund : RefundRow) : Type 0 where
  pub changed : Changed i success (with_status env refunded) before.payments after.payments old
  pub one_refund : after.refunds ≡ refund ∷ before.refunds
  pub of_payment : refund.payment_id ≡ i
  pub of_amount : refund.amount ≡ amount
  pub positive : pos 0 <ℤ amount
  pub event : OutboxEvent
  pub one_event : after.outbox ≡ event ∷ before.outbox
  pub new_event : find_event event.id before.outbox ≡ none
  pub event_payment : event.payment_id ≡ i
  pub event_kind : event.event_type ≡ payment_refunded

mark_refunded-ok :
    (env : Env) (i : ℕ) (db : Db) {row : PaymentRow} {after : Db}
    → mark_refunded env i db ≡ ok (row, after)
    → (old : PaymentRow) × Changed i success
        (with_status env refunded)
        db.payments
        after.payments
        old
      × (after ≡ record db { payments = after.payments })
unfolding mark_refunded
mark_refunded-ok env i db {row} {after} h =
    elim (Option-cases (update_payment_where i success (with_status env refunded) db.payments)) [
      | inl no_row ↦ absurd (ground arith)
      | inr ((new, rows), e) ↦
          let (old, same, changed) =
            update_payment_where-ok i success (with_status env refunded) db.payments e in
          let written : after ≡ record db { payments = rows } = ground arith in
          (
            old,
            subst (λ t. Changed i success (with_status env refunded) db.payments t old)
                (ap (λ d. d.payments) (sym written)) changed,
            ground arith,
          )
    ]

abbrev new_refund : Env → ℕ → ℤ → Text → RefundRow
new_refund env i amount key = record {
  id = env.random_uuid;
  payment_id = i;
  amount = amount;
  status = success;
  idempotency_key = key;
  created_at = pg_now env;
}

insert_refund_row-ok :
    (env : Env) (i : ℕ) (amount : ℤ) (key : Text) (db : Db) {id : ℕ} {after : Db}
    → or_refund_error (insert_refund_row env i amount key db) ≡ ok (id, after)
    → after ≡ record db { refunds = new_refund env i amount key ∷ db.refunds }
unfolding insert_refund_row
insert_refund_row-ok env i amount key db h = ground arith

Refunded-intro :
    (r : PaymentRepo) (env : Env) (i : ℕ) (amount : ℤ) (key : Text) (event : OutboxEvent)
    (db inserted marked after : Db) (old : PaymentRow)
    → pos 0 <ℤ amount
    → inserted ≡ record db { refunds = new_refund env i amount key ∷ db.refunds }
    → Changed i success (with_status env refunded) inserted.payments marked.payments old
    → marked ≡ record inserted { payments = marked.payments }
    → after ≡ record marked { outbox = event ∷ marked.outbox }
    → find_event event.id marked.outbox ≡ none
    → event.payment_id ≡ i
    → event.event_type ≡ payment_refunded
    → Refunded r env i amount db after old (new_refund env i amount key)
Refunded-intro r env i amount key event db inserted marked after old positive put changed kept
      written new id kind =
    record {
      changed =
          subst₂ (λ s t. Changed i success (with_status env refunded) s t old)
            (ap (λ d. d.payments) put) (ap (λ d. d.payments) (sym written)) changed;
      one_refund = ap (λ d. d.refunds) written ∙ ap (λ d. d.refunds) kept ∙ ap (λ d. d.refunds) put;
      of_payment = refl;
      of_amount = refl;
      positive = positive;
      event = event;
      one_event =
          ap (λ d. d.outbox) written
          ∙ ap (λ d. event ∷ d.outbox) kept
          ∙ ap (λ d. event ∷ d.outbox) put;
      new_event =
          sym (ap (λ d. find_event event.id d.outbox) put)
          ∙ sym (ap (λ d. find_event event.id d.outbox) kept)
          ∙ new;
      event_payment = id;
      event_kind = kind;
    }

refund_tx-ok :
    (r : PaymentRepo) (env : Env) (i : ℕ) (amount : ℤ) (key : Text) (db : Db) {id : ℕ} {after : Db}
    → pos 0 <ℤ amount
    → refund_tx r env i amount key db ≡ ok (id, after)
    → (old : PaymentRow) × (refund : RefundRow) × Refunded r env i amount db after old refund
unfolding refund_tx event_row outbox_event
refund_tx-ok r env i amount key db positive h =
    let ((refund_id, inserted), p, rest) =
      >>=-eq-ok (or_refund_error (insert_refund_row env i amount key db)) _ h in
    let ((row, marked), q, more) = >>=-eq-ok (mark_refunded env i inserted) _ rest in
    let (complete, s, done) = >>=-eq-ok (enqueue_outbox_payment_event_tx r env _ marked) _ more in
    let put = insert_refund_row-ok env i amount key db p in
    let (old, changed, kept) = mark_refunded-ok env i inserted q in
    let (event_id, made, new, written) = enqueue-ok r env _ marked s in
    (
      old,
      new_refund env i amount key,
      Refunded-intro r env i amount key _ db inserted marked _ old positive put changed kept
          (sym (ap (λ d. d.1) (ok-injective done)) ∙ written) new refl refl,
    )

pub refund_payment_atomic-ok :
    (r : PaymentRepo) (env : Env) (i : ℕ) (amount : ℤ) (key : Text) (db : Db) {id : ℕ} {after : Db}
    → refund_payment_atomic r env i amount key db ≡ (ok id, after)
    → (old : PaymentRow) × (refund : RefundRow) × Refunded r env i amount db after old refund
unfolding refund_payment_atomic
refund_payment_atomic-ok r env i amount key db {id} {after} h =
    let (positive, ran) : (pos 0 <ℤ amount)
        × (run_tx env db (refund_tx r env i amount (trim_space key)) ≡ (ok id, after)) =
      ground arith in
    refund_tx-ok r env i amount (trim_space key) db positive (run_tx-ok env db _ id ran)
