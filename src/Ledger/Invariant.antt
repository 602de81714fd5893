-- ===== src/Ledger/Invariant.antt =====
-- Every step keeps all stories told.
use pay_flow_mock.Prelude.{
  ◌==◌, if◌then◌else◌, if_same, some_inj, ℤ, ◌≤ℤ◌, Text, ℕ, ◌≡◌, refl, sym, ap, ap₂, subst, ◌∙◌,
  some, [], ◌∷◌,
}
use pay_flow_mock.Domain.{Status, initiated, processing, success, failed, refunded, Payment}
use pay_flow_mock.Repository.{PaymentRow, Db, Env, find_payment}
use pay_flow_mock.Repository.Outbox.{event_row}
use pay_flow_mock.Repository.Payments.{
  PaymentRepo, EventSource, outbox_event, payment_row, create_payment,
}
use pay_flow_mock.Repository.Updates.Effects.{Enqueued}
use pay_flow_mock.Ledger.Story.{
  events_of, refunds_of, expected_events, IsSettled, IsProper, Told, Story, IsConsistent,
}
use pay_flow_mock.Ledger.Change.{
  change-IsConsistent, refunds_of-cons, find_payment-changed, events_of-told, retell,
}
use pay_flow_mock.Errors.{ok}
use pay_flow_mock.Repository.Updates.{
  update_payment_status, update_payment_status_with_psp, update_payment_failed,
}
use pay_flow_mock.Repository.Updates.Success.{
  paid, broken, with_status, update_payment_status-ok, update_payment_status_with_psp-ok,
  update_payment_failed-ok,
}
use pay_flow_mock.Domain.Outbox.{payment_success, payment_failed, payment_refunded}
use pay_flow_mock.Repository.Updates.Refunds.{refund_payment_atomic}
use pay_flow_mock.Repository.Payments.Store.{create_payment-ok}
use pay_flow_mock.Repository.Updates.RefundSuccess.{refund_payment_atomic-ok}

-- The story of a payment whose row is found.
Told-of :
    (i : ℕ) (db : Db) (row : PaymentRow)
    → IsConsistent db
    → find_payment i db.payments ≡ some row
    → Told row (events_of i db.outbox) (refunds_of i db.refunds)
Told-of i db row c found =
    subst (λ o. Story o (events_of i db.outbox) (refunds_of i db.refunds)) found (c.stories i)

-- An update with its event.
Enqueued-IsConsistent :
    (r : PaymentRepo) (env : Env) (i : ℕ) (from : Status) (change : PaymentRow → PaymentRow)
    (source : PaymentRow → EventSource) (before after : Db) (old : PaymentRow) (event_id : ℕ)
    → Enqueued r env i from change source before after old event_id
    → (change old).id ≡ old.id
    → (source (change old)).payment_id ≡ i
    → (Told old (events_of i before.outbox) (refunds_of i before.refunds)
        → Told
            (change old)
            ((source (change old)).event_type ∷ events_of i before.outbox)
            (refunds_of i before.refunds))
    → IsConsistent before
    → IsConsistent after
unfolding event_row outbox_event
Enqueued-IsConsistent r env i from change source before after old event_id q same_id of_i next c =
    change-IsConsistent before after i (change old) ((source (change old)).event_type ∷ []) []
      (λ j.
        ap (find_payment j) q.changed.written
        ∙ find_payment-changed i old (change old) before.payments j q.changed.found same_id)
      (λ j. events_of-told j i _ _ after.outbox q.one_event of_i)
      (λ j. ap (refunds_of j) q.same_refunds ∙ if_same (i == j) _)
      (next (Told-of i before old c q.changed.found)) c

pub create-IsConsistent :
    (r : PaymentRepo) (env : Env) (before after : Db)
    → IsConsistent before
    → (request stored : Payment) → create_payment r env (some request) before ≡ (ok stored, after)
    → IsConsistent after
unfolding payment_row
create-IsConsistent r env before after c request stored h =
    let made = create_payment-ok r env request before h in
    let status : stored.status ≡ initiated = ap (λ p. p.status) made.normal in
    let (no_events, no_refunds) =
      subst (λ o. Story o (events_of stored.id before.outbox) (refunds_of stored.id before.refunds))
        made.new_id (c.stories stored.id) in
    change-IsConsistent before after stored.id (payment_row stored) [] []
      (λ j. ap (λ d. find_payment j d.payments) made.written)
      (λ j. ap (λ d. events_of j d.outbox) made.written ∙ if_same (stored.id == j) _)
      (λ j. ap (λ d. refunds_of j d.refunds) made.written ∙ if_same (stored.id == j) _)
      (record {
        sound = made.sound;
        proper = subst IsProper (sym status) tt;
        announced =
            subst (λ s. events_of stored.id before.outbox ≡ expected_events s) (sym status)
              no_events;
        settled =
            subst (λ s. IsSettled s stored.amount (refunds_of stored.id before.refunds))
              (sym status) no_refunds;
      })
      c

module _ (r : PaymentRepo) (env : Env) (i : ℕ) (before after : Db) (c : IsConsistent before) where
  pub start-IsConsistent :
      update_payment_status r env i initiated processing before ≡ (ok tt, after)
      → IsConsistent after
  start-IsConsistent h =
      let (old, valid, changed, kept) =
        update_payment_status-ok r env i before initiated processing h (λ e. cc) in
      change-IsConsistent before after i (with_status env processing old) [] []
        (λ j.
          ap (find_payment j) changed.written
          ∙ find_payment-changed i old (with_status env processing old) before.payments j
              changed.found refl)
        (λ j. ap (λ d. events_of j d.outbox) kept ∙ if_same (i == j) _)
        (λ j. ap (λ d. refunds_of j d.refunds) kept ∙ if_same (i == j) _)
        (retell old (with_status env processing old) _ [] _ []
          (Told-of i before old c changed.found) (refl, refl, refl, refl, refl) initiated processing
          changed.expected refl tt (λ e. e) (λ e. e))
        c

  pub succeed-IsConsistent :
      (psp_name psp_reference_id : Text)
      → update_payment_status_with_psp r env i processing success psp_name psp_reference_id before
        ≡ (ok tt, after)
      → IsConsistent after
  succeed-IsConsistent n f h =
      let (old, event_id, valid, q) =
        update_payment_status_with_psp-ok r env i before processing success n f h (λ e. cc) in
      Enqueued-IsConsistent r env i processing (paid env success n f) _ before after old event_id q
        refl refl
        (λ t.
          retell old (paid env success n f old) _ (payment_success ∷ []) _ [] t
            (refl, refl, refl, refl, refl) processing success q.changed.expected refl tt
            (ap (λ es. payment_success ∷ es)) (λ e. e))
        c

  pub fail-IsConsistent :
      (psp_name psp_reference_id reason : Text)
      → update_payment_failed r env i processing psp_name psp_reference_id reason before
        ≡ (ok tt, after)
      → IsConsistent after
  fail-IsConsistent n f reason h =
      let (old, event_id, valid, q) =
        update_payment_failed-ok r env i before processing n f reason h (λ e. cc) in
      Enqueued-IsConsistent r env i processing (broken env n f reason) _ before after old event_id q
        refl refl
        (λ t.
          retell old (broken env n f reason old) _ (payment_failed ∷ []) _ [] t
            (refl, refl, refl, refl, refl) processing failed q.changed.expected refl tt
            (ap (λ es. payment_failed ∷ es)) (λ e. e))
        c

  pub refund-IsConsistent :
      (amount : ℤ) (key : Text) (refund_id : ℕ) (row : PaymentRow)
      → find_payment i before.payments ≡ some row
      → amount ≤ℤ row.amount
      → refund_payment_atomic r env i amount key before ≡ (ok refund_id, after)
      → IsConsistent after
  refund-IsConsistent amount key refund_id row found covered h =
      let (old, refund, q) = refund_payment_atomic-ok r env i amount key before h in
      let same : row ≡ old = some_inj (sym found ∙ q.changed.found) in
      change-IsConsistent before after i (with_status env refunded old) (payment_refunded ∷ [])
        (amount ∷ [])
        (λ j.
          ap (find_payment j) q.changed.written
          ∙ find_payment-changed i old (with_status env refunded old) before.payments j
              q.changed.found refl)
        (λ j.
          events_of-told j i q.event before.outbox after.outbox q.one_event q.event_payment
          ∙ ap (λ t. if i == j then t ∷ events_of j before.outbox else events_of j before.outbox)
              q.event_kind)
        (λ j.
          ap (refunds_of j) q.one_refund
          ∙ refunds_of-cons j refund before.refunds
          ∙ ap₂
              (λ k x.
                if k == j then x ∷ refunds_of j before.refunds else refunds_of j before.refunds)
              q.of_payment q.of_amount)
        (retell old (with_status env refunded old) _ (payment_refunded ∷ []) _ (amount ∷ [])
          (Told-of i before old c q.changed.found) (refl, refl, refl, refl, refl) success refunded
          q.changed.expected refl tt (ap (λ es. payment_refunded ∷ es))
          (λ none_yet. (
            amount,
            ap (λ xs. amount ∷ xs) none_yet,
            q.positive,
            subst (λ o. amount ≤ℤ o.amount) same covered,
          )))
        c
