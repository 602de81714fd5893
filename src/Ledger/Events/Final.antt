-- ===== src/Ledger/Events/Final.antt =====
-- An event that is delivered or dead stays as it is, over any step.
use pay_flow_mock.Prelude.{Text, ℕ, ◌≡◌, refl, sym, ap, subst, arith}
use pay_flow_mock.Domain.{initiated, processing, success}
use pay_flow_mock.Repository.{Db, Env}
use pay_flow_mock.Repository.Outbox.{event_row, mark_delivered, mark_retry, mark_dead}
use pay_flow_mock.Repository.Payments.{PaymentRepo, outbox_event}
use pay_flow_mock.Repository.Payments.Store.{create_payment-ok}
use pay_flow_mock.Repository.Updates.Success.{
  update_payment_status-ok, update_payment_status_with_psp-ok, update_payment_failed-ok,
}
use pay_flow_mock.Repository.Updates.RefundSuccess.{refund_payment_atomic-ok}
use pay_flow_mock.Ledger.{
  Step, create, start_processing, succeed_payment, fail_payment, refund_payment, claim, reclaim,
  deliver, retry_later, give_up, Reach, fresh, step,
}
use pay_flow_mock.Ledger.Events.{HasDistinctIds, open-EventOnward, EventsOnward}
use pay_flow_mock.Ledger.Events.Settled.{
  KeepsEvents, same-KeepsEvents, added-KeepsEvents, claim_batch-KeepsEvents, reclaim-KeepsEvents,
  update_processing-KeepsEvents,
}

module _ (env : Env) (db : Db) (i : ℕ) where
  mark_delivered-KeepsEvents : KeepsEvents db.outbox (mark_delivered env i db).1.outbox
  unfolding mark_delivered
  mark_delivered-KeepsEvents =
      update_processing-KeepsEvents env db i _
        (λ e unsettled. open-EventOnward e _ unsettled refl (omega arith))

  mark_retry-KeepsEvents :
      (next_at : ℕ) (last_err : Text)
      → KeepsEvents db.outbox (mark_retry env i next_at last_err db).1.outbox
  unfolding mark_retry
  mark_retry-KeepsEvents next_at last_err =
      update_processing-KeepsEvents env db i _
        (λ e unsettled. open-EventOnward e _ unsettled refl (omega arith))

  mark_dead-KeepsEvents :
      (last_err : Text) → KeepsEvents db.outbox (mark_dead env i last_err db).1.outbox
  unfolding mark_dead
  mark_dead-KeepsEvents last_err =
      update_processing-KeepsEvents env db i _
        (λ e unsettled. open-EventOnward e _ unsettled refl (omega arith))

kept_by :
    (before state after : Db)
    → after ≡ state
    → KeepsEvents before.outbox state.outbox
    → KeepsEvents before.outbox after.outbox
kept_by before state after e keeps = subst (λ d. KeepsEvents before.outbox d.outbox) (sym e) keeps

pub Step-KeepsEvents :
    (r : PaymentRepo) {before after : Db}
    → Step r before after
    → KeepsEvents before.outbox after.outbox
unfolding event_row outbox_event
Step-KeepsEvents r {before} {after} (create env request stored h) =
    same-KeepsEvents before.outbox after.outbox
      (ap (λ d. d.outbox) (create_payment-ok r env request before h).written)
Step-KeepsEvents r {before} {after} (start_processing env i h) =
    let (old, valid, changed, kept) =
      update_payment_status-ok r env i before initiated processing h (λ e. cc) in
    same-KeepsEvents before.outbox after.outbox (ap (λ d. d.outbox) kept)
Step-KeepsEvents r {before} {after} (succeed_payment env i n f h) =
    let (old, event_id, valid, q) =
      update_payment_status_with_psp-ok r env i before processing success n f h (λ e. cc) in
    added-KeepsEvents _ before.outbox after.outbox q.one_event q.new_event
Step-KeepsEvents r {before} {after} (fail_payment env i n f reason h) =
    let (old, event_id, valid, q) =
      update_payment_failed-ok r env i before processing n f reason h (λ e. cc) in
    added-KeepsEvents _ before.outbox after.outbox q.one_event q.new_event
Step-KeepsEvents r {before} {after} (refund_payment env i amount key id row found covered h) =
    let (old, refund, q) = refund_payment_atomic-ok r env i amount key before h in
    added-KeepsEvents q.event before.outbox after.outbox q.one_event q.new_event
Step-KeepsEvents r {before} {after} (claim env locked limit e) =
    kept_by before _ after e (claim_batch-KeepsEvents env _ locked limit)
Step-KeepsEvents r {before} {after} (reclaim env stale_after e) =
    kept_by before _ after e (reclaim-KeepsEvents env _ stale_after)
Step-KeepsEvents r {before} {after} (deliver env i e) =
    kept_by before _ after e (mark_delivered-KeepsEvents env _ i)
Step-KeepsEvents r {before} {after} (retry_later env i next_at last_err e) =
    kept_by before _ after e (mark_retry-KeepsEvents env _ i next_at last_err)
Step-KeepsEvents r {before} {after} (give_up env i last_err e) =
    kept_by before _ after e (mark_dead-KeepsEvents env _ i last_err)

Reach-HasDistinctIds : (r : PaymentRepo) {db : Db} → Reach r db → HasDistinctIds db.outbox
Reach-HasDistinctIds r fresh = tt
Reach-HasDistinctIds r (step reach last) =
    (Step-KeepsEvents r last (Reach-HasDistinctIds r reach)).0

-- From tables with any history, a step loses no event: it keeps the message, takes no attempt back,
-- and leaves an event that is delivered or dead exactly as it was.
pub Reach-EventsOnward :
    (r : PaymentRepo) {db after : Db}
    → Reach r db
    → Step r db after
    → EventsOnward db.outbox after.outbox
Reach-EventsOnward r reach last = (Step-KeepsEvents r last (Reach-HasDistinctIds r reach)).1
