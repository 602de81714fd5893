-- ===== src/Ledger/Tests.antt =====
-- The history of one order, and what the theorems say of it.
use pay_flow_mock.Prelude.{
  ℤ, pos, Text, codes, ℕ, ◌≡◌, refl, ◌≢◌, Bool, true, false, Option, List, [], arith,
}
use pay_flow_mock.Domain.{Status, Payment}
use pay_flow_mock.Errors.{Result, ok, err}
use pay_flow_mock.Repository.{PaymentRow, RefundRow, Db, commit_stmt, Env}
use pay_flow_mock.Repository.Payments.{
  create_payment, get_payment_by_id, get_payment_status_by_idempotency_key,
}
use pay_flow_mock.Repository.Updates.{
  update_payment_status, update_payment_status_with_psp, update_payment_failed,
}
use pay_flow_mock.Repository.Updates.Refunds.{refund_payment_atomic}
use pay_flow_mock.Ledger.{
  create, start_processing, succeed_payment, refund_payment, claim, empty_db, Reach, fresh, step,
}
use pay_flow_mock.Repository.Outbox.{
  is_due, select_due, order_by_next_retry, is_among, mark_claimed, claim_batch,
}
use pay_flow_mock.Ledger.Story.{IsConsistent}
use pay_flow_mock.Ledger.Progress.{AllOnward, Step-AllOnward}
use pay_flow_mock.Ledger.Runs.{done, more, refund_once}
use pay_flow_mock.Ledger.History.{Reach-IsConsistent}
use pay_flow_mock.Repository.Payments.Store.{as_kept, get-create}
use pay_flow_mock.Repository.Updates.Atomic.{IsAtomic, mutators-IsAtomic}
use pay_flow_mock.Repository.Updates.RefundSuccess.{Refunded, refund_payment_atomic-ok}
use pay_flow_mock.Ledger.Events.{EventsOnward}
use pay_flow_mock.Ledger.Events.Final.{Reach-EventsOnward}
use pay_flow_mock.Ledger.Order.{
  repo, calm, order, stored_order, stripe, after_create, after_success, after_refund, create_runs,
  start_runs, success_runs, refund_runs, paid_row, paid_found,
}
use pay_flow_mock.Domain.Outbox.{OutboxEvent, outbox_status_eq}
use pay_flow_mock.Repository.Outbox.Claims.{claim_batch-disjoint}

Reach-success : Reach repo after_success
Reach-success =
    step
      (step (step fresh (create (calm 10) order stored_order create_runs))
        (start_processing (calm 20) 7 start_runs))
      (succeed_payment (calm 30) 7 stripe (codes "ch_1") success_runs)

Reach-refund : Reach repo after_refund
Reach-refund = step Reach-success (
    refund_payment (calm 40) 7 (pos 200) (codes "r-1") 1040 paid_row paid_found (omega arith)
      refund_runs)

Reach-IsConsistent_example : IsConsistent after_refund
Reach-IsConsistent_example = Reach-IsConsistent repo Reach-refund

Step-AllOnward_example : AllOnward after_success after_refund
Step-AllOnward_example = Step-AllOnward repo (
    refund_payment (calm 40) 7 (pos 200) (codes "r-1") 1040 paid_row paid_found (omega arith)
      refund_runs)

abbrev after_claim : Db
after_claim = (claim_batch (calm 45) (λ i. false) (pos 2) after_refund).1

refund_once_example :
    (refund_payment_atomic repo (calm 50) 7 (pos 1) (codes "r-2") after_claim).0 ≢ ok 1050
refund_once_example =
    refund_once repo (calm 40) (calm 50) 7 (pos 200) (pos 1) (codes "r-1") (codes "r-2")
      after_success refund_runs (more done (claim (calm 45) (λ i. false) (pos 2) refl)) 1050

Reach-EventsOnward_example : EventsOnward after_success.outbox after_refund.outbox
Reach-EventsOnward_example = Reach-EventsOnward repo Reach-success (
    refund_payment (calm 40) 7 (pos 200) (codes "r-1") 1040 paid_row paid_found (omega arith)
      refund_runs)

-- No COMMIT is answered, and each is done.
abbrev deaf : Env
deaf = record (calm 15) { fails = λ s. elim s [ commit_stmt ↦ true | _ ↦ false ]; lands = true }

mutators-IsAtomic_example :
    ((p : Option Payment)
      → IsAtomic (λ env'. create_payment repo env' p after_create) deaf after_create)
    × ((i : ℕ) (from to : Status)
        → IsAtomic
            (λ env'. update_payment_status repo env' i from to after_create)
            deaf
            after_create)
    × ((i : ℕ) (from to : Status) (psp_name psp_reference_id : Text)
        → IsAtomic
            (λ env'.
              update_payment_status_with_psp repo env' i from to psp_name psp_reference_id
                after_create)
            deaf
            after_create)
    × ((i : ℕ) (from : Status) (psp_name psp_reference_id reason : Text)
        → IsAtomic
            (λ env'.
              update_payment_failed repo env' i from psp_name psp_reference_id reason after_create)
            deaf
            after_create)
    × ((i : ℕ) (amount : ℤ) (key : Text)
        → IsAtomic
            (λ env'. refund_payment_atomic repo env' i amount key after_create)
            deaf
            after_create)
mutators-IsAtomic_example = mutators-IsAtomic repo deaf after_create

get-create_example :
    (get_payment_by_id repo (calm 11) 7 after_create ≡ ok (as_kept stored_order))
    × (get_payment_status_by_idempotency_key repo (calm 11) (codes " order-1 ") after_create
        ≡ ok (as_kept stored_order))
get-create_example = get-create repo (calm 10) order empty_db create_runs (calm 11) refl

refund_payment_atomic-ok_example :
    (old : PaymentRow) × (refund : RefundRow) × Refunded repo
      (calm 40)
      7
      (pos 200)
      after_success
      after_refund
      old
      refund
refund_payment_atomic-ok_example =
    refund_payment_atomic-ok repo (calm 40) 7 (pos 200) (codes "r-1") after_success refund_runs

-- Two claims of one event each.
abbrev no_lock : ℕ → Bool
no_lock i = false

abbrev handed_out : Result (List OutboxEvent) → List OutboxEvent
handed_out (ok events) = events
handed_out (err e) = []

first_claim : Result (List OutboxEvent) × Db
unfolding after_refund claim_batch select_due order_by_next_retry is_due outbox_status_eq
    mark_claimed is_among
first_claim = claim_batch (calm 60) no_lock (pos 1) after_refund

second_claim : Result (List OutboxEvent) × Db
unfolding first_claim
second_claim = claim_batch (calm 60) no_lock (pos 1) first_claim.1

first_runs :
    claim_batch (calm 60) no_lock (pos 1) after_refund
    ≡ (ok (handed_out first_claim.0), first_claim.1)
unfolding first_claim
first_runs = refl

second_runs :
    claim_batch (calm 60) no_lock (pos 1) first_claim.1
    ≡ (ok (handed_out second_claim.0), second_claim.1)
unfolding second_claim
second_runs = refl

second_hands_40 : is_among 40 (handed_out second_claim.0) ≡ true
unfolding second_claim
second_hands_40 = refl

claim_batch-disjoint_example : is_among 40 (handed_out first_claim.0) ≡ false
claim_batch-disjoint_example =
    claim_batch-disjoint (calm 60) (calm 60) no_lock no_lock (pos 1) (pos 1) after_refund first_runs
      second_runs 40 second_hands_40
