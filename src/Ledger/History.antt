-- ===== src/Ledger/History.antt =====
-- What holds after any history of repository calls.
use pay_flow_mock.Prelude.{◌≡◌, refl, sym, subst}
use pay_flow_mock.Repository.{Db}
use pay_flow_mock.Repository.Payments.{PaymentRepo}
use pay_flow_mock.Ledger.{
  Step, create, start_processing, succeed_payment, fail_payment, refund_payment, claim, reclaim,
  deliver, retry_later, give_up, empty_db, Reach, fresh, step,
}
use pay_flow_mock.Ledger.Story.{events_of, refunds_of, IsConsistent}
use pay_flow_mock.Ledger.Worker.{
  OnlyProgress, OnlyProgress-IsConsistent, claim_batch-OnlyProgress, reclaim-OnlyProgress,
  mark_delivered-OnlyProgress, mark_retry-OnlyProgress, mark_dead-OnlyProgress,
}
use pay_flow_mock.Ledger.Invariant.{
  create-IsConsistent, start-IsConsistent, succeed-IsConsistent, fail-IsConsistent,
  refund-IsConsistent,
}

progress-IsConsistent :
    (before state after : Db)
    → OnlyProgress before state
    → after ≡ state
    → IsConsistent before
    → IsConsistent after
progress-IsConsistent before state after p e c =
    subst IsConsistent (sym e) (OnlyProgress-IsConsistent before state p c)

pub Step-IsConsistent :
    (r : PaymentRepo) {before after : Db}
    → Step r before after
    → IsConsistent before
    → IsConsistent after
Step-IsConsistent r (create env request stored h) c =
    create-IsConsistent r env _ _ c request stored h
Step-IsConsistent r (start_processing env i h) c = start-IsConsistent r env i _ _ c h
Step-IsConsistent r (succeed_payment env i n f h) c = succeed-IsConsistent r env i _ _ c n f h
Step-IsConsistent r (fail_payment env i n f reason h) c =
    fail-IsConsistent r env i _ _ c n f reason h
Step-IsConsistent r (refund_payment env i amount key id row found covered h) c =
    refund-IsConsistent r env i _ _ c amount key id row found covered h
Step-IsConsistent r (claim env locked limit e) c =
    progress-IsConsistent _ _ _ (claim_batch-OnlyProgress env _ locked limit) e c
Step-IsConsistent r (reclaim env stale_after e) c =
    progress-IsConsistent _ _ _ (reclaim-OnlyProgress env _ stale_after) e c
Step-IsConsistent r (deliver env i e) c =
    progress-IsConsistent _ _ _ (mark_delivered-OnlyProgress env _ i) e c
Step-IsConsistent r (retry_later env i next_at last_err e) c =
    progress-IsConsistent _ _ _ (mark_retry-OnlyProgress env _ i next_at last_err) e c
Step-IsConsistent r (give_up env i last_err e) c =
    progress-IsConsistent _ _ _ (mark_dead-OnlyProgress env _ i last_err) e c

empty-IsConsistent : IsConsistent empty_db
unfolding events_of refunds_of
empty-IsConsistent = record { stories = λ i. (refl, refl) }

-- After any history of the calls that the service and the worker make, by any interleaving, each
-- with the statuses for which they make it and a refund of at most the payment's amount, the
-- three tables agree on every payment: the events are those of its status, in their order and
-- each once; a refunded payment has one refund, of more than 0, and any other has none; its data
-- are as they were validated.
pub Reach-IsConsistent : (r : PaymentRepo) {db : Db} → Reach r db → IsConsistent db
Reach-IsConsistent r fresh = empty-IsConsistent
Reach-IsConsistent r (step reach s) = Step-IsConsistent r s (Reach-IsConsistent r reach)
