-- ===== src/System.antt =====
-- The whole program on one database: the methods of PaymentService and the polls of the worker, one
-- after the other in any order, with the steps of other instances between their calls of the
-- repository.
mod Tests
use pay_flow_mock.Prelude.{◌==◌, Bool-cases, ℕ, inl, inr, Option, some, List, [], ◌∷◌}
use pay_flow_mock.Domain.{nil_id, CreatePaymentRequest, RefundRequest}
use pay_flow_mock.Floats.{Float64}
use pay_flow_mock.Repository.Payments.{PaymentRepo}
use pay_flow_mock.Psp.{PspAdapter}
use pay_flow_mock.Psp.Router.{Router}
use pay_flow_mock.Retry.{Config}
use pay_flow_mock.Ledger.{empty_db, fresh}
use pay_flow_mock.Ledger.History.{Reach-IsConsistent}
use pay_flow_mock.Ledger.Runs.{Steps, done, Steps-trans, Reach-Steps}
use pay_flow_mock.Ledger.Story.{IsConsistent}
use pay_flow_mock.Service.{get_call, State, Outside, PaymentService}
use pay_flow_mock.Service.Payments.{
  create_payment_service, get_payment_service, refund_payment_service,
}
use pay_flow_mock.Service.Kept.{OthersStep, create-IsRun}
use pay_flow_mock.Service.Refunded.{refund-IsRun}
use pay_flow_mock.Worker.{WorkerCall, World, Worker, run}
use pay_flow_mock.Worker.Runs.{run-Steps}

-- What the program is asked to do.
pub data Job : Type 0 where
  charge_job : CreatePaymentRequest → Job
  refund_job : ℕ → RefundRequest → Job
  read_job : ℕ → Job
  poll_job : ℕ → Job

module _ {fl : Float64} {X : Type 0} (out : Outside fl X) (world : World fl X) (w : Worker fl.F)
    (r : PaymentRepo) (router : Option (Router (PspAdapter X))) (config : Config fl.F) where
  abbrev pub the_service : Option (PaymentService fl X)
  the_service = some (record { repo = some r; router = router; retry_cfg = config })

  unfoldable pub do_job : Job → State X → State X
  do_job (charge_job req) s = (create_payment_service out the_service req s).1
  do_job (refund_job id req) s = (refund_payment_service out the_service id req s).1
  do_job (read_job id) s = (get_payment_service out the_service id s).1
  do_job (poll_job polls) s = run world w polls s

  unfoldable pub do_jobs : List Job → State X → State X
  unfolding do_job
  do_jobs [] s = s
  do_jobs (job ∷ jobs) s = do_jobs jobs (do_job job s)

  module _ (others : OthersStep out r)
      (others_of_worker : (c : WorkerCall) (s : State X) → Steps r s.0 (world.before c s).1.0) where
    get-Steps : (id : ℕ) (s : State X) → Steps r s.0 (get_payment_service out the_service id s).1.0
    unfolding get_payment_service
    get-Steps id s = elim (Bool-cases (id == nil_id)) [
      | inl no_id ↦ rw no_id done
      | inr given ↦ rw given (others get_call s)
    ]

    do_job-Steps : (job : Job) (s : State X) → Steps r s.0 (do_job job s).0
    unfolding do_job
    do_job-Steps (charge_job req) s = (create-IsRun out r others router config req).runs s
    do_job-Steps (refund_job id req) s = (refund-IsRun out r others router config id req).runs s
    do_job-Steps (read_job id) s = get-Steps id s
    do_job-Steps (poll_job polls) s = run-Steps world w r others_of_worker polls s

    do_jobs-Steps : (jobs : List Job) (s : State X) → Steps r s.0 (do_jobs jobs s).0
    unfolding do_jobs
    do_jobs-Steps [] s = done
    do_jobs-Steps (job ∷ jobs) s =
        Steps-trans r (do_job-Steps job s) (do_jobs-Steps jobs (do_job job s))

    -- From empty tables, after any jobs in any order, whatever providers and merchants answered and
    -- whatever failed, the three tables agree on every payment, if all that others did between was
    -- made of steps of Ledger.
    pub jobs-IsConsistent : (jobs : List Job) (x : X) → IsConsistent (do_jobs jobs (empty_db, x)).0
    jobs-IsConsistent jobs x =
        Reach-IsConsistent r (Reach-Steps r fresh (do_jobs-Steps jobs (empty_db, x)))
