-- ===== src/System/Tests.antt =====
-- A charge, a poll, a refund and a read.
use pay_flow_mock.Prelude.{some, List, [], ◌∷◌}
use pay_flow_mock.Ledger.{empty_db}
use pay_flow_mock.Ledger.Order.{repo}
use pay_flow_mock.Ledger.Runs.{done}
use pay_flow_mock.Ledger.Story.{IsConsistent}
use pay_flow_mock.Service.Tests.{
  outside, router, retry_config, request, refund_request, nobody_else,
}
use pay_flow_mock.Worker.Tests.{world, worker}
use pay_flow_mock.System.{
  Job, charge_job, refund_job, read_job, poll_job, do_jobs, jobs-IsConsistent,
}

abbrev jobs : List Job
jobs = charge_job request ∷ poll_job 2 ∷ refund_job 101 refund_request ∷ read_job 101 ∷ []

jobs-IsConsistent_example :
    IsConsistent
      (do_jobs outside (world 503) worker repo (some router) retry_config jobs (empty_db, 1)).0
jobs-IsConsistent_example =
    jobs-IsConsistent outside (world 503) worker repo (some router) retry_config nobody_else
      (λ c s. done) jobs 1
