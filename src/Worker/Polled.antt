-- ===== src/Worker/Polled.antt =====
-- One round of the worker's loop, runOnce of internal/worker/webhook_worker.go, while all goes well.
use pay_flow_mock.Prelude.{take, ℤ, pos_part, List}
use pay_flow_mock.Domain.Outbox.{OutboxEvent}
use pay_flow_mock.Repository.{Db, Env}
use pay_flow_mock.Repository.Outbox.{select_due, order_by_next_retry, reclaim_stale_processing}
use pay_flow_mock.Floats.{Float64}
use pay_flow_mock.Service.{State}
use pay_flow_mock.Worker.{reclaim_call, claim_call, World, Worker}

module _ {fl : Float64} {X : Type 0} (world : World fl X) where
  -- The tables after the reclaim with which a poll begins, and the events that are due in them.
  abbrev pub reclaimed : ℤ → State X → Db
  reclaimed stale_after s =
      (reclaim_stale_processing (world.before reclaim_call s).0 stale_after s.0).1

  -- The clock of the claim.
  abbrev pub claim_env : ℤ → State X → Env
  claim_env stale_after s = (world.before claim_call (reclaimed stale_after s, s.1)).0

  abbrev pub due_events : ℤ → State X → List OutboxEvent
  due_events stale_after s =
      select_due (claim_env stale_after s) (world.locked s.1) (reclaimed stale_after s).outbox

module _ {fl : Float64} {X : Type 0} (world : World fl X) (w : Worker fl.F) where
  abbrev batch : ℤ → State X → List OutboxEvent
  batch stale_after s =
      take (pos_part w.cfg.batch_size) (order_by_next_retry (due_events world stale_after s))
