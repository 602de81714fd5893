-- ===== src/Worker/Runs.antt =====
-- The worker against the history of the tables.
use pay_flow_mock.Prelude.{
  Bool-cases, ℤ, pos, leb_ℤ, Text, codes, is_empty, trim_space, ℕ, zero, suc, ◌+◌, refl, inl, inr,
  Option, none, some, List, [], ◌∷◌,
}
use pay_flow_mock.Domain.Outbox.{OutboxEvent}
use pay_flow_mock.Errors.{Result, ok, err}
use pay_flow_mock.Repository.{Db, Env}
use pay_flow_mock.Repository.Outbox.{
  claim_batch, reclaim_stale_processing, mark_delivered, mark_retry, mark_dead,
}
use pay_flow_mock.Repository.Payments.{PaymentRepo}
use pay_flow_mock.Floats.{Float64}
use pay_flow_mock.Service.{State}
use pay_flow_mock.Ledger.{Step, claim, reclaim, deliver, retry_later, give_up}
use pay_flow_mock.Ledger.Runs.{Steps, done, more, Steps-trans}
use pay_flow_mock.Worker.{
  WorkerCall, reclaim_call, claim_call, mark_call, World, Worker, deliver_event, mark, next_at,
  record_delivery, handle_one, handle_all, handle_claimed, run_once, run,
}

module _ {fl : Float64} {X : Type 0} (world : World fl X) (w : Worker fl.F) (r : PaymentRepo)
    (others : (c : WorkerCall) (s : State X) → Steps r s.0 (world.before c s).1.0) where
  mark-Steps :
      (method : Env → Db → Result (Unit {0}) × Db) (s : State X)
      → ((env : Env) (db : Db) → Step r db (method env db).1)
      → Steps r s.0 (mark world w method s).0
  mark-Steps method s is_step = more (others mark_call s) (is_step _ _)

  record_delivery-Steps :
      (evt : OutboxEvent) (ended : Option Text) (s : State X)
      → Steps r s.0 (record_delivery world w evt ended s).0
  unfolding record_delivery
  record_delivery-Steps evt none s =
      mark-Steps (λ env. mark_delivered env evt.id) s (λ env db. deliver env evt.id refl)
  record_delivery-Steps evt (some last_err) s =
      elim (Bool-cases (leb_ℤ w.cfg.max_attempts (pos (evt.attempt_count + 1)))) [
        | inl exhausted ↦ rw exhausted (
            mark-Steps (λ env. mark_dead env evt.id last_err) s
              (λ env db. give_up env evt.id last_err refl))
        | inr again ↦ rw again (
            mark-Steps (λ env. mark_retry env evt.id (next_at world w evt s.1) last_err) s
              (λ env db. retry_later env evt.id (next_at world w evt s.1) last_err refl))
      ]

  handle_one-Steps : (evt : OutboxEvent) (s : State X) → Steps r s.0 (handle_one world w evt s).0
  unfolding handle_one
  handle_one-Steps evt (db, x) = elim (Bool-cases (is_empty (trim_space evt.webhook_url))) [
    | inl nowhere ↦ rw nowhere (
        mark-Steps (λ env. mark_dead env evt.id (codes "no_webhook_url_for_merchant")) (db, x)
          (λ env db'. give_up env evt.id _ refl))
    | inr somewhere ↦
        rw somewhere (elim (Bool-cases (world.is_cancelled (deliver_event world w evt x).1)) [
          | inl cancelled ↦ rw cancelled done
          | inr alive ↦ rw alive (record_delivery-Steps evt _ (db, _))
        ])
  ]

  handle_all-Steps :
      (events : List OutboxEvent) (s : State X) → Steps r s.0 (handle_all world w events s).0
  unfolding handle_all
  handle_all-Steps [] s = done
  handle_all-Steps (evt ∷ events) s =
      Steps-trans r (handle_one-Steps evt s) (handle_all-Steps events (handle_one world w evt s))

  handle_claimed-Steps :
      (claim : Result (List OutboxEvent)) (s : State X)
      → Steps r s.0 (handle_claimed world w claim s).0
  unfolding handle_claimed
  handle_claimed-Steps (err e) s = done
  handle_claimed-Steps (ok events) s = handle_all-Steps (world.schedule s.1 events) s

  run_once-Steps : (stale_after : ℤ) (s : State X) → Steps r s.0 (run_once world w stale_after s).0
  unfolding run_once
  run_once-Steps stale_after s =
      let first = world.before reclaim_call s in
      let reclaimed = (reclaim_stale_processing first.0 stale_after first.1.0).1 in
      let second = world.before claim_call (reclaimed, first.1.1) in
      let claims = claim_batch second.0 (world.locked second.1.1) w.cfg.batch_size second.1.0 in
      Steps-trans r (more (others reclaim_call s) (reclaim first.0 stale_after refl)) (
        Steps-trans r
          (more (others claim_call (reclaimed, first.1.1))
            (claim second.0 (world.locked second.1.1) w.cfg.batch_size refl))
          (handle_claimed-Steps claims.0 (claims.1, second.1.1)))

  -- However often the worker polls, and whatever merchants answer, the tables go through a run of
  -- the steps of Ledger, with the steps of others between its own.
  pub run-Steps : (polls : ℕ) (s : State X) → Steps r s.0 (run world w polls s).0
  unfolding run
  run-Steps zero s = done
  run-Steps (suc polls) s =
      Steps-trans r (run_once-Steps _ s) (run-Steps polls (run_once world w _ s))
