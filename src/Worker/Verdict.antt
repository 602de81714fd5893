-- ===== src/Worker/Verdict.antt =====
-- What one delivery makes of its event.
use pay_flow_mock.Prelude.{
  ==_refl, Bool-cases, some_inj, pos, pos_part, ◌≤ℤ◌, ◌<ℤ◌, leb_ℤ, Text, is_empty, trim_space, ℕ,
  ◌+◌, ◌≤◌, ◌≡◌, refl, sym, ap, ◌∙◌, inl, inr, false, Option, none, some, arith,
}
use pay_flow_mock.Domain.Outbox.{OutboxStatus, OutboxEvent, outbox_status_eq}
use pay_flow_mock.Repository.{
  Db, update_stmt, Env, find_event, put_event, find_event-put, find_event-id,
}
use pay_flow_mock.Repository.Outbox.{update_processing, mark_delivered, mark_retry, mark_dead}
use pay_flow_mock.Worker.Accepted.{IsAccepted, accepted-no_error, other-error}
use pay_flow_mock.Floats.{exact_limit, Float64}
use pay_flow_mock.Service.{State}
use pay_flow_mock.Worker.{
  Config, next_backoff_delay, Reply, mark_call, World, Worker, delivery_error, webhook_request,
  deliver_event, mark, next_at, record_delivery, handle_one,
}

-- The delay before another delivery is at most MaxBackoff, if a float64 holds that exactly.
next_backoff_delay-bounded :
    (fl : Float64) (cfg : Config fl.F) (attempt : ℕ) (fraction : fl.F)
    → fl.IsFraction fraction
    → pos_part cfg.max_backoff ≤ exact_limit
    → next_backoff_delay fl cfg attempt fraction ≤ pos_part cfg.max_backoff
unfolding next_backoff_delay
next_backoff_delay-bounded fl cfg attempt fraction h exact =
    let exp =
      fl.mul (fl.of_duration (pos_part cfg.base_delay)) (fl.power cfg.backoff_multiplier attempt) in
    let cap = fl.of_duration (pos_part cfg.max_backoff) in
    elim (Bool-cases (fl.is_positive (fl.minimum exp cap))) [
      | inl some_delay ↦ rw some_delay (
          fl.truncate-le _ _ exact (
            fl.AtMost-trans _ _ _ (fl.mul-fraction fraction _ h some_delay)
              (fl.minimum-right exp cap)))
      | inr no_delay ↦ rw no_delay (omega arith)
    ]

-- A Mark call on an event that is in processing, where Postgres does not fail.
pub update_processing-found :
    (env : Env) (i : ℕ) (f : OutboxEvent → OutboxEvent) (db : Db) (e : OutboxEvent)
    → env.fails update_stmt ≡ false
    → find_event i db.outbox ≡ some e
    → e.status ≡ OutboxStatus.processing
    → (f e).id ≡ e.id
    → find_event i (update_processing env i f db).1.outbox ≡ some (f e)
unfolding update_processing outbox_status_eq
update_processing-found env i f db e fine found held same =
    let written : (update_processing env i f db).1.outbox ≡ put_event (f e) db.outbox =
      rw (fine, found, held) refl in
    let at_i : (f e).id ≡ i = same ∙ find_event-id i db.outbox found in
    ap (find_event i) written ∙ find_event-put i (f e) db.outbox ∙ rw (found, at_i, ==_refl i) refl

module _ {fl : Float64} {X : Type 0} (world : World fl X) (w : Worker fl.F) (env : Env)
    (quiet : (s : State X) → world.before mark_call s ≡ (env, s)) (evt : OutboxEvent) (db : Db)
    (x : X) (fine : env.fails update_stmt ≡ false) (found : find_event evt.id db.outbox ≡ some evt)
    (held : evt.status ≡ OutboxStatus.processing) where
  mark-found :
      (f : OutboxEvent → OutboxEvent)
      → (f evt).id ≡ evt.id
      → (x' : X)
      → find_event evt.id (mark world w (λ env'. update_processing env' evt.id f) (db, x')).0.outbox
        ≡ some (f evt)
  mark-found f same x' =
      rw (quiet (db, x')) (update_processing-found env evt.id f db evt fine found held same)

  -- What the end of a delivery makes of the event, with the fields that the worker keeps of it.
  record Recording (ended : Option Text) (x' : X) (after : OutboxEvent) : Type 0 where
    sent :
        ended ≡ none
        → (after.status ≡ OutboxStatus.delivered) × (after.attempt_count ≡ evt.attempt_count)
    last :
        (text : Text)
        → ended ≡ some text
        → w.cfg.max_attempts ≤ℤ pos (evt.attempt_count + 1)
        → (after.status ≡ OutboxStatus.dead) × (after.last_error ≡ text)
    again :
        (text : Text)
        → ended ≡ some text
        → pos (evt.attempt_count + 1) <ℤ w.cfg.max_attempts
        → (after.status ≡ OutboxStatus.pending)
          × (after.attempt_count ≡ evt.attempt_count + 1)
          × (after.last_error ≡ text)
          × (after.next_retry_at ≤ world.now x' + pos_part w.cfg.max_backoff)

  record_delivery-Recording :
      ((x' : X) → fl.IsFraction (world.fraction x'))
      → pos_part w.cfg.max_backoff ≤ exact_limit
      → (ended : Option Text) (x' : X)
      → (after : OutboxEvent) × (find_event evt.id
            (record_delivery world w evt ended (db, x')).0.outbox
          ≡ some after)
        × Recording ended x' after
  unfolding record_delivery mark_delivered mark_dead mark_retry next_at
  record_delivery-Recording random exact none x' = (
    _,
    mark-found _ refl x',
    record { sent = λ h. (refl, refl); last = λ text h. absurd cc; again = λ text h. absurd cc },
  )
  record_delivery-Recording random exact (some last_err) x' =
      elim (Bool-cases (leb_ℤ w.cfg.max_attempts (pos (evt.attempt_count + 1)))) [
        | inl at_last ↦ rw at_last (
          _,
          mark-found _ refl x',
          record {
            sent = λ h. absurd cc;
            last = λ text h reached. (refl, some_inj h);
            again = λ text h below. absurd (ground arith);
          },
        )
        | inr before_last ↦ rw before_last (
          _,
          mark-found _ refl x',
          record {
            sent = λ h. absurd cc;
            last = λ text h reached. absurd (ground arith);
            again = λ text h below. (
              refl,
              refl,
              some_inj h,
              omega (
                arith,
                next_backoff_delay-bounded fl w.cfg evt.attempt_count (world.fraction x')
                    (random x') exact,
              ),
            );
          },
        )
      ]

  -- What the merchant's answer makes of the event.
  pub record Verdict (reply : Reply) (x' : X) (after : OutboxEvent) : Type 0 where
    pub done :
        IsAccepted reply
        → (after.status ≡ OutboxStatus.delivered) × (after.attempt_count ≡ evt.attempt_count)
    pub exhausted :
        ¬ IsAccepted reply
        → w.cfg.max_attempts ≤ℤ pos (evt.attempt_count + 1)
        → (after.status ≡ OutboxStatus.dead) × (delivery_error reply ≡ some after.last_error)
    pub later :
        ¬ IsAccepted reply
        → pos (evt.attempt_count + 1) <ℤ w.cfg.max_attempts
        → (after.status ≡ OutboxStatus.pending)
          × (after.attempt_count ≡ evt.attempt_count + 1)
          × (delivery_error reply ≡ some after.last_error)
          × (after.next_retry_at ≤ world.now x' + pos_part w.cfg.max_backoff)

  Recording-Verdict :
      (reply : Reply) (x' : X) (after : OutboxEvent)
      → Recording (delivery_error reply) x' after
      → Verdict reply x' after
  Recording-Verdict reply x' after r = record {
    done = λ taken. r.sent (accepted-no_error reply taken);
    exhausted = λ other reached.
        let (text, e) = other-error reply other in
        let (dead_now, told) = r.last text e reached in (dead_now, e ∙ ap some (sym told));
    later = λ other below.
        let (text, e) = other-error reply other in
        let (waits, counted, told, soon) = r.again text e below in
        (waits, counted, e ∙ ap some (sym told), soon);
  }

  -- In a world where Postgres answers and no one else touches the outbox, an event in processing
  -- with a URL, once the merchant has answered its request and if the context is alive, ends as
  -- delivered for a status of 200 to 299, as dead for anything else at the last attempt, and as
  -- pending for anything else before, with one attempt more, the error's text and a next attempt at
  -- most MaxBackoff away, if that is at most 2^53 ns.
  pub handle_one-Verdict :
      (reply : Reply) (x' : X)
      → world.post (webhook_request world w evt) x ≡ (reply, x')
      → ((y : X) → fl.IsFraction (world.fraction y))
      → pos_part w.cfg.max_backoff ≤ exact_limit
      → is_empty (trim_space evt.webhook_url) ≡ false
      → world.is_cancelled x' ≡ false
      → (after : OutboxEvent) × (find_event evt.id (handle_one world w evt (db, x)).0.outbox
          ≡ some after)
        × Verdict reply x' after
  unfolding handle_one deliver_event
  handle_one-Verdict reply x' replied random exact somewhere alive =
      let (after, stored, told) =
        record_delivery-Recording random exact (delivery_error reply) x' in
      (after, rw (somewhere, replied, alive) stored, Recording-Verdict reply x' after told)
