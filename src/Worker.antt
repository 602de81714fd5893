-- ===== src/Worker.antt =====
-- internal/worker/webhook_worker.go: the worker that posts the events of the outbox to merchants. The
-- HTTP client, the clock and HMAC-SHA256 belong to the state `X` outside the process; logs, spans and
-- metrics are not modelled, and so CountPending, which only feeds a gauge, is left out.
pub mod Runs
pub mod Accepted
pub mod Verdict
pub mod Delivered
pub mod Polled
pub mod Tests
use pay_flow_mock.Prelude.{
  ltb, leb, if◌then◌else◌, ℤ, pos, pos_part, leb_ℤ, is_nonpos, Text, codes, is_empty, trim_space, ℕ,
  zero, suc, ◌+◌, ◌*◌, ◌/◌, ◌%◌, Bool, ◌&&◌, Option, none, some, List, [], ◌∷◌, ◌++◌,
}
use pay_flow_mock.Domain.Outbox.{EventType, OutboxWebhookEnvelope, OutboxEvent}
use pay_flow_mock.Errors.{Result, ok, err}
use pay_flow_mock.Repository.{Db, Env}
use pay_flow_mock.Repository.Outbox.{
  claim_batch, reclaim_stale_processing, mark_delivered, mark_retry, mark_dead,
}
use pay_flow_mock.Floats.{Float64}
use pay_flow_mock.Retry.{millisecond, second}
use pay_flow_mock.Service.{State}

pub record Config (F : Type 0) : Type 0 where
  pub poll_interval : ℤ
  pub batch_size : ℤ
  pub max_attempts : ℤ
  pub worker_pool : ℤ
  pub http_timeout : ℤ
  pub stale_reclaim_mul : ℤ
  pub base_delay : ℤ
  pub max_backoff : ℤ
  pub backoff_multiplier : F

abbrev minute : ℕ
minute = 60 * second

abbrev or_default : ℤ → ℕ → ℤ
or_default x d = if is_nonpos x then pos d else x

module _ (fl : Float64) where
  unfoldable pub default_config : Config fl.F
  default_config = record {
    poll_interval = pos (5 * second);
    batch_size = pos 20;
    max_attempts = pos 10;
    worker_pool = pos 8;
    http_timeout = pos (10 * second);
    stale_reclaim_mul = pos 2;
    base_delay = pos (100 * millisecond);
    max_backoff = pos (10 * minute);
    backoff_multiplier = fl.default_multiplier;
  }

  unfoldable pub with_defaults : Config fl.F → Config fl.F
  with_defaults c = record {
    poll_interval = or_default c.poll_interval (5 * second);
    batch_size = or_default c.batch_size 20;
    max_attempts = or_default c.max_attempts 10;
    worker_pool = or_default c.worker_pool 8;
    http_timeout = or_default c.http_timeout (10 * second);
    stale_reclaim_mul = or_default c.stale_reclaim_mul 2;
    base_delay = or_default c.base_delay (100 * millisecond);
    max_backoff = or_default c.max_backoff (10 * minute);
    backoff_multiplier =
        if fl.is_positive c.backoff_multiplier then c.backoff_multiplier else fl.default_multiplier;
  }

  -- nextBackoffDelay, with the random fraction as an argument
  unfoldable pub next_backoff_delay : Config fl.F → ℕ → fl.F → ℕ
  next_backoff_delay cfg attempt fraction =
      let exp =
        fl.mul (fl.of_duration (pos_part cfg.base_delay))
          (fl.power cfg.backoff_multiplier attempt) in
      let capped = fl.minimum exp (fl.of_duration (pos_part cfg.max_backoff)) in
      if fl.is_positive capped then fl.truncate (fl.mul fraction capped) else 0

-- What deliver sends, without the headers that repeat the event.
pub record WebhookRequest : Type 0 where
  pub url : Text
  pub event_id : ℕ
  pub event_type : EventType
  pub payload : OutboxWebhookEnvelope
  pub signature : Text

-- The end of a request: no request could be built, none got through, or a status came back.
pub data Reply : Type 0 where
  not_built not_sent : Text → Reply
  answered : ℕ → Reply

pub data WorkerCall : Type 0 where
  reclaim_call claim_call mark_call : WorkerCall

pub record World (fl : Float64) (X : Type 0) : Type 0 where
  pub before : WorkerCall → State X → Env × State X
  pub locked : X → ℕ → Bool  -- the rows that other transactions hold
  pub schedule : X → List OutboxEvent → List OutboxEvent  -- the order in which deliveries end
  pub post : WebhookRequest → X → Reply × X
  pub is_cancelled : X → Bool  -- ctx.Err() != nil
  pub now : X → ℕ
  pub fraction : X → fl.F
  pub hmac_hex : Text → OutboxWebhookEnvelope → Text

-- The struct Worker: its configuration with the defaults, and the Secret of its registry.
pub record Worker (F : Type 0) : Type 0 where
  pub registry : Option (ℕ → Option Text)
  pub cfg : Config F

-- New
unfoldable pub new : (fl : Float64) → Option (ℕ → Option Text) → Config fl.F → Worker fl.F
unfolding with_defaults
new fl registry cfg = record { registry = registry; cfg = with_defaults fl cfg }

-- `fmt.Errorf("http status %d", …)`, of a number with at most `fuel` digits
unfoldable pub decimal : ℕ → ℕ → Text
decimal zero n = []
decimal (suc fuel) n =
    let high = decimal fuel (n / 10) in
    if ltb n 10 then (48 + n) ∷ [] else high ++ ((48 + n % 10) ∷ [])

-- The end of deliver: `none` for a status of 200 to 299, else the text of the error.
unfoldable pub delivery_error : Reply → Option Text
unfolding decimal
delivery_error (not_built s) = some (codes "build request: " ++ s)
delivery_error (not_sent s) = some s
delivery_error (answered status) =
    if leb 200 status && ltb status 300
    then none
    else some (codes "http status " ++ decimal (suc status) status)

module _ {fl : Float64} {X : Type 0} (world : World fl X) (w : Worker fl.F) where
  -- signPayload
  unfoldable pub sign_payload : ℕ → OutboxWebhookEnvelope → Text
  sign_payload merchant_id payload = elim w.registry [
    | none ↦ []
    | some secret ↦ elim (secret merchant_id) [
      | none ↦ []
      | some key ↦
          if is_empty (trim_space key) then [] else codes "sha256=" ++ world.hmac_hex key payload
    ]
  ]

  -- The request that deliver builds.
  abbrev pub webhook_request : OutboxEvent → WebhookRequest
  webhook_request evt = record {
    url = trim_space evt.webhook_url;
    event_id = evt.id;
    event_type = evt.event_type;
    payload = evt.payload;
    signature = sign_payload evt.merchant_id evt.payload;
  }

  -- deliver
  unfoldable pub deliver_event : OutboxEvent → X → Option Text × X
  unfolding sign_payload delivery_error
  deliver_event evt x =
      let (reply, x') = world.post (webhook_request evt) x in (delivery_error reply, x')

  -- A Mark call, whose error is only logged.
  abbrev pub mark : (Env → Db → Result (Unit {0}) × Db) → State X → State X
  mark method s = let (env, (db, x)) = world.before mark_call s in ((method env db).1, x)

  unfoldable pub next_at : OutboxEvent → X → ℕ
  unfolding next_backoff_delay
  next_at evt x = world.now x + next_backoff_delay fl w.cfg evt.attempt_count (world.fraction x)

  -- What handleOne does with the end of the delivery.
  unfoldable pub record_delivery : OutboxEvent → Option Text → State X → State X
  unfolding next_at
  record_delivery evt none s = mark (λ env. mark_delivered env evt.id) s
  record_delivery evt (some last_err) s =
      if leb_ℤ w.cfg.max_attempts (pos (evt.attempt_count + 1))
      then mark (λ env. mark_dead env evt.id last_err) s
      else mark (λ env. mark_retry env evt.id (next_at evt s.1) last_err) s

  -- handleOne
  unfoldable pub handle_one : OutboxEvent → State X → State X
  unfolding deliver_event record_delivery
  handle_one evt (db, x) =
      if is_empty (trim_space evt.webhook_url)
      then mark (λ env. mark_dead env evt.id (codes "no_webhook_url_for_merchant")) (db, x)
      else (let (ended, x') = deliver_event evt x in
          if world.is_cancelled x' then (db, x') else record_delivery evt ended (db, x'))

  -- The deliveries of one poll. Each makes one call of the outbox at most, so any run of them in
  -- parallel changes the tables in some order, with others' changes between.
  unfoldable pub handle_all : List OutboxEvent → State X → State X
  unfolding handle_one
  handle_all [] s = s
  handle_all (evt ∷ events) s = handle_all events (handle_one evt s)

  -- The end of runOnce, from what ClaimBatch returns.
  unfoldable pub handle_claimed : Result (List OutboxEvent) → State X → State X
  unfolding handle_all
  handle_claimed (err e) s = s
  handle_claimed (ok events) s = handle_all (world.schedule s.1 events) s

  -- runOnce; an error of the reclaim is only logged.
  unfoldable pub run_once : ℤ → State X → State X
  unfolding handle_claimed
  run_once stale_after s =
      let (env, (db, x)) = world.before reclaim_call s in
      let reclaimed = (reclaim_stale_processing env stale_after db).1 in
      let (env', (db', x')) = world.before claim_call (reclaimed, x) in
      let (events, claimed_db) = claim_batch env' (world.locked x') w.cfg.batch_size db' in
      handle_claimed events (claimed_db, x')

  -- Run, for so many polls of a context that is not done; `time.Duration(mul) * pollEvery` is taken
  -- to fit in int64.
  unfoldable pub run : ℕ → State X → State X
  unfolding run_once
  run zero s = s
  run (suc polls) s =
      run polls (run_once (pos (pos_part w.cfg.stale_reclaim_mul * pos_part w.cfg.poll_interval)) s)
