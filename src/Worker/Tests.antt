-- ===== src/Worker/Tests.antt =====
-- Deliveries of one event, to a merchant that answers 200 or 503.
use pay_flow_mock.Prelude.{
  pos, pos_part, codes, is_empty, trim_space, ℕ, ◌+◌, ◌≤◌, ◌≡◌, refl, false, none, some, [], ◌∷◌,
  arith,
}
use pay_flow_mock.Domain.{success}
use pay_flow_mock.Domain.Outbox.{OutboxStatus, payment_success, OutboxEvent}
use pay_flow_mock.Floats.{exact_limit}
use pay_flow_mock.Floats.Halves.{halves}
use pay_flow_mock.Repository.{Db, find_event}
use pay_flow_mock.Ledger.{empty_db}
use pay_flow_mock.Ledger.Order.{calm}
use pay_flow_mock.Worker.{default_config, answered, World, Worker, handle_one}
use pay_flow_mock.Worker.Delivered.{Reorders}
use pay_flow_mock.Worker.Verdict.{Verdict, handle_one-Verdict}

abbrev pub world : ℕ → World halves ℕ
world status = record {
  before = λ c s. (calm 50, s);
  locked = λ x i. false;
  schedule = λ x events. events;
  post = λ req x. (answered status, x + 1);
  is_cancelled = λ x. false;
  now = λ x. x;
  fraction = λ x. 1;
  hmac_hex = λ key payload. codes "00";
}

abbrev pub worker : Worker ℕ
worker = record { registry = none; cfg = default_config halves }

abbrev webhook : OutboxEvent
webhook = record {
  id = 30;
  payment_id = 7;
  merchant_id = 3;
  event_type = payment_success;
  webhook_url = codes "https://shop";
  payload = record {
    id = 30;
    event_type = payment_success;
    created_at = 30;
    body = record {
      payment_id = 7;
      merchant_id = 3;
      amount = pos 500;
      currency = codes "USD";
      status = success;
      psp = codes "stripe_mock";
      psp_reference_id = codes "ch_1";
      failure_reason = [];
      refund = none;
    };
  };
  status = OutboxStatus.processing;
  last_error = [];
  attempt_count = 2;
  next_retry_at = 30;
  delivered_at = 0;
  created_at = 30;
  updated_at = 40;
}

abbrev outbox : Db
outbox = record empty_db { outbox = webhook ∷ [] }

has_url : is_empty (trim_space (codes "https://shop")) ≡ false
unfolding trim_space
has_url = refl

short_backoff : pos_part worker.cfg.max_backoff ≤ exact_limit
unfolding default_config
short_backoff = omega arith

handle_one-Verdict_example :
    (after : OutboxEvent) × (find_event 30
        (handle_one (world 503) worker webhook (outbox, 5)).0.outbox
      ≡ some after)
    × Verdict
        (world 503)
        worker
        (calm 50)
        (λ s. refl)
        webhook
        outbox
        5
        refl
        refl
        refl
        (answered 503)
        6
        after
handle_one-Verdict_example =
    handle_one-Verdict (world 503) worker (calm 50) (λ s. refl) webhook outbox 5 refl refl refl
      (answered 503) 6 refl (λ y. omega arith) short_backoff has_url refl

abbrev as_they_are : Reorders (λ events. events)
as_they_are = record { same_ids = λ i events. refl; same_events = λ P events h. h }

abbrev waiting : Db
waiting = record empty_db { outbox = record webhook { status = OutboxStatus.pending } ∷ [] }

-- The clock moves on with each delivery.
abbrev ticking : World halves ℕ
ticking = record (world 204) { before = λ c s. (calm (s.1 + 50), s) }
