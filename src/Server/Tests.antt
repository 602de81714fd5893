-- ===== src/Server/Tests.antt =====
-- The assembled server on empty tables, with breakers that let everything through.
use pay_flow_mock.Prelude.{
  ltb, if◌then◌else◌, pos, negsuc, Text, codes, text_eq, trim_left, trim_right, trim_space, ℕ, suc,
  ◌+◌, ◌<◌, ◌≡◌, refl, ◌⊎◌, inl, true, false, none, some, List, [], ◌∷◌, arith,
}
use pay_flow_mock.Domain.{success}
use pay_flow_mock.Domain.Outbox.{OutboxEvent}
use pay_flow_mock.Errors.{open_state, ok, err}
use pay_flow_mock.Floats.Halves.{halves}
use pay_flow_mock.Psp.Breaker.{
  retryable_outcome, classify_outcome, error_of, Execute, breaker_charge,
}
use pay_flow_mock.Psp.Mock.Tests.{dice}
use pay_flow_mock.Repository.{find_payment_by_key, find_event}
use pay_flow_mock.Ledger.{empty_db}
use pay_flow_mock.Ledger.Order.{repo, calm}
use pay_flow_mock.Service.{State, Outside}
use pay_flow_mock.Service.Payments.{settle, create_payment_service}
use pay_flow_mock.Service.Live.{IsQuiet}
use pay_flow_mock.Service.Answers.{Stored}
use pay_flow_mock.Service.Tests.{outside, request, request_valid}
use pay_flow_mock.Psp.Mock.{new_stripe_mock}
use pay_flow_mock.Psp.Breaker.Calls.{breaker_charge-calls}
use pay_flow_mock.Telemetry.{
  without_prefix, trim_right_byte, default_endpoint, endpoint_of, sampler_ratio_of, init_tracer,
  redis_addr,
}
use pay_flow_mock.Telemetry.Tests.{tenths}
use pay_flow_mock.Server.Boot.{
  no_change, started, Host, run_migrations, migrations_file_url, migrations_dir, env_duration,
  Running, connect, trace, migrate, boot,
}
use pay_flow_mock.Server.Boot.Checks.{IsServable, boot-IsServable}
use pay_flow_mock.Retry.{is_retryable}
use pay_flow_mock.Worker.{default_config, with_defaults}
use pay_flow_mock.Idempotency.{new_idempotency}
use pay_flow_mock.Server.{Breakers, server_service}
use pay_flow_mock.Server.Live.{server_service-Succeeds}
use pay_flow_mock.Psp.{ChargeRequest, PspAdapter}

abbrev pass : {A : Type 0} → Execute ℕ A
pass op w = op w

abbrev pub passing : Breakers ℕ
passing = record {
  execute_charge = pass;
  execute_refund = pass;
  laws = record {
    accepts = λ w. true;
    enter = λ w. w;
    leave = λ e w. w;
    refusal = λ w. open_state;
    turn_away = λ w. w;
    runs = λ op w h. refl;
    stops = λ op w h. absurd cc;
    refusal_known = λ w. inl refl;
  };
}

abbrev larger : ℕ → ℕ → ℕ
larger a b = if ltb a b then b else a

abbrev largest_id : List OutboxEvent → ℕ
largest_id [] = 0
largest_id (e ∷ events) = larger e.id (largest_id events)

above_all : (n : ℕ) (events : List OutboxEvent) → largest_id events < n → find_event n events ≡ none
above_all n [] h = refl
above_all n (e ∷ events) h = ground (arith, above_all n events)

-- As `outside`, with an event's id above all that are stored.
abbrev pub fresh_outside : Outside halves ℕ
fresh_outside = record outside {
  before =
      λ c s. (record (calm s.1) { new_id = some (suc (largest_id s.0.outbox)) }, (s.0, s.1 + 10));
}

pub fresh-IsQuiet : IsQuiet fresh_outside
fresh-IsQuiet = record {
  alone = λ c s. refl;
  up = λ c s st. refl;
  event_id = λ c s. suc (largest_id s.0.outbox);
  event_drawn = λ c s. refl;
  event_some = λ c s e. cc;
  event_new = λ c s. above_all (suc (largest_id s.0.outbox)) s.0.outbox (omega arith);
  alive = λ x. refl;
}

server_service-Succeeds_example :
    (after : State ℕ) × (create_payment_service fresh_outside
        (server_service dice passing passing halves repo)
        request
        (empty_db, 1)
      ≡ (ok (record { payment_id = 101; status = success }), after))
    × Stored (record { payment_id = 101; status = success }) after.0
unfolding find_payment_by_key
server_service-Succeeds_example =
    server_service-Succeeds dice passing passing (λ x. refl) (λ x. refl) fresh_outside fresh-IsQuiet
      repo (refl, refl) request (empty_db, 1) 101 request_valid refl (λ e. cc) refl refl

abbrev flaky_mock : PspAdapter ℕ
flaky_mock = new_stripe_mock dice (record {
  min_latency = pos 0;
  max_latency = pos 0;
  charge_failure_rate = 10;
  refund_failure_rate = 0;
  retryable_failure_fraction = 3;
  declined_fraction = 5;
})

abbrev charge : ChargeRequest
charge = record {
  payment_id = 4;
  amount = pos 900;
  currency = codes "EUR";
  idempotency_key = codes "k-4";
}

breaker_charge-calls_example :
    ((passing.laws.accepts 7 ≡ true)
      × (breaker_charge pass pass flaky_mock charge 7 ≡ (
        (flaky_mock.charge charge 7).0,
        classify_outcome (error_of (flaky_mock.charge charge 7).0),
        (flaky_mock.charge charge 7).1,
      )))
    ⊎ ((passing.laws.accepts 7 ≡ false)
        × (breaker_charge pass pass flaky_mock charge 7 ≡ (err open_state, retryable_outcome, 7))
        × (is_retryable (some open_state) ≡ false))
breaker_charge-calls_example = breaker_charge-calls pass pass flaky_mock passing.laws charge 7

-- A system where all goes well, with a database and a poll interval that is too small.
abbrev host_env : Text → Text
host_env name =
    if text_eq name (codes "DATABASE_URL")
    then codes "postgres://db"
    else (if text_eq name (codes "WEBHOOK_POLL_INTERVAL") then codes "-5s" else [])

abbrev good_host : Host
good_host = record {
  getenv = host_env;
  working_dir = some (codes "/app");
  is_dir = λ d. text_eq d (codes "/app/migrations/up");
  absolute = λ d. some d;
  parse_duration = λ s. some (negsuc 4);
  migrator = λ db url. record {
    opens = true;
    pings = true;
    makes_driver = true;
    makes_instance = true;
    up = no_change;
  };
  exporter_up = true;
  resource_up = true;
  pool_config = λ url. true;
  makes_pool = true;
  database_pings = true;
  redis_pings = λ addr. true;
}

abbrev good_run : Running ℕ ℕ
good_run = record {
  addr = codes ":8080";
  migrations_url = codes "file:///app/migrations/up";
  tracing = record {
    endpoint = default_endpoint;
    insecure = true;
    sampler_ratio = 10;
    service_name = codes "payflow";
    service_version = codes "dev";
    deployment_env = codes "dev";
  };
  redis = codes "127.0.0.1:6379";
  idempotency = new_idempotency true true;
  worker = with_defaults halves (default_config halves);
}

good_boot : boot halves tenths good_host ≡ started good_run
unfolding boot migrations_dir migrate run_migrations migrations_file_url trace init_tracer
    sampler_ratio_of endpoint_of without_prefix trim_right_byte connect redis_addr settle
    env_duration text_eq trim_space trim_left trim_right new_idempotency with_defaults
    default_config
good_boot = refl

boot-IsServable_example : IsServable halves tenths good_host good_run
boot-IsServable_example = boot-IsServable halves tenths good_host good_boot
