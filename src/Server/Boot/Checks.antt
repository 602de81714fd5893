-- ===== src/Server/Boot/Checks.antt =====
-- What holds once main of cmd/server/main.go has come to listen.
use pay_flow_mock.Prelude.{
  ℤ, pos, ◌<ℤ◌, Text, codes, is_empty, ◌≡◌, refl, sym, ap, subst, ◌∙◌, ◌⊎◌, inl, inr, true, false,
  Option, none, some, arith,
}
use pay_flow_mock.Floats.{Float64}
use pay_flow_mock.Idempotency.{new_idempotency, set_request_timeout}
use pay_flow_mock.Worker.{default_config, with_defaults}
use pay_flow_mock.Telemetry.{env_or, Ratio64, Tracing, TracerError, init_tracer, redis_addr}
use pay_flow_mock.Telemetry.Settings.{IsChecked, init_tracer-IsChecked}
use pay_flow_mock.Server.Boot.{
  MigrationError, bad_migrations_path, bad_request_timeout, bad_poll_interval, Startup, started,
  stopped, ◌>>=◌, or_stop, Host, run_migrations, migrations_file_url, migrations_dir, env_duration,
  with_timeout, with_poll_interval, Running, tracer_or_stop, migrations_or_stop, settle, connect,
  trace, migrate, boot,
}

>>=-started :
    {A B : Type 0} (call : Startup A) (rest : A → Startup B) {b : B}
    → (call >>= rest) ≡ started b
    → (a : A) × (call ≡ started a) × (rest a ≡ started b)
>>=-started (started a) rest h = (a, refl, h)
>>=-started (stopped f) rest h = absurd cc

started_inj : {A : Type 0} {a b : A} → started a ≡ started b → a ≡ b
started_inj h = cc

-- The worker waits between two polls, the lease of a request lasts, and the tracer's settings have
-- passed Init's checks; the variables that must be set are, and what must answer has answered.
pub record IsServable (fl : Float64) (ratios : Ratio64) (host : Host)
    (r : Running fl.F ratios.Ratio) : Type 0 where
  pub polls : pos 0 <ℤ r.worker.poll_interval
  pub lease : pos 0 <ℤ r.idempotency.request_timeout
  pub checked : IsChecked ratios host.getenv r.tracing
  pub database : is_empty (host.getenv (codes "DATABASE_URL")) ≡ false
  pub pinged : (host.database_pings ≡ true) × (host.redis_pings r.redis ≡ true)
  pub migrated :
      run_migrations (host.migrator (host.getenv (codes "DATABASE_URL")) r.migrations_url) ≡ none

positive_lease :
    (t : Option ℤ) → pos 0 <ℤ (with_timeout (new_idempotency true true) t).request_timeout
unfolding set_request_timeout new_idempotency
positive_lease none = omega arith
positive_lease (some d) = ground arith

positive_poll :
    (fl : Float64) (p : Option ℤ)
    → pos 0 <ℤ (with_defaults fl (with_poll_interval (default_config fl) p)).poll_interval
unfolding with_defaults default_config
positive_poll fl none = omega arith
positive_poll fl (some d) = ground arith

module _ (fl : Float64) (ratios : Ratio64) (host : Host) where
  -- The running server has these parts, and durations above 0.
  abbrev Settled : Text → Tracing ratios.Ratio → Text → Running fl.F ratios.Ratio → Type 0
  Settled url t redis r =
      (pos 0 <ℤ r.worker.poll_interval)
      × (pos 0 <ℤ r.idempotency.request_timeout)
      × (r.migrations_url ≡ url)
      × (r.tracing ≡ t)
      × (r.redis ≡ redis)

  settle-ok :
      (url : Text) (t : Tracing ratios.Ratio) (redis : Text) {r : Running fl.F ratios.Ratio}
      → settle fl ratios host url t redis ≡ started r
      → Settled url t redis r
  unfolding settle
  settle-ok url t redis h =
      let (timeout, _, after) =
        >>=-started (env_duration host (codes "IDEMPOTENCY_REQUEST_TIMEOUT") bad_request_timeout) _
          h in
      let (poll, _, last) =
        >>=-started (env_duration host (codes "WEBHOOK_POLL_INTERVAL") bad_poll_interval) _ after in
      subst (Settled url t redis) (started_inj last)
        (positive_poll fl poll, positive_lease timeout, refl, refl, refl)

  connect-ok :
      (url : Text) (t : Tracing ratios.Ratio) {r : Running fl.F ratios.Ratio}
      → connect fl ratios host url t ≡ started r
      → (host.database_pings ≡ true)
        × (host.redis_pings (redis_addr host.getenv) ≡ true)
        × (settle fl ratios host url t (redis_addr host.getenv) ≡ started r)
  unfolding connect
  connect-ok url t h = (ground arith, ground arith, ground arith)

  tracer-made :
      (tracer : TracerError ⊎ Tracing ratios.Ratio) {t : Tracing ratios.Ratio}
      → tracer_or_stop fl ratios host tracer ≡ started t
      → tracer ≡ inr t
  tracer-made (inl e) h = cc
  tracer-made (inr t) h = cc

  migrations-ran :
      (e : Option MigrationError) {u : Unit {0}}
      → migrations_or_stop fl ratios host e ≡ started u
      → e ≡ none
  migrations-ran none h = refl
  migrations-ran (some e) h = cc

  trace-ok :
      (url : Text) {r : Running fl.F ratios.Ratio}
      → trace fl ratios host url ≡ started r
      → (t : Tracing ratios.Ratio) × IsChecked ratios host.getenv t
        × (connect fl ratios host url t ≡ started r)
  unfolding trace
  trace-ok url h =
      let service_name = env_or host.getenv (codes "OTEL_SERVICE_NAME") (codes "payflow") in
      let tracer = init_tracer ratios host.getenv host.exporter_up host.resource_up service_name in
      let (t, made, rest) = >>=-started (tracer_or_stop fl ratios host tracer) _ h in
      (
        t,
        init_tracer-IsChecked ratios host.getenv host.exporter_up host.resource_up service_name
            (tracer-made tracer made),
        rest,
      )

  migrate-ok :
      (dir : Text) {r : Running fl.F ratios.Ratio}
      → migrate fl ratios host dir ≡ started r
      → (url : Text) × (run_migrations (host.migrator (host.getenv (codes "DATABASE_URL")) url)
          ≡ none)
        × (trace fl ratios host url ≡ started r)
  unfolding migrate
  migrate-ok dir h =
      let (url, _, migrating) =
        >>=-started (or_stop (migrations_file_url host dir) bad_migrations_path) _ h in
      let ran = run_migrations (host.migrator (host.getenv (codes "DATABASE_URL")) url) in
      let (_, well, rest) = >>=-started (migrations_or_stop fl ratios host ran) _ migrating in
      (url, migrations-ran ran well, rest)

  -- Whatever the environment holds, a server that starts has DATABASE_URL set, its migrations
  -- applied and both databases answering; its worker waits between two polls, and the lease of a
  -- request lasts; its tracer sends to an endpoint without a slash at its end, in clear exactly
  -- if the endpoint given does not begin with https://, with a ratio that is neither below 0 nor
  -- above 1, which NaN is not either.
  pub boot-IsServable :
      {r : Running fl.F ratios.Ratio}
      → boot fl ratios host ≡ started r
      → IsServable fl ratios host r
  unfolding boot
  boot-IsServable {r} h =
      let given : (is_empty (host.getenv (codes "DATABASE_URL")) ≡ false)
          × ((migrations_dir host >>= migrate fl ratios host) ≡ started r) =
        ground arith in
      let (dir, _, migrating) =
        >>=-started (migrations_dir host) (migrate fl ratios host) given.1 in
      let (url, migrated, tracing) = migrate-ok dir migrating in
      let (t, passed, connecting) = trace-ok url tracing in
      let (database, redis, settling) = connect-ok url t connecting in
      let (polls, lease, same_url, same_t, same_redis) =
        settle-ok url t (redis_addr host.getenv) settling in
      record {
        polls = polls;
        lease = lease;
        checked = subst (IsChecked ratios host.getenv) (sym same_t) passed;
        database = given.0;
        pinged = (database, ap host.redis_pings same_redis ∙ redis);
        migrated =
            subst
              (λ u. run_migrations (host.migrator (host.getenv (codes "DATABASE_URL")) u) ≡ none)
              (sym same_url) migrated;
      }
