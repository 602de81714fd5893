-- ===== src/Server/Boot.antt =====
-- How main of cmd/server/main.go comes to listen: what it reads of the environment, and what can
-- stop it, in order. What other packages answer comes from `Host`; log.Fatal ends the program.
pub mod Checks
use pay_flow_mock.Prelude.{
  if◌then◌else◌, ℤ, Text, codes, text_eq, is_empty, trim_space, ◌/◌, ◌⊎◌, inl, inr, Bool, true, not,
  Option, none, some, ◌++◌,
}
use pay_flow_mock.Floats.{Float64}
use pay_flow_mock.Idempotency.{Idempotency, new_idempotency, set_request_timeout}
use pay_flow_mock.Worker.{Config, default_config, with_defaults}
use pay_flow_mock.Telemetry.{env_or, Ratio64, Tracing, TracerError, init_tracer, redis_addr}

-- The errors of runMigrations.
pub data MigrationError : Type 0 where
  open_sql ping_database driver_failed instance_failed up_failed : MigrationError

-- What the migrations find: whether each of four calls is well, and what m.Up returns.
pub data UpResult : Type 0 where
  migrated no_change broken_up : UpResult

pub record Migrator : Type 0 where
  pub opens : Bool
  pub pings : Bool
  pub makes_driver : Bool
  pub makes_instance : Bool
  pub up : UpResult

-- The calls of log.Fatal.
pub data Fatal : Type 0 where
  database_url_required no_working_directory bad_migrations_path : Fatal
  migrations_failed : MigrationError → Fatal
  tracer_failed : TracerError → Fatal
  bad_pool_config no_pool database_silent redis_silent : Fatal
  bad_request_timeout bad_poll_interval : Text → Fatal

pub data Startup (A : Type 0) : Type 0 where
  started : A → Startup A
  stopped : Fatal → Startup A

module _ {A B : Type 0} where
  infixl 5 ◌>>=◌
  abbrev pub ◌>>=◌ : Startup A → (A → Startup B) → Startup B
  started a >>= rest = rest a
  stopped f >>= rest = stopped f

infixl 5 ◌>>◌
abbrev pub ◌>>◌ : {B : Type 0} → Startup (Unit {0}) → Startup B → Startup B
first >> rest = first >>= λ _. rest

abbrev pub stop_if : Bool → Fatal → Startup (Unit {0})
stop_if test f = if test then stopped f else started tt

-- An option that must be there.
abbrev pub or_stop : {A : Type 0} → Option A → Fatal → Startup A
or_stop none f = stopped f
or_stop (some a) f = started a

-- What main asks of the system and of other packages. A working directory is a clean path.
pub record Host : Type 0 where
  pub getenv : Text → Text
  pub working_dir : Option Text  -- os.Getwd
  pub is_dir : Text → Bool  -- os.Stat and IsDir
  pub absolute : Text → Option Text  -- filepath.Abs
  pub parse_duration : Text → Option ℤ  -- time.ParseDuration
  pub migrator : Text → Text → Migrator
  pub exporter_up : Bool
  pub resource_up : Bool
  pub pool_config : Text → Bool  -- pgxpool.ParseConfig
  pub makes_pool : Bool  -- pgxpool.NewWithConfig
  pub database_pings : Bool
  pub redis_pings : Text → Bool

-- runMigrations: `none` is the nil error.
unfoldable pub run_migrations : Migrator → Option MigrationError
run_migrations m =
    if not m.opens
    then some open_sql
    else (if not m.pings
        then some ping_database
        else (if not m.makes_driver
            then some driver_failed
            else (if not m.makes_instance then some instance_failed else elim m.up [
              | migrated ↦ none
              | no_change ↦ none
              | broken_up ↦ some up_failed
            ])))

-- filepath.Join of a clean absolute directory with one name more
abbrev pub join_path : Text → Text → Text
join_path dir name =
    if text_eq dir (codes "/") then codes "/" ++ name else dir ++ (codes "/" ++ name)

-- migrationsFileURL, on a system whose paths have slashes
unfoldable pub migrations_file_url : Host → Text → Option Text
migrations_file_url host dir = elim (host.absolute dir) [
  | none ↦ none
  | some abs ↦ some (codes "file://" ++ abs)
]

-- The directory that MIGRATIONS_PATH names, or else the one that is there.
unfoldable pub migrations_dir : Host → Startup Text
migrations_dir host =
    if not (is_empty (host.getenv (codes "MIGRATIONS_PATH")))
    then started (host.getenv (codes "MIGRATIONS_PATH"))
    else (do
      wd ← or_stop host.working_dir no_working_directory
      let up = join_path (join_path wd (codes "migrations")) (codes "up")
      started (if host.is_dir up then up else join_path wd (codes "migrations")))

-- A duration in the environment: `none` where the variable is blank.
unfoldable pub env_duration : Host → Text → (Text → Fatal) → Startup (Option ℤ)
env_duration host name bad =
    let v = trim_space (host.getenv name) in
    if is_empty v
    then started none
    else elim (host.parse_duration v) [ none ↦ stopped (bad v) | some d ↦ started (some d) ]

abbrev pub with_timeout : Idempotency → Option ℤ → Idempotency
with_timeout m none = m
with_timeout m (some d) = set_request_timeout m d

abbrev pub with_poll_interval : {F : Type 0} → Config F → Option ℤ → Config F
with_poll_interval cfg none = cfg
with_poll_interval cfg (some d) = record cfg { poll_interval = d }

-- What the running server is set to.
pub record Running (F R : Type 0) : Type 0 where
  pub addr : Text
  pub migrations_url : Text
  pub tracing : Tracing R
  pub redis : Text
  pub idempotency : Idempotency
  pub worker : Config F

module _ (fl : Float64) (ratios : Ratio64) (host : Host) where
  abbrev pub tracer_or_stop : TracerError ⊎ Tracing ratios.Ratio → Startup (Tracing ratios.Ratio)
  tracer_or_stop (inl e) = stopped (tracer_failed e)
  tracer_or_stop (inr t) = started t

  abbrev pub migrations_or_stop : Option MigrationError → Startup (Unit {0})
  migrations_or_stop none = started tt
  migrations_or_stop (some e) = stopped (migrations_failed e)

  -- The last part of main before it listens: the two durations.
  unfoldable pub settle : Text → Tracing ratios.Ratio → Text → Startup (Running fl.F ratios.Ratio)
  unfolding env_duration
  settle url tracing redis = do
    timeout ← env_duration host (codes "IDEMPOTENCY_REQUEST_TIMEOUT") bad_request_timeout
    poll ← env_duration host (codes "WEBHOOK_POLL_INTERVAL") bad_poll_interval
    let port = host.getenv (codes "PORT")
    started (record {
      addr = codes ":" ++ (if is_empty port then codes "8080" else port);
      migrations_url = url;
      tracing = tracing;
      redis = redis;
      idempotency = with_timeout (new_idempotency true true) timeout;
      worker = with_defaults fl (with_poll_interval (default_config fl) poll);
    })

  abbrev database_url : Text
  database_url = host.getenv (codes "DATABASE_URL")

  -- The pool and Redis
  unfoldable pub connect : Text → Tracing ratios.Ratio → Startup (Running fl.F ratios.Ratio)
  unfolding settle
  connect url tracing = do
    stop_if (not (host.pool_config database_url)) bad_pool_config
    stop_if (not host.makes_pool) no_pool
    stop_if (not host.database_pings) database_silent
    let redis = redis_addr host.getenv
    stop_if (not (host.redis_pings redis)) redis_silent
    settle url tracing redis

  -- The tracer
  unfoldable pub trace : Text → Startup (Running fl.F ratios.Ratio)
  unfolding connect
  trace url = do
    let service_name = env_or host.getenv (codes "OTEL_SERVICE_NAME") (codes "payflow")
    tracing ←
        tracer_or_stop
          (init_tracer ratios host.getenv host.exporter_up host.resource_up service_name)
    connect url tracing

  -- The migrations of a directory
  unfoldable pub migrate : Text → Startup (Running fl.F ratios.Ratio)
  unfolding run_migrations migrations_file_url trace
  migrate dir = do
    url ← or_stop (migrations_file_url host dir) bad_migrations_path
    migrations_or_stop (run_migrations (host.migrator database_url url))
    trace url

  -- main, up to the worker and the listener
  unfoldable pub boot : Startup (Running fl.F ratios.Ratio)
  unfolding migrations_dir migrate
  boot = do
    stop_if (is_empty database_url) database_url_required
    dir ← migrations_dir host
    migrate dir
