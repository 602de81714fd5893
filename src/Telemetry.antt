-- ===== src/Telemetry.antt =====
-- pkg/tracer/tracer.go, pkg/logger/logger.go and internal/cache/redis.go: what they read of the
-- environment. The exporter, zerolog's levels, the Redis client and strconv.ParseFloat are
-- parameters.
pub mod Settings
pub mod Tests
use pay_flow_mock.Prelude.{
  ◌==◌, if◌then◌else◌, Text, codes, is_empty, trim_space, to_lower, ℕ, ◌≡◌, ◌⊎◌, inl, inr, Bool,
  true, false, not, ◌||◌, Option, none, some, [], ◌∷◌,
}

-- strings.HasPrefix and strings.TrimPrefix
unfoldable pub without_prefix : Text → Text → Option Text
without_prefix [] s = some s
without_prefix (c ∷ p) [] = none
without_prefix (c ∷ p) (d ∷ s) = let rest = without_prefix p s in if c == d then rest else none

abbrev pub has_prefix : Text → Text → Bool
has_prefix p s = elim (without_prefix p s) [ none ↦ false | some rest ↦ true ]

abbrev pub trim_prefix : Text → Text → Text
trim_prefix p s = elim (without_prefix p s) [ none ↦ s | some rest ↦ rest ]

-- strings.TrimRight of one byte
abbrev pub drop_last : ℕ → ℕ → Text → Text
drop_last sep c [] = if c == sep then [] else c ∷ []
drop_last sep c (d ∷ s) = c ∷ d ∷ s

unfoldable pub trim_right_byte : ℕ → Text → Text
trim_right_byte sep [] = []
trim_right_byte sep (c ∷ s) = drop_last sep c (trim_right_byte sep s)

-- `v := strings.TrimSpace(os.Getenv(name)); if v == "" { v = d }`
abbrev pub env_or : (Text → Text) → Text → Text → Text
env_or getenv name d = if is_empty (trim_space (getenv name)) then d else trim_space (getenv name)

abbrev pub default_endpoint : Text
default_endpoint = codes "jaeger:4318"

abbrev pub slash : ℕ
slash = 47

-- float64 as Init reads and compares the ratio.
pub record Ratio64 : Type 1 where
  pub Ratio : Type 0
  pub below : Ratio → Ratio → Bool
  pub zero_ratio : Ratio
  pub one_ratio : Ratio
  pub parse_float : Text → Option Ratio
  pub below_irrefl : (x : Ratio) → below x x ≡ false
  pub one_above : below one_ratio zero_ratio ≡ false

pub record Tracing (R : Type 0) : Type 0 where
  pub endpoint : Text
  pub insecure : Bool
  pub sampler_ratio : R
  pub service_name : Text
  pub service_version : Text
  pub deployment_env : Text

pub data TracerError : Type 0 where
  ratio_not_parsed ratio_out_of_range exporter_failed resource_failed : TracerError

-- The scheme is told from the text as it was given, and cut off afterwards.
unfoldable pub endpoint_of : Text → Text × Bool
unfolding without_prefix trim_right_byte
endpoint_of given = (
  trim_right_byte slash (trim_prefix (codes "https://") (trim_prefix (codes "http://") given)),
  not (has_prefix (codes "https://") given),
)

module _ (fl : Ratio64) (getenv : Text → Text) where
  -- The ratio of the sampler; an error is the left.
  unfoldable pub sampler_ratio_of : Text → TracerError ⊎ fl.Ratio
  sampler_ratio_of given =
      if is_empty given then inr fl.one_ratio else elim (fl.parse_float given) [
        | none ↦ inl ratio_not_parsed
        | some parsed ↦
            if fl.below parsed fl.zero_ratio || fl.below fl.one_ratio parsed
            then inl ratio_out_of_range
            else inr parsed
      ]

  -- Init, with the answers of the exporter and of the resource.
  unfoldable pub init_tracer :
      (exporter_up resource_up : Bool) → Text → TracerError ⊎ Tracing fl.Ratio
  unfolding sampler_ratio_of endpoint_of
  init_tracer exporter_up resource_up service_name =
      let given = env_or getenv (codes "OTEL_EXPORTER_OTLP_ENDPOINT") default_endpoint in
      elim (sampler_ratio_of (trim_space (getenv (codes "OTEL_TRACES_SAMPLER_ARG")))) [
        | inl e ↦ inl e
        | inr ratio ↦
            if not exporter_up
            then inl exporter_failed
            else (if not resource_up
                then inl resource_failed
                else inr (record {
                  endpoint = (endpoint_of given).0;
                  insecure = (endpoint_of given).1;
                  sampler_ratio = ratio;
                  service_name = service_name;
                  service_version = env_or getenv (codes "OTEL_SERVICE_VERSION") (codes "dev");
                  deployment_env = env_or getenv (codes "OTEL_DEPLOYMENT_ENV") (codes "dev");
                }))
      ]

-- logger.Setup: the level that the log is set to. zerolog's levels and their parser are parameters.
unfoldable pub setup_level : {L : Type 0} → (Text → Option L) → L → (Text → Text) → L
setup_level parse_level info getenv =
    let raw = trim_space (getenv (codes "LOG_LEVEL")) in
    if is_empty raw
    then info
    else elim (parse_level (to_lower raw)) [ none ↦ info | some level ↦ level ]

-- cache.NewFromEnv: the address of Redis
unfoldable pub redis_addr : (Text → Text) → Text
redis_addr getenv =
    if is_empty (getenv (codes "REDIS_ADDR"))
    then codes "127.0.0.1:6379"
    else getenv (codes "REDIS_ADDR")
