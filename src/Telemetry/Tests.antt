-- ===== src/Telemetry/Tests.antt =====
-- Settings of the tracer, with ratios in tenths, of which 11 stands for NaN.
use pay_flow_mock.Prelude.{
  ltb, ◌==◌, if◌then◌else◌, Text, codes, text_eq, trim_left, trim_right, trim_space, ℕ, ◌≡◌, refl,
  inr, Bool, true, false, none, some, [], arith,
}
use pay_flow_mock.Telemetry.{
  without_prefix, trim_right_byte, Ratio64, Tracing, endpoint_of, sampler_ratio_of, init_tracer,
}

abbrev pub below_unless_nan : ℕ → ℕ → Bool
below_unless_nan x y = if x == 11 then false else (if y == 11 then false else ltb x y)

pub below_itself : (x : ℕ) → below_unless_nan x x ≡ false
below_itself x = ground arith

abbrev pub tenths : Ratio64
tenths = record {
  Ratio = ℕ;
  below = below_unless_nan;
  zero_ratio = 0;
  one_ratio = 10;
  parse_float = λ s.
      if text_eq s (codes "NaN")
      then some 11
      else (if text_eq s (codes "0.5") then some 5 else none);
  below_irrefl = below_itself;
  one_above = refl;
}

abbrev env_with : Text → Text → Text → Text
env_with endpoint ratio name =
    if text_eq name (codes "OTEL_EXPORTER_OTLP_ENDPOINT")
    then endpoint
    else (if text_eq name (codes "OTEL_TRACES_SAMPLER_ARG") then ratio else [])

abbrev half_traced : Tracing ℕ
half_traced = record {
  endpoint = codes "otel:4318";
  insecure = false;
  sampler_ratio = 5;
  service_name = codes "payflow";
  service_version = codes "dev";
  deployment_env = codes "dev";
}

half_traced_init :
    init_tracer tenths
      (env_with (codes "https://otel:4318//") (codes "0.5"))
      true
      true
      (codes "payflow")
    ≡ inr half_traced
unfolding init_tracer sampler_ratio_of endpoint_of without_prefix trim_right_byte text_eq trim_space
    trim_left trim_right
half_traced_init = refl

-- NaN is neither below 0 nor above 1, so it passes for a ratio.
nan_passes : sampler_ratio_of tenths (env_with [] []) (codes "NaN") ≡ inr 11
unfolding sampler_ratio_of text_eq
nan_passes = refl

-- A second scheme stays in the endpoint, in this order of the two.
scheme_stays : (endpoint_of (codes "https://http://otel:4318")).0 ≡ codes "http://otel:4318"
unfolding endpoint_of without_prefix trim_right_byte
scheme_stays = refl
