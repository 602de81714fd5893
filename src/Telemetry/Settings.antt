-- ===== src/Telemetry/Settings.antt =====
-- What Init of pkg/tracer/tracer.go hands to the exporter and the sampler.
use pay_flow_mock.Prelude.{
  ◌==◌, Option-cases, Text, codes, trim_space, ℕ, ◌≡◌, refl, ◌⊎◌, inl, inr, Bool, false, not, [],
  ◌∷◌, arith,
}
use pay_flow_mock.Telemetry.{
  has_prefix, trim_prefix, drop_last, trim_right_byte, env_or, default_endpoint, slash, Ratio64,
  Tracing, endpoint_of, sampler_ratio_of, init_tracer,
}

abbrev pub ends_in : ℕ → Text → Bool
ends_in sep [] = false
ends_in sep (c ∷ []) = c == sep
ends_in sep (c ∷ d ∷ s) = ends_in sep (d ∷ s)

ends_in-drop_last :
    (sep c : ℕ) (s : Text) → ends_in sep s ≡ false → ends_in sep (drop_last sep c s) ≡ false
ends_in-drop_last sep c [] h = ground arith
ends_in-drop_last sep c (d ∷ s) h = h

ends_in-trim_right_byte : (sep : ℕ) (s : Text) → ends_in sep (trim_right_byte sep s) ≡ false
unfolding trim_right_byte
ends_in-trim_right_byte sep [] = refl
ends_in-trim_right_byte sep (c ∷ s) =
    ends_in-drop_last sep c (trim_right_byte sep s) (ends_in-trim_right_byte sep s)

endpoint_of-no_slash : (given : Text) → ends_in slash (endpoint_of given).0 ≡ false
unfolding endpoint_of
endpoint_of-no_slash given =
    ends_in-trim_right_byte slash
      (trim_prefix (codes "https://") (trim_prefix (codes "http://") given))

Sum-cases : {A B : Type 0} (o : A ⊎ B) → ((a : A) × (o ≡ inl a)) ⊎ ((b : B) × (o ≡ inr b))
Sum-cases (inl a) = inl (a, refl)
Sum-cases (inr b) = inr (b, refl)

module _ (fl : Ratio64) (getenv : Text → Text) where
  -- What Init's checks and cuts amount to: the endpoint has no slash at its end, spans go in clear
  -- exactly if the endpoint as given does not begin with https://, and the sampler's ratio is neither
  -- below 0 nor above 1. NaN is neither too, and a second scheme may be left in the endpoint.
  pub record IsChecked (t : Tracing fl.Ratio) : Type 0 where
    pub no_slash : ends_in slash t.endpoint ≡ false
    pub clear :
        t.insecure
        ≡ not (
            has_prefix
              (codes "https://")
              (env_or getenv (codes "OTEL_EXPORTER_OTLP_ENDPOINT") default_endpoint))
    pub not_below : fl.below t.sampler_ratio fl.zero_ratio ≡ false
    pub not_above : fl.below fl.one_ratio t.sampler_ratio ≡ false

  sampler_ratio_of-ok :
      (given : Text) {ratio : fl.Ratio}
      → sampler_ratio_of fl getenv given ≡ inr ratio
      → (fl.below ratio fl.zero_ratio ≡ false) × (fl.below fl.one_ratio ratio ≡ false)
  unfolding sampler_ratio_of
  sampler_ratio_of-ok given h = elim (Option-cases (fl.parse_float given)) [
    | inl bad ↦ ground (arith, fl.below_irrefl fl.one_ratio, fl.one_above)
    | inr (parsed, good) ↦ ground (arith, fl.below_irrefl fl.one_ratio, fl.one_above)
  ]

  -- Where Init ends well, whatever the environment, its settings have passed its checks.
  pub init_tracer-IsChecked :
      (exporter_up resource_up : Bool) (service_name : Text) {t : Tracing fl.Ratio}
      → init_tracer fl getenv exporter_up resource_up service_name ≡ inr t
      → IsChecked t
  unfolding init_tracer
  init_tracer-IsChecked exporter_up resource_up service_name h =
      elim (Sum-cases
        (sampler_ratio_of fl getenv (trim_space (getenv (codes "OTEL_TRACES_SAMPLER_ARG"))))) [
          | inl (e, bad) ↦ absurd (ground arith)
          | inr (ratio, good) ↦
              let (low, high) =
                sampler_ratio_of-ok (trim_space (getenv (codes "OTEL_TRACES_SAMPLER_ARG"))) good in
              record {
                no_slash = ground (
                  arith,
                  endpoint_of-no_slash
                      (env_or getenv (codes "OTEL_EXPORTER_OTLP_ENDPOINT") default_endpoint),
                );
                clear = ground arith;
                not_below = ground arith;
                not_above = ground arith;
              }
        ]
