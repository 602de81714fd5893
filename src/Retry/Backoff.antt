-- ===== src/Retry/Backoff.antt =====
-- Config.withDefaults and the delay between two attempts.
use pay_flow_mock.Prelude.{
  if◌then◌else◌, Bool-cases, ℤ, pos, pos_part, ◌<ℤ◌, is_nonpos, ℕ, ◌*◌, ◌≤◌, ◌<◌, inl, inr, arith,
}
use pay_flow_mock.Floats.{exact_limit, Float64}
use pay_flow_mock.Retry.{Config, millisecond, second, with_defaults, calculate_delay_with_jitter}

module _ (fl : Float64) where
  -- Every field has a usable value.
  pub record IsUsable (c : Config fl.F) : Type 0 where
    pub some_attempt : pos 0 <ℤ c.max_attempts
    pub some_base : pos 0 <ℤ c.base_delay
    pub some_cap : pos 0 <ℤ c.max_delay

  -- Whatever the configuration, the loop runs at least once and both delays are positive.
  pub with_defaults-IsUsable : (c : Config fl.F) → IsUsable (with_defaults fl c)
  unfolding with_defaults
  with_defaults-IsUsable c = record {
    some_attempt = positive c.max_attempts 3 (omega arith);
    some_base = positive c.base_delay (100 * millisecond) (omega arith);
    some_cap = positive c.max_delay (10 * second) (omega arith);
  }
    where
      positive : (x : ℤ) (d : ℕ) → 0 < d → pos 0 <ℤ (if is_nonpos x then pos d else x)
      positive x d h = ground arith

  -- A pause of the loop is at most the MaxDelay that it uses, for each configuration, attempt and
  -- random fraction, if that is at most 2^53 ns, up to which a float64 holds each nanosecond.
  pub jitter_bounded :
      (c : Config fl.F) (attempt : ℕ) (fraction : fl.F)
      → fl.IsFraction fraction
      → pos_part (with_defaults fl c).max_delay ≤ exact_limit
      → calculate_delay_with_jitter fl (with_defaults fl c) attempt fraction
        ≤ pos_part (with_defaults fl c).max_delay
  unfolding calculate_delay_with_jitter
  jitter_bounded c attempt fraction h exact =
      let cfg = with_defaults fl c in
      let exp =
        fl.mul (fl.of_duration (pos_part cfg.base_delay)) (fl.power cfg.multiplier attempt) in
      let cap = fl.of_duration (pos_part cfg.max_delay) in
      elim (Bool-cases (fl.is_positive (fl.minimum exp cap))) [
        | inl some_delay ↦ rw some_delay (
            fl.truncate-le _ _ exact (
              fl.AtMost-trans _ _ _ (fl.mul-fraction fraction _ h some_delay)
                (fl.minimum-right exp cap)))
        | inr no_delay ↦ rw no_delay (omega arith)
      ]
