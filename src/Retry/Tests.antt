-- ===== src/Retry/Tests.antt =====
-- Runs of the retry loop, with a counter as the world: the operation fails until the count is 2.
use pay_flow_mock.Prelude.{
  ltb, if◌then◌else◌, pos, pos_part, ℕ, ◌+◌, ◌≤◌, ◌≡◌, refl, sym, ◌↔◌, true, Option, none, some, [],
  ◌∷◌, arith,
}
use pay_flow_mock.Errors.{
  max_retries_exceeded, Error, deadline_exceeded, network_error, open_state, wrapped, as_psp_error,
  Result, ok, err,
}
use pay_flow_mock.Floats.{exact_limit}
use pay_flow_mock.Floats.Halves.{halves}
use pay_flow_mock.Psp.Breaker.{retryable_outcome, classify_outcome}
use pay_flow_mock.Retry.{
  Config, is_retryable, with_defaults, calculate_delay_with_jitter, do_with_observer,
}
use pay_flow_mock.Retry.Backoff.{jitter_bounded}
use pay_flow_mock.Retry.Bounds.{Reports, do_with_observer-Reports}
use pay_flow_mock.Retry.Rounds.{fails, do_with_observer-success, do_with_observer-exhausted}
use pay_flow_mock.Retry.Classes.{
  is_counted_retryable, cause, IsInfrastructure, is_retryable-eq-counted,
}

abbrev zeros : Config ℕ
zeros = record { max_attempts = pos 0; base_delay = pos 0; max_delay = pos 0; multiplier = 0 }

abbrev flaky : ℕ → Result ℕ × ℕ
flaky w = if ltb w 2 then (err network_error, w + 1) else (ok w, w + 1)

abbrev broken_op : ℕ → Result ℕ × ℕ
broken_op w = (err deadline_exceeded, w + 1)

abbrev alive : ℕ → Option Error
alive w = none

abbrev no_wait : ℕ → ℕ → Option Error × ℕ
no_wait d w = (none, w)

abbrev half : ℕ → ℕ → ℕ
half n w = 1

ten_seconds : pos_part (with_defaults halves zeros).max_delay ≤ exact_limit
unfolding with_defaults
ten_seconds = omega arith

jitter_bounded_example :
    calculate_delay_with_jitter halves (with_defaults halves zeros) 3 1
    ≤ pos_part (with_defaults halves zeros).max_delay
jitter_bounded_example = jitter_bounded halves zeros 3 1 (omega arith) ten_seconds

do_with_observer-Reports_example :
    Reports
      (pos_part (with_defaults halves zeros).max_attempts)
      (do_with_observer halves flaky alive no_wait half zeros 0)
do_with_observer-Reports_example = do_with_observer-Reports halves flaky alive no_wait half zeros 0

three : pos_part (with_defaults halves zeros).max_attempts ≡ 3
unfolding with_defaults
three = refl

network_retryable : is_retryable (some network_error) ≡ true
unfolding is_retryable as_psp_error
network_retryable = refl

deadline_retryable : is_retryable (some deadline_exceeded) ≡ true
unfolding is_retryable as_psp_error
deadline_retryable = refl

do_with_observer-success_example :
    do_with_observer halves flaky alive no_wait half zeros 0
    ≡ (ok 2, retryable_outcome ∷ retryable_outcome ∷ [], 3)
do_with_observer-success_example =
    do_with_observer-success halves flaky alive no_wait half zeros 2 0 2 3 2
      (
        network_error,
        1,
        fails 1 refl refl network_retryable refl,
        (network_error, 2, fails 2 refl refl network_retryable refl, refl),
      )
      refl refl (rw three (omega arith))

do_with_observer-exhausted_example :
    do_with_observer halves broken_op alive no_wait half zeros 0 ≡ (
      err (wrapped max_retries_exceeded deadline_exceeded),
      retryable_outcome ∷ retryable_outcome ∷ retryable_outcome ∷ [],
      3,
    )
do_with_observer-exhausted_example =
    do_with_observer-exhausted halves broken_op alive no_wait half zeros 2 0 2 3 deadline_exceeded
      (
        deadline_exceeded,
        1,
        fails 1 refl refl deadline_retryable refl,
        (deadline_exceeded, 2, fails 2 refl refl deadline_retryable refl, refl),
      )
      refl refl deadline_retryable (sym three)

is_retryable-eq-counted_example :
    (is_retryable (some open_state) ≡ is_counted_retryable (classify_outcome (some open_state)))
    ↔ (¬ IsInfrastructure (cause open_state))
is_retryable-eq-counted_example = is_retryable-eq-counted open_state
