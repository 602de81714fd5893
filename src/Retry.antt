-- ===== src/Retry.antt =====
-- internal/retry/retry.go: bounded retries with exponential backoff and full jitter. The operation,
-- the context and the wait act on a state `W` of the world, so each call may answer otherwise.
pub mod Backoff
pub mod Bounds
pub mod Rounds
pub mod Classes
mod Tests
use pay_flow_mock.Prelude.{
  ◌==◌, if◌then◌else◌, ℤ, pos, pos_part, is_nonpos, ℕ, zero, suc, ◌-◌, ◌*◌, Bool, true, false, not,
  Option, none, some, List, [], ◌∷◌,
}
use pay_flow_mock.Errors.{
  max_retries_exceeded, Error, deadline_exceeded, network_error, wrapped, without_cause,
  as_psp_error, Result, ok, err,
}
use pay_flow_mock.Psp.Breaker.{Outcome, retryable_outcome, nonretryable_outcome}
use pay_flow_mock.Floats.{Float64}

pub record Config (F : Type 0) : Type 0 where
  pub max_attempts : ℤ
  pub base_delay : ℤ
  pub max_delay : ℤ
  pub multiplier : F

abbrev pub millisecond : ℕ
millisecond = 1000000

abbrev pub second : ℕ
second = 1000000000

-- errors.Is(err, context.DeadlineExceeded)
unfoldable pub is_deadline_exceeded : Error → Bool
is_deadline_exceeded deadline_exceeded = true
is_deadline_exceeded (wrapped l e) = is_deadline_exceeded e
is_deadline_exceeded _ = false

-- isNetworkError. context.DeadlineExceeded implements net.Error too.
unfoldable pub is_network_error : Error → Bool
is_network_error network_error = true
is_network_error deadline_exceeded = true
is_network_error (wrapped l e) = is_network_error e
is_network_error _ = false

-- IsRetryable
unfoldable pub is_retryable : Option Error → Bool
unfolding is_deadline_exceeded is_network_error
is_retryable none = false
is_retryable (some e) = elim (as_psp_error e) [
  | some pe ↦ pe.retryable
  | none ↦ if is_deadline_exceeded e then true else is_network_error e
]

module _ (fl : Float64) where
  unfoldable pub default_config : Config fl.F
  default_config = record {
    max_attempts = pos 3;
    base_delay = pos (100 * millisecond);
    max_delay = pos (10 * second);
    multiplier = fl.default_multiplier;
  }

  unfoldable pub with_defaults : Config fl.F → Config fl.F
  with_defaults c = record {
    max_attempts = if is_nonpos c.max_attempts then pos 3 else c.max_attempts;
    base_delay = if is_nonpos c.base_delay then pos (100 * millisecond) else c.base_delay;
    max_delay = if is_nonpos c.max_delay then pos (10 * second) else c.max_delay;
    multiplier = if fl.is_positive c.multiplier then c.multiplier else fl.default_multiplier;
  }

  -- calculateDelayWithJitter, with the random fraction as an argument.
  unfoldable pub calculate_delay_with_jitter : Config fl.F → ℕ → fl.F → ℕ
  calculate_delay_with_jitter cfg attempt fraction =
      let exp =
        fl.mul (fl.of_duration (pos_part cfg.base_delay)) (fl.power cfg.multiplier attempt) in
      let capped = fl.minimum exp (fl.of_duration (pos_part cfg.max_delay)) in
      if fl.is_positive capped then fl.truncate (fl.mul fraction capped) else 0

-- What a run returns: the result, the outcomes told to the observer, the world.
abbrev pub Run : Type 0 → Type 0 → Type 0
Run A W = Result A × List Outcome × W

module _ {A W : Type 0} (op : W → Result A × W) (ctx_err : W → Option Error)
    (wait : ℕ → W → Option Error × W) (max_attempts : ℕ) where
  -- The select: the context ends the loop, or the timer starts the next round.
  unfoldable pub after_wait : (Error → W → Run A W) → Error → Option Error × W → Run A W
  after_wait again e (some ctx_error, w) = (err ctx_error, retryable_outcome ∷ [], w)
  after_wait again e (none, w) =
      let (result, observed, w') = again e w in (result, retryable_outcome ∷ observed, w')

  -- One round from the answer of op on; `again` is the rounds that follow.
  unfoldable pub after_op : ℕ → (Error → W → Run A W) → Result A × W → Run A W
  unfolding after_wait
  after_op attempt again (ok a, w) = (ok a, [], w)
  after_op attempt again (err e, w) =
      if not (is_retryable (some e))
      then (err e, nonretryable_outcome ∷ [], w)
      else (if attempt == max_attempts - 1
          then (err (wrapped max_retries_exceeded e), retryable_outcome ∷ [], w)
          else after_wait again e (wait attempt w))

  -- The loop, with the number of rounds left; `wait` is given the round and picks its delay.
  unfoldable pub attempts : ℕ → ℕ → Option Error → W → Run A W
  unfolding after_op
  attempts zero attempt none w = (err (without_cause max_retries_exceeded), [], w)
  attempts zero attempt (some e) w = (err (wrapped max_retries_exceeded e), [], w)
  attempts (suc left) attempt last w =
      let again = λ (e : Error). attempts left (suc attempt) (some e) in
      elim (ctx_err w) [
        | some ctx_error ↦ (err ctx_error, [], w)
        | none ↦ after_op attempt again (op w)
      ]

-- DoWithObserver
module _ (fl : Float64) {A W : Type 0} (op : W → Result A × W) (ctx_err : W → Option Error)
    (wait : ℕ → W → Option Error × W) (fraction : ℕ → W → fl.F) where
  unfoldable pub do_with_observer : Config fl.F → W → Run A W
  unfolding attempts with_defaults calculate_delay_with_jitter
  do_with_observer config w =
      let cfg = with_defaults fl config in
      let max_attempts = pos_part cfg.max_attempts in
      let pause = λ (attempt : ℕ) (w' : W).
        wait (calculate_delay_with_jitter fl cfg attempt (fraction attempt w')) w' in
      attempts op ctx_err pause max_attempts max_attempts 0 none w
