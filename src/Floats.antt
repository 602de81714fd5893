-- ===== src/Floats.antt =====
-- float64 as far as the backoff computes with it, without NaN: of the numbers here only 0 times an
-- infinity makes one, and the base delay of both configurations is above 0 once defaults are filled
-- in. Floats are an interface: the operations of the language and of package math, with the few laws
-- of rounding arithmetic that the bounds rest on. A duration of at most 2^53 nanoseconds, 104 days,
-- is a float64 without rounding.
pub mod Halves
use pay_flow_mock.Prelude.{ℕ, ◌≤◌, ◌≡◌, Bool, true}

abbrev pub exact_limit : ℕ
exact_limit = 9007199254740992

pub record Float64 : Type 1 where
  pub F : Type 0
  pub of_duration : ℕ → F  -- float64(d) of a duration of at least 0
  pub mul : F → F → F
  pub power : F → ℕ → F  -- math.Pow with an integer exponent
  pub minimum : F → F → F  -- math.Min
  pub is_positive : F → Bool  -- x > 0
  pub truncate : F → ℕ  -- time.Duration(x) of an x of at least 0
  pub default_multiplier : F  -- 2.0
  pub AtMost : F → F → Type 0
  pub IsFraction : F → Type 0  -- what rand.Float64 returns: 0 ≤ x < 1
  pub AtMost-trans : (x y z : F) → AtMost x y → AtMost y z → AtMost x z
  pub minimum-right : (x y : F) → AtMost (minimum x y) y
  pub mul-fraction : (r x : F) → IsFraction r → is_positive x ≡ true → AtMost (mul r x) x
  pub truncate-le : (x : F) (d : ℕ) → d ≤ exact_limit → AtMost x (of_duration d) → truncate x ≤ d
