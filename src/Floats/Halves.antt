-- ===== src/Floats/Halves.antt =====
-- Numbers of halves, rounded down, in the place of float64: an instance that computes.
use pay_flow_mock.Prelude.{ltb, leb, if◌then◌else◌, ℕ, zero, suc, ◌*◌, ◌/◌, ◌≤◌, ◌≡◌, true, arith}
use pay_flow_mock.Floats.{Float64}

abbrev half_power : ℕ → ℕ → ℕ
half_power x zero = 2
half_power x (suc n) = x * half_power x n / 2

pub half_mul : (r x : ℕ) → r ≤ 1 → ltb 0 x ≡ true → r * x / 2 ≤ x
half_mul zero x h p = omega arith
half_mul (suc zero) x h p = omega arith
half_mul (suc (suc r)) x h p = absurd (omega arith)

pub half_minimum : (x y : ℕ) → (if leb x y then x else y) ≤ y
half_minimum x y = ground arith

abbrev pub halves : Float64
halves = record {
  F = ℕ;
  of_duration = λ d. 2 * d;
  mul = λ a b. a * b / 2;
  power = half_power;
  minimum = λ a b. if leb a b then a else b;
  is_positive = λ a. ltb 0 a;
  truncate = λ a. a / 2;
  default_multiplier = 4;
  AtMost = λ a b. a ≤ b;
  IsFraction = λ r. r ≤ 1;
  AtMost-trans = λ x y z a b. omega arith;
  minimum-right = half_minimum;
  mul-fraction = half_mul;
  truncate-le = λ x d exact h. omega arith;
}
