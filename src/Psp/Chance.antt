-- ===== src/Psp/Chance.antt =====
-- What the mocks of internal/psp ask of packages math, math/rand/v2 and time.
use pay_flow_mock.Prelude.{ℤ, pos, ◌≤ℤ◌, ◌<ℤ◌, ℕ, ◌<◌, ◌≡◌, Bool, false, Option}
use pay_flow_mock.Errors.{Error}

-- float64 as far as the mocks compare rates, with package math/rand and the timer on the state `W`
-- of the world. A duration is in int64, and the numbers here stay within it.
pub record Chance (W : Type 0) : Type 1 where
  pub Rate : Type 0  -- float64
  pub is_nan : Rate → Bool  -- math.IsNaN
  pub below : Rate → Rate → Bool  -- x < y
  pub zero_rate : Rate  -- 0
  pub one_rate : Rate  -- 1
  pub half_rate : Rate  -- 0.5
  pub default_retryable : Rate  -- 0.4
  pub default_declined : Rate  -- 0.7
  pub draw : W → Rate × W  -- rand.Float64
  pub int_n : ℕ → W → ℕ × W  -- rand.IntN
  pub int64_n : ℤ → W → ℤ × W  -- rand.Int64N
  pub sleep : ℤ → W → Option Error × W  -- the timer against ctx.Done
  pub zero_number : is_nan zero_rate ≡ false
  pub one_number : is_nan one_rate ≡ false
  pub below_irrefl : (x : Rate) → below x x ≡ false
  pub one_above : below one_rate zero_rate ≡ false
  pub draw_low : (w : W) → below (draw w).0 zero_rate ≡ false
  pub int_n_below : (n : ℕ) (w : W) → 0 < n → (int_n n w).0 < n
  pub int64_n_low : (n : ℤ) (w : W) → pos 0 <ℤ n → pos 0 ≤ℤ (int64_n n w).0
  pub int64_n_high : (n : ℤ) (w : W) → pos 0 <ℤ n → (int64_n n w).0 <ℤ n
