-- ===== src/Psp/Mock/Tests.antt =====
-- The mocks over a random source that counts and rates in tenths.
use pay_flow_mock.Prelude.{
  ltb, ◌==◌, ℤ, pos, negsuc, pos_part, ◌≤ℤ◌, ◌<ℤ◌, codes, text_eq, trim_left, trim_right,
  trim_space, to_upper, quoted_bytes, quoted, ℕ, ◌+◌, ◌%◌, ◌<◌, ◌≡◌, refl, true, false, none, arith,
}
use pay_flow_mock.Psp.Brands.{stripe, razorpay}
use pay_flow_mock.Psp.Chance.{Chance}
use pay_flow_mock.Psp.Mock.{
  MockConfig, transient_code, clamp01, new_mock, stripe_mock_latency, sleep_stripe_mock,
  simulate_charge_failure, unsupported, charge_mock,
}
use pay_flow_mock.Errors.{psp_error, err}
use pay_flow_mock.Psp.{ChargeRequest, code_invalid_request, code_network_error, new_error}
use pay_flow_mock.Psp.Router.{normalize}
use pay_flow_mock.Psp.Mock.Settings.{IsSettled, new_mock-settles}
use pay_flow_mock.Psp.Mock.Answers.{ChargeEnds, charge_mock-answers}

pub ltb_irrefl : (x : ℕ) → ltb x x ≡ false
ltb_irrefl x = ground arith

pub ltb_zero : (x : ℕ) → ltb x 0 ≡ false
ltb_zero x = ground arith

pub remainder_below : (n w : ℕ) → 0 < n → w % n < n
remainder_below n w h = omega arith

pub remainder_within :
    (n : ℤ) (w : ℕ) → pos 0 <ℤ n → (pos 0 ≤ℤ pos (w % pos_part n)) × (pos (w % pos_part n) <ℤ n)
remainder_within (pos n) w h = (omega arith, omega (arith, remainder_below n w (omega arith)))
remainder_within (negsuc n) w h = absurd (omega arith)

-- The world is a counter. A rate is a number of tenths, and 11 is NaN.
abbrev pub dice : Chance ℕ
dice = record {
  Rate = ℕ;
  is_nan = λ x. x == 11;
  below = λ x y. ltb x y;
  zero_rate = 0;
  one_rate = 10;
  half_rate = 5;
  default_retryable = 4;
  default_declined = 7;
  draw = λ w. (w % 10, w + 1);
  int_n = λ n w. (w % n, w + 1);
  int64_n = λ n w. (pos (w % pos_part n), w + 1);
  sleep = λ d w. (none, w + pos_part d);
  zero_number = refl;
  one_number = refl;
  below_irrefl = ltb_irrefl;
  one_above = refl;
  draw_low = λ w. ltb_zero (w % 10);
  int_n_below = remainder_below;
  int64_n_low = λ n w h. (remainder_within n w h).0;
  int64_n_high = λ n w h. (remainder_within n w h).1;
}

abbrev wild : MockConfig ℕ
wild = record {
  min_latency = pos 30;
  max_latency = negsuc 4;
  charge_failure_rate = 7;
  refund_failure_rate = 11;
  retryable_failure_fraction = 5;
  declined_fraction = 99;
}

abbrev settled : MockConfig ℕ
settled = new_mock dice wild

abbrev euros : ChargeRequest
euros = record {
  payment_id = 4;
  amount = pos 900;
  currency = codes " eur";
  idempotency_key = codes "k-4";
}

-- Rates are cut to 10, NaN is 0, and the negative MaxLatency gives way to MinLatency.
wild_settled : new_mock dice wild ≡ record {
  min_latency = pos 30;
  max_latency = pos 30;
  charge_failure_rate = 7;
  refund_failure_rate = 0;
  retryable_failure_fraction = 5;
  declined_fraction = 10;
}
unfolding new_mock clamp01
wild_settled = refl

new_mock-settles_example :
    IsSettled dice (new_mock dice wild)
    × (new_mock dice (new_mock dice wild) ≡ new_mock dice wild)
    × ((new_mock dice wild).min_latency
        ≤ℤ (stripe_mock_latency dice
            (new_mock dice wild).min_latency
            (new_mock dice wild).max_latency
            3).0)
    × ((stripe_mock_latency dice
          (new_mock dice wild).min_latency
          (new_mock dice wild).max_latency
          3).0
        ≤ℤ (new_mock dice wild).max_latency)
new_mock-settles_example = new_mock-settles dice wild 3

charge_mock-answers_example :
    ChargeEnds dice stripe settled euros
      (sleep_stripe_mock dice settled.min_latency settled.max_latency 3).0
      (charge_mock dice stripe settled euros 3).0
charge_mock-answers_example = charge_mock-answers dice stripe settled euros 3

-- After the pause, at 61, the draw of 1 is a failure, the draw of 2 a transient one, and 63 picks its code.
transient :
    (charge_mock dice stripe settled euros 31).0
    ≡ err (
        psp_error (record {
          code = code_network_error;
          message = codes "simulated stripe transient failure";
          retryable = true;
        }))
unfolding charge_mock new_mock clamp01 sleep_stripe_mock stripe_mock_latency simulate_charge_failure
    stripe normalize to_upper trim_space trim_left trim_right text_eq transient_code new_error
transient = refl

quoted_currency :
    unsupported dice razorpay settled (codes "a\"\t")
    ≡ psp_error (record {
      code = code_invalid_request;
      message = codes "unsupported currency for razorpay mock (INR only): \"a\\\"\\t\"";
      retryable = false;
    })
unfolding unsupported new_error razorpay quoted quoted_bytes
quoted_currency = refl
