-- ===== src/Psp/Mock.antt =====
-- internal/psp/stripe_mock.go and razorpay_mock.go: the providers that stand in for Stripe and
-- Razorpay. The two files differ in what Psp.Brands holds, and share sleepStripeMock and clamp01. What
-- the random source and the timer answer comes from Psp.Chance.
pub mod Settings
pub mod Answers
pub mod Tests
use pay_flow_mock.Prelude.{
  if◌then◌else◌, ℤ, pos, ltb_ℤ, eq_ℤ, is_nonpos, add_ℤ, sub_ℤ, Text, codes, quoted, ℕ, zero, suc,
  true, false, not, ◌&&◌, Option, none, some, [], ◌∷◌, ◌++◌,
}
use pay_flow_mock.Psp.Brands.{Brand, stripe, razorpay}
use pay_flow_mock.Psp.Chance.{Chance}
use pay_flow_mock.Errors.{Error, psp_error, Result, ok, err}
use pay_flow_mock.Psp.{
  captured, declined, refund_succeeded, ChargeRequest, ChargeResponse, RefundRequest,
  RefundResponse, PspAdapter, code_insufficient_funds, code_invalid_request, code_network_error,
  code_rate_limited, code_service_unavailable, new_error,
}
use pay_flow_mock.Psp.Router.{normalize}

-- StripeMockConfig and RazorpayMockConfig, which have the same fields.
pub record MockConfig (Rate : Type 0) : Type 0 where
  pub min_latency : ℤ
  pub max_latency : ℤ
  pub charge_failure_rate : Rate
  pub refund_failure_rate : Rate
  pub retryable_failure_fraction : Rate
  pub declined_fraction : Rate

abbrev pub alphabet : Text
alphabet = codes "abcdefghijklmnopqrstuvwxyz0123456789"

-- `[]string{…}[i]` of simulateChargeFailure, for the i below 3 that IntN gives
unfoldable pub transient_code : ℕ → Text
transient_code zero = code_network_error
transient_code (suc zero) = code_rate_limited
transient_code _ = code_service_unavailable

-- `alphabet[i]`; IntN gives no index beyond the end.
abbrev pub byte_at : ℕ → Text → ℕ
byte_at i [] = 0
byte_at zero (c ∷ s) = c
byte_at (suc i) (c ∷ s) = byte_at i s

module _ {W : Type 0} (ch : Chance W) where
  unfoldable pub clamp01 : ch.Rate → ch.Rate
  clamp01 x =
      if ch.is_nan x
      then ch.zero_rate
      else (if ch.below x ch.zero_rate
          then ch.zero_rate
          else (if ch.below ch.one_rate x then ch.one_rate else x))

  unfoldable pub default_mock_config : MockConfig ch.Rate
  default_mock_config = record {
    min_latency = pos 0;
    max_latency = pos 0;
    charge_failure_rate = ch.zero_rate;
    refund_failure_rate = ch.zero_rate;
    retryable_failure_fraction = ch.default_retryable;
    declined_fraction = ch.default_declined;
  }

  abbrev at_least_zero : ℤ → ℤ
  at_least_zero d = if ltb_ℤ d (pos 0) then pos 0 else d

  -- NewStripeMock and NewRazorpayMock
  unfoldable pub new_mock : MockConfig ch.Rate → MockConfig ch.Rate
  unfolding clamp01
  new_mock cfg =
      let low = at_least_zero cfg.min_latency in
      let high = at_least_zero cfg.max_latency in
      record {
        min_latency = low;
        max_latency = if ltb_ℤ high low then low else high;
        charge_failure_rate = clamp01 cfg.charge_failure_rate;
        refund_failure_rate = clamp01 cfg.refund_failure_rate;
        retryable_failure_fraction = clamp01 cfg.retryable_failure_fraction;
        declined_fraction = clamp01 cfg.declined_fraction;
      }

  unfoldable pub stripe_mock_latency : ℤ → ℤ → W → ℤ × W
  stripe_mock_latency min_d max_d w =
      let max_or_min = if eq_ℤ max_d (pos 0) then min_d else max_d in
      if eq_ℤ min_d (pos 0) && eq_ℤ max_d (pos 0)
      then (pos 0, w)
      else (if eq_ℤ min_d max_or_min
          then (min_d, w)
          else (let (ns, w') = ch.int64_n (sub_ℤ max_or_min min_d) w in (add_ℤ min_d ns, w')))

  -- `none` is the nil error.
  unfoldable pub sleep_stripe_mock : ℤ → ℤ → W → Option Error × W
  unfolding stripe_mock_latency
  sleep_stripe_mock min_d max_d w =
      let (d, w') = stripe_mock_latency min_d max_d w in
      if is_nonpos d then (none, w') else ch.sleep d w'

  unfoldable pub random_suffix : ℕ → W → Text × W
  random_suffix zero w = ([], w)
  random_suffix (suc n) w =
      let (i, w1) = ch.int_n 36 w in
      let (rest, w2) = random_suffix n w1 in (byte_at i alphabet ∷ rest, w2)

  module _ (b : Brand) (m : MockConfig ch.Rate) where
    unfoldable pub simulate_charge_failure : W → Result ChargeResponse × W
    unfolding transient_code new_error
    simulate_charge_failure w =
        let (retry_draw, w1) = ch.draw w in
        let (code, w2) = ch.int_n 3 w1 in
        let (decline_draw, w3) = ch.draw w1 in
        if ch.below retry_draw m.retryable_failure_fraction
        then (err (psp_error (new_error (transient_code code) b.transient_charge_message true)), w2)
        else (if ch.below decline_draw m.declined_fraction
            then (ok (record { psp_reference_id = []; status = declined }), w3)
            else (
              err (
                  psp_error (
                    new_error code_insufficient_funds (codes "simulated insufficient funds")
                      false)),
              w3,
            ))

    abbrev pub drawn_order_id : W → W
    drawn_order_id w = if b.draws_order_id then (random_suffix b.suffix_length w).1 else w

    abbrev pub capture : W → Result ChargeResponse × W
    capture w =
        let (suffix, w') = random_suffix b.suffix_length w in
        (
          ok (record { psp_reference_id = b.charge_prefix ++ suffix; status = captured }),
          drawn_order_id w',
        )

    unfoldable pub unsupported : Text → Error
    unfolding new_error quoted
    unsupported currency =
        psp_error (new_error code_invalid_request (b.unsupported_message ++ quoted currency) false)

    abbrev pub charge_awake : ChargeRequest → Option Error × W → Result ChargeResponse × W
    charge_awake req (some e, w) = (err e, w)
    charge_awake req (none, w) =
        let (fail_draw, w') = ch.draw w in
        if not (b.supports (normalize req.currency))
        then (err (unsupported req.currency), w)
        else (if ch.below fail_draw m.charge_failure_rate
            then simulate_charge_failure w'
            else capture w')

    -- The method Charge.
    unfoldable pub charge_mock : ChargeRequest → W → Result ChargeResponse × W
    unfolding sleep_stripe_mock simulate_charge_failure random_suffix unsupported normalize
    charge_mock req w = charge_awake req (sleep_stripe_mock m.min_latency m.max_latency w)

    abbrev pub refund_accepted : W → Result RefundResponse × W
    refund_accepted w =
        let (suffix, w') = random_suffix b.suffix_length w in
        (ok (record { psp_refund_id = b.refund_prefix ++ suffix; status = refund_succeeded }), w')

    -- A simulated failure of a refund.
    abbrev pub simulate_refund_failure : W → Result RefundResponse × W
    simulate_refund_failure w =
        let (retry_draw, w') = ch.draw w in
        if ch.below retry_draw ch.half_rate
        then (err (psp_error (new_error code_network_error b.transient_refund_message true)), w')
        else (err (psp_error (new_error code_invalid_request b.rejected_refund_message false)), w')

    abbrev pub refund_awake : RefundRequest → Option Error × W → Result RefundResponse × W
    refund_awake req (some e, w) = (err e, w)
    refund_awake req (none, w) =
        let (fail_draw, w') = ch.draw w in
        if not (b.supports (normalize req.currency))
        then (err (unsupported req.currency), w)
        else (if ch.below fail_draw m.refund_failure_rate
            then simulate_refund_failure w'
            else refund_accepted w')

    -- The method Refund.
    unfoldable pub refund_mock : RefundRequest → W → Result RefundResponse × W
    unfolding sleep_stripe_mock random_suffix unsupported normalize new_error
    refund_mock req w = refund_awake req (sleep_stripe_mock m.min_latency m.max_latency w)

    -- The mock as the adapter that it implements.
    unfoldable pub mock_adapter : PspAdapter W
    unfolding charge_mock refund_mock
    mock_adapter = record { name = b.brand_name; charge = charge_mock; refund = refund_mock }

  -- psp.NewStripeMock and psp.NewRazorpayMock, as adapters
  unfoldable pub new_stripe_mock : MockConfig ch.Rate → PspAdapter W
  unfolding mock_adapter new_mock stripe
  new_stripe_mock cfg = mock_adapter stripe (new_mock cfg)

  unfoldable pub new_razorpay_mock : MockConfig ch.Rate → PspAdapter W
  unfolding mock_adapter new_mock razorpay
  new_razorpay_mock cfg = mock_adapter razorpay (new_mock cfg)
