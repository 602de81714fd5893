-- ===== src/Psp/Mock/Settings.antt =====
-- The settings of a mock, as NewStripeMock and NewRazorpayMock leave them, in
-- internal/psp/stripe_mock.go and razorpay_mock.go.
use pay_flow_mock.Prelude.{
  ltb, ltb→lt, Bool-cases, ℤ, pos, negsuc, ◌≤ℤ◌, ◌<ℤ◌, ltb_ℤ, eq_ℤ, add_ℤ, sub_ℤ, ℕ, ◌-◌, ◌<◌, ◌≡◌,
  refl, inl, inr, false, ◌&&◌, arith,
}
use pay_flow_mock.Psp.Chance.{Chance}
use pay_flow_mock.Psp.Mock.{MockConfig, clamp01, new_mock, stripe_mock_latency}

module _ {W : Type 0} (ch : Chance W) where
  open ch use {Rate, is_nan, below, zero_rate, one_rate}

  -- A number from 0 to 1.
  pub record IsRate (x : Rate) : Type 0 where
    pub number : is_nan x ≡ false
    pub low : below x zero_rate ≡ false
    pub high : below one_rate x ≡ false

  zero-IsRate : IsRate zero_rate
  zero-IsRate = record {
    number = ch.zero_number;
    low = ch.below_irrefl zero_rate;
    high = ch.one_above;
  }

  one-IsRate : IsRate one_rate
  one-IsRate = record {
    number = ch.one_number;
    low = ch.one_above;
    high = ch.below_irrefl one_rate;
  }

  pub clamp01-IsRate : (x : Rate) → IsRate (clamp01 ch x)
  unfolding clamp01
  clamp01-IsRate x = elim (Bool-cases (is_nan x)) [
    | inl nan ↦ rw nan zero-IsRate
    | inr number ↦ rw number elim (Bool-cases (below x zero_rate)) [
      | inl low ↦ rw low zero-IsRate
      | inr low ↦ rw low elim (Bool-cases (below one_rate x)) [
        | inl high ↦ rw high one-IsRate
        | inr high ↦ rw high (record { number = number; low = low; high = high })
      ]
    ]
  ]

  clamp01-eq : (x : Rate) → IsRate x → clamp01 ch x ≡ x
  unfolding clamp01
  clamp01-eq x h = rw (h.number, h.low, h.high) refl

  -- Rates from 0 to 1, and latencies that are in order.
  pub record IsSettled (m : MockConfig Rate) : Type 0 where
    pub ordered : m.min_latency ≤ℤ m.max_latency
    pub nonnegative : pos 0 ≤ℤ m.min_latency
    pub charge_rate : IsRate m.charge_failure_rate
    pub refund_rate : IsRate m.refund_failure_rate
    pub retryable_rate : IsRate m.retryable_failure_fraction
    pub declined_rate : IsRate m.declined_fraction

  new_mock-IsSettled : (c : MockConfig Rate) → IsSettled (new_mock ch c)
  unfolding new_mock
  new_mock-IsSettled c = record {
    ordered = ground arith;
    nonnegative = ground arith;
    charge_rate = clamp01-IsRate _;
    refund_rate = clamp01-IsRate _;
    retryable_rate = clamp01-IsRate _;
    declined_rate = clamp01-IsRate _;
  }

  new_mock-eq : (m : MockConfig Rate) → IsSettled m → new_mock ch m ≡ m
  unfolding new_mock
  new_mock-eq m h =
      let low : ltb_ℤ m.min_latency (pos 0) ≡ false = ground (arith, h.nonnegative) in
      let high : ltb_ℤ m.max_latency (pos 0) ≡ false = ground (arith, h.nonnegative, h.ordered) in
      let order : ltb_ℤ m.max_latency m.min_latency ≡ false = ground (arith, h.ordered) in
      rw
        (
          low,
          high,
          order,
          clamp01-eq m.charge_failure_rate h.charge_rate,
          clamp01-eq m.refund_failure_rate h.refund_rate,
          clamp01-eq m.retryable_failure_fraction h.retryable_rate,
          clamp01-eq m.declined_fraction h.declined_rate,
        )
        refl

  latency-fixed : (a : ℕ) (w : W) → stripe_mock_latency ch (pos a) (pos a) w ≡ (pos a, w)
  unfolding stripe_mock_latency
  latency-fixed a w = ground arith

  latency-drawn :
      (a b : ℕ) (w : W)
      → a < b
      → (stripe_mock_latency ch (pos a) (pos b) w).0 ≡ add_ℤ (pos a) (ch.int64_n (pos (b - a)) w).0
  unfolding stripe_mock_latency
  latency-drawn a b w h =
      let some_max : eq_ℤ (pos b) (pos 0) ≡ false = ground arith in
      let some_latency : (eq_ℤ (pos a) (pos 0) && eq_ℤ (pos b) (pos 0)) ≡ false = ground arith in
      let differ : eq_ℤ (pos a) (pos b) ≡ false = ground arith in
      let gap : sub_ℤ (pos b) (pos a) ≡ pos (b - a) = ground arith in
      rw (some_latency, some_max, differ, gap) refl

  added :
      (a b : ℕ) (ns : ℤ)
      → pos 0 ≤ℤ ns
      → ns <ℤ pos (b - a)
      → (pos a ≤ℤ add_ℤ (pos a) ns) × (add_ℤ (pos a) ns ≤ℤ pos b)
  added a b (pos n) low high = (ground arith, ground arith)
  added a b (negsuc n) low high = absurd (omega arith)

  -- With settled latencies Int64N is only given numbers above 0, so it has an answer.
  latency-bounds :
      (min_d max_d : ℤ) (w : W)
      → pos 0 ≤ℤ min_d
      → min_d ≤ℤ max_d
      → (min_d ≤ℤ (stripe_mock_latency ch min_d max_d w).0)
        × ((stripe_mock_latency ch min_d max_d w).0 ≤ℤ max_d)
  latency-bounds (pos a) (pos b) w low order = elim (Bool-cases (ltb a b)) [
    | inl less ↦
        let ordered = ltb→lt a b less in
        let gap : pos 0 <ℤ pos (b - a) = omega arith in
        let drawn = (ch.int64_n (pos (b - a)) w).0 in
        let above_zero : pos 0 ≤ℤ drawn = ch.int64_n_low (pos (b - a)) w gap in
        let below_gap : drawn <ℤ pos (b - a) = ch.int64_n_high (pos (b - a)) w gap in
        rw (latency-drawn a b w (omega arith)) (added a b drawn above_zero below_gap)
    | inr same ↦
        let e : a ≡ b = ground (arith, same) in rw (e, latency-fixed b w) (omega arith, omega arith)
  ]
  latency-bounds (negsuc a) b w low order = absurd (omega arith)
  latency-bounds (pos a) (negsuc b) w low order = absurd (omega arith)

  -- Whatever the configuration, the mock that is built of it has rates from 0 to 1 and latencies in
  -- order and not below 0; building one of its settings changes nothing; and each pause of it is
  -- within its two latencies, Int64N being asked only for numbers above 0.
  pub new_mock-settles :
      (c : MockConfig Rate) (w : W)
      → IsSettled (new_mock ch c)
        × (new_mock ch (new_mock ch c) ≡ new_mock ch c)
        × ((new_mock ch c).min_latency
            ≤ℤ (stripe_mock_latency ch (new_mock ch c).min_latency (new_mock ch c).max_latency w).0)
        × ((stripe_mock_latency ch (new_mock ch c).min_latency (new_mock ch c).max_latency w).0
            ≤ℤ (new_mock ch c).max_latency)
  new_mock-settles c w =
      let settled = new_mock-IsSettled c in
      let (low, high) = latency-bounds _ _ w settled.nonnegative settled.ordered in
      (settled, new_mock-eq (new_mock ch c) settled, low, high)
