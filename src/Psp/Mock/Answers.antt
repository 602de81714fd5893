-- ===== src/Psp/Mock/Answers.antt =====
-- What Charge of a mock answers, internal/psp/stripe_mock.go and razorpay_mock.go.
use pay_flow_mock.Prelude.{
  leb, Bool-cases, length, Text, ℕ, zero, suc, ◌<◌, ◌≡◌, refl, ◌⊎◌, inl, inr, Bool, true, false,
  ◌&&◌, ◌||◌, Option, none, some, [], ◌∷◌, ◌++◌, arith,
}
use pay_flow_mock.Errors.{Error, psp_error, Result, ok, err}
use pay_flow_mock.Psp.{
  captured, declined, ChargeRequest, ChargeResponse, code_insufficient_funds, code_network_error,
  code_rate_limited, code_service_unavailable, new_error,
}
use pay_flow_mock.Psp.Brands.{Brand}
use pay_flow_mock.Psp.Chance.{Chance}
use pay_flow_mock.Psp.Mock.{
  MockConfig, alphabet, transient_code, byte_at, clamp01, default_mock_config, new_mock,
  stripe_mock_latency, sleep_stripe_mock, random_suffix, simulate_charge_failure, capture,
  unsupported, charge_awake, charge_mock,
}
use pay_flow_mock.Psp.Router.{normalize}

-- The codes of failures that may pass by themselves.
pub data IsTransient : Text → Type 0 where
  network : IsTransient code_network_error
  rate : IsTransient code_rate_limited
  service : IsTransient code_service_unavailable

-- The letters and digits of which the mocks make ids.
abbrev pub is_id_byte : ℕ → Bool
is_id_byte c = (leb 97 c && leb c 122) || (leb 48 c && leb c 57)

unfoldable pub all_id_bytes : Text → Bool
all_id_bytes [] = true
all_id_bytes (c ∷ s) = is_id_byte c && all_id_bytes s

byte_at-is_id_byte :
    (i : ℕ) (s : Text) → all_id_bytes s ≡ true → i < length s → is_id_byte (byte_at i s) ≡ true
unfolding all_id_bytes
byte_at-is_id_byte i [] h l = absurd (omega arith)
byte_at-is_id_byte zero (c ∷ s) h l = ground arith
byte_at-is_id_byte (suc i) (c ∷ s) h l = byte_at-is_id_byte i s (ground arith) (omega arith)

alphabet-all_id_bytes : all_id_bytes alphabet ≡ true
unfolding all_id_bytes
alphabet-all_id_bytes = refl

-- The answers of a charge in a currency that the brand takes.
pub data Expected (b : Brand) : Result ChargeResponse → Type 0 where
  captures :
      (suffix : Text)
      → length suffix ≡ b.suffix_length
      → all_id_bytes suffix ≡ true
      → Expected b (ok (record { psp_reference_id = b.charge_prefix ++ suffix; status = captured }))
  declines : Expected b (ok (record { psp_reference_id = []; status = declined }))
  transient_failure :
      (code message : Text)
      → IsTransient code
      → Expected b (err (psp_error (record { code = code; message = message; retryable = true })))
  refuses :
      (message : Text)
      → Expected b (
          err (
            psp_error
              (record { code = code_insufficient_funds; message = message; retryable = false })))

transient_code-IsTransient : (i : ℕ) → IsTransient (transient_code i)
unfolding transient_code
transient_code-IsTransient zero = network
transient_code-IsTransient (suc zero) = rate
transient_code-IsTransient (suc (suc i)) = service

module _ {W : Type 0} (ch : Chance W) where
  random_suffix-shape :
      (n : ℕ) (w : W)
      → (length (random_suffix ch n w).0 ≡ n) × (all_id_bytes (random_suffix ch n w).0 ≡ true)
  unfolding random_suffix all_id_bytes
  random_suffix-shape zero w = (refl, refl)
  random_suffix-shape (suc n) w =
      let i_below = ch.int_n_below 36 w (omega arith) in
      let (long, all) = random_suffix-shape n (ch.int_n 36 w).1 in
      (
        omega (arith, long),
        rw (byte_at-is_id_byte _ alphabet alphabet-all_id_bytes i_below, all) refl,
      )

  module _ (b : Brand) (m : MockConfig ch.Rate) where
    simulate-Expected : (w : W) → Expected b (simulate_charge_failure ch b m w).0
    unfolding simulate_charge_failure new_error
    simulate-Expected w = elim (Bool-cases (ch.below (ch.draw w).0 m.retryable_failure_fraction)) [
      | inl retry ↦ rw retry (transient_failure _ _ (transient_code-IsTransient _))
      | inr final ↦
          rw final elim (Bool-cases (ch.below (ch.draw (ch.draw w).1).0 m.declined_fraction)) [
            | inl decline ↦ rw decline declines
            | inr other ↦ rw other (refuses _)
          ]
    ]

    capture-Expected : (w : W) → Expected b (capture ch b m w).0
    capture-Expected w =
        let (long, all) = random_suffix-shape b.suffix_length w in
        captures (random_suffix ch b.suffix_length w).0 long all

    -- Every end of a charge: the context ends the pause, the currency is not the brand's, or the
    -- answer is one of the four that are expected.
    abbrev pub ChargeEnds : ChargeRequest → Option Error → Result ChargeResponse → Type 0
    ChargeEnds req slept result =
        ((e : Error) × (slept ≡ some e) × (result ≡ err e))
        ⊎ ((b.supports (normalize req.currency) ≡ false)
            × (result ≡ err (unsupported ch b m req.currency)))
        ⊎ ((b.supports (normalize req.currency) ≡ true) × Expected b result)

    charge_awake-ChargeEnds :
        (req : ChargeRequest) (slept : Option Error × W)
        → ChargeEnds req slept.0 (charge_awake ch b m req slept).0
    charge_awake-ChargeEnds req (some e, w) = inl (e, refl, refl)
    charge_awake-ChargeEnds req (none, w) =
        elim (Bool-cases (b.supports (normalize req.currency))) [
          | inr foreign ↦ inr (inl (foreign, rw foreign refl))
          | inl taken ↦ inr (
              inr (
                taken,
                rw taken elim (Bool-cases (ch.below (ch.draw w).0 m.charge_failure_rate)) [
                  | inl fails ↦ rw fails (simulate-Expected (ch.draw w).1)
                  | inr works ↦ rw works (capture-Expected (ch.draw w).1)
                ],
              ))
        ]

    -- A charge at a mock ends in one of these ways, whatever its rates and latencies: the error of
    -- the context that ended the pause; invalid_request for a currency that is not the brand's; a
    -- capture under an id of the brand's shape; a decline without an id; an error with a transient
    -- code that is marked as retryable; or insufficient_funds that is not.
    pub charge_mock-answers :
        (req : ChargeRequest) (w : W)
        → ChargeEnds req
            (sleep_stripe_mock ch m.min_latency m.max_latency w).0
            (charge_mock ch b m req w).0
    unfolding charge_mock
    charge_mock-answers req w =
        charge_awake-ChargeEnds req (sleep_stripe_mock ch m.min_latency m.max_latency w)

  -- A mock with the default settings captures every charge in a currency of its brand, at once.
  pub default_charge-captures :
      (b : Brand) (req : ChargeRequest) (w : W)
      → b.supports (normalize req.currency) ≡ true
      → (charge_mock ch b (new_mock ch (default_mock_config ch)) req w).0
        ≡ ok (record {
          psp_reference_id = b.charge_prefix ++ (random_suffix ch b.suffix_length (ch.draw w).1).0;
          status = captured;
        })
  unfolding charge_mock new_mock default_mock_config sleep_stripe_mock stripe_mock_latency clamp01
  default_charge-captures b req w taken =
      rw (ch.zero_number, ch.below_irrefl ch.zero_rate, ch.one_above, taken, ch.draw_low w) refl
