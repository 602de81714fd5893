-- ===== src/Server/Live.antt =====
-- The assembled server, cmd/server/main.go, takes payments.
use pay_flow_mock.Prelude.{
  if◌then◌else◌, Text, text_eq, trim_left, trim_right, trim_space, to_upper, to_upper-trim_space, ℕ,
  ◌≡◌, refl, ap, ◌∙◌, ◌≢◌, inl, inr, Bool, true, false, none, some, arith,
}
use pay_flow_mock.Errors.{ok}
use pay_flow_mock.Psp.{captured, ChargeRequest, ChargeResponse, PspAdapter}
use pay_flow_mock.Psp.Brands.{Brand, stripe, razorpay}
use pay_flow_mock.Psp.Chance.{Chance}
use pay_flow_mock.Psp.Mock.{
  default_mock_config, new_mock, charge_mock, mock_adapter, new_stripe_mock, new_razorpay_mock,
}
use pay_flow_mock.Psp.Mock.Answers.{default_charge-captures}
use pay_flow_mock.Psp.Breaker.{error_of, new_circuit_breaker_adapter}
use pay_flow_mock.Psp.Router.{normalize}
use pay_flow_mock.Retry.{default_config}
use pay_flow_mock.Server.{Breakers, stripe_adapter, razorpay_adapter, server_router, server_service}
use pay_flow_mock.Domain.{success, nil_id, CreatePaymentRequest, currency_inr, valid_currency}
use pay_flow_mock.Psp.Breaker.Calls.{breaker_charge-runs}
use pay_flow_mock.Psp.Router.Defaults.{valid_currency_cases, planned}
use pay_flow_mock.Floats.{Float64}
use pay_flow_mock.Repository.{find_payment, find_payment_by_key}
use pay_flow_mock.Repository.Up.{IsConfigured}
use pay_flow_mock.Repository.Payments.{PaymentRepo}
use pay_flow_mock.Service.{
  State, Outside, new_payment_service, validate_currency_and_key, validate_create_payment_request,
}
use pay_flow_mock.Service.Payments.{new_payment, charge_request, create_payment_service}
use pay_flow_mock.Service.Live.{IsQuiet, create-up}
use pay_flow_mock.Service.Answers.{Stored, create-truthful}
use pay_flow_mock.Service.Validated.{validated-routed}

-- The breaker accepts whatever comes, as it does while it is closed.
abbrev pub StaysClosed : {X : Type 0} → Breakers X → Type 0
StaysClosed {X} b = (x : X) → b.laws.accepts x ≡ true

-- The adapter captures the charge, whenever it is asked.
abbrev CapturesIt : {X : Type 0} → PspAdapter X → ChargeRequest → X → Type 0
CapturesIt {X} adapter req x =
    (resp : ChargeResponse) × (x' : X) × (adapter.charge req x ≡ (ok resp, x'))
    × (resp.status ≡ captured)

taken_by_chosen :
    (c : Text)
    → valid_currency c ≡ true
    → (text_eq c currency_inr ≡ true → razorpay.supports (normalize c) ≡ true)
      × (text_eq c currency_inr ≡ false → stripe.supports (normalize c) ≡ true)
unfolding stripe razorpay normalize to_upper trim_space trim_left trim_right text_eq
taken_by_chosen c valid = elim (valid_currency_cases c valid) [
  | inl e ↦ rw e ((λ h. cc), (λ h. refl))
  | inr (inl e) ↦ rw e ((λ h. cc), (λ h. refl))
  | inr (inr (inl e)) ↦ rw e ((λ h. cc), (λ h. refl))
  | inr (inr (inr e)) ↦ rw e ((λ h. refl), (λ h. cc))
]

module _ {X : Type 0} (ch : Chance X) where
  default_mock-CapturesIt :
      (b : Brand) (req : ChargeRequest) (x : X)
      → b.supports (normalize req.currency) ≡ true
      → CapturesIt (mock_adapter ch b (new_mock ch (default_mock_config ch))) req x
  unfolding mock_adapter
  default_mock-CapturesIt b req x taken = (
    _,
    (charge_mock ch b (new_mock ch (default_mock_config ch)) req x).1,
    ap (λ r. (r, (charge_mock ch b (new_mock ch (default_mock_config ch)) req x).1))
        (default_charge-captures ch b req x taken),
    refl,
  )

  breaker-CapturesIt :
      (b : Breakers X) (adapter : PspAdapter X) (req : ChargeRequest)
      → StaysClosed b
      → ((x : X) → CapturesIt adapter req x)
      → (x : X)
      → CapturesIt (new_circuit_breaker_adapter b.execute_charge b.execute_refund adapter) req x
  unfolding new_circuit_breaker_adapter
  breaker-CapturesIt b adapter req accepting answers x =
      let (resp, x', answered, is_captured) = answers (b.laws.enter x) in
      (
        resp,
        b.laws.leave none x',
        ap (λ o. (o.0, o.2))
              (breaker_charge-runs b.execute_charge b.execute_refund adapter b.laws req x
                (accepting x))
            ∙ ap (λ o. (o.0, b.laws.leave (error_of o.0) o.1)) answered,
        is_captured,
      )

  module _ (of_stripe of_razorpay : Breakers X) (stripe_closed : StaysClosed of_stripe)
      (razorpay_closed : StaysClosed of_razorpay) where
    abbrev chosen : Text → PspAdapter X
    chosen =
        planned (stripe_adapter ch of_stripe of_razorpay)
          (razorpay_adapter ch of_stripe of_razorpay)

    choice :
        (b : Bool) (req : ChargeRequest) (x : X)
        → (b ≡ true → CapturesIt (razorpay_adapter ch of_stripe of_razorpay) req x)
        → (b ≡ false → CapturesIt (stripe_adapter ch of_stripe of_razorpay) req x)
        → CapturesIt
            (if b
              then razorpay_adapter ch of_stripe of_razorpay
              else stripe_adapter ch of_stripe of_razorpay)
            req
            x
    choice true req x of_true of_false = of_true refl
    choice false req x of_true of_false = of_false refl

    chosen-CapturesIt :
        (req : ChargeRequest)
        → valid_currency req.currency ≡ true
        → (x : X) → CapturesIt (chosen req.currency) req x
    unfolding stripe_adapter razorpay_adapter new_stripe_mock new_razorpay_mock
    chosen-CapturesIt req valid x =
        let (of_inr, of_others) = taken_by_chosen req.currency valid in
        choice (text_eq req.currency currency_inr) req x
          (λ inr_given.
            breaker-CapturesIt of_razorpay (new_razorpay_mock ch (default_mock_config ch)) req
              razorpay_closed (λ x'. default_mock-CapturesIt razorpay req x' (of_inr inr_given)) x)
          (λ other_given.
            breaker-CapturesIt of_stripe (new_stripe_mock ch (default_mock_config ch)) req
              stripe_closed (λ x'. default_mock-CapturesIt stripe req x' (of_others other_given)) x)

    module _ {fl : Float64} (out : Outside fl X) (quiet : IsQuiet out) (r : PaymentRepo)
        (configured : IsConfigured r) where
      validated-currency :
          (req : CreatePaymentRequest) (id : ℕ)
          → validate_create_payment_request (some req) ≡ ok tt
          → valid_currency (new_payment req id).currency ≡ true
      unfolding validate_create_payment_request validate_currency_and_key new_payment
      validated-currency req id valid = ground (arith, to_upper-trim_space req.currency)

      -- While Postgres answers, both breakers are closed, the context is alive and no one else
      -- writes, the server as main assembles it answers every valid request whose key and drawn ids
      -- are new: the payment succeeds, and it is stored as a success.
      pub server_service-Succeeds :
          (req : CreatePaymentRequest) (s : State X) (id : ℕ)
          → validate_create_payment_request (some req) ≡ ok tt
          → (out.new_id s.1).0 ≡ some id
          → id ≢ nil_id
          → find_payment id s.0.payments ≡ none
          → find_payment_by_key (trim_space req.idempotency_key) s.0.payments ≡ none
          → (after : State X) × (create_payment_service out
                (server_service ch of_stripe of_razorpay fl r)
                req
                s
              ≡ (ok (record { payment_id = id; status = success }), after))
            × Stored (record { payment_id = id; status = success }) after.0
      unfolding server_service new_payment_service create_payment_service server_router
      server_service-Succeeds req s id valid drawn some_id new_id new_key =
          let router = server_router ch of_stripe of_razorpay in
          let charge = charge_request out (new_payment req id) in
          let currency = validated-currency req id valid in
          let ended =
            create-up out quiet r configured router (default_config fl) req
              (chosen (new_payment req id).currency) s id
              (λ x. let (resp, x', _, _) = chosen-CapturesIt charge currency x in (resp, x')) valid
              drawn some_id new_id new_key
              (validated-routed (λ (a : PspAdapter X). a.name) _ _ req id refl refl valid)
              (λ x. (chosen-CapturesIt charge currency x).2)
              (λ x. (chosen-CapturesIt charge currency x).3) in
          (
            ended.after,
            ended.ends,
            create-truthful out r (some router) (default_config fl) req s _ ended.after ended.ends,
          )
