-- ===== src/Psp/Router/Defaults.antt =====
-- What DefaultRouter does with the currencies that the service lets through.
use pay_flow_mock.Prelude.{
  if◌then◌else◌, ℤ, pos, negsuc, ◌≤ℤ◌, max_int64, Text, text_eq, text_eq_iff, trim_space, to_upper,
  ◌≡◌, ◌⊎◌, inl, inr, true, some, arith,
}
use pay_flow_mock.Domain.{currency_usd, currency_eur, currency_gbp, currency_inr, valid_currency}
use pay_flow_mock.Errors.{ok}
use pay_flow_mock.Psp.Router.{
  adapter_stripe_mock, adapter_razorpay_mock, normalize, max_bound, any_currency, is_wildcard,
  find_adapter, try_rules, select, default_router,
}

pub valid_currency_cases :
    (c : Text)
    → valid_currency c ≡ true
    → (c ≡ currency_usd) ⊎ (c ≡ currency_eur) ⊎ (c ≡ currency_gbp) ⊎ (c ≡ currency_inr)
unfolding valid_currency
valid_currency_cases c h = ground (
  arith,
  text_eq_iff c currency_usd,
  text_eq_iff c currency_eur,
  text_eq_iff c currency_gbp,
  text_eq_iff c currency_inr,
)

-- The adapter that a supported currency is meant for.
abbrev pub planned : {A : Type 0} → A → A → Text → A
planned stripe razorpay c = if text_eq c currency_inr then razorpay else stripe

module _ {A : Type 0} (name : A → Text) (stripe razorpay : A) where
  -- A supported currency and an amount of at least 0 in int64 always find a route: Razorpay for
  -- INR and Stripe for the three others, if the adapters carry the names of the bundled mocks.
  pub default_router_total :
      (c : Text) (amount : ℤ)
      → name stripe ≡ adapter_stripe_mock
      → name razorpay ≡ adapter_razorpay_mock
      → valid_currency c ≡ true
      → pos 0 ≤ℤ amount
      → amount ≤ℤ max_int64
      → select (some (default_router name stripe razorpay)) c amount
        ≡ ok (planned stripe razorpay c)
  unfolding select default_router try_rules find_adapter any_currency is_wildcard max_bound
      normalize to_upper trim_space text_eq
  default_router_total c (negsuc n) es er v low high = absurd (omega arith)
  default_router_total c (pos n) es er v low high = elim (valid_currency_cases c v) [
    | inl e ↦ rw (e, es, er) (ground arith)
    | inr (inl e) ↦ rw (e, es, er) (ground arith)
    | inr (inr (inl e)) ↦ rw (e, es, er) (ground arith)
    | inr (inr (inr e)) ↦ rw (e, es, er) (ground arith)
  ]
