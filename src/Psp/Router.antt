-- ===== src/Psp/Router.antt =====
-- internal/psp/router.go: first-match routing over ordered rules. The router is generic in the
-- adapters; a nil adapter in the map is `none`.
pub mod FirstMatch
pub mod Defaults
use pay_flow_mock.Prelude.{
  if◌then◌else◌, ℤ, pos, negsuc, ltb_ℤ, max_int64, Text, codes, text_eq, trim_space, to_upper,
  map_get, map_set, ℕ, zero, suc, ◌+◌, Bool, true, false, ◌||◌, Option, none, some, List, [], ◌∷◌,
}
use pay_flow_mock.Errors.{no_route, nil_router, unknown_adapter, Result, ok, err}

abbrev pub adapter_stripe_mock : Text
adapter_stripe_mock = codes "stripe_mock"

abbrev pub adapter_razorpay_mock : Text
adapter_razorpay_mock = codes "razorpay_mock"

abbrev pub default_large_amount_threshold : ℕ
default_large_amount_threshold = 100000

pub record RoutingRule : Type 0 where
  pub currencies : List Text
  pub min_amount : ℤ
  pub max_amount : ℤ
  pub psp : Text

pub record Router (A : Type 0) : Type 0 where
  pub adapters : List (Text × Option A)
  pub rules : List RoutingRule

-- `strings.ToUpper(strings.TrimSpace(c))`
unfoldable pub normalize : Text → Text
normalize c = to_upper (trim_space c)

-- The closure maxBound of Select.
unfoldable pub max_bound : ℤ → ℤ
max_bound (pos zero) = max_int64
max_bound (pos (suc n)) = pos (suc n)
max_bound (negsuc n) = negsuc n

-- The loop over the currencies of one rule.
unfoldable pub any_currency : Text → List Text → Bool
any_currency cur [] = false
any_currency cur (c ∷ cs) = text_eq (normalize c) cur || any_currency cur cs

-- `len(rule.Currencies) == 0`
unfoldable pub is_wildcard : List Text → Bool
is_wildcard [] = true
is_wildcard (c ∷ cs) = false

unfoldable pub new_router : {A : Type 0} → List (Text × Option A) → List RoutingRule → Router A
new_router adapters rules = record { adapters = adapters; rules = rules }

unfoldable pub default_routing_rules : List RoutingRule
default_routing_rules =
    record {
      currencies = codes "INR" ∷ [];
      min_amount = pos 0;
      max_amount = pos 0;
      psp = adapter_razorpay_mock;
    }
    ∷ record {
      currencies = codes "USD" ∷ codes "EUR" ∷ codes "GBP" ∷ [];
      min_amount = pos 0;
      max_amount = pos 0;
      psp = adapter_stripe_mock;
    }
    ∷ record {
      currencies = [];
      min_amount = pos (default_large_amount_threshold + 1);
      max_amount = pos 0;
      psp = adapter_stripe_mock;
    }
    ∷ []

module _ {A : Type 0} where
  -- The method adapter.
  unfoldable pub find_adapter : Router A → Text → Result A
  find_adapter r name = elim (map_get text_eq name r.adapters) [
    | some (some a) ↦ ok a
    | some none ↦ err (unknown_adapter name)
    | none ↦ err (unknown_adapter name)
  ]

  -- The loop of Select over the rules; `rest` stands for its later rounds.
  unfoldable pub try_rules : Router A → Text → ℤ → List RoutingRule → Result A
  try_rules r cur amount [] = err no_route
  try_rules r cur amount (rule ∷ rules) =
      let rest = try_rules r cur amount rules in
      if ltb_ℤ amount rule.min_amount || ltb_ℤ (max_bound rule.max_amount) amount
      then rest
      else (if is_wildcard rule.currencies || any_currency cur rule.currencies
          then find_adapter r rule.psp
          else rest)

  -- `none` is the nil router.
  unfoldable pub select : Option (Router A) → Text → ℤ → Result A
  unfolding try_rules
  select none currency amount = err nil_router
  select (some r) currency amount = try_rules r (normalize currency) amount r.rules

  -- `name` is the method Name of an adapter.
  unfoldable pub default_router : (A → Text) → A → A → Router A
  unfolding new_router default_routing_rules
  default_router name stripe razorpay =
      new_router
        (map_set text_eq (name razorpay) (some razorpay)
          (map_set text_eq (name stripe) (some stripe) []))
        default_routing_rules
