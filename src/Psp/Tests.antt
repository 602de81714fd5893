-- ===== src/Psp/Tests.antt =====
-- Routes of the default router, whose adapters are their names.
use pay_flow_mock.Prelude.{
  pos, Text, codes, text_eq, text_eq_iff, trim_space, to_upper, ◌≡◌, refl, sym, inr, false, some,
  [], ◌∷◌, arith,
}
use pay_flow_mock.Psp.Router.{
  adapter_stripe_mock, adapter_razorpay_mock, RoutingRule, Router, normalize, find_adapter, select,
}
use pay_flow_mock.Psp.Router.FirstMatch.{Names, this, select-first}

abbrev inr_rule : RoutingRule
inr_rule = record {
  currencies = codes "inr" ∷ [];
  min_amount = pos 0;
  max_amount = pos 0;
  psp = adapter_razorpay_mock;
}

abbrev usd_rule : RoutingRule
usd_rule = record {
  currencies = codes " usd" ∷ codes "EUR" ∷ [];
  min_amount = pos 100;
  max_amount = pos 900;
  psp = adapter_stripe_mock;
}

abbrev router : Router Text
router = record {
  adapters = (adapter_stripe_mock, some adapter_stripe_mock) ∷ [];
  rules = inr_rule ∷ usd_rule ∷ [];
}

inr_differs : text_eq (normalize (codes "inr")) (codes "USD") ≡ false
unfolding normalize to_upper trim_space text_eq
inr_differs = refl

not_inr : ¬ Names (codes "USD") (codes "inr" ∷ [])
not_inr (this c cs e) = cc (inr_differs, (text_eq_iff _ _).1 e)

usd_named : Names (codes "USD") (codes " usd" ∷ codes "EUR" ∷ [])
unfolding normalize to_upper trim_space
usd_named = this (codes " usd") (codes "EUR" ∷ []) refl

upper_usd : normalize (codes "usd ") ≡ codes "USD"
unfolding normalize to_upper trim_space
upper_usd = refl

select-first_example :
    select (some router) (codes "usd ") (pos 500) ≡ find_adapter router adapter_stripe_mock
select-first_example =
    select-first router (codes "usd ") (pos 500) (omega arith) (inr_rule ∷ []) [] usd_rule refl
      ((λ a. not_inr (rw (sym upper_usd) a.named)), tt)
      (record { above = omega arith; below = inr (omega arith); named = rw upper_usd usd_named })
