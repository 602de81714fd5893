-- ===== src/Psp/Router/FirstMatch.antt =====
-- Select against an independent description of when a rule applies.
use pay_flow_mock.Prelude.{
  Bool-cases, All, ℤ, pos, ◌≤ℤ◌, ltb_ℤ, max_int64, Text, text_eq, text_eq_iff, text_eq_refl, ◌≡◌,
  refl, ap, ◌∙◌, ◌⊎◌, inl, inr, Bool, true, not, ◌&&◌, ◌||◌, some, List, [], ◌∷◌, ◌++◌, arith,
}
use pay_flow_mock.Errors.{no_route, err}
use pay_flow_mock.Psp.Router.{
  RoutingRule, Router, normalize, max_bound, any_currency, is_wildcard, find_adapter, try_rules,
  select,
}

-- The amount lies in the rule's range, where a maximum of 0 is none, and the rule names the
-- currency, up to case and outer spaces, or names no currency.
pub data Names (cur : Text) : List Text → Type 0 where
  any : Names cur []
  this : (c : Text) (cs : List Text) → normalize c ≡ cur → Names cur (c ∷ cs)
  later : (c d : Text) (cs : List Text) → Names cur (d ∷ cs) → Names cur (c ∷ d ∷ cs)

pub record Applies (cur : Text) (amount : ℤ) (rule : RoutingRule) : Type 0 where
  pub above : rule.min_amount ≤ℤ amount
  pub below : (rule.max_amount ≡ pos 0) ⊎ (amount ≤ℤ rule.max_amount)
  pub named : Names cur rule.currencies

-- The tests that the loop makes of one rule.
abbrev passes : Text → ℤ → RoutingRule → Bool
passes cur amount rule =
    not (ltb_ℤ amount rule.min_amount || ltb_ℤ (max_bound rule.max_amount) amount)
    && (is_wildcard rule.currencies || any_currency cur rule.currencies)

Names-passes :
    (cur : Text) {cs : List Text} → Names cur cs → (is_wildcard cs || any_currency cur cs) ≡ true
unfolding is_wildcard any_currency
Names-passes cur any = refl
Names-passes cur (this c cs e) = rw e (ground (arith, text_eq_refl cur))
Names-passes cur (later c d cs n) = ground (arith, Names-passes cur n)

passes-Names :
    (cur : Text) (cs : List Text) → (is_wildcard cs || any_currency cur cs) ≡ true → Names cur cs
unfolding is_wildcard any_currency
passes-Names cur [] h = any
passes-Names cur (c ∷ []) h = this c [] (ground (arith, text_eq_iff (normalize c) cur))
passes-Names cur (c ∷ d ∷ cs) h = elim (Bool-cases (text_eq (normalize c) cur)) [
  | inl e ↦ this c (d ∷ cs) ((text_eq_iff _ _).0 e)
  | inr e ↦ later c d cs (passes-Names cur (d ∷ cs) (ground arith))
]

module _ (cur : Text) (amount : ℤ) (fits : amount ≤ℤ max_int64) (rule : RoutingRule) where
  Applies-passes : Applies cur amount rule → passes cur amount rule ≡ true
  unfolding max_bound
  Applies-passes a = ground (arith, Names-passes cur a.named)

  passes-Applies : passes cur amount rule ≡ true → Applies cur amount rule
  unfolding max_bound
  passes-Applies h = record {
    above = ground arith;
    below = ground arith;
    named = passes-Names cur rule.currencies (ground arith);
  }

  module _ {A : Type 0} (r : Router A) (rules : List RoutingRule) where
    try_rules-take :
        Applies cur amount rule → try_rules r cur amount (rule ∷ rules) ≡ find_adapter r rule.psp
    unfolding try_rules
    try_rules-take a = ground (arith, Applies-passes a)

    try_rules-skip :
        ¬ Applies cur amount rule
        → try_rules r cur amount (rule ∷ rules) ≡ try_rules r cur amount rules
    unfolding try_rules
    try_rules-skip no_match = elim (Bool-cases (passes cur amount rule)) [
      | inl e ↦ absurd (no_match (passes-Applies e))
      | inr e ↦ ground arith
    ]

module _ {A : Type 0} (r : Router A) (currency : Text) (amount : ℤ)
    (fits : amount ≤ℤ max_int64) where
  abbrev pub Skipped : List RoutingRule → Type 0
  Skipped rules = All (λ rule. ¬ Applies (normalize currency) amount rule) rules

  skip_all :
      (pre post : List RoutingRule)
      → Skipped pre
      → try_rules r (normalize currency) amount (pre ++ post)
        ≡ try_rules r (normalize currency) amount post
  skip_all [] post h = refl
  skip_all (rule ∷ pre) post h =
      try_rules-skip (normalize currency) amount fits rule r (pre ++ post) h.0
      ∙ skip_all pre post h.1

  -- For an int64 amount the first rule that applies, with all before it skipped, names the adapter.
  pub select-first :
      (pre post : List RoutingRule) (rule : RoutingRule)
      → r.rules ≡ pre ++ rule ∷ post
      → Skipped pre
      → Applies (normalize currency) amount rule
      → select (some r) currency amount ≡ find_adapter r rule.psp
  unfolding select
  select-first pre post rule e skipped a =
      ap (try_rules r (normalize currency) amount) e
      ∙ skip_all pre (rule ∷ post) skipped
      ∙ try_rules-take (normalize currency) amount fits rule r post a

  -- Where no rule applies the answer is ErrNoRoute.
  select-no_route : Skipped r.rules → select (some r) currency amount ≡ err no_route
  unfolding select try_rules
  select-no_route skipped = no_rule_left r.rules skipped
    where
      no_rule_left :
          (rules : List RoutingRule)
          → Skipped rules
          → try_rules r (normalize currency) amount rules ≡ err no_route
      no_rule_left [] h = refl
      no_rule_left (rule ∷ rules) h =
          try_rules-skip (normalize currency) amount fits rule r rules h.0 ∙ no_rule_left rules h.1
