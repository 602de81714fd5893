-- ===== src/Merchant.antt =====
-- internal/merchant/registry.go: where the webhooks of a merchant go. uuid.Parse and the environment
-- are parameters; the nil map that the parser returns for no entry is the empty one, which reads the
-- same.
pub mod Urls
pub mod Entries
mod Tests
use pay_flow_mock.Prelude.{
  ◌==◌, if◌then◌else◌, Text, codes, is_empty, trim_space, map_get, map_set, ℕ, ◌||◌, Option, none,
  some, List, [], ◌∷◌,
}

-- strings.Split at a byte
abbrev pub add_to_first : ℕ → List Text → List Text
add_to_first c [] = (c ∷ []) ∷ []
add_to_first c (s ∷ parts) = (c ∷ s) ∷ parts

unfoldable pub split_at : ℕ → Text → List Text
split_at sep [] = [] ∷ []
split_at sep (c ∷ s) =
    let parts = split_at sep s in if c == sep then [] ∷ parts else add_to_first c parts

-- strings.Index of a byte, with the texts before and after it
unfoldable pub cut_at : ℕ → Text → Option (Text × Text)
cut_at sep [] = none
cut_at sep (c ∷ s) =
    let rest = cut_at sep s in
    if c == sep
    then some ([], s)
    else elim rest [ none ↦ none | some (before, after) ↦ some (c ∷ before, after) ]

abbrev pub comma : ℕ
comma = 44

abbrev pub equals : ℕ
equals = 61

-- One round of the loop of parseMerchantWebhookURLs, on a trimmed part: what it adds, if it does.
-- An empty part has no `=`.
unfoldable pub parse_part : (Text → Option ℕ) → Text → Option (ℕ × Text)
unfolding cut_at
parse_part parse_id part = elim (cut_at equals part) [
  | none ↦ none
  | some (id_text, url_text) ↦
      if is_empty id_text || (is_empty url_text || is_empty (trim_space url_text))
      then none
      else elim (parse_id (trim_space id_text)) [
        | none ↦ none
        | some id ↦ some (id, trim_space url_text)
      ]
]

abbrev pub add_entry : Option (ℕ × Text) → List (ℕ × Text) → List (ℕ × Text)
add_entry none out = out
add_entry (some (id, url)) out = map_set (λ i j. i == j) id url out

unfoldable pub parse_parts : (Text → Option ℕ) → List Text → List (ℕ × Text) → List (ℕ × Text)
unfolding parse_part
parse_parts parse_id [] out = out
parse_parts parse_id (part ∷ parts) out =
    parse_parts parse_id parts (add_entry (parse_part parse_id (trim_space part)) out)

-- parseMerchantWebhookURLs
unfoldable pub parse_merchant_webhook_urls : (Text → Option ℕ) → Text → List (ℕ × Text)
unfolding parse_parts split_at
parse_merchant_webhook_urls parse_id raw = parse_parts parse_id (split_at comma (trim_space raw)) []

pub record EnvRegistry : Type 0 where
  pub by_merchant : List (ℕ × Text)
  pub default_url : Text
  pub signing_secret : Text

-- NewEnvRegistry
unfoldable pub new_env_registry : (Text → Option ℕ) → (Text → Text) → EnvRegistry
unfolding parse_merchant_webhook_urls
new_env_registry parse_id getenv = record {
  by_merchant = parse_merchant_webhook_urls parse_id (getenv (codes "MERCHANT_WEBHOOK_URLS"));
  default_url = trim_space (getenv (codes "DEFAULT_WEBHOOK_URL"));
  signing_secret = getenv (codes "WEBHOOK_SIGNING_SECRET");
}

-- A text that is not blank, trimmed.
unfoldable pub unless_blank : Text → Option Text
unless_blank s = if is_empty (trim_space s) then none else some (trim_space s)

abbrev pub or_else : Option Text → Option Text → Option Text
or_else none b = b
or_else (some a) b = some a

abbrev pub unless_blank_entry : Option Text → Option Text
unless_blank_entry none = none
unless_blank_entry (some u) = unless_blank u

-- WebhookURL, `none` for a false second result
unfoldable pub webhook_url : Option EnvRegistry → ℕ → Option Text
unfolding unless_blank
webhook_url none merchant_id = none
webhook_url (some r) merchant_id =
    or_else (unless_blank_entry (map_get (λ i j. i == j) merchant_id r.by_merchant))
      (unless_blank r.default_url)

-- Secret, `none` for a false second result
unfoldable pub secret : Option EnvRegistry → ℕ → Option Text
secret none merchant_id = none
secret (some r) merchant_id =
    if is_empty (trim_space r.signing_secret) then none else some r.signing_secret
