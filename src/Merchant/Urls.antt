-- ===== src/Merchant/Urls.antt =====
-- What a webhook URL can be, and what the environment's list gives.
use pay_flow_mock.Prelude.{
  ◌==◌, ==_iff, ==_refl, Text, is_empty, trim_space, trim_space_idem, map_get, map_get-map_set, ℕ,
  ◌≡◌, refl, sym, ◌∙◌, false, Option, none, some, List, [], ◌∷◌, ◌++◌, arith,
}
use pay_flow_mock.Merchant.{
  parse_part, parse_parts, EnvRegistry, unless_blank, or_else, unless_blank_entry, webhook_url,
}

unless_blank-usable :
    (s : Text) {u : Text} → unless_blank s ≡ some u → (is_empty u ≡ false) × (trim_space u ≡ u)
unfolding unless_blank
unless_blank-usable s {u} h =
    let same : trim_space s ≡ u = ground arith in
    (rw (sym same) (ground arith), rw (sym same) (trim_space_idem s))

-- A URL that WebhookURL returns is not blank and has no spaces around it, whatever the environment.
webhook_url-usable :
    (r : Option EnvRegistry) (merchant_id : ℕ) {u : Text}
    → webhook_url r merchant_id ≡ some u
    → (is_empty u ≡ false) × (trim_space u ≡ u)
unfolding webhook_url
webhook_url-usable none merchant_id h = absurd cc
webhook_url-usable (some r) merchant_id {u} h =
    either (unless_blank_entry (map_get (λ i j. i == j) merchant_id r.by_merchant))
      (unless_blank_entry-usable _) h
  where
    unless_blank_entry-usable :
        (o : Option Text) (v : Text)
        → unless_blank_entry o ≡ some v
        → (is_empty v ≡ false) × (trim_space v ≡ v)
    unless_blank_entry-usable none v e = absurd cc
    unless_blank_entry-usable (some s) v e = unless_blank-usable s e

    either :
        (o : Option Text)
        → ((v : Text) → o ≡ some v → (is_empty v ≡ false) × (trim_space v ≡ v))
        → or_else o (unless_blank r.default_url) ≡ some u
        → (is_empty u ≡ false) × (trim_space u ≡ u)
    either none usable e = unless_blank-usable r.default_url e
    either (some v) usable e = usable u e

-- A well-formed part, read last, is what its merchant has, whatever stood before it.
pub parse_parts-last :
    (parse_id : Text → Option ℕ) (parts : List Text) (part : Text) (out : List (ℕ × Text)) {id : ℕ}
    {url : Text}
    → parse_part parse_id (trim_space part) ≡ some (id, url)
    → map_get (λ i j. i == j) id (parse_parts parse_id (parts ++ (part ∷ [])) out) ≡ some url
unfolding parse_parts
parse_parts-last parse_id [] part out {id} {url} h =
    rw h (map_get-map_set (λ i j. i == j) ==_iff id id url out ∙ rw (==_refl id) refl)
parse_parts-last parse_id (first ∷ parts) part out {id} {url} h =
    parse_parts-last parse_id parts part _ {id = id} {url = url} h
