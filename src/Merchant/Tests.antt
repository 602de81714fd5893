-- ===== src/Merchant/Tests.antt =====
-- A registry of two merchants, whose ids are the lengths of their texts.
use pay_flow_mock.Prelude.{length, Text, codes, trim_space, ℕ, ◌≡◌, refl, Option, some, [], ◌∷◌}
use pay_flow_mock.Merchant.{parse_merchant_webhook_urls, EnvRegistry, webhook_url}

abbrev parse_id : Text → Option ℕ
parse_id s = some (length s)

abbrev registry : EnvRegistry
registry = record {
  by_merchant = (3, codes "http://a") ∷ (2, codes "http://b") ∷ [];
  default_url = codes "";
  signing_secret = codes "key";
}

parses :
    parse_merchant_webhook_urls parse_id (codes " aaa = http://a , bb=http://b,")
    ≡ (3, codes "http://a") ∷ (2, codes "http://b") ∷ []
unfolding parse_merchant_webhook_urls trim_space
parses = refl

finds : webhook_url (some registry) 2 ≡ some (codes "http://b")
unfolding webhook_url trim_space
finds = refl

-- The first entry of merchant 2 gives way to its second.
abbrev two_entries : Text → Text
two_entries key = codes " bb=http://old,bb= http://b"
