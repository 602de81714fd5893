-- ===== src/Merchant/Entries.antt =====
-- From the text of MERCHANT_WEBHOOK_URLS to the URL that WebhookURL gives.
use pay_flow_mock.Prelude.{◌==◌, All, Text, ℕ, ◌≡◌, false, ◌∷◌, ◌++◌}
use pay_flow_mock.Merchant.{equals}

-- The byte is not in the text.
abbrev pub Lacks : ℕ → Text → Type 0
Lacks sep s = All (λ c. (c == sep) ≡ false) s

-- `id=url`
abbrev pub entry : Text → Text → Text
entry id_text url = id_text ++ (equals ∷ url)
