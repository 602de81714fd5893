-- ===== src/Worker/Accepted.antt =====
-- Which answers of a merchant are taken for a delivery, beside the test in deliver.
use pay_flow_mock.Prelude.{
  ltb, leb, Bool-cases, Text, codes, suc, ◌≤◌, ◌≡◌, refl, inl, inr, ◌&&◌, none, some, ◌++◌, arith,
}
use pay_flow_mock.Worker.{Reply, not_built, not_sent, answered, decimal, delivery_error}

-- A status of 200 to 299 has come back.
abbrev pub IsAccepted : Reply → Type 0
IsAccepted (answered status) = (200 ≤ status) × (status ≤ 299)
IsAccepted _ = ⊥

pub accepted-no_error : (reply : Reply) → IsAccepted reply → delivery_error reply ≡ none
unfolding delivery_error
accepted-no_error (answered status) h = ground (arith, h.0, h.1)
accepted-no_error (not_built s) h = absurd h
accepted-no_error (not_sent s) h = absurd h

pub other-error :
    (reply : Reply) → ¬ IsAccepted reply → (text : Text) × (delivery_error reply ≡ some text)
unfolding delivery_error
other-error (not_built s) h = (_, refl)
other-error (not_sent s) h = (_, refl)
other-error (answered status) h = elim (Bool-cases (leb 200 status && ltb status 300)) [
  | inl inside ↦ absurd (h (ground arith, ground arith))
  | inr outside ↦ (codes "http status " ++ decimal (suc status) status, rw outside refl)
]
