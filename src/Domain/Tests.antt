-- ===== src/Domain/Tests.antt =====
-- Transitions of a payment.
use pay_flow_mock.Prelude.{◌≡◌, ◌↔◌, true}
use pay_flow_mock.Domain.{processing, refunded, valid_transition}
use pay_flow_mock.Domain.Lifecycle.{◌⟶◌, valid_transition-iff_edge}

valid_transition-iff_edge_example :
    (valid_transition processing refunded ≡ true) ↔ (processing ⟶ refunded)
valid_transition-iff_edge_example = valid_transition-iff_edge processing refunded
