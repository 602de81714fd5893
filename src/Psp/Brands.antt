-- ===== src/Psp/Brands.antt =====
-- internal/psp/stripe_mock.go and razorpay_mock.go: where the two mocks differ.
use pay_flow_mock.Prelude.{Text, codes, text_eq, ℕ, Bool, true, false, ◌||◌}
use pay_flow_mock.Psp.Router.{adapter_stripe_mock, adapter_razorpay_mock}

-- What the two mocks do not have in common.
pub record Brand : Type 0 where
  pub brand_name : Text
  pub supports : Text → Bool
  pub unsupported_message : Text
  pub transient_charge_message : Text
  pub transient_refund_message : Text
  pub rejected_refund_message : Text
  pub charge_prefix : Text
  pub refund_prefix : Text
  pub suffix_length : ℕ
  pub draws_order_id : Bool

abbrev supported_by_stripe : Text → Bool
supported_by_stripe cur =
    text_eq cur (codes "USD") || (text_eq cur (codes "EUR") || text_eq cur (codes "GBP"))

unfoldable pub stripe : Brand
stripe = record {
  brand_name = adapter_stripe_mock;
  supports = supported_by_stripe;
  unsupported_message = codes "unsupported currency for stripe mock: ";
  transient_charge_message = codes "simulated stripe transient failure";
  transient_refund_message = codes "simulated stripe refund transient failure";
  rejected_refund_message = codes "simulated stripe refund rejected";
  charge_prefix = codes "ch_";
  refund_prefix = codes "re_";
  suffix_length = 24;
  draws_order_id = false;
}

unfoldable pub razorpay : Brand
razorpay = record {
  brand_name = adapter_razorpay_mock;
  supports = λ cur. text_eq cur (codes "INR");
  unsupported_message = codes "unsupported currency for razorpay mock (INR only): ";
  transient_charge_message = codes "simulated razorpay transient failure";
  transient_refund_message = codes "simulated razorpay refund transient failure";
  rejected_refund_message = codes "simulated razorpay refund rejected";
  charge_prefix = codes "pay_";
  refund_prefix = codes "rfnd_";
  suffix_length = 14;
  draws_order_id = true;
}
