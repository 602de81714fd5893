-- ===== src/Ledger/Order.antt =====
-- A payment of 500 from its creation to a refund of 200, on empty tables.
use pay_flow_mock.Prelude.{
  pos, Text, codes, text_eq, trim_space, to_upper, ℕ, ◌+◌, ◌*◌, ◌≡◌, refl, true, false, none, some,
  [],
}
use pay_flow_mock.Domain.{
  initiated, processing, success, other, status_eq, Payment, valid_currency, is_known_status,
  valid_transition,
}
use pay_flow_mock.Errors.{ok}
use pay_flow_mock.Repository.{
  PaymentRow, Db, Env, find_payment, find_payment_by_key, find_refund_by_key,
}
use pay_flow_mock.Repository.Payments.{
  PaymentRepo, str_or_nil, outbox_event, enqueue_outbox_payment_event_tx, new_status,
  validate_payment_for_create, payment_row, insert_payment_row, create_payment,
}
use pay_flow_mock.Repository.Updates.{
  run_tx, update_payment_status, update_returning, update_and_enqueue,
  update_payment_status_with_psp,
}
use pay_flow_mock.Repository.Updates.Refunds.{
  insert_refund_row, mark_refunded, refund_tx, refund_payment_atomic,
}
use pay_flow_mock.Ledger.{empty_db}
use pay_flow_mock.Repository.Outbox.{enqueue_tx}

abbrev pub repo : PaymentRepo
repo = record {
  has_db = true;
  has_outbox = true;
  registry = some (λ merchant_id. some (codes "https://shop"));
}

-- An environment in which nothing fails.
abbrev pub calm : ℕ → Env
calm n = record {
  fails = λ s. false;
  lands = false;
  now = n * 1000;
  new_id = some n;
  random_uuid = n + 1000;
}

abbrev pub order : Payment
order = record {
  id = 7;
  merchant_id = 3;
  amount = pos 500;
  currency = codes " usd ";
  status = other [];
  idempotency_key = codes " order-1 ";
  psp = [];
  psp_reference_id = [];
  failure_reason = [];
  created_at = 0;
  updated_at = 0;
}

abbrev pub stored_order : Payment
stored_order = record order {
  currency = codes "USD";
  status = initiated;
  idempotency_key = codes "order-1";
  created_at = 10000;
  updated_at = 10000;
}

abbrev pub stripe : Text
stripe = codes "stripe_mock"

-- Each line also opens what the calls before it compute with.
unfoldable pub after_create : Db
unfolding create_payment validate_payment_for_create insert_payment_row payment_row new_status
    valid_currency text_eq trim_space to_upper is_known_status find_payment_by_key str_or_nil
after_create = (create_payment repo (calm 10) (some order) empty_db).1

unfoldable pub after_start : Db
unfolding after_create update_payment_status valid_transition status_eq
after_start = (update_payment_status repo (calm 20) 7 initiated processing after_create).1

unfoldable pub after_success : Db
unfolding after_start update_payment_status_with_psp update_and_enqueue run_tx update_returning
    enqueue_outbox_payment_event_tx enqueue_tx outbox_event
after_success =
    (update_payment_status_with_psp repo (calm 30) 7 processing success stripe (codes "ch_1")
      after_start).1

unfoldable pub after_refund : Db
unfolding after_success refund_payment_atomic refund_tx mark_refunded insert_refund_row
    find_refund_by_key
after_refund = (refund_payment_atomic repo (calm 40) 7 (pos 200) (codes "r-1") after_success).1

pub create_runs :
    create_payment repo (calm 10) (some order) empty_db ≡ (ok stored_order, after_create)
unfolding after_create
create_runs = refl

pub start_runs :
    update_payment_status repo (calm 20) 7 initiated processing after_create ≡ (ok tt, after_start)
unfolding after_start
start_runs = refl

pub success_runs :
    update_payment_status_with_psp repo
      (calm 30)
      7
      processing
      success
      stripe
      (codes "ch_1")
      after_start
    ≡ (ok tt, after_success)
unfolding after_success
success_runs = refl

pub refund_runs :
    refund_payment_atomic repo (calm 40) 7 (pos 200) (codes "r-1") after_success
    ≡ (ok 1040, after_refund)
unfolding after_refund
refund_runs = refl

abbrev pub paid_row : PaymentRow
paid_row = record {
  id = 7;
  merchant_id = 3;
  amount = pos 500;
  currency = codes "USD";
  status = success;
  idempotency_key = codes "order-1";
  psp = some stripe;
  psp_reference_id = some (codes "ch_1");
  failure_reason = none;
  created_at = 10000;
  updated_at = 30000;
}

pub paid_found : find_payment 7 after_success.payments ≡ some paid_row
unfolding after_success
paid_found = refl
