-- ===== src/Repository/Payments/Store.antt =====
-- What CreatePayment stores, and what the two lookups read back.
use pay_flow_mock.Prelude.{
  length, pos, ◌≤ℤ◌, ◌<ℤ◌, max_int64, Text, text_eq_refl, is_empty, trim_space, to_upper, ◌≤◌, ◌≡◌,
  refl, ap, ◌≢◌, ◌↔◌, inl, inr, true, false, none, some, [], ◌∷◌, arith,
}
use pay_flow_mock.Domain.{
  Status, initiated, other, nil_id, Payment, valid_currency, is_known_status,
}
use pay_flow_mock.Errors.{ok, Result-cases}
use pay_flow_mock.Repository.{
  PaymentRow, Db, select_stmt, Env, column_time, find_payment, find_payment_by_key,
}
use pay_flow_mock.Repository.Outbox.{or_time}
use pay_flow_mock.Repository.Payments.{
  PaymentRepo, or_empty, str_or_nil, new_status, validate_payment_for_create, scan_payment,
  payment_row, insert_payment_row, create_payment, get_payment_by_id,
  get_payment_status_by_idempotency_key,
}

-- The data of a stored payment are as the service promises them.
pub record IsSound (row : PaymentRow) : Type 0 where
  pub has_id : row.id ≢ nil_id
  pub has_merchant : row.merchant_id ≢ nil_id
  pub positive : pos 0 <ℤ row.amount
  pub fits : row.amount ≤ℤ max_int64
  pub supported : valid_currency row.currency ≡ true
  pub key_given : row.idempotency_key ≢ []
  pub key_short : length row.idempotency_key ≤ 255

new_status-ok : (s : Status) {t : Status} → new_status s ≡ ok t → t ≡ initiated
unfolding new_status
new_status-ok (other []) h = cc
new_status-ok (other (c ∷ s)) h = cc
new_status-ok initiated h = cc
new_status-ok _ h = cc

is_empty_iff : (s : Text) → (is_empty s ≡ true) ↔ (s ≡ [])
is_empty_iff [] = ground arith
is_empty_iff (c ∷ s) = ground arith

pub validate-ok :
    (p : Payment) {q : Payment}
    → validate_payment_for_create (some p) ≡ ok q
    → (q ≡ record p {
      idempotency_key = trim_space p.idempotency_key;
      currency = trim_space (to_upper p.currency);
      status = initiated;
    })
      × IsSound (payment_row q)
unfolding validate_payment_for_create payment_row is_known_status
validate-ok p {q} h = elim (Result-cases (new_status p.status)) [
  | inr (e, bad) ↦ absurd (ground arith)
  | inl (t, good) ↦
      let same : t ≡ initiated = new_status-ok p.status good in
      (
        ground arith,
        record {
          has_id = ground arith;
          has_merchant = ground arith;
          positive = ground arith;
          fits = ground arith;
          supported = ground arith;
          key_given = ground (arith, is_empty_iff (trim_space p.idempotency_key));
          key_short = ground arith;
        },
      )
]

str_or_nil-or_empty : (s : Text) → or_empty (str_or_nil s) ≡ s
unfolding str_or_nil
str_or_nil-or_empty [] = refl
str_or_nil-or_empty (c ∷ s) = refl

-- A payment as Postgres keeps it, with its times in whole microseconds.
abbrev pub as_kept : Payment → Payment
as_kept p = record p {
  created_at = column_time p.created_at;
  updated_at = column_time p.updated_at;
}

-- Reading a row back gives the payment that was written.
pub scan-payment_row : (p : Payment) → scan_payment (payment_row p) ≡ as_kept p
unfolding scan_payment payment_row
scan-payment_row p = cc (
  str_or_nil-or_empty p.psp,
  str_or_nil-or_empty p.psp_reference_id,
  str_or_nil-or_empty p.failure_reason,
)

pub insert_payment_row-ok :
    (env : Env) (row : PaymentRow) (db : Db) {after : Db}
    → insert_payment_row env row db ≡ ok after
    → (after ≡ record db { payments = row ∷ db.payments })
      × (find_payment row.id db.payments ≡ none)
      × (find_payment_by_key row.idempotency_key db.payments ≡ none)
unfolding insert_payment_row
insert_payment_row-ok env row db h = ground arith

-- A payment that CreatePayment has stored.
pub record Created (env : Env) (request stored : Payment) (before after : Db) : Type 0 where
  pub normal : stored ≡ record request {
    idempotency_key = trim_space request.idempotency_key;
    currency = trim_space (to_upper request.currency);
    status = initiated;
    created_at = stored.created_at;
    updated_at = stored.updated_at;
  }
  pub written : after ≡ record before { payments = payment_row stored ∷ before.payments }
  pub new_id : find_payment stored.id before.payments ≡ none
  pub new_key : find_payment_by_key stored.idempotency_key before.payments ≡ none
  pub sound : IsSound (payment_row stored)

-- The times that CreatePayment fills in.
abbrev pub stamped : Env → Payment → Payment
stamped env p = record p {
  created_at = or_time p.created_at env.now;
  updated_at = or_time p.updated_at (or_time p.created_at env.now);
}

stamped-IsSound :
    (env : Env) (p : Payment) → IsSound (payment_row p) → IsSound (payment_row (stamped env p))
unfolding payment_row
stamped-IsSound env p s = record {
  has_id = s.has_id;
  has_merchant = s.has_merchant;
  positive = s.positive;
  fits = s.fits;
  supported = s.supported;
  key_given = s.key_given;
  key_short = s.key_short;
}

module _ (r : PaymentRepo) (env : Env) (request : Payment) (db : Db) {stored : Payment} {after : Db}
    (created : create_payment r env (some request) db ≡ (ok stored, after)) where
  pub create_payment-ok : Created env request stored db after
  unfolding create_payment payment_row
  create_payment-ok = elim (Result-cases (validate_payment_for_create (some request))) [
    | inr (e, bad) ↦ absurd (ground arith)
    | inl (p, good) ↦
        let (normal, sound) = validate-ok request good in
        elim (Result-cases (insert_payment_row env (payment_row (stamped env p)) db)) [
          | inr (e, refused) ↦ absurd (ground arith)
          | inl (db', inserted) ↦
              let (written, new_id, new_key) =
                insert_payment_row-ok env (payment_row (stamped env p)) db inserted in
              let same : stored ≡ stamped env p = ground arith in
              record {
                normal = ground arith;
                written = ground arith;
                new_id = ground arith;
                new_key = ground arith;
                sound = rw same (stamped-IsSound env p sound);
              }
        ]
  ]

  configured : r.has_db ≡ true
  unfolding create_payment
  configured = ground arith

  -- The payment that a successful creation stores is what a lookup by its id or by the request's key
  -- returns, if the lookup's query does not fail, with its two times cut to whole microseconds.
  pub get-create :
      (later : Env)
      → later.fails select_stmt ≡ false
      → (get_payment_by_id r later stored.id after ≡ ok (as_kept stored))
        × (get_payment_status_by_idempotency_key r later request.idempotency_key after
            ≡ ok (as_kept stored))
  unfolding get_payment_by_id get_payment_status_by_idempotency_key find_payment_by_key payment_row
  get-create later up =
      let c = create_payment-ok in
      let same_key : stored.idempotency_key ≡ trim_space request.idempotency_key =
        ap (λ p. p.idempotency_key) c.normal in
      (
        ground (arith, configured, c.written, c.sound.has_id, scan-payment_row stored),
        ground (
          arith,
          configured,
          c.written,
          c.sound.key_given,
          same_key,
          scan-payment_row stored,
          is_empty_iff (trim_space request.idempotency_key),
          text_eq_refl stored.idempotency_key,
        ),
      )
