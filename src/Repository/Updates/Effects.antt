-- ===== src/Repository/Updates/Effects.antt =====
-- What a successful update has done: inversion lemmas, one for each step of a transaction and one
-- for each mutator.
use pay_flow_mock.Prelude.{
  Option-cases, ℕ, ◌≡◌, sym, ap, ap₂, subst, ◌∙◌, inl, inr, none, some, List, ◌∷◌, arith,
}
use pay_flow_mock.Domain.{Status, status_eq_iff}
use pay_flow_mock.Domain.Outbox.{OutboxEvent}
use pay_flow_mock.Errors.{Label, ok, >>=-eq-ok}
use pay_flow_mock.Repository.{
  PaymentRow, Db, Env, find_payment, put_payment, update_payment_where, find_event,
}
use pay_flow_mock.Repository.Outbox.{event_row, enqueue_tx}
use pay_flow_mock.Repository.Payments.{
  PaymentRepo, EventSource, outbox_event, enqueue_outbox_payment_event_tx,
}
use pay_flow_mock.Repository.Updates.{update_returning, update_and_enqueue}

-- The row with the id was in status `from` and has been changed by `change`.
pub record Changed (i : ℕ) (from : Status) (change : PaymentRow → PaymentRow)
    (before after : List PaymentRow) (old : PaymentRow) : Type 0 where
  pub found : find_payment i before ≡ some old
  pub expected : old.status ≡ from
  pub written : after ≡ put_payment (change old) before

pub update_payment_where-ok :
    (i : ℕ) (from : Status) (change : PaymentRow → PaymentRow) (rows : List PaymentRow)
    {row : PaymentRow} {after : List PaymentRow}
    → update_payment_where i from change rows ≡ some (row, after)
    → (old : PaymentRow) × (row ≡ change old) × Changed i from change rows after old
unfolding update_payment_where
update_payment_where-ok i from change rows h = elim (Option-cases (find_payment i rows)) [
  | inl missing ↦ ground arith
  | inr (old, found) ↦ (
    old,
    ground arith,
    record {
      found = found;
      expected = ground (arith, status_eq_iff old.status from);
      written = ground arith;
    },
  )
]

pub enqueue_tx-ok :
    (env : Env) (e : OutboxEvent) (db : Db) {after : Db}
    → enqueue_tx env e db ≡ ok after
    → (after ≡ record db { outbox = event_row env.now e ∷ db.outbox })
      × (find_event e.id db.outbox ≡ none)
unfolding enqueue_tx
enqueue_tx-ok env e db h = ground arith

pub enqueue-ok :
    (r : PaymentRepo) (env : Env) (src : EventSource) (db : Db) {after : Db}
    → enqueue_outbox_payment_event_tx r env src db ≡ ok after
    → (event_id : ℕ) × (env.new_id ≡ some event_id)
      × (find_event event_id db.outbox ≡ none)
      × (after ≡ record db {
        outbox = event_row env.now (outbox_event r event_id env.now src) ∷ db.outbox;
      })
unfolding enqueue_outbox_payment_event_tx outbox_event
enqueue-ok r env src db {after} h = elim (Option-cases env.new_id) [
  | inl no_id ↦ absurd (ground arith)
  | inr (event_id, made) ↦ (
    event_id,
    made,
    ground (arith, enqueue_tx-ok env (outbox_event r event_id env.now src) db {after = after}),
    ground (arith, enqueue_tx-ok env (outbox_event r event_id env.now src) db {after = after}),
  )
]

pub update_returning-ok :
    (env : Env) (label : Label) (i : ℕ) (from : Status) (change : PaymentRow → PaymentRow) (db : Db)
    {row : PaymentRow} {after : Db}
    → update_returning env label i from change db ≡ ok (row, after)
    → (old : PaymentRow) × (row ≡ change old)
      × Changed i from change db.payments after.payments old
      × (after ≡ record db { payments = after.payments })
unfolding update_returning
update_returning-ok env label i from change db {row} {after} h =
    elim (Option-cases (update_payment_where i from change db.payments)) [
      | inl no_row ↦ absurd (ground arith)
      | inr ((new, rows), e) ↦
          let written : after ≡ record db { payments = rows } = ground arith in
          let (old, same, changed) = update_payment_where-ok i from change db.payments e in
          (
            old,
            ground arith,
            subst (λ t. Changed i from change db.payments t old)
                (ap (λ d. d.payments) (sym written)) changed,
            ground arith,
          )
    ]

-- The transaction of an update with its event, at its end.
pub record Enqueued (r : PaymentRepo) (env : Env) (i : ℕ) (from : Status)
    (change : PaymentRow → PaymentRow) (source : PaymentRow → EventSource) (before after : Db)
    (old : PaymentRow) (event_id : ℕ) : Type 0 where
  pub changed : Changed i from change before.payments after.payments old
  pub event_made : env.new_id ≡ some event_id
  pub new_event : find_event event_id before.outbox ≡ none
  pub same_refunds : after.refunds ≡ before.refunds
  pub one_event :
      after.outbox
      ≡ event_row env.now (outbox_event r event_id env.now (source (change old))) ∷ before.outbox

Enqueued-intro :
    (r : PaymentRepo) (env : Env) (i : ℕ) (from : Status) (change : PaymentRow → PaymentRow)
    (source : PaymentRow → EventSource) (db updated after : Db) (row old : PaymentRow)
    (event_id : ℕ)
    → row ≡ change old
    → Changed i from change db.payments updated.payments old
    → updated ≡ record db { payments = updated.payments }
    → env.new_id ≡ some event_id
    → find_event event_id updated.outbox ≡ none
    → after ≡ record updated {
      outbox = event_row env.now (outbox_event r event_id env.now (source row)) ∷ updated.outbox;
    }
    → Enqueued r env i from change source db after old event_id
Enqueued-intro r env i from change source db updated after row old event_id same changed kept made
      new written =
    record {
      changed =
          subst (λ t. Changed i from change db.payments t old) (ap (λ d. d.payments) (sym written))
            changed;
      event_made = made;
      new_event = sym (ap (λ d. find_event event_id d.outbox) kept) ∙ new;
      same_refunds = ap (λ d. d.refunds) written ∙ ap (λ d. d.refunds) kept;
      one_event =
          ap (λ d. d.outbox) written
          ∙ ap₂ (λ q t. event_row env.now (outbox_event r event_id env.now (source q)) ∷ t) same
              (ap (λ d. d.outbox) kept);
    }

pub ok-injective : {A : Type 0} {a b : A} → ok a ≡ ok b → a ≡ b
ok-injective h = cc

pub update_and_enqueue-ok :
    (r : PaymentRepo) (env : Env) (label : Label) (i : ℕ) (from : Status)
    (change : PaymentRow → PaymentRow) (source : PaymentRow → EventSource) (db : Db) {after : Db}
    → update_and_enqueue r env label i from change source db ≡ ok (tt, after)
    → (old : PaymentRow) × (event_id : ℕ) × Enqueued r env i from change source db after old
        event_id
unfolding update_and_enqueue
update_and_enqueue-ok r env label i from change source db h =
    let ((row, updated), u, rest) = >>=-eq-ok (update_returning env label i from change db) _ h in
    let (complete, q, done) =
      >>=-eq-ok (enqueue_outbox_payment_event_tx r env (source row) updated) _ rest in
    let (old, same, changed, kept) = update_returning-ok env label i from change db u in
    let (event_id, made, new, written) = enqueue-ok r env (source row) updated q in
    (
      old,
      event_id,
      Enqueued-intro r env i from change source db updated _ row old event_id same changed kept made
          new (sym (ap (λ d. d.1) (ok-injective done)) ∙ written),
    )
