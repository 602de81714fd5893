-- ===== src/Repository/Updates/Success.antt =====
-- What a mutator that returned no error has done to the tables.
use pay_flow_mock.Prelude.{
  Option-cases, Text, ℕ, ◌≡◌, sym, ap, subst, ◌≢◌, inl, inr, true, [], arith,
}
use pay_flow_mock.Domain.{Status, failed, status_eq_iff, valid_transition}
use pay_flow_mock.Domain.Outbox.{payment_success, payment_failed}
use pay_flow_mock.Errors.{update_status_with_psp, update_failed, ok}
use pay_flow_mock.Repository.{PaymentRow, Db, Env, pg_now, update_payment_where}
use pay_flow_mock.Repository.Payments.{PaymentRepo, str_or_nil}
use pay_flow_mock.Repository.Updates.{
  run_tx, update_payment_status, update_and_enqueue, event_source, update_payment_status_with_psp,
  update_payment_failed,
}
use pay_flow_mock.Repository.Updates.Effects.{
  Changed, update_payment_where-ok, Enqueued, update_and_enqueue-ok,
}
use pay_flow_mock.Repository.Updates.Atomic.{run_tx-ok}

-- The changes that the UPDATE statements make to a row.
abbrev pub paid : Env → Status → Text → Text → PaymentRow → PaymentRow
paid env to psp_name psp_reference_id row = record row {
  status = to;
  psp = str_or_nil psp_name;
  psp_reference_id = str_or_nil psp_reference_id;
  updated_at = pg_now env;
}

abbrev pub broken : Env → Text → Text → Text → PaymentRow → PaymentRow
broken env psp_name psp_reference_id reason row = record row {
  status = failed;
  psp = str_or_nil psp_name;
  psp_reference_id = str_or_nil psp_reference_id;
  failure_reason = str_or_nil reason;
  updated_at = pg_now env;
}

abbrev pub with_status : Env → Status → PaymentRow → PaymentRow
with_status env to row = record row { status = to; updated_at = pg_now env }

module _ (r : PaymentRepo) (env : Env) (i : ℕ) (db : Db) {after : Db} where
  -- A status that has changed was the expected one, the change is a valid transition, and nothing
  -- but the one row has changed: there is no event.
  pub update_payment_status-ok :
      (from to : Status)
      → update_payment_status r env i from to db ≡ (ok tt, after)
      → from ≢ to
      → (old : PaymentRow) × (valid_transition from to ≡ true)
        × Changed i from (with_status env to) db.payments after.payments old
        × (after ≡ record db { payments = after.payments })
  unfolding update_payment_status
  update_payment_status-ok from to h ne =
      elim (Option-cases (update_payment_where i from (with_status env to) db.payments)) [
        | inl no_row ↦ absurd (ground (arith, status_eq_iff from to))
        | inr ((row, rows), e) ↦
            let (old, same, changed) =
              update_payment_where-ok i from (with_status env to) db.payments e in
            let written : after ≡ record db { payments = rows } =
              ground (arith, status_eq_iff from to) in
            (
              old,
              ground (arith, status_eq_iff from to),
              subst (λ t. Changed i from (with_status env to) db.payments t old)
                  (ap (λ d. d.payments) (sym written)) changed,
              ground arith,
            )
      ]

  -- The success of a payment is written with its event, or not at all.
  pub update_payment_status_with_psp-ok :
      (from to : Status) (psp_name psp_reference_id : Text)
      → update_payment_status_with_psp r env i from to psp_name psp_reference_id db ≡ (ok tt, after)
      → from ≢ to
      → (old : PaymentRow) × (event_id : ℕ) × (valid_transition from to ≡ true)
        × Enqueued r env i from
            (paid env to psp_name psp_reference_id)
            (event_source payment_success i to psp_name psp_reference_id [])
            db
            after
            old
            event_id
  unfolding update_payment_status_with_psp
  update_payment_status_with_psp-ok from to n f h ne =
      let change = paid env to n f in
      let source = event_source payment_success i to n f [] in
      let (valid, ran) : (valid_transition from to ≡ true)
          × (run_tx env db (update_and_enqueue r env update_status_with_psp i from change source)
              ≡ (ok tt, after)) =
        ground (arith, status_eq_iff from to) in
      let (old, event_id, enqueued) =
        update_and_enqueue-ok r env update_status_with_psp i from change source db
          (run_tx-ok env db _ tt ran) in
      (old, event_id, valid, enqueued)

  -- So is its failure, from the status that the caller expected.
  pub update_payment_failed-ok :
      (from : Status) (psp_name psp_reference_id reason : Text)
      → update_payment_failed r env i from psp_name psp_reference_id reason db ≡ (ok tt, after)
      → from ≢ failed
      → (old : PaymentRow) × (event_id : ℕ) × (valid_transition from failed ≡ true)
        × Enqueued r env i from
            (broken env psp_name psp_reference_id reason)
            (event_source payment_failed i failed psp_name psp_reference_id reason)
            db
            after
            old
            event_id
  unfolding update_payment_failed
  update_payment_failed-ok from n f reason h ne =
      let change = broken env n f reason in
      let source = event_source payment_failed i failed n f reason in
      let (valid, ran) : (valid_transition from failed ≡ true)
          × (run_tx env db (update_and_enqueue r env update_failed i from change source)
              ≡ (ok tt, after)) =
        ground (arith, status_eq_iff from failed) in
      let (old, event_id, enqueued) =
        update_and_enqueue-ok r env update_failed i from change source db
          (run_tx-ok env db _ tt ran) in
      (old, event_id, valid, enqueued)
