-- ===== src/Service/Refunded.antt =====
-- A refund by the service is never more than the payment, whatever happens to the tables between the
-- load of the payment and the refund's transaction.
use pay_flow_mock.Prelude.{
  ◌==◌, if◌then◌else◌, Option-cases, ℤ, ◌≤ℤ◌, Text, trim_space, ℕ, ◌≡◌, refl, sym, subst, inl, inr,
  Bool, true, false, not, ◌&&◌, Option, some, arith,
}
use pay_flow_mock.Domain.{nil_id, Payment, RefundRequest}
use pay_flow_mock.Errors.{Error, Result, ok, err}
use pay_flow_mock.Repository.{PaymentRow, Db, Env, find_payment}
use pay_flow_mock.Repository.Payments.{PaymentRepo, scan_payment, get_payment_by_id}
use pay_flow_mock.Repository.Updates.Refunds.{refund_payment_atomic}
use pay_flow_mock.Repository.Updates.Atomic.{refund_payment_atomic-IsAtomic}
use pay_flow_mock.Psp.{PspAdapter}
use pay_flow_mock.Psp.Router.{Router}
use pay_flow_mock.Floats.{Float64}
use pay_flow_mock.Retry.{Config}
use pay_flow_mock.Ledger.{refund_payment}
use pay_flow_mock.Ledger.Runs.{Steps, done, Steps-trans, Steps-SameData, outcome-Steps}
use pay_flow_mock.Service.{
  get_call, refund_call, State, Outside, repo_call, validate_refund_request,
}
use pay_flow_mock.Service.Payments.{
  check_refundable, label_refund_error, refund_configured, refund_payment_service,
}
use pay_flow_mock.Service.Kept.{OthersStep, IsRun, then_do-Steps}

get_payment_by_id-ok :
    (r : PaymentRepo) (env : Env) (i : ℕ) (db : Db) {p : Payment}
    → get_payment_by_id r env i db ≡ ok p
    → (row : PaymentRow) × (find_payment i db.payments ≡ some row) × (row.amount ≡ p.amount)
unfolding get_payment_by_id scan_payment
get_payment_by_id-ok r env i db {p} h = elim (Option-cases (find_payment i db.payments)) [
  | inl missing ↦ absurd (ground arith)
  | inr (row, found) ↦ (row, found, ground arith)
]

check_refundable-ok :
    (req : RefundRequest) (p : Payment) → check_refundable req p ≡ ok tt → req.amount ≤ℤ p.amount
unfolding check_refundable
check_refundable-ok req p h = ground arith

label_refund_error-state :
    {A X : Type 0} (outcome : Result A × State X) → (label_refund_error outcome).1 ≡ outcome.1
label_refund_error-state (ok a, s) = refl
label_refund_error-state (err e, s) = refl

guard_Steps :
    {A X : Type 0} (r : PaymentRepo) (test : Bool) (e : Error) (s : State X)
    (outcome : Result A × State X)
    → Steps r s.0 outcome.1.0
    → Steps r s.0 (if test then (err e, s) else outcome).1.0
guard_Steps r true e s outcome run = done
guard_Steps r false e s outcome run = run

module _ {fl : Float64} {X : Type 0} (out : Outside fl X) (r : PaymentRepo)
    (others : OthersStep out r) where
  refund_run :
      (id : ℕ) (amount : ℤ) (key : Text) (row : PaymentRow) (s : State X)
      → find_payment id s.0.payments ≡ some row
      → amount ≤ℤ row.amount
      → Steps r s.0
          (repo_call out refund_call (λ env. refund_payment_atomic r env id amount key) s).1.0
  refund_run id amount key row s found covered =
      let env = (out.before refund_call s).0 in
      let db = (out.before refund_call s).1.0 in
      let (now, found_now, (_, _, same, _, _)) =
        Steps-SameData r (others refund_call s) id row found in
      Steps-trans r (others refund_call s) (
        outcome-Steps r env db _ (refund_payment_atomic-IsAtomic r env db id amount key)
          (λ env' refund_id after h.
            refund_payment env' id amount key refund_id now found_now (rw same covered) h))

  refund_configured-IsRun :
      (id : ℕ) (req : RefundRequest) → IsRun out r (refund_configured out r id req)
  unfolding refund_configured
  refund_configured-IsRun id req = record {
    runs = λ s.
        let env = (out.before get_call s).0 in
        let s1 = (out.before get_call s).1 in
        then_do-Steps out r s.0 _ (get_payment_by_id r env id s1.0, s1) (others get_call s)
          (λ p got.
            then_do-Steps out r s1.0 _ (check_refundable req p, s1) done
              (λ u checked.
                let (row, found, same) = get_payment_by_id-ok r env id s1.0 got in
                let o =
                  repo_call out refund_call
                    (λ env'.
                      refund_payment_atomic r env' id req.amount (trim_space req.idempotency_key))
                    s1 in
                then_do-Steps out r s1.0 _ (label_refund_error o)
                  (subst (λ s2. Steps r s1.0 s2.0) (sym (label_refund_error-state o))
                    (refund_run id req.amount _ row s1 found
                      (rw same (check_refundable-ok req p checked))))
                  (λ refund_id h. done)));
  }

  -- A call of RefundPayment, whatever it answers, takes the tables through a run of the steps of
  -- Ledger, where a refund is of at most the payment's amount: also where others' steps come between
  -- the load of the payment and the transaction.
  pub refund-IsRun :
      (router : Option (Router (PspAdapter X))) (config : Config fl.F) (id : ℕ)
      (req : RefundRequest)
      → IsRun out r (
          refund_payment_service out
            (some (record { repo = some r; router = router; retry_cfg = config }))
            id
            req)
  unfolding refund_payment_service
  refund-IsRun router config id req = record {
    runs = λ s. guard_Steps r (id == nil_id) _ s _ (
        guard_Steps r (not (req.payment_id == nil_id) && not (req.payment_id == id)) _ s _ (
          then_do-Steps out r s.0 _ (validate_refund_request (some req), s) done
            (λ u valid. (refund_configured-IsRun id req).runs s)));
  }
