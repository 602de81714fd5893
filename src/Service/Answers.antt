-- ===== src/Service/Answers.antt =====
-- What an answer of CreatePayment tells of the tables.
use pay_flow_mock.Prelude.{
  if◌then◌else◌, ==_refl, Text, ℕ, ◌≡◌, refl, ap, subst₂, ◌∙◌, ◌⊎◌, inl, inr, Option, none, some,
  List, [],
}
use pay_flow_mock.Domain.{
  Status, initiated, processing, success, failed, Payment, CreatePaymentRequest,
  CreatePaymentResponse,
}
use pay_flow_mock.Errors.{Result, ok, err}
use pay_flow_mock.Repository.{PaymentRow, Db, find_payment}
use pay_flow_mock.Repository.Payments.{PaymentRepo, create_payment}
use pay_flow_mock.Repository.Updates.{
  update_payment_status, update_payment_status_with_psp, update_payment_failed,
}
use pay_flow_mock.Repository.Updates.Effects.{Changed}
use pay_flow_mock.Repository.Updates.Success.{
  paid, broken, update_payment_status_with_psp-ok, update_payment_failed-ok,
}
use pay_flow_mock.Floats.{Float64}
use pay_flow_mock.Ledger.Change.{find_payment-changed}
use pay_flow_mock.Service.{
  create_call, start_call, finish_call, State, Outside, Act, then_do, chain, pure, repo_call,
  generate_id, validate_create_payment_request, error_text,
}
use pay_flow_mock.Service.Payments.{
  new_payment, fail_with, succeed_with, settle_status, settle, charge_routed, create_configured,
  create_payment_service,
}
use pay_flow_mock.Psp.{
  ChargeStatus, authorized, captured, declined, charge_error, other_charge_status, ChargeResponse,
  PspAdapter,
}
use pay_flow_mock.Psp.Router.{Router, select}
use pay_flow_mock.Retry.{Config}

-- The row that a change has left is found afterwards.
Changed-found :
    (i : ℕ) (from : Status) (change : PaymentRow → PaymentRow) (before after : List PaymentRow)
    {old : PaymentRow}
    → Changed i from change before after old
    → (change old).id ≡ old.id
    → find_payment i after ≡ some (change old)
Changed-found i from change before after {old} q same =
    ap (find_payment i) q.written
    ∙ find_payment-changed i old (change old) before i q.found same
    ∙ ap (λ b. if b then some (change old) else find_payment i before) (==_refl i)

-- The payment of the answer is stored in the status of the answer, which is final for a creation.
pub record Stored (resp : CreatePaymentResponse) (db : Db) : Type 0 where
  pub row : PaymentRow
  pub found : find_payment resp.payment_id db.payments ≡ some row
  pub same_status : row.status ≡ resp.status
  pub final : (resp.status ≡ success) ⊎ (resp.status ≡ failed)

-- An action whose answers are true of the tables that it leaves.
record IsTruthful {X : Type 0} (act : Act X CreatePaymentResponse) : Type 0 where
  truth :
      (s : State X) (resp : CreatePaymentResponse) (after : State X)
      → act s ≡ (ok resp, after)
      → Stored resp after.0

module _ {X : Type 0} where
  then_do-IsTruthful :
      {A : Type 0} (rest : A → Act X CreatePaymentResponse) (outcome : Result A × State X)
      (resp : CreatePaymentResponse) (after : State X)
      → ((a : A) → outcome.0 ≡ ok a → rest a outcome.1 ≡ (ok resp, after) → Stored resp after.0)
      → then_do rest outcome ≡ (ok resp, after)
      → Stored resp after.0
  then_do-IsTruthful rest (ok a, s) resp after truth h = truth a refl h
  then_do-IsTruthful rest (err e, s) resp after truth h = absurd cc

  chain-IsTruthful :
      {A : Type 0} (act : Act X A) (rest : A → Act X CreatePaymentResponse)
      → ((a : A) → IsTruthful (rest a))
      → IsTruthful (chain act rest)
  chain-IsTruthful act rest truthful = record {
    truth = λ s resp after h.
        then_do-IsTruthful rest (act s) resp after
          (λ a first. (truthful a).truth (act s).1 resp after) h;
  }

pure-Stored :
    {X : Type 0} (given : CreatePaymentResponse) (s : State X)
    → Stored given s.0
    → (resp : CreatePaymentResponse) (after : State X) → pure (ok given) s ≡ (ok resp, after)
    → Stored resp after.0
pure-Stored given s stored resp after h =
    let result : ok given ≡ ok resp = ap (λ k. k.0) h in
    let same : given ≡ resp = cc in subst₂ Stored same (ap (λ k. k.1.0) h) stored

module _ {fl : Float64} {X : Type 0} (out : Outside fl X) (r : PaymentRepo) where
  fail_with-IsTruthful :
      (id : ℕ) (psp_name psp_reference_id reason : Text)
      → IsTruthful (fail_with out r id psp_name psp_reference_id reason)
  unfolding fail_with
  fail_with-IsTruthful id n f reason = record {
    truth = λ s resp after h.
        let env = (out.before finish_call s).0 in
        let db = (out.before finish_call s).1.0 in
        let x = (out.before finish_call s).1.1 in
        let o = update_payment_failed r env id processing n f reason db in
        then_do-IsTruthful _ (o.0, (o.1, x)) resp after
          (λ u ended answered.
            let (old, _, _, q) =
              update_payment_failed-ok r env id db processing n f reason (λ k. (ended k, o.1))
                (λ e. cc) in
            pure-Stored (record { payment_id = id; status = failed }) (o.1, x)
              (record {
                row = broken env n f reason old;
                found = Changed-found id processing _ _ _ q.changed refl;
                same_status = refl;
                final = inr refl;
              })
              resp after answered)
          h;
  }

  succeed_with-IsTruthful :
      (id : ℕ) (psp_name psp_reference_id : Text)
      → IsTruthful (succeed_with out r id psp_name psp_reference_id)
  unfolding succeed_with
  succeed_with-IsTruthful id n f = record {
    truth = λ s resp after h.
        let env = (out.before finish_call s).0 in
        let db = (out.before finish_call s).1.0 in
        let x = (out.before finish_call s).1.1 in
        let o = update_payment_status_with_psp r env id processing success n f db in
        then_do-IsTruthful _ (o.0, (o.1, x)) resp after
          (λ u ended answered.
            let (old, _, _, q) =
              update_payment_status_with_psp-ok r env id db processing success n f
                (λ k. (ended k, o.1)) (λ e. cc) in
            pure-Stored (record { payment_id = id; status = success }) (o.1, x)
              (record {
                row = paid env success n f old;
                found = Changed-found id processing _ _ _ q.changed refl;
                same_status = refl;
                final = inl refl;
              })
              resp after answered)
          h;
  }

  settle_status-IsTruthful :
      (id : ℕ) (psp_name : Text) (resp : ChargeResponse) (status : ChargeStatus)
      → IsTruthful (settle_status out r id psp_name resp status)
  unfolding settle_status
  settle_status-IsTruthful id n resp captured = succeed_with-IsTruthful id n _
  settle_status-IsTruthful id n resp authorized = succeed_with-IsTruthful id n _
  settle_status-IsTruthful id n resp declined = fail_with-IsTruthful id n _ _
  settle_status-IsTruthful id n resp charge_error = fail_with-IsTruthful id n _ _
  settle_status-IsTruthful id n resp (other_charge_status t) = fail_with-IsTruthful id n _ _

  settle-IsTruthful :
      (id : ℕ) (psp_name : Text) (result : Result ChargeResponse)
      → IsTruthful (settle out r id psp_name result)
  unfolding settle
  settle-IsTruthful id n (err e) = fail_with-IsTruthful id n _ _
  settle-IsTruthful id n (ok resp) = settle_status-IsTruthful id n resp resp.status

  charge_routed-IsTruthful :
      (config : Config fl.F) (p : Payment) (route : Result (PspAdapter X))
      → IsTruthful (charge_routed out r config p route)
  unfolding charge_routed
  charge_routed-IsTruthful config p (err e) = record {
    truth = λ s. (fail_with-IsTruthful p.id [] [] (error_text out.foreign_text e)).truth s;
  }
  charge_routed-IsTruthful config p (ok adapter) = record {
    truth = λ s. (settle-IsTruthful p.id adapter.name _).truth (s.0, _);
  }

  create_configured-IsTruthful :
      (router : Router (PspAdapter X)) (config : Config fl.F) (req : CreatePaymentRequest)
      → IsTruthful (create_configured out r router config req)
  unfolding create_configured
  create_configured-IsTruthful router config req =
      chain-IsTruthful (pure (validate_create_payment_request (some req))) _ (λ u.
        chain-IsTruthful (generate_id out) _ (λ id.
          chain-IsTruthful
            (repo_call out create_call (λ env. create_payment r env (some (new_payment req id)))) _
            (λ stored.
              chain-IsTruthful
                (repo_call out start_call
                  (λ env. update_payment_status r env id initiated processing))
                _
                (λ started. charge_routed-IsTruthful config (new_payment req id) (
                  select (some router) (new_payment req id).currency
                    (new_payment req id).amount)))))

  -- When CreatePayment answers, the payment of the answer is stored in the status of the answer,
  -- and that is success or failed, whatever the provider did and others did between.
  pub create-truthful :
      (router : Option (Router (PspAdapter X))) (config : Config fl.F) (req : CreatePaymentRequest)
      (s : State X) (resp : CreatePaymentResponse) (after : State X)
      → create_payment_service out
          (some (record { repo = some r; router = router; retry_cfg = config }))
          req
          s
        ≡ (ok resp, after)
      → Stored resp after.0
  unfolding create_payment_service
  create-truthful none config req s resp after h = absurd cc
  create-truthful (some router) config req s resp after h =
      (create_configured-IsTruthful router config req).truth s resp after h
