-- ===== src/Service/Kept.antt =====
-- The service against the history of the tables: each method is a run of the steps of Ledger.
use pay_flow_mock.Prelude.{Text, ℕ, ◌≡◌, refl, Option, none, some, []}
use pay_flow_mock.Domain.{initiated, processing, success, Payment, CreatePaymentRequest}
use pay_flow_mock.Errors.{Result, ok, err}
use pay_flow_mock.Repository.{Db, Env}
use pay_flow_mock.Repository.Payments.{PaymentRepo, create_payment}
use pay_flow_mock.Repository.Updates.Atomic.{
  create_payment-IsAtomic, update_payment_status-IsAtomic, update_payment_status_with_psp-IsAtomic,
  update_payment_failed-IsAtomic,
}
use pay_flow_mock.Psp.{
  ChargeStatus, authorized, captured, declined, charge_error, other_charge_status, ChargeResponse,
  PspAdapter,
}
use pay_flow_mock.Psp.Router.{Router}
use pay_flow_mock.Floats.{Float64}
use pay_flow_mock.Retry.{Config}
use pay_flow_mock.Ledger.{create, start_processing, succeed_payment, fail_payment}
use pay_flow_mock.Ledger.Runs.{Steps, done, Steps-trans, outcome-Steps}
use pay_flow_mock.Service.{
  Call, create_call, start_call, finish_call, State, Outside, Act, then_do, chain, pure,
  with_drawn_id, repo_call, generate_id, error_text,
}
use pay_flow_mock.Service.Payments.{
  new_payment, fail_with, succeed_with, settle_status, settle, charge_routed, create_configured,
  create_payment_service,
}
use pay_flow_mock.Repository.Updates.{
  update_payment_status, update_payment_status_with_psp, update_payment_failed,
}

module _ {fl : Float64} {X : Type 0} (out : Outside fl X) (r : PaymentRepo) where
  -- What happens to the tables between the calls of the repository are steps too.
  abbrev pub OthersStep : Type 0
  OthersStep = (c : Call) (s : State X) → Steps r s.0 (out.before c s).1.0

  -- Whatever the action answers, it takes the tables through a run of steps.
  pub record IsRun {A : Type 0} (act : Act X A) : Type 0 where
    pub runs : (s : State X) → Steps r s.0 (act s).1.0

  pub then_do-Steps :
      {A B : Type 0} (db : Db) (rest : A → Act X B) (outcome : Result A × State X)
      → Steps r db outcome.1.0
      → ((a : A) → outcome.0 ≡ ok a → Steps r outcome.1.0 (rest a outcome.1).1.0)
      → Steps r db (then_do rest outcome).1.0
  then_do-Steps db rest (ok a, s) before after = Steps-trans r before (after a refl)
  then_do-Steps db rest (err e, s) before after = before

  chain-IsRun :
      {A B : Type 0} (act : Act X A) (rest : A → Act X B)
      → IsRun act
      → ((a : A) → IsRun (rest a))
      → IsRun (chain act rest)
  chain-IsRun act rest first after = record {
    runs = λ s. then_do-Steps s.0 rest (act s) (first.runs s) (λ a h. (after a).runs (act s).1);
  }

  pub pure-IsRun : {A : Type 0} (result : Result A) → IsRun (pure result)
  pure-IsRun result = record { runs = λ s. done }

  id_kept : (db : Db) (drawn : Option ℕ × X) → Steps r db (with_drawn_id db drawn).1.0
  id_kept db (none, x) = done
  id_kept db (some i, x) = done

  generate_id-IsRun : IsRun (generate_id out)
  generate_id-IsRun = record { runs = λ s. id_kept s.0 (out.new_id s.1) }

  module _ (others : OthersStep) where
    repo_call-IsRun :
        {A : Type 0} (c : Call) (method : Env → Db → Result A × Db)
        → ((env : Env) (db : Db) → Steps r db (method env db).1)
        → IsRun (repo_call out c method)
    repo_call-IsRun c method runs = record {
      runs = λ s. Steps-trans r (others c s) (runs (out.before c s).0 (out.before c s).1.0);
    }

    fail_with-IsRun :
        (id : ℕ) (psp_name psp_reference_id reason : Text)
        → IsRun (fail_with out r id psp_name psp_reference_id reason)
    unfolding fail_with
    fail_with-IsRun id n f reason =
        chain-IsRun _ _
          (repo_call-IsRun finish_call (λ env. update_payment_failed r env id processing n f reason)
            (λ env db.
              outcome-Steps r env db _
                (update_payment_failed-IsAtomic r env db id processing n f reason)
                (λ env' a after h. fail_payment env' id n f reason h)))
          (λ a. pure-IsRun (ok _))

    succeed_with-IsRun :
        (id : ℕ) (psp_name psp_reference_id : Text)
        → IsRun (succeed_with out r id psp_name psp_reference_id)
    unfolding succeed_with
    succeed_with-IsRun id n f =
        chain-IsRun _ _
          (repo_call-IsRun finish_call
            (λ env. update_payment_status_with_psp r env id processing success n f)
            (λ env db.
              outcome-Steps r env db _
                (update_payment_status_with_psp-IsAtomic r env db id processing success n f)
                (λ env' a after h. succeed_payment env' id n f h)))
          (λ a. pure-IsRun (ok _))

    settle_status-IsRun :
        (id : ℕ) (psp_name : Text) (resp : ChargeResponse) (status : ChargeStatus)
        → IsRun (settle_status out r id psp_name resp status)
    unfolding settle_status
    settle_status-IsRun id n resp captured = succeed_with-IsRun id n _
    settle_status-IsRun id n resp authorized = succeed_with-IsRun id n _
    settle_status-IsRun id n resp declined = fail_with-IsRun id n _ _
    settle_status-IsRun id n resp charge_error = fail_with-IsRun id n _ _
    settle_status-IsRun id n resp (other_charge_status t) = fail_with-IsRun id n _ _

    settle-IsRun :
        (id : ℕ) (psp_name : Text) (result : Result ChargeResponse)
        → IsRun (settle out r id psp_name result)
    unfolding settle
    settle-IsRun id n (err e) = fail_with-IsRun id n _ _
    settle-IsRun id n (ok resp) = settle_status-IsRun id n resp resp.status

    charge_routed-IsRun :
        (config : Config fl.F) (p : Payment) (route : Result (PspAdapter X))
        → IsRun (charge_routed out r config p route)
    unfolding charge_routed
    charge_routed-IsRun config p (err e) = record {
      runs = λ s. (fail_with-IsRun p.id [] [] (error_text out.foreign_text e)).runs s;
    }
    charge_routed-IsRun config p (ok adapter) = record {
      runs = λ s. (settle-IsRun p.id adapter.name _).runs (s.0, _);
    }

    -- A call of CreatePayment, whatever it answers, takes the tables through a run of the steps of
    -- Ledger: with the steps of others between its own, and in any state of the provider.
    pub create-IsRun :
        (router : Option (Router (PspAdapter X))) (config : Config fl.F)
        (req : CreatePaymentRequest)
        → IsRun (
            create_payment_service out
              (some (record { repo = some r; router = router; retry_cfg = config }))
              req)
    unfolding create_payment_service create_configured
    create-IsRun none config req = record { runs = λ s. done }
    create-IsRun (some router) config req = chain-IsRun _ _ (pure-IsRun _) (λ u.
        chain-IsRun _ _ generate_id-IsRun (λ id.
          chain-IsRun _ _
            (repo_call-IsRun create_call (λ env. create_payment r env (some (new_payment req id)))
              (λ env db.
                outcome-Steps r env db _ (create_payment-IsAtomic r env db _)
                  (λ env' stored after h. create env' (new_payment req id) stored h)))
            (λ stored.
              chain-IsRun _ _
                (repo_call-IsRun start_call
                  (λ env. update_payment_status r env id initiated processing)
                  (λ env db.
                    outcome-Steps r env db _
                      (update_payment_status-IsAtomic r env db id initiated processing)
                      (λ env' a after h. start_processing env' id h)))
                (λ u'. charge_routed-IsRun config (new_payment req id) _))))
