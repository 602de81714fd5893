-- ===== src/Service/Live.antt =====
-- CreatePayment while Postgres answers and no one else touches the tables: it ends well.
use pay_flow_mock.Prelude.{
  if◌then◌else◌, ==_refl, Text, trim_space, ℕ, ◌≡◌, refl, sym, ap, subst, ◌∙◌, ◌≢◌, true, none,
  some, ◌∷◌, arith,
}
use pay_flow_mock.Domain.{
  initiated, processing, success, status_eq, nil_id, Payment, CreatePaymentRequest,
  CreatePaymentResponse, valid_transition,
}
use pay_flow_mock.Errors.{Result, ok}
use pay_flow_mock.Floats.{Float64}
use pay_flow_mock.Repository.{
  PaymentRow, Db, Env, find_payment, find_payment_by_key, put_payment, find_event,
}
use pay_flow_mock.Repository.Payments.{PaymentRepo, payment_row, create_payment}
use pay_flow_mock.Repository.Up.{
  IsUp, IsConfigured, put-found, create_payment-up, update_payment_status-up,
  update_payment_status_with_psp-up,
}
use pay_flow_mock.Psp.{captured, ChargeResponse, PspAdapter}
use pay_flow_mock.Retry.{Config, second}
use pay_flow_mock.Service.{
  Call, create_call, start_call, finish_call, State, Outside, Act, then_do, chain, pure,
  with_drawn_id, repo_call, generate_id, validate_create_payment_request,
}
use pay_flow_mock.Service.Payments.{
  new_payment, succeed_with, settle_status, settle, charge_with_retries, charge_request,
  charge_routed, create_configured,
}
use pay_flow_mock.Repository.Updates.{update_payment_status, update_payment_status_with_psp}
use pay_flow_mock.Repository.Payments.Store.{stamped}
use pay_flow_mock.Repository.Updates.Success.{with_status}
use pay_flow_mock.Psp.Router.{Router, select}
use pay_flow_mock.Retry.Backoff.{with_defaults-IsUsable}
use pay_flow_mock.Retry.Rounds.{do_with_observer-success}
use pay_flow_mock.Service.Validated.{validate-agrees}

module _ {fl : Float64} {X : Type 0} (out : Outside fl X) where
  -- No one else writes, no statement fails, each event gets a new id, and the context is alive.
  pub record IsQuiet : Type 0 where
    pub alone : (c : Call) (s : State X) → (out.before c s).1.0 ≡ s.0
    pub up : (c : Call) (s : State X) → IsUp (out.before c s).0
    pub event_id : Call → State X → ℕ
    pub event_drawn : (c : Call) (s : State X) → (out.before c s).0.new_id ≡ some (event_id c s)
    pub event_some : (c : Call) (s : State X) → event_id c s ≢ nil_id
    pub event_new : (c : Call) (s : State X) → find_event (event_id c s) s.0.outbox ≡ none
    pub alive : (x : X) → out.ctx_err x ≡ none

  -- The action answers that the payment has succeeded.
  pub record Succeeds (id : ℕ) (act : Act X CreatePaymentResponse) (s : State X) : Type 0 where
    pub after : State X
    pub ends : act s ≡ (ok (record { payment_id = id; status = success }), after)

  module _ (quiet : IsQuiet) (r : PaymentRepo) (configured : IsConfigured r) where
    repo_call-up :
        {A : Type 0} (c : Call) (method : Env → Db → Result A × Db) (s : State X) (a : A) (db : Db)
        → method (out.before c s).0 s.0 ≡ (ok a, db)
        → repo_call out c method s ≡ (ok a, (db, (out.before c s).1.1))
    repo_call-up c method s a db ran =
        let there : method (out.before c s).0 (out.before c s).1.0 ≡ (ok a, db) =
          ap (method (out.before c s).0) (quiet.alone c s) ∙ ran in
        ap (λ o. (o.0, (o.1, (out.before c s).1.1))) there

    chain-up :
        {A : Type 0} (id : ℕ) (act : Act X A) (rest : A → Act X CreatePaymentResponse)
        (s t : State X) (a : A)
        → act s ≡ (ok a, t)
        → Succeeds id (rest a) t
        → Succeeds id (chain act rest) s
    chain-up id act rest s t a first second = record {
      after = second.after;
      ends = ap (then_do rest) first ∙ second.ends;
    }

    call-up :
        {A : Type 0} (id : ℕ) (c : Call) (method : Env → Db → Result A × Db)
        (rest : A → Act X CreatePaymentResponse) (s : State X) (a : A) (db : Db)
        → method (out.before c s).0 s.0 ≡ (ok a, db)
        → Succeeds id (rest a) (db, (out.before c s).1.1)
        → Succeeds id (chain (repo_call out c method) rest) s
    call-up id c method rest s a db ran next =
        chain-up id (repo_call out c method) rest s _ a (repo_call-up c method s a db ran) next

    starting : valid_transition initiated processing ≡ true
    unfolding valid_transition status_eq
    starting = refl

    paying : valid_transition processing success ≡ true
    unfolding valid_transition status_eq
    paying = refl

    succeed_with-up :
        (id : ℕ) (psp_name psp_reference_id : Text) (s : State X) (row : PaymentRow)
        → id ≢ nil_id
        → find_payment id s.0.payments ≡ some row
        → row.status ≡ processing
        → Succeeds id (succeed_with out r id psp_name psp_reference_id) s
    unfolding succeed_with
    succeed_with-up id n f s row some_id found same =
        let env = (out.before finish_call s).0 in
        let (db, ran) =
          update_payment_status_with_psp-up r configured env (quiet.up finish_call s) id processing
            success n f s.0 row (quiet.event_id finish_call s) some_id paying found same
            (quiet.event_drawn finish_call s) (quiet.event_some finish_call s)
            (quiet.event_new finish_call s) in
        call-up id finish_call
          (λ env. update_payment_status_with_psp r env id processing success n f)
          (λ _. pure (ok (record { payment_id = id; status = success }))) s tt db ran
          (record { after = (db, (out.before finish_call s).1.1); ends = refl })

    module _ (config : Config fl.F) (adapter : PspAdapter X) (p : Payment)
        (answer : X → ChargeResponse × X)
        (captures : (x : X)
          → adapter.charge (charge_request out p) x ≡ (ok (answer x).0, (answer x).1))
        (status : (x : X) → (answer x).0.status ≡ captured) where
      charge-up :
          (x : X)
          → charge_with_retries out adapter config (charge_request out p) x
            ≡ (ok (answer x).0, (answer x).1)
      unfolding charge_with_retries
      charge-up x =
          let usable = with_defaults-IsUsable fl config in
          ap (λ run. (run.0, run.2))
            (do_with_observer-success fl (adapter.charge (charge_request out p)) out.ctx_err
              out.wait out.fraction config 0 x x (answer x).1 (answer x).0 refl (quiet.alive x)
              (captures x) (omega (arith, usable.some_attempt)))

      -- A charge that is captured at once is stored as a success.
      pub charge_routed-up :
          (s : State X) (row : PaymentRow)
          → p.id ≢ nil_id
          → find_payment p.id s.0.payments ≡ some row
          → row.status ≡ processing
          → Succeeds p.id (charge_routed out r config p (ok adapter)) s
      unfolding charge_routed settle settle_status
      charge_routed-up s row some_id found same =
          let resp = (answer s.1).0 in
          let settled =
            succeed_with-up p.id adapter.name resp.psp_reference_id (s.0, (answer s.1).1) row
              some_id found same in
          let ran : charge_routed out r config p (ok adapter) s
              ≡ succeed_with out r p.id adapter.name resp.psp_reference_id (s.0, (answer s.1).1) =
            ap (λ o. settle out r p.id adapter.name o.0 (s.0, o.1)) (charge-up s.1)
            ∙ ap (λ t. settle_status out r p.id adapter.name resp t (s.0, (answer s.1).1))
                (status s.1) in
          record { after = settled.after; ends = ran ∙ settled.ends }

    -- CreatePayment ends in success where the router finds an adapter that captures each charge.
    pub create-up :
        (router : Router (PspAdapter X)) (config : Config fl.F) (req : CreatePaymentRequest)
        (adapter : PspAdapter X) (s : State X) (id : ℕ) (answer : X → ChargeResponse × X)
        → validate_create_payment_request (some req) ≡ ok tt
        → (out.new_id s.1).0 ≡ some id
        → id ≢ nil_id
        → find_payment id s.0.payments ≡ none
        → find_payment_by_key (trim_space req.idempotency_key) s.0.payments ≡ none
        → select (some router) (new_payment req id).currency (new_payment req id).amount
          ≡ ok adapter
        → ((x : X)
            → adapter.charge (charge_request out (new_payment req id)) x
              ≡ (ok (answer x).0, (answer x).1))
        → ((x : X) → (answer x).0.status ≡ captured)
        → Succeeds id (create_configured out r router config req) s
    unfolding create_configured new_payment payment_row
    create-up router config req adapter s id answer valid drawn some_id new_id new_key route
          captures status =
        let p = new_payment req id in
        let env = (out.before create_call (s.0, (out.new_id s.1).1)).0 in
        let s1 : State X = (s.0, (out.new_id s.1).1) in
        let db2 = record s.0 { payments = payment_row (stamped env p) ∷ s.0.payments } in
        let s2 : State X = (db2, (out.before create_call s1).1.1) in
        let env2 = (out.before start_call s2).0 in
        let moved = with_status env2 processing (payment_row (stamped env p)) in
        let db3 = record db2 { payments = put_payment moved db2.payments } in
        let s3 : State X = (db3, (out.before start_call s2).1.1) in
        let there : find_payment id db2.payments ≡ some (payment_row (stamped env p)) =
          ap (λ b. if b then some (payment_row (stamped env p)) else find_payment id s.0.payments)
            (==_refl id) in
        chain-up id (pure (validate_create_payment_request (some req))) _ s s tt
          (ap (λ v. (v, s)) valid)
          (chain-up id (generate_id out) _ s s1 id
            (ap (λ d. with_drawn_id s.0 (d, (out.new_id s.1).1)) drawn)
            (call-up id create_call (λ env. create_payment r env (some p)) _ s1 (stamped env p) db2
              (create_payment-up r configured env (quiet.up create_call s1) p s.0
                (validate-agrees req id valid some_id) new_id new_key)
              (call-up id start_call (λ env. update_payment_status r env id initiated processing) _
                s2 tt db3
                (update_payment_status-up r configured env2 (quiet.up start_call s2) id initiated
                  processing db2 _ some_id starting there refl)
                (subst (λ found. Succeeds id (charge_routed out r config p found) s3) (sym route)
                  (charge_routed-up config adapter p answer captures status s3 moved some_id
                    (put-found id moved db2.payments there refl) refl)))))
