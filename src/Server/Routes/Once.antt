-- ===== src/Server/Routes/Once.antt =====
-- A payment that is posted twice to the assembled server.
use pay_flow_mock.Prelude.{
  length, pos, pos_part, ◌<ℤ◌, Text, codes, text_eq, is_empty, trim_space, ℕ, ◌+◌, ◌≤◌, ◌<◌, ◌≡◌,
  refl, sym, ap, subst, ◌∙◌, ◌≢◌, true, false, none, some, [], ◌∷◌,
}
use pay_flow_mock.Domain.{success, nil_id, CreatePaymentRequest, CreatePaymentResponse}
use pay_flow_mock.Errors.{Error, ok}
use pay_flow_mock.Floats.{Float64}
use pay_flow_mock.Psp.Chance.{Chance}
use pay_flow_mock.Repository.{find_payment, find_payment_by_key}
use pay_flow_mock.Repository.Up.{IsConfigured}
use pay_flow_mock.Repository.Payments.{PaymentRepo}
use pay_flow_mock.Service.{State, Outside, validate_create_payment_request}
use pay_flow_mock.Service.Live.{IsQuiet}
use pay_flow_mock.Service.Answers.{Stored}
use pay_flow_mock.Handler.{
  PaymentServiceApi, payment_service_api, Body, created_body, handle_create,
}
use pay_flow_mock.Idempotency.{
  Stores, Idempotency, redis_get, redis_set, redis_set_nx, pg_select, StoreEnv, build_lock_scope,
  is_idempotent_candidate_method,
}
use pay_flow_mock.Idempotency.Serve.{
  HttpRequest, Reply, response, Place, first_lookup, lock_attempt, second_lookup, store_place,
  ServeWorld, status_code, write_cached_response, request_key, recorded_response,
}
use pay_flow_mock.Idempotency.Recorder.{new_response_recorder, record_call, record_calls}
use pay_flow_mock.Idempotency.Fresh.{IsFresh, fresh-served}
use pay_flow_mock.Server.{Breakers, server_service}
use pay_flow_mock.Server.Live.{StaysClosed, server_service-Succeeds}
use pay_flow_mock.Server.Routes.{
  create_endpoint, server_routes, exact_route, Web, write_json, to_endpoint, server_next,
  server_world, server,
}
use pay_flow_mock.Idempotency.Once.{unshared}

-- The answer to a payment that has succeeded.
abbrev pub paid : ℕ → CreatePaymentResponse
paid id = record { payment_id = id; status = success }

abbrev pub created_reply : (Body → Text) → ℕ → Reply
created_reply encode id =
    response 201 ((codes "Content-Type", codes "application/json; charset=utf-8" ∷ []) ∷ [])
      (encode (created_body (paid id)))

post_exact : exact_route server_routes (codes "POST") (codes "/v1/payments") ≡ some create_endpoint
unfolding exact_route text_eq
post_exact = refl

post_candidate : is_idempotent_candidate_method (codes "POST") ≡ true
unfolding is_idempotent_candidate_method text_eq
post_candidate = refl

module _ {X : Type 0} (web : Web X) (text_of : Error → Text) (svc : PaymentServiceApi X) where
  -- A created payment is recorded as a 201 with its JSON.
  next-create :
      (req : HttpRequest) (body : Text) (pay : CreatePaymentRequest) (id : ℕ) (s after : State X)
      → req.method ≡ codes "POST"
      → req.path ≡ codes "/v1/payments"
      → req.body ≡ some body
      → web.decode_create body ≡ some pay
      → svc.create_payment pay s ≡ (ok (paid id), after)
      → server_next web text_of svc req s
        ≡ (write_json web.encode (record { status = 201; body = created_body (paid id) }), after)
  unfolding server_next to_endpoint handle_create
  next-create req body pay id s after post here readable decodes created =
      let (p, routed) = web.exact (codes "POST") (codes "/v1/payments") post_exact in
      let found : web.find req.method req.path ≡ some (create_endpoint, p) =
        ap (λ method. web.find method req.path) post ∙ ap (web.find (codes "POST")) here ∙ routed in
      rw (server_next, found, to_endpoint, handle_create, readable, decodes, created) refl

  replied :
      (m : Idempotency) (now : ℕ) (req : HttpRequest) (hash : Text) (id : ℕ)
      → write_cached_response (
          recorded_response m now req hash
            (write_json web.encode (record { status = 201; body = created_body (paid id) })))
        ≡ created_reply web.encode id
  unfolding write_cached_response recorded_response write_json record_calls record_call
      new_response_recorder status_code
  replied m now req hash id = refl

module _ {X : Type 0} (ch : Chance X) (of_stripe of_razorpay : Breakers X)
    (stripe_closed : StaysClosed of_stripe) (razorpay_closed : StaysClosed of_razorpay)
    {fl : Float64} (out : Outside fl X) (quiet : IsQuiet out) (r : PaymentRepo)
    (configured : IsConfigured r) (web : Web X) (text_of : Error → Text)
    (world : ServeWorld (State X)) (m : Idempotency) (redis : m.has_redis ≡ true)
    (some_ttl : pos 0 <ℤ m.response_ttl) where
  -- While Postgres answers, both breakers are closed, the context is alive and no one else
  -- writes, a valid payment that is posted under a key of which neither store knows anything is
  -- answered with 201 and stored as a success, if its own key and the drawn ids are new, and
  -- Redis takes the lock and the response. Posted again within the response's time, with Redis
  -- up to be read whatever else fails, it is answered the same, and nothing changes: not the
  -- tables, nor the two stores, nor the providers. Each call of the stores has its own faults
  -- and its own time, on a clock that does not go back before the handler runs, so the lock may
  -- lapse while the payment is charged.
  pub repeated_post-pays_once :
      (req : HttpRequest) (body : Text) (pay : CreatePaymentRequest) (env later : Place → StoreEnv)
      (stores : Stores) (s : State X) (id : ℕ)
      → req.method ≡ codes "POST"
      → req.path ≡ codes "/v1/payments"
      → is_empty (request_key req) ≡ false
      → length (request_key req) ≤ 255
      → req.body ≡ some body
      → web.decode_create body ≡ some pay
      → validate_create_payment_request (some pay) ≡ ok tt
      → (out.new_id s.1).0 ≡ some id
      → id ≢ nil_id
      → find_payment id s.0.payments ≡ none
      → find_payment_by_key (trim_space pay.idempotency_key) s.0.payments ≡ none
      → (env first_lookup).fails pg_select ≡ false
      → (env lock_attempt).fails redis_set_nx ≡ false
      → (env second_lookup).fails pg_select ≡ false
      → (env store_place).fails redis_set ≡ false
      → (env first_lookup).now ≤ (env lock_attempt).now
      → (env lock_attempt).now ≤ (env second_lookup).now
      → IsFresh
          (env first_lookup).now
          (request_key req)
          (build_lock_scope req.method req.path (request_key req))
          stores
      → (later first_lookup).fails redis_get ≡ false
      → (later first_lookup).now < (env store_place).now + pos_part m.response_ttl
      → (stores' : Stores) × (after : State X) × (server ch of_stripe of_razorpay out r web text_of
            m
            (unshared world env)
            req
            (stores, s)
          ≡ (created_reply web.encode id, (stores', after)))
        × Stored (paid id) after.0
        × (server ch of_stripe of_razorpay out r web text_of m
              (unshared world later)
              req
              (stores', after)
            ≡ (created_reply web.encode id, (stores', after)))
  unfolding server
  repeated_post-pays_once req body pay env later stores s id post here keyed short readable decodes
        valid drawn some_id new_id new_key looks locks looks_again writes locked looked fresh get_up
        in_time =
      let svc = payment_service_api out (server_service ch of_stripe of_razorpay fl r) in
      let (after, created, stored) =
        server_service-Succeeds ch of_stripe of_razorpay stripe_closed razorpay_closed out quiet r
          configured pay s id valid drawn some_id new_id new_key in
      let next =
        next-create web text_of svc req body pay id s after post here readable decodes created in
      let (stores', first, second) =
        fresh-served (server_world web text_of svc world) m req body
          (subst (λ t. is_idempotent_candidate_method t ≡ true) (sym post) post_candidate) keyed
          short readable redis some_ttl env later stores s looks locks looks_again writes get_up
          in_time fresh locked looked in
      let reply = replied web text_of svc m (env store_place).now req (world.sha256_hex body) id in
      let settled : server ch of_stripe of_razorpay out r web text_of m (unshared world env) req
            (stores, s)
          ≡ (created_reply web.encode id, (stores', after)) =
        first
        ∙ ap
            (λ o. (
              write_cached_response
                  (recorded_response m (env store_place).now req (world.sha256_hex body) o.0),
              (stores', o.1),
            ))
            next
        ∙ ap (λ o. (o, (stores', after))) reply in
      (
        stores',
        after,
        settled,
        stored,
        ap
              (λ x.
                server ch of_stripe of_razorpay out r web text_of m (unshared world later) req
                  (stores', x))
              (sym (ap (λ o. o.1) next))
            ∙ second
            ∙ settled,
      )
