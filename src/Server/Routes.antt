-- ===== src/Server/Routes.antt =====
-- The routes of cmd/server/main.go and of Register in internal/handler/payment_handler.go, behind the
-- idempotency middleware. chi, the JSON package, uuid.Parse and the handler of /metrics are parameters.
pub mod Once
mod Tests
use pay_flow_mock.Prelude.{
  if◌then◌else◌, Text, codes, text_eq, ℕ, ◌≡◌, Bool, false, ◌&&◌, Option, none, some, List, [], ◌∷◌,
}
use pay_flow_mock.Domain.{CreatePaymentRequest, RefundRequest}
use pay_flow_mock.Errors.{Error}
use pay_flow_mock.Service.{State, Outside}
use pay_flow_mock.Floats.{Float64}
use pay_flow_mock.Psp.Chance.{Chance}
use pay_flow_mock.Repository.Payments.{PaymentRepo}
use pay_flow_mock.Idempotency.{Idempotency}
use pay_flow_mock.Server.{Breakers, server_service}
use pay_flow_mock.Handler.{
  PaymentServiceApi, payment_service_api, Body, HttpResponse, handle_create, handle_get,
  handle_refund, healthz,
}
use pay_flow_mock.Idempotency.Serve.{HttpRequest, Recorded, Reply, ServeState, ServeWorld, serve}
use pay_flow_mock.Idempotency.Recorder.{
  set_header, write_header, write_body, new_response_recorder, record_call, record_calls,
}

pub data Endpoint : Type 0 where
  create_endpoint get_endpoint refund_endpoint health_endpoint metrics_endpoint : Endpoint

-- A method of `none` is any that chi knows.
pub record Route : Type 0 where
  pub method : Option Text
  pub pattern : Text
  pub endpoint : Endpoint

-- Register
abbrev pub register : List Route
register =
    record {
      method = some (codes "POST");
      pattern = codes "/v1/payments";
      endpoint = create_endpoint;
    }
    ∷ record {
      method = some (codes "GET");
      pattern = codes "/v1/payments/{id}";
      endpoint = get_endpoint;
    }
    ∷ record {
      method = some (codes "POST");
      pattern = codes "/v1/payments/{id}/refund";
      endpoint = refund_endpoint;
    }
    ∷ record { method = some (codes "GET"); pattern = codes "/healthz"; endpoint = health_endpoint }
    ∷ []

abbrev pub server_routes : List Route
server_routes =
    record { method = none; pattern = codes "/metrics"; endpoint = metrics_endpoint } ∷ register

abbrev pub is_method : Text → Option Text → Bool
is_method method none = false
is_method method (some m) = text_eq m method

-- The route with this method whose pattern is the path, letter by letter.
unfoldable pub exact_route : List Route → Text → Text → Option Endpoint
exact_route [] method path = none
exact_route (r ∷ routes) method path =
    let rest = exact_route routes method path in
    if is_method method r.method && text_eq r.pattern path then some r.endpoint else rest

-- What the packages around the handlers do. `find` is chi's choice of the route, with the text of
-- `{id}`; a path that is a pattern letter by letter is one that the pattern fits.
pub record Web (X : Type 0) : Type 0 where
  pub find : Text → Text → Option (Endpoint × Text)
  pub unrouted : HttpRequest → Recorded  -- chi's 404 and 405
  pub scrape : X → Recorded  -- promhttp's answer
  pub parse_id : Text → Option ℕ
  pub decode_create : Text → Option CreatePaymentRequest
  pub decode_refund : Text → Option RefundRequest
  pub encode : Body → Text
  pub pool_pings : X → Bool
  pub exact :
      (method path : Text) {e : Endpoint}
      → exact_route server_routes method path ≡ some e
      → (id : Text) × (find method path ≡ some (e, id))

-- A body that cannot be read is no JSON either.
abbrev pub decoded : {A : Type 0} → (Text → Option A) → Option Text → Option A
decoded decode none = none
decoded decode (some body) = decode body

-- writeJSON and writeErr, into the recorder
unfoldable pub write_json : (Body → Text) → HttpResponse → Recorded
unfolding record_calls record_call new_response_recorder
write_json encode resp =
    record_calls
      (set_header (codes "Content-Type") (codes "application/json; charset=utf-8" ∷ [])
        ∷ write_header resp.status
        ∷ write_body (encode resp.body)
        ∷ [])
      new_response_recorder

module _ {X : Type 0} (web : Web X) (text_of : Error → Text) (svc : PaymentServiceApi X) where
  abbrev written : HttpResponse × State X → Recorded × State X
  written (resp, s) = (write_json web.encode resp, s)

  -- The handler of a route, with the text of `{id}`.
  unfoldable pub to_endpoint : Endpoint → Text → HttpRequest → State X → Recorded × State X
  unfolding write_json handle_create handle_get handle_refund healthz
  to_endpoint create_endpoint id req s =
      written (handle_create text_of (some svc) (decoded web.decode_create req.body) s)
  to_endpoint get_endpoint id req s = written (handle_get text_of (some svc) (web.parse_id id) s)
  to_endpoint refund_endpoint id req s =
      written
        (handle_refund text_of (some svc) (web.parse_id id) (decoded web.decode_refund req.body) s)
  to_endpoint health_endpoint id req s = written (healthz (some (web.pool_pings s.1)), s)
  to_endpoint metrics_endpoint id req s = (web.scrape s.1, s)

  -- What the idempotency middleware wraps.
  unfoldable pub server_next : HttpRequest → State X → Recorded × State X
  unfolding to_endpoint
  server_next req s = elim (web.find req.method req.path) [
    | none ↦ (web.unrouted req, s)
    | some (e, id) ↦ to_endpoint e id req s
  ]

  -- The middleware's world, with these handlers behind it.
  unfoldable pub server_world : ServeWorld (State X) → ServeWorld (State X)
  unfolding server_next
  server_world world = record world { next = server_next }

module _ {X : Type 0} (ch : Chance X) (of_stripe of_razorpay : Breakers X) {fl : Float64}
    (out : Outside fl X) (r : PaymentRepo) (web : Web X) (text_of : Error → Text)
    (m : Idempotency) where
  -- The server that main assembles, over what the stores and other requests do.
  unfoldable pub server :
      ServeWorld (State X) → HttpRequest → ServeState (State X) → Reply × ServeState (State X)
  unfolding server_world server_service
  server world =
      serve
        (server_world web text_of
          (payment_service_api out (server_service ch of_stripe of_razorpay fl r)) world)
        m
