-- ===== src/Idempotency/Recorder/Tests.antt =====
-- A handler that answers 201 with JSON, and one that sends two statuses.
use pay_flow_mock.Prelude.{codes, ◌≡◌, refl, none, some, List, [], ◌∷◌}
use pay_flow_mock.Idempotency.Serve.{
  HttpRequest, response, write_cached_response, recorded_response,
}
use pay_flow_mock.Idempotency.Tests.{middleware}
use pay_flow_mock.Idempotency.Recorder.{
  WriterCall, set_header, write_header, write_body, new_response_recorder, record_calls, wire_calls,
  on_wire, IsPlain, header_first, then_status, recorder-agrees,
}

abbrev json_answer : List WriterCall
json_answer =
    set_header (codes "Content-Type") (codes "application/json" ∷ [])
    ∷ write_header 201
    ∷ write_body (codes "{\"a\"")
    ∷ write_body (codes ":1}")
    ∷ []

json_answer-IsPlain : IsPlain json_answer
json_answer-IsPlain =
    header_first (codes "Content-Type") (codes "application/json" ∷ [])
      (then_status 201 (λ e. cc) tt)

abbrev any_request : HttpRequest
any_request = record {
  method = codes "POST";
  path = codes "/v1/payments";
  idempotency_key = codes "k";
  x_idempotency_key = [];
  body = some [];
}

recorder-agrees_example :
    write_cached_response (
      recorded_response middleware 10 any_request
        (codes "h")
        (record_calls json_answer new_response_recorder))
    ≡ on_wire (wire_calls json_answer (record { head = none; pending = []; body = [] }))
recorder-agrees_example =
    recorder-agrees json_answer middleware 10 any_request (codes "h") json_answer-IsPlain

-- The recorder keeps the last status, the wire the first.
two_statuses :
    ((record_calls (write_header 201 ∷ write_header 500 ∷ []) new_response_recorder).status_val
      ≡ 500)
    × (on_wire (
          wire_calls
            (write_header 201 ∷ write_header 500 ∷ [])
            (record { head = none; pending = []; body = [] }))
        ≡ response 201 [] [])
unfolding record_calls
two_statuses = (refl, refl)
