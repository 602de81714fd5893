-- ===== src/Idempotency/Recorder.antt =====
-- responseRecorder of internal/middleware/idempotency.go beside what net/http documents of a
-- ResponseWriter: which handlers may be run into the recorder and replayed.
mod Tests
use pay_flow_mock.Prelude.{
  ◌==◌, if◌then◌else◌, ==_ne, Text, text_eq, map_set, ℕ, ◌≡◌, refl, ap, ◌∙◌, ◌≢◌, Option, none,
  some, List, [], ◌∷◌, ◌++◌, arith,
}
use pay_flow_mock.Idempotency.Serve.{
  HttpRequest, Recorded, Reply, response, status_code, write_cached_response, recorded_response,
}
use pay_flow_mock.Idempotency.{Idempotency}

-- What a handler does with its writer; a header is set as a whole.
pub data WriterCall : Type 0 where
  set_header : Text → List Text → WriterCall
  write_header : ℕ → WriterCall
  write_body : Text → WriterCall

-- newResponseRecorder
unfoldable pub new_response_recorder : Recorded
new_response_recorder = record { status_val = 0; header = []; content = [] }

-- The methods Header, WriteHeader and Write of the recorder.
unfoldable pub record_call : WriterCall → Recorded → Recorded
record_call (set_header k vs) rr = record rr { header = map_set text_eq k vs rr.header }
record_call (write_header status) rr = record rr { status_val = status }
record_call (write_body b) rr = record rr {
  status_val = if rr.status_val == 0 then 200 else rr.status_val;
  content = rr.content ++ b;
}

unfoldable pub record_calls : List WriterCall → Recorded → Recorded
unfolding record_call
record_calls [] rr = rr
record_calls (c ∷ cs) rr = record_calls cs (record_call c rr)

-- A response on the wire: nothing is sent before the first WriteHeader or Write, which fixes the
-- status and the headers.
pub record Wire : Type 0 where
  pub head : Option (ℕ × List (Text × List Text))
  pub pending : List (Text × List Text)
  pub body : Text

abbrev fix_head : ℕ → Wire → Wire
fix_head status w = elim w.head [
  | none ↦ record w { head = some (status, w.pending) }
  | some head ↦ w
]

abbrev pub wire_call : WriterCall → Wire → Wire
wire_call (set_header k vs) w = record w { pending = map_set text_eq k vs w.pending }
wire_call (write_header status) w = fix_head status w
wire_call (write_body b) w = record (fix_head 200 w) { body = w.body ++ b }

abbrev pub wire_calls : List WriterCall → Wire → Wire
wire_calls [] w = w
wire_calls (c ∷ cs) w = wire_calls cs (wire_call c w)

-- What the client gets once the handler has returned.
abbrev pub on_wire : Wire → Reply
on_wire w = elim w.head [
  | none ↦ response 200 w.pending w.body
  | some (status, header) ↦ response status header w.body
]

-- A handler that sets its headers, then sends a status or none, and then its body.
abbrev pub IsBody : List WriterCall → Type 0
IsBody [] = Unit
IsBody (write_body b ∷ cs) = IsBody cs
IsBody (_ ∷ cs) = ⊥

pub data IsPlain : List WriterCall → Type 0 where
  header_first :
      {cs : List WriterCall} (k : Text) (vs : List Text)
      → IsPlain cs
      → IsPlain (set_header k vs ∷ cs)
  then_status :
      {cs : List WriterCall} (status : ℕ)
      → status ≢ 0
      → IsBody cs
      → IsPlain (write_header status ∷ cs)
  then_body : {cs : List WriterCall} → IsBody cs → IsPlain cs

-- The reply that the middleware makes of a recording.
abbrev pub replayed : Recorded → Reply
replayed rr = response (status_code rr.status_val) rr.header rr.content

bodies-agree :
    (cs : List WriterCall) (status : ℕ) (header pending : List (Text × List Text)) (sent : Text)
    → status ≢ 0
    → IsBody cs
    → replayed (record_calls cs (record { status_val = status; header = header; content = sent }))
      ≡ on_wire
          (wire_calls cs (record { head = some (status, header); pending = pending; body = sent }))
unfolding record_calls status_code
bodies-agree [] status header pending sent some_status h = rw (==_ne status 0 some_status) refl
bodies-agree (write_body b ∷ cs) status header pending sent some_status h =
    let kept : (if status == 0 then 200 else status) ≡ status =
      rw (==_ne status 0 some_status) refl in
    ap
      (λ t.
        replayed
          (record_calls cs (record { status_val = t; header = header; content = sent ++ b })))
      kept
    ∙ bodies-agree cs status header pending (sent ++ b) some_status h
bodies-agree (set_header k vs ∷ cs) status header pending sent some_status h = absurd h
bodies-agree (write_header s ∷ cs) status header pending sent some_status h = absurd h

body-agrees :
    (cs : List WriterCall) (header : List (Text × List Text))
    → IsBody cs
    → replayed (record_calls cs (record { status_val = 0; header = header; content = [] }))
      ≡ on_wire (wire_calls cs (record { head = none; pending = header; body = [] }))
unfolding record_calls status_code
body-agrees [] header h = refl
body-agrees (write_body b ∷ cs) header h = bodies-agree cs 200 header header b (λ e. cc) h
body-agrees (set_header k vs ∷ cs) header h = absurd h
body-agrees (write_header s ∷ cs) header h = absurd h

plain-agrees :
    (cs : List WriterCall) (header : List (Text × List Text))
    → IsPlain cs
    → replayed (record_calls cs (record { status_val = 0; header = header; content = [] }))
      ≡ on_wire (wire_calls cs (record { head = none; pending = header; body = [] }))
unfolding record_calls status_code
plain-agrees _ header (header_first {cs} k vs h) = plain-agrees cs (map_set text_eq k vs header) h
plain-agrees _ header (then_status {cs} status some_status h) =
    bodies-agree cs status header header [] some_status h
plain-agrees cs header (then_body h) = body-agrees cs header h

status_code_idem : (status : ℕ) → status_code (status_code status) ≡ status_code status
unfolding status_code
status_code_idem status = ground arith

-- A handler that sets its headers before its status and its body, and sends one status at most, is
-- answered through the middleware, and on every replay, as it would be without.
pub recorder-agrees :
    (cs : List WriterCall) (m : Idempotency) (now : ℕ) (req : HttpRequest) (hash : Text)
    → IsPlain cs
    → write_cached_response
        (recorded_response m now req hash (record_calls cs new_response_recorder))
      ≡ on_wire (wire_calls cs (record { head = none; pending = []; body = [] }))
unfolding write_cached_response recorded_response new_response_recorder
recorder-agrees cs m now req hash h =
    let rr = record_calls cs new_response_recorder in
    ap (λ status. response status rr.header rr.content) (status_code_idem rr.status_val)
    ∙ plain-agrees cs [] h
