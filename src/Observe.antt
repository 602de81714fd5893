-- ===== src/Observe.antt =====
-- internal/middleware/logging.go and metrics.go: what is noted of a request once the handler behind
-- has answered. Latencies and the ids of traces are not modelled.
pub mod Noted
mod Tests
use pay_flow_mock.Prelude.{
  leb, ◌==◌, if◌then◌else◌, Text, codes, is_empty, trim_space, to_upper, ℕ, suc, Option, none, some,
  List, [], ◌∷◌,
}
use pay_flow_mock.Worker.{decimal}
use pay_flow_mock.Metrics.{http_requests_total, Samples, inc}

pub record Request : Type 0 where
  pub method : Text
  pub merchant_header : Text
  pub request_id : Text

-- What is known when the handler has answered: the wrapped writer's status, 0 if none was written,
-- its count of bytes, and the pattern of the route, `none` without a context of chi.
pub record Answered : Type 0 where
  pub status_val : ℕ
  pub bytes_written : ℕ
  pub route_context : Option Text

pub data Level : Type 0 where
  info_level warn_level error_level : Level

pub record LogLine : Type 0 where
  pub level : Level
  pub method : Text
  pub route : Text
  pub status : ℕ
  pub bytes : ℕ
  pub request_id : Text
  pub merchant_id : Option Text

unfoldable pub route_pattern : Option Text → Text
route_pattern none = codes "unknown"
route_pattern (some pattern) =
    if is_empty (trim_space pattern) then codes "unknown" else trim_space pattern

-- `if status == 0 { status = http.StatusOK }`
unfoldable pub status_or_ok : ℕ → ℕ
status_or_ok status = if status == 0 then 200 else status

unfoldable pub status_label : ℕ → Text
unfolding decimal
status_label status = decimal (suc status) status

unfoldable pub level_of : ℕ → Level
level_of status =
    if leb 500 status then error_level else (if leb 400 status then warn_level else info_level)

-- The line that Logging writes.
unfoldable pub log_line : Request → Answered → LogLine
unfolding route_pattern status_or_ok level_of
log_line req a = record {
  level = level_of (status_or_ok a.status_val);
  method = to_upper req.method;
  route = route_pattern a.route_context;
  status = status_or_ok a.status_val;
  bytes = a.bytes_written;
  request_id = req.request_id;
  merchant_id =
      if is_empty (trim_space req.merchant_header)
      then none
      else some (trim_space req.merchant_header);
}

module _ {X : Type 0} (next : Request → X → Answered × X) where
  unfoldable pub logging : Request → X × List LogLine → Answered × (X × List LogLine)
  unfolding log_line
  logging req (x, lines) = let (a, x') = next req x in (a, (x', log_line req a ∷ lines))

  -- The labels under which Metrics counts.
  abbrev pub request_labels : Request → Answered → List Text
  request_labels req a =
      route_pattern a.route_context
      ∷ to_upper req.method
      ∷ status_label (status_or_ok a.status_val)
      ∷ []

  abbrev pub counted_series : Request → Answered → Text × List Text
  counted_series req a = (http_requests_total.name, request_labels req a)

  abbrev pub with_counts : Answered → X → Option Samples → Option (Answered × (X × Samples))
  with_counts a x none = none
  with_counts a x (some samples) = some (a, (x, samples))

  -- The counter of Metrics; `none` is a panic.
  unfoldable pub metrics : Request → X × Samples → Option (Answered × (X × Samples))
  unfolding inc route_pattern status_label status_or_ok
  metrics req (x, samples) =
      let (a, x') = next req x in
      with_counts a x' (inc http_requests_total (request_labels req a) samples)
