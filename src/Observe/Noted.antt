-- ===== src/Observe/Noted.antt =====
-- What internal/middleware/logging.go and metrics.go note of a request, and that they change nothing.
use pay_flow_mock.Prelude.{ltb, if◌then◌else◌, Text, ℕ, ◌+◌, ◌≡◌, refl, ap, some, List, ◌∷◌, arith}
use pay_flow_mock.Metrics.{http_requests_total, Samples, series_eq, value_of}
use pay_flow_mock.Metrics.Counts.{value_of-inc}
use pay_flow_mock.Observe.{
  Request, Answered, Level, info_level, warn_level, error_level, LogLine, status_or_ok, level_of,
  log_line, logging, request_labels, counted_series, with_counts, metrics,
}

-- The severity that a status stands for, as HTTP sorts them.
abbrev pub severity : ℕ → Level
severity status =
    if ltb status 400 then info_level else (if ltb status 500 then warn_level else error_level)

level_of-severity : (status : ℕ) → level_of status ≡ severity status
unfolding level_of
level_of-severity status = ground arith

module _ {X : Type 0} (next : Request → X → Answered × X) where
  -- Logging and Metrics each give the answer of the handler behind and leave the world as the handler
  -- leaves it, and Metrics does not panic. One line is added to the log, at the level of the status,
  -- and the series of the request's route, method and status is counted up by one, while every other
  -- series keeps its value.
  pub logging-metrics :
      (req : Request) (x : X) (lines : List LogLine) (samples : Samples) (series : Text × List Text)
      → (counts : Samples) × (metrics next req (x, samples)
          ≡ some ((next req x).0, ((next req x).1, counts)))
        × (value_of series counts ≡ (
            if series_eq (counted_series next req (next req x).0) series
            then value_of series samples + 1
            else value_of series samples))
        × (logging next req (x, lines)
            ≡ ((next req x).0, ((next req x).1, log_line req (next req x).0 ∷ lines)))
        × ((log_line req (next req x).0).level ≡ severity (log_line req (next req x).0).status)
  unfolding metrics logging log_line
  logging-metrics req x lines samples series =
      let a = (next req x).0 in
      let (counts, counted, values) =
        value_of-inc http_requests_total (request_labels next req a) samples series refl in
      (
        counts,
        ap (with_counts next a (next req x).1) counted,
        values,
        refl,
        level_of-severity (status_or_ok a.status_val),
      )
