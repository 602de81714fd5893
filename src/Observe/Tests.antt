-- ===== src/Observe/Tests.antt =====
-- A request that was not found, and the registration of the collectors.
use pay_flow_mock.Prelude.{
  if◌then◌else◌, codes, text_eq, trim_left, trim_right, trim_space, to_upper, ℕ, ◌+◌, ◌≡◌, refl,
  true, some, [], ◌∷◌,
}
use pay_flow_mock.Metrics.{
  is_registered, must_register, init_registry, Samples, series_eq, value_of,
}
use pay_flow_mock.Repository.{is_some}
use pay_flow_mock.Worker.{decimal}
use pay_flow_mock.Observe.{
  Request, Answered, warn_level, LogLine, route_pattern, status_or_ok, status_label, level_of,
  log_line, logging, counted_series, metrics,
}
use pay_flow_mock.Observe.Noted.{severity, logging-metrics}

abbrev missing : Request → ℕ → Answered × ℕ
missing req x =
    (record { status_val = 404; bytes_written = 19; route_context = some (codes " ") }, x + 1)

abbrev lost : Request
lost = record { method = codes "get"; merchant_header = codes " m-1 "; request_id = codes "r" }

abbrev lost_line : LogLine
lost_line = record {
  level = warn_level;
  method = codes "GET";
  route = codes "unknown";
  status = 404;
  bytes = 19;
  request_id = codes "r";
  merchant_id = some (codes "m-1");
}

line_of_lost : log_line lost (missing lost 1).0 ≡ lost_line
unfolding log_line route_pattern status_or_ok level_of to_upper trim_space trim_left trim_right
line_of_lost = refl

label_of_404 : status_label 404 ≡ codes "404"
unfolding status_label decimal
label_of_404 = refl

logging-metrics_example :
    (counts : Samples) × (metrics missing lost (1, []) ≡ some ((missing lost 1).0, (2, counts)))
    × (value_of (counted_series missing lost (missing lost 1).0) counts ≡ (
        if series_eq
          (counted_series missing lost (missing lost 1).0)
          (counted_series missing lost (missing lost 1).0)
        then value_of (counted_series missing lost (missing lost 1).0) [] + 1
        else value_of (counted_series missing lost (missing lost 1).0) []))
    × (logging missing lost (1, [])
        ≡ ((missing lost 1).0, (2, log_line lost (missing lost 1).0 ∷ [])))
    × ((log_line lost (missing lost 1).0).level
        ≡ severity (log_line lost (missing lost 1).0).status)
logging-metrics_example =
    logging-metrics missing lost 1 [] [] (counted_series missing lost (missing lost 1).0)

-- No two collectors have one name, so their registration does not panic.
registers : is_some (init_registry (codes "go_goroutines" ∷ [])) ≡ true
unfolding init_registry must_register is_registered text_eq
registers = refl
