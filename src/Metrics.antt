-- ===== src/Metrics.antt =====
-- pkg/metrics/metrics.go: the collectors of the program and their registration. Help texts and
-- buckets are not modelled, nor are the values of histograms and gauges. The collectors for the
-- process and for Go come with the client library: their names are a parameter.
pub mod Counts
use pay_flow_mock.Prelude.{
  ◌==◌, if◌then◌else◌, length, Text, codes, text_eq, map_get, map_set, ℕ, ◌+◌, Bool, true, false,
  ◌&&◌, ◌||◌, Option, none, some, List, [], ◌∷◌,
}

pub data Kind : Type 0 where
  counter gauge histogram : Kind

pub record Collector : Type 0 where
  pub name : Text
  pub kind : Kind
  pub labels : List Text

abbrev pub http_requests_total : Collector
http_requests_total = record {
  name = codes "payflow_http_requests_total";
  kind = counter;
  labels = codes "route" ∷ codes "method" ∷ codes "status" ∷ [];
}

abbrev pub http_request_duration_seconds : Collector
http_request_duration_seconds = record {
  name = codes "payflow_http_request_duration_seconds";
  kind = histogram;
  labels = codes "route" ∷ codes "method" ∷ [];
}

abbrev pub payments_total : Collector
payments_total = record {
  name = codes "payflow_payments_total";
  kind = counter;
  labels = codes "status" ∷ [];
}

abbrev pub payment_latency_seconds : Collector
payment_latency_seconds = record {
  name = codes "payflow_payment_latency_seconds";
  kind = histogram;
  labels = codes "psp" ∷ [];
}

abbrev pub psp_attempts_total : Collector
psp_attempts_total = record {
  name = codes "payflow_psp_attempts_total";
  kind = counter;
  labels = codes "psp" ∷ codes "op" ∷ codes "outcome" ∷ [];
}

abbrev pub psp_retry_attempts_total : Collector
psp_retry_attempts_total = record {
  name = codes "payflow_psp_retry_attempts_total";
  kind = counter;
  labels = codes "outcome" ∷ [];
}

abbrev pub psp_circuit_state : Collector
psp_circuit_state = record {
  name = codes "payflow_psp_circuit_state";
  kind = gauge;
  labels = codes "psp" ∷ [];
}

abbrev pub webhook_delivery_attempts_total : Collector
webhook_delivery_attempts_total = record {
  name = codes "payflow_webhook_delivery_attempts_total";
  kind = counter;
  labels = codes "outcome" ∷ [];
}

abbrev pub webhook_delivery_latency_seconds : Collector
webhook_delivery_latency_seconds = record {
  name = codes "payflow_webhook_delivery_latency_seconds";
  kind = histogram;
  labels = [];
}

abbrev pub outbox_pending : Collector
outbox_pending = record { name = codes "payflow_outbox_pending"; kind = gauge; labels = [] }

abbrev pub idempotency_cache_results_total : Collector
idempotency_cache_results_total = record {
  name = codes "payflow_idempotency_cache_total";
  kind = counter;
  labels = codes "result" ∷ [];
}

-- What initRegistry registers, in its order.
abbrev pub collectors_set : List Collector
collectors_set =
    http_requests_total ∷ http_request_duration_seconds ∷ payments_total ∷ payment_latency_seconds
    ∷ psp_attempts_total ∷ psp_retry_attempts_total ∷ psp_circuit_state
    ∷ webhook_delivery_attempts_total ∷ webhook_delivery_latency_seconds ∷ outbox_pending
    ∷ idempotency_cache_results_total ∷ []

unfoldable pub is_registered : Text → List Text → Bool
is_registered name [] = false
is_registered name (n ∷ names) = text_eq n name || is_registered name names

-- MustRegister, which panics on a name that is taken: `none`.
unfoldable pub must_register : List Collector → List Text → Option (List Text)
unfolding is_registered
must_register [] names = some names
must_register (c ∷ cs) names =
    if is_registered c.name names then none else must_register cs (c.name ∷ names)

-- initRegistry, on the names of the library's own collectors
unfoldable pub init_registry : List Text → Option (List Text)
unfolding must_register
init_registry builtin = must_register collectors_set builtin

-- The values of the counters: each series is a name with the values of its labels.
abbrev pub Samples : Type 0
Samples = List ((Text × List Text) × ℕ)

unfoldable pub texts_eq : List Text → List Text → Bool
texts_eq [] [] = true
texts_eq (s ∷ ss) (t ∷ ts) = text_eq s t && texts_eq ss ts
texts_eq _ _ = false

unfoldable pub series_eq : Text × List Text → Text × List Text → Bool
unfolding texts_eq
series_eq (n, ls) (m, ks) = text_eq n m && texts_eq ls ks

abbrev pub or_zero : Option ℕ → ℕ
or_zero none = 0
or_zero (some n) = n

unfoldable pub value_of : Text × List Text → Samples → ℕ
unfolding series_eq
value_of series samples = or_zero (map_get series_eq series samples)

-- `WithLabelValues(values…).Inc()`, which panics where the values are not as many as the labels.
unfoldable pub inc : Collector → List Text → Samples → Option Samples
unfolding value_of
inc c values samples =
    let series : Text × List Text = (c.name, values) in
    if length values == length c.labels
    then some (map_set series_eq series (value_of series samples + 1) samples)
    else none
