-- ===== src/Metrics.antt =====
-- internal/metrics/metrics.go: the instruments of a provider. OpenTelemetry's counters are modelled by
-- what was added to them, and their descriptions and units are left out.
pub mod Export
use jasm.Base.{
  Bool, Option, none, some, if◌then◌else◌, ◌≡◌, ◌⊎◌, Result, ok, err, ℕ, ◌+◌, ◌%◌, ◌^◌, List, ◌∷◌,
  [], ◌++◌,
}
use jasm.Text.{Bytes, codes, is_empty, str_eq}
use jasm.Errors.{Error}
use jasm.StrMap.{StrMap}

-- The values of the attribute `status`.
abbrev pub success : Bytes
success = codes "success"

abbrev pub error : Bytes
error = codes "error"

-- type ProviderMetrics: the attributes of each request counted, how often a rate limit was counted,
-- the status of each duration recorded, and the value of the up-down counter (the bit pattern of an
-- int64).
pub record ProviderMetrics : Type 0 where
  pub requests_total : List (Bytes × Bytes)
  pub rate_limits_total : ℕ
  pub request_duration : List Bytes
  pub retry_queue_depth : ℕ

-- The instruments before anything was added.
unfoldable pub no_measurements : ProviderMetrics
no_measurements = record {
  requests_total = [];
  rate_limits_total = 0;
  request_duration = [];
  retry_queue_depth = 0;
}

-- metric.Meter: the error of making an instrument of the name.
pub record Meter : Type 0 where
  pub int64_counter : Bytes → Option Error
  pub float64_histogram : Bytes → Option Error
  pub int64_up_down_counter : Bytes → Option Error

-- "jasm_"+provider+"_requests_total", and so on
abbrev pub instrument : Bytes → Bytes → Bytes
instrument provider suffix = codes "jasm_" ++ (provider ++ suffix)

-- if err != nil { return nil, err }
abbrev pub unless_failed : {A : Type 0} → Option Error → Result Error A → Result Error A
unless_failed (some e) rest = err e
unless_failed none rest = rest

-- NewProviderMetrics
unfoldable pub new_provider_metrics : Meter → Bytes → Result Error ProviderMetrics
unfolding no_measurements
new_provider_metrics meter provider =
    unless_failed (meter.int64_counter (instrument provider (codes "_requests_total"))) (
      unless_failed (meter.int64_counter (instrument provider (codes "_rate_limits_total"))) (
        unless_failed
          (meter.float64_histogram (instrument provider (codes "_request_duration_seconds")))
          (unless_failed
            (meter.int64_up_down_counter (instrument provider (codes "_retry_queue_depth")))
            (ok no_measurements))))

-- RecordRequest
unfoldable pub record_request : Bytes → Bytes → ProviderMetrics → ProviderMetrics
record_request status vault m = record m {
  requests_total = m.requests_total ++ (status, vault) ∷ [];
}

-- RecordRateLimit
unfoldable pub record_rate_limit : ProviderMetrics → ProviderMetrics
record_rate_limit m = record m { rate_limits_total = m.rate_limits_total + 1 }

-- RecordDuration: the duration is not modelled
unfoldable pub record_duration : Bytes → ProviderMetrics → ProviderMetrics
record_duration status m = record m { request_duration = m.request_duration ++ status ∷ [] }

-- UpdateQueueDepth: adds `delta` to the counter
unfoldable pub update_queue_depth : ℕ → ProviderMetrics → ProviderMetrics
update_queue_depth delta m = record m { retry_queue_depth = (m.retry_queue_depth + delta) % 2 ^ 64 }

-- RecordRequest and RecordDuration of a request that ended with the status
unfoldable pub recorded : Bytes → Bytes → ProviderMetrics → ProviderMetrics
unfolding record_request record_duration
recorded status vault m = record_duration status (record_request status vault m)

-- One request and one duration were counted, with the status of the result, and a rate limit at most.
pub record IsCounted (m : ProviderMetrics) (vault : Bytes)
    (result : Result Error (StrMap Bytes) × ProviderMetrics) : Type 0 where
  pub status : Bytes
  pub requests : result.1.requests_total ≡ m.requests_total ++ (status, vault) ∷ []
  pub durations : result.1.request_duration ≡ m.request_duration ++ status ∷ []
  pub verdict :
      (((secrets : StrMap Bytes) × (result.0 ≡ ok secrets)) × (status ≡ success))
      ⊎ (((e : Error) × (result.0 ≡ err e)) × (status ≡ error))
  pub rate_limits :
      (result.1.rate_limits_total ≡ m.rate_limits_total)
      ⊎ (result.1.rate_limits_total ≡ m.rate_limits_total + 1)
