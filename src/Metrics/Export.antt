-- ===== src/Metrics/Export.antt =====
-- ConfigFromEnv and SetupMeterProvider of internal/metrics/metrics.go. The OTLP exporter is a parameter.
use jasm.Base.{ℕ, Bool, List, [], ◌∷◌, Result, ok, ◌>>=◌, if◌then◌else◌}
use jasm.Text.{Bytes, codes, is_empty, str_eq}
use jasm.Errors.{Error}

-- type Config
pub record Config : Type 0 where
  pub endpoint : Bytes
  pub insecure : Bool

-- ConfigFromEnv
unfoldable pub config_from_env : (Bytes → Bytes) → Config
config_from_env getenv =
    let endpoint = getenv (codes "OTEL_EXPORTER_OTLP_ENDPOINT") in
    record {
      endpoint = if is_empty endpoint then codes "localhost:4317" else endpoint;
      insecure = str_eq (getenv (codes "OTEL_EXPORTER_OTLP_INSECURE")) (codes "true");
    }

-- otlpmetricgrpc.Option
pub data ExporterOption : Type 0 where
  with_endpoint : Bytes → ExporterOption
  with_insecure : ExporterOption

unfoldable pub exporter_options : Config → List ExporterOption
exporter_options cfg =
    with_endpoint cfg.endpoint ∷ (if cfg.insecure then with_insecure ∷ [] else [])

-- sdkmetric.NewPeriodicReader, with its interval in seconds
pub record Reader (E : Type 0) : Type 0 where
  pub exporter : E
  pub interval : ℕ

-- SetupMeterProvider: the reader of the provider that becomes the global one
unfoldable pub setup_meter_provider :
    {E : Type 0} → (List ExporterOption → Result Error E) → Config → Result Error (Reader E)
unfolding exporter_options
setup_meter_provider new_exporter cfg = do
  exporter ← new_exporter (exporter_options cfg)
  ok (record { exporter = exporter; interval = 30 })
