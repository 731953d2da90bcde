-- ===== src/Tracing.antt =====
-- base/microservice/pkg/common/tracing/tracing.go. OpenTelemetry, its exporters and the Datadog tracer
-- are parameters; what the code does to their global state is a change of `Telemetry`. Log lines are
-- left out.
pub mod Adapters
mod Tests
use caaspay_core.Prelude.{
  ℕ, ◌*◌, ◌^◌, Bool, true, false, Option, none, some, Text, codes, List, [], ◌∷◌, ◌++◌, Error,
  Result, ok, err, text_eq, decimal, if◌then◌else◌,
}
use caaspay_core.Metrics.{ObservabilityConfig}

-- A tracer provider for a service: with the Jaeger exporter at an endpoint, or the one that is set up
-- next to Datadog's tracer, which has no exporter.
pub data Provider : Type 0 where
  to_jaeger : (service endpoint : Text) → Provider
  beside_datadog : (service : Text) → Provider

-- The provider of the tracer, `none` for the no-op provider, whose shutdown does nothing.
pub record TracerManager : Type 0 where
  pub provider : Option Provider
  pub service_name : Text

-- The process's own state in the packages: the global provider, whether trace contexts are propagated,
-- the service and environment that Datadog's tracer was started with, and the providers that were
-- shut down, each with its timeout, the newest first.
pub record Telemetry : Type 0 where
  pub global : Option Provider
  pub propagates : Bool
  pub datadog : Option (Text × Text)
  pub stopped : List (Provider × ℕ)

-- A span: its name, and the provider that keeps it, if one does.
pub record Span : Type 0 where
  pub name : Text
  pub kept_by : Option Provider

unfoldable pub endpoint : ObservabilityConfig → Text
endpoint cfg =
    codes "http://"
    ++ (cfg.opentracing_host
        ++ (codes ":" ++ (decimal cfg.opentracing_port ++ codes "/api/traces")))

-- The exporter's error for an endpoint.
unfoldable pub setup_jaeger :
    (refuses : Text → Option Error) (service : Text) → ObservabilityConfig → Result Provider
setup_jaeger refuses service cfg = elim (refuses (endpoint cfg)) [
  | none ↦ ok (to_jaeger service (endpoint cfg))
  | some x ↦ err x
]

unfoldable pub setup_datadog :
    (service : Text) → ObservabilityConfig → Telemetry → Provider × Telemetry
setup_datadog service cfg t =
    (beside_datadog service, record t { datadog = some (service, cfg.env) })

unfoldable pub no_op : (service : Text) → TracerManager
no_op service = record { provider = none; service_name = service }

-- What follows the set-up of a provider. An error is only logged.
unfoldable pub finish_tracer :
    (service : Text) → Result Provider → Telemetry → TracerManager × Telemetry
unfolding no_op
finish_tracer service (err _) t = (no_op service, t)
finish_tracer service (ok p) t = (
  record { provider = some p; service_name = service },
  record t { global = some p; propagates = true },
)

-- The adapter that the settings name.
pub data Adapter : Type 0 where
  jaeger : Adapter
  datadog : Adapter
  no_adapter : Adapter

unfoldable pub adapter : ObservabilityConfig → Adapter
adapter cfg =
    if text_eq cfg.metrics_adapter (codes "jaeger")
    then jaeger
    else if text_eq cfg.metrics_adapter (codes "datadog")
    then datadog
    else no_adapter

unfoldable pub setup :
    (refuses : Text → Option Error) (service : Text)
    → ObservabilityConfig
    → Adapter
    → Telemetry
    → TracerManager × Telemetry
unfolding setup_jaeger setup_datadog finish_tracer no_op
setup refuses service cfg jaeger t = finish_tracer service (setup_jaeger refuses service cfg) t
setup refuses service cfg datadog t =
    let (p, t') = setup_datadog service cfg t in finish_tracer service (ok p) t'
setup refuses service cfg no_adapter t = (no_op service, t)

-- The error that the source returns is always nil.
unfoldable pub new_tracer_manager :
    (refuses : Text → Option Error) (service : Text)
    → ObservabilityConfig
    → Telemetry
    → TracerManager × Telemetry
unfolding setup adapter no_op
new_tracer_manager refuses service cfg t =
    if cfg.tracing_enabled then setup refuses service cfg (adapter cfg) t else (no_op service, t)

unfoldable pub start_span : TracerManager → Text → Span
start_span m name = record { name = name; kept_by = m.provider }

abbrev pub shutdown_timeout : ℕ
shutdown_timeout = 5 * 10 ^ 9

-- An error of the provider's Shutdown is only logged.
unfoldable pub stop_provider : Option Provider → Telemetry → Telemetry
stop_provider none t = t
stop_provider (some p) t = record t { stopped = (p, shutdown_timeout) ∷ t.stopped }

unfoldable pub shutdown : TracerManager → Telemetry → Telemetry
unfolding stop_provider
shutdown m t = stop_provider m.provider t
