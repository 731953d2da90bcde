-- ===== src/Tracing/Tests.antt =====
-- The theorem about tracing at a concrete input, and runs.
use caaspay_core.Prelude.{
  ◌≡◌, ◌↔◌, refl, Bool, true, false, none, some, codes, [], ◌∷◌, ok, text_eq, decimal, digits,
}
use caaspay_core.Metrics.{ObservabilityConfig, new_metrics, fresh_metrics}
use caaspay_core.Config.Defaults.{default_observability}
use caaspay_core.Tracing.{
  Provider, to_jaeger, Telemetry, endpoint, new_tracer_manager, start_span, shutdown,
  shutdown_timeout, setup, adapter, no_op,
}
use caaspay_core.Tracing.Adapters.{Asks, new_tracer_manager-traces}

abbrev idle : Telemetry
idle = record { global = none; propagates = false; datadog = none; stopped = [] }

abbrev traced : ObservabilityConfig
traced = record default_observability { metrics_adapter = codes "jaeger" }

abbrev collector : Provider
collector = to_jaeger (codes "ping") (codes "http://localhost:6832/api/traces")

collector_endpoint : endpoint traced ≡ codes "http://localhost:6832/api/traces"
unfolding endpoint decimal digits
collector_endpoint = refl

-- The default adapter does not trace, though tracing is enabled.
default_traces_nothing :
    (new_tracer_manager (λ url. none) (codes "ping") default_observability idle).0.provider ≡ none
unfolding new_tracer_manager setup adapter no_op text_eq
default_traces_nothing = refl

new_tracer_manager-traces_example :
    let (m, s) = new_tracer_manager (λ url. none) (codes "ping") traced idle in
    (((start_span m (codes "boot")).kept_by ≡ some collector)
      ↔ ((traced.tracing_enabled ≡ true) × Asks (λ url. none) (codes "ping") traced collector))
    × ((start_span m (codes "boot")).kept_by ≡ some collector
        → (shutdown m s ≡ record s { stopped = (collector, shutdown_timeout) ∷ s.stopped })
          × ((b : Bool) × (new_metrics traced none ≡ ok (fresh_metrics true true b))))
new_tracer_manager-traces_example =
    new_tracer_manager-traces (λ url. none) (codes "ping") traced collector idle none (codes "boot")
