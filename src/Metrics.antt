-- ===== src/Metrics.antt =====
-- base/microservice/pkg/common/metrics/metrics.go: which measurements are recorded. OpenTelemetry makes
-- the instruments and is a parameter; an instrument stands under its name. A duration is in
-- nanoseconds. `none` is the panic of a call on the nil meter.
pub mod Disabled
mod Tests
use caaspay_core.Prelude.{
  ℕ, ◌*◌, ◌^◌, Bool, true, false, ◌||◌, Option, none, some, Text, codes, List, [], ◌∷◌, Error, wrap,
  Result, ok, err, ℤ, pos, text_eq, if◌then◌else◌,
}
use caaspay_core.Prelude.Dict.{Dict, empty, get, put}

pub record ObservabilityConfig : Type 0 where
  pub tracing_enabled : Bool
  pub opentracing_host : Text
  pub opentracing_port : ℕ
  pub metrics_adapter : Text
  pub metrics_host : Text
  pub metrics_port : ℕ
  pub log_level_metrics : Bool
  pub env : Text

pub data Kind : Type 0 where
  counter : Kind
  histogram : Kind
  gauge : Kind

pub record Measurement : Type 0 where
  pub kind : Kind
  pub name : Text
  pub amount : ℤ
  pub attrs : List (Text × Text)

-- `has_meter` says that the meter is not nil; `measured` is what the instruments got, the newest first.
pub record Metrics : Type 0 where
  pub enabled : Bool
  pub has_meter : Bool
  pub datadog_started : Bool
  pub counters : Dict Text
  pub histograms : Dict Text
  pub active_gauges : Dict Text
  pub measured : List Measurement

abbrev pub wants : (adapter : Text) → ObservabilityConfig → Bool
wants adapter cfg =
    text_eq cfg.metrics_adapter adapter || text_eq cfg.metrics_adapter (codes "both")

abbrev pub fresh_metrics : (enabled has_meter datadog_started : Bool) → Metrics
fresh_metrics enabled has_meter datadog_started = record {
  enabled = enabled;
  has_meter = has_meter;
  datadog_started = datadog_started;
  counters = empty;
  histograms = empty;
  active_gauges = empty;
  measured = [];
}

-- `setupPrometheus`, with the error of the exporter.
unfoldable pub setup_prometheus : Option Error → Option Error
setup_prometheus none = none
setup_prometheus (some x) = some (wrap (codes "failed to initialize Prometheus exporter") x)

abbrev pub finish_metrics : ObservabilityConfig → Option Error → Result Metrics
finish_metrics cfg (some x) = err x
finish_metrics cfg none = ok (fresh_metrics true true (wants (codes "datadog") cfg))

unfoldable pub new_metrics : ObservabilityConfig → (exporter : Option Error) → Result Metrics
unfolding setup_prometheus
new_metrics cfg exporter =
    if cfg.tracing_enabled
    then finish_metrics cfg
        (if wants (codes "prometheus") cfg then setup_prometheus exporter else none)
    else ok (fresh_metrics false false false)

-- Tags in pairs; an odd one at the end is dropped.
abbrev pub attributes : List Text → List (Text × Text)
attributes (k ∷ v ∷ tags) = (k, v) ∷ attributes tags
attributes _ = []

unfoldable pub registry : Kind → Metrics → Dict Text
registry counter m = m.counters
registry histogram m = m.histograms
registry gauge m = m.active_gauges

unfoldable pub with_registry : Kind → Dict Text → Metrics → Metrics
with_registry counter d m = record m { counters = d }
with_registry histogram d m = record m { histograms = d }
with_registry gauge d m = record m { active_gauges = d }

unfoldable pub add : Kind → Text → ℤ → List (Text × Text) → Metrics → Metrics
add kind name amount attrs m = record m {
  measured = record { kind = kind; name = name; amount = amount; attrs = attrs } ∷ m.measured;
}

-- `makes` says whether the meter makes an instrument of a kind and a name.
module _ (makes : Kind → Text → Bool) where
  unfoldable pub create : Kind → Text → Metrics → Option (Option Text × Metrics)
  unfolding with_registry
  create kind name m =
      if m.has_meter
      then (if makes kind name
          then some (some name, with_registry kind (put name name (registry kind m)) m)
          else some (none, m))
      else none

  -- `getOrCreateCounter`, `getOrCreateHistogram` and `getOrCreateGauge`.
  unfoldable pub get_or_create : Kind → Text → Metrics → Option (Option Text × Metrics)
  unfolding create
  get_or_create kind name m = elim (get name (registry kind m)) [
    | some instrument ↦ some (some instrument, m)
    | none ↦ create kind name m
  ]

  abbrev pub add_to :
      Kind → ℤ → List (Text × Text) → Option (Option Text × Metrics) → Option Metrics
  add_to kind amount attrs none = none
  add_to kind amount attrs (some (none, m)) = some m
  add_to kind amount attrs (some (some name, m)) = some (add kind name amount attrs m)

  unfoldable pub measure : Kind → Text → ℤ → List (Text × Text) → Metrics → Option Metrics
  unfolding get_or_create add
  measure kind name amount attrs m = add_to kind amount attrs (get_or_create kind name m)

  abbrev pub one_or_first : List ℤ → ℤ
  one_or_first [] = pos 1
  one_or_first (d ∷ _) = d

  unfoldable pub increment : Text → (delta : List ℤ) → Metrics → Option Metrics
  unfolding measure
  increment name delta m =
      if m.enabled then measure counter name (one_or_first delta) [] m else some m

  unfoldable pub increment_tagged : Text → (tags : List Text) → Metrics → Option Metrics
  unfolding measure
  increment_tagged name tags m =
      if m.enabled then measure counter name (pos 1) (attributes tags) m else some m

  unfoldable pub observe_histogram : Text → ℤ → (tags : List Text) → Metrics → Option Metrics
  unfolding measure
  observe_histogram name value tags m =
      if m.enabled then measure histogram name value (attributes tags) m else some m

  unfoldable pub record_latency : ℤ → Metrics → Option Metrics
  unfolding observe_histogram
  record_latency duration m = observe_histogram (codes "request_latency") duration [] m

  unfoldable pub record_timing : Text → ℤ → Metrics → Option Metrics
  unfolding observe_histogram
  record_timing operation duration m =
      observe_histogram (codes "operation_duration") duration (codes "operation" ∷ operation ∷ []) m

  unfoldable pub increment_error : Metrics → Option Metrics
  unfolding increment
  increment_error m = increment (codes "request_errors") [] m

  -- The only operation that does not ask whether the metrics are enabled.
  unfoldable pub track_active_requests : ℤ → Metrics → Option Metrics
  unfolding measure
  track_active_requests delta m = measure gauge (codes "active_requests") delta [] m
