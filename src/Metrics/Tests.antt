-- ===== src/Metrics/Tests.antt =====
-- The theorem about the metrics at concrete inputs.
use caaspay_core.Prelude.{
  ◌≡◌, refl, true, false, none, some, codes, List, [], ◌∷◌, pos, if◌then◌else◌,
}
use caaspay_core.Metrics.{ObservabilityConfig, Metrics, fresh_metrics, new_metrics}
use caaspay_core.Metrics.Disabled.{Op, increments, tracks, has_track, apply_all, new_metrics-panics}

abbrev disabled : ObservabilityConfig
disabled = record {
  tracing_enabled = false;
  opentracing_host = [];
  opentracing_port = 0;
  metrics_adapter = codes "both";
  metrics_host = [];
  metrics_port = 0;
  log_level_metrics = false;
  env = [];
}

abbrev quiet : Metrics
quiet = fresh_metrics false false false

abbrev a_run : List Op
a_run = increments (codes "hits") [] ∷ tracks (pos 1) ∷ []

new_metrics-panics_example :
    (false ≡ true → (n : Metrics) × (apply_all (λ kind name. true) a_run quiet ≡ some n))
    × (false ≡ false
        → apply_all (λ kind name. true) a_run quiet
          ≡ (if has_track a_run then none else some quiet))
unfolding new_metrics
new_metrics-panics_example = new_metrics-panics (λ kind name. true) disabled none quiet a_run refl
