-- ===== src/Tracing/Adapters.antt =====
-- When a service traces.
use caaspay_core.Prelude.{
  ◌≡◌, ◌↔◌, refl, ap, ◌∙◌, subst, ◌∷◌, Bool, true, false, Option, none, some, some-injective, Text,
  codes, Error, ok, text_eq, text_eq_iff, Bool-cases, Option-cases, inl, inr, arith,
}
use caaspay_core.Metrics.{ObservabilityConfig, new_metrics, fresh_metrics}
use caaspay_core.Tracing.{
  Provider, to_jaeger, beside_datadog, Telemetry, Adapter, jaeger, datadog, no_adapter, endpoint,
  setup_jaeger, setup_datadog, no_op, finish_tracer, adapter, setup, new_tracer_manager, start_span,
  stop_provider, shutdown, shutdown_timeout,
}

module _ (refuses : Text → Option Error) (service : Text) (cfg : ObservabilityConfig) where
  -- The provider that the settings ask for.
  pub data Asks : Provider → Type 0 where
    asks_jaeger :
        cfg.metrics_adapter ≡ codes "jaeger"
        → refuses (endpoint cfg) ≡ none
        → Asks (to_jaeger service (endpoint cfg))
    asks_datadog : cfg.metrics_adapter ≡ codes "datadog" → Asks (beside_datadog service)

  made : Telemetry → Option Provider
  made t = (new_tracer_manager refuses service cfg t).0.provider

  adapter-named :
      (adapter cfg ≡ jaeger → cfg.metrics_adapter ≡ codes "jaeger")
      × (adapter cfg ≡ datadog → cfg.metrics_adapter ≡ codes "datadog")
  unfolding adapter
  adapter-named = ground (
    arith,
    text_eq_iff cfg.metrics_adapter (codes "jaeger"),
    text_eq_iff cfg.metrics_adapter (codes "datadog"),
  )

  setup-Asks :
      (a : Adapter) (p : Provider) (t : Telemetry)
      → adapter cfg ≡ a
      → (setup refuses service cfg a t).0.provider ≡ some p
      → Asks p
  unfolding setup setup_jaeger setup_datadog finish_tracer no_op
  setup-Asks jaeger p t h q = elim (Option-cases (refuses (endpoint cfg))) [
    | inl accepted ↦
        subst Asks (some-injective _ _ (ground (arith, q, accepted)))
          (asks_jaeger (adapter-named.0 h) accepted)
    | inr (x, refused) ↦ absurd (ground (arith, q, refused))
  ]
  setup-Asks datadog p t h q = subst Asks (some-injective _ _ q) (asks_datadog (adapter-named.1 h))
  setup-Asks no_adapter p t h q = absurd (cc)

  made-Asks :
      (p : Provider) (t : Telemetry) → made t ≡ some p → (cfg.tracing_enabled ≡ true) × Asks p
  unfolding made new_tracer_manager no_op
  made-Asks p t h = elim (Bool-cases cfg.tracing_enabled) [
    | inl on ↦ (on, setup-Asks (adapter cfg) p t refl (ground (arith, h, on)))
    | inr off ↦ absurd (ground (arith, h, off))
  ]

  named-adapter :
      (cfg.metrics_adapter ≡ codes "jaeger" → adapter cfg ≡ jaeger)
      × (cfg.metrics_adapter ≡ codes "datadog" → adapter cfg ≡ datadog)
  unfolding adapter text_eq
  named-adapter = (λ h. rw h refl, λ h. rw h refl)

  made-setup :
      (a : Adapter) (t : Telemetry)
      → cfg.tracing_enabled ≡ true
      → adapter cfg ≡ a
      → made t ≡ (setup refuses service cfg a t).0.provider
  unfolding made new_tracer_manager
  made-setup a t on h = ground (arith, on) ∙ ap (λ b. (setup refuses service cfg b t).0.provider) h

  setup_jaeger-made :
      (t : Telemetry)
      → refuses (endpoint cfg) ≡ none
      → (setup refuses service cfg jaeger t).0.provider ≡ some (to_jaeger service (endpoint cfg))
  unfolding setup setup_jaeger finish_tracer
  setup_jaeger-made t accepted = ground (arith, accepted)

  Asks-made : (p : Provider) (t : Telemetry) → cfg.tracing_enabled ≡ true → Asks p → made t ≡ some p
  unfolding setup setup_datadog finish_tracer
  Asks-made p t on (asks_jaeger named accepted) =
      made-setup jaeger t on (named-adapter.0 named) ∙ setup_jaeger-made t accepted
  Asks-made p t on (asks_datadog named) = made-setup datadog t on (named-adapter.1 named)

  -- Metrics of an adapter that traces have no exporter that could fail.
  Asks-metrics :
      (p : Provider) (exporter : Option Error)
      → cfg.tracing_enabled ≡ true
      → Asks p
      → (b : Bool) × (new_metrics cfg exporter ≡ ok (fresh_metrics true true b))
  unfolding new_metrics text_eq
  Asks-metrics p exporter on (asks_jaeger named accepted) = (false, rw (on, named) refl)
  Asks-metrics p exporter on (asks_datadog named) = (true, rw (on, named) refl)

  -- A TracerManager keeps the spans of a provider exactly when tracing is enabled and the settings name
  -- Jaeger, with an endpoint that its exporter takes, or Datadog. Its shutdown then shuts down this
  -- provider, and the metrics of the same settings are made without the Prometheus exporter, so they
  -- cannot fail.
  pub new_tracer_manager-traces :
      (p : Provider) (t : Telemetry) (exporter : Option Error) (name : Text)
      → let (m, s) = new_tracer_manager refuses service cfg t in
        (((start_span m name).kept_by ≡ some p) ↔ ((cfg.tracing_enabled ≡ true) × Asks p))
        × ((start_span m name).kept_by ≡ some p
            → (shutdown m s ≡ record s { stopped = (p, shutdown_timeout) ∷ s.stopped })
              × ((b : Bool) × (new_metrics cfg exporter ≡ ok (fresh_metrics true true b))))
  unfolding start_span shutdown stop_provider made
  new_tracer_manager-traces p t exporter name = (
    (made-Asks p t, λ h. Asks-made p t h.0 h.1),
    λ h.
        let (on, asks) = made-Asks p t h in
        (
          ap (λ o. stop_provider o (new_tracer_manager refuses service cfg t).1) h,
          Asks-metrics p exporter on asks,
        ),
  )
