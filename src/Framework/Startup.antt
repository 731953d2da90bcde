-- ===== src/Framework/Startup.antt =====
-- base/microservice/internal/framework/framework_context.go: NewFrameworkContext, the heartbeat, and
-- the requests that are passed on to the HTTP client. Goroutines that it starts are calls of the
-- transport's history.
pub mod Settings
pub mod Ready
mod Tests
use caaspay_core.Prelude.{
  ℕ, Bool, true, false, Option, none, some, Text, Bytes, codes, [], Error, wrap, Result, ok, err,
  or_wrap, ◌>>=◌, ℤ,
}
use caaspay_core.Prelude.Dict.{Dict, get}
use caaspay_core.Config.{Config, ServiceConfig}
use caaspay_core.Config.ServiceSettings.{MapJson, service_settings}
use caaspay_core.Logger.{Logger, new_logger}
use caaspay_core.Metrics.{Kind, Metrics, new_metrics}
use caaspay_core.Tracing.{TracerManager, Telemetry, new_tracer_manager}
use caaspay_core.Storage.{new_store}
use caaspay_core.HttpClient.{
  ComplianceReporter, new_compliance_reporter, Http, request_http, request_http_raw,
}
use caaspay_core.Transport.{RedisTransport, Env, History, spawn, heartbeat}
use caaspay_core.Transport.Act.{Act, pure, tell}
use caaspay_core.Transport.Startup.{new_redis_transport}
use caaspay_core.Framework.{redis_config, is_healthy}

-- `D` are the values in the settings of services, `V` those in the store. The tracer is in the source a
-- field of the compliance reporter; `service` is the HealthCheck of the service, once it is set.
pub record FrameworkContext (D V : Type 0) : Type 0 where
  pub config : Config D
  pub service_config : ServiceConfig
  pub service_name : Text
  pub logger : Logger
  pub metrics : Metrics
  pub tracer : TracerManager
  pub transport : RedisTransport
  pub storage : Dict V
  pub compliance : ComplianceReporter
  pub user_agent : Text
  pub timeout : ℕ
  pub service : Option (History → Option Error)

-- `SetService`
unfoldable pub set_service :
    {D V : Type 0} → (History → Option Error) → FrameworkContext D V → FrameworkContext D V
set_service check f = record f { service = some check }

unfoldable pub start_heartbeat : Bool → Act (Unit {0})
start_heartbeat true = tell (spawn (codes "framework_heartbeat") heartbeat)
start_heartbeat false = pure tt

-- `exporter` is the error of the Prometheus exporter, `refuses` that of the Jaeger exporter.
module _ {D V : Type 0} (e : Env) (fuel : ℕ) (exporter : Option Error)
    (refuses : Text → Option Error) (json : MapJson D) (c : Config D) where
  -- The context of its parts.
  unfoldable pub assemble :
      Metrics → TracerManager → RedisTransport → Dict V → ServiceConfig → FrameworkContext D V
  unfolding start_heartbeat
  assemble m tracer r store settings = record {
    config = c;
    service_config = settings;
    service_name = c.framework.service_name;
    logger =
        new_logger c.framework.service_name c.framework.logging.level
          c.framework.logging.redact_sensitive;
    metrics = m;
    tracer = tracer;
    transport = (start_heartbeat c.framework.health_check.heartbeat_enabled r).1;
    storage = store;
    compliance = new_compliance_reporter c;
    user_agent = c.framework.http_client.user_agent;
    timeout = c.framework.http_client.timeout;
    service = none;
  }

  unfoldable pub with_transport :
      Metrics → TracerManager → Result RedisTransport → Result (FrameworkContext D V)
  with_transport m tracer connected = do
    r ← or_wrap (codes "failed to initialize transport") connected
    store ← or_wrap (codes "failed to initialize storage") (new_store c.framework.storage_type)
    settings ←
        service_settings json c.framework.service_name (get c.framework.service_name c.service)
    ok (assemble m tracer r store settings)

  unfoldable pub when_connected :
      Metrics
      → TracerManager
      → Option (Result RedisTransport)
      → Option (Result (FrameworkContext D V))
  unfolding with_transport
  when_connected m tracer none = none
  when_connected m tracer (some connected) = some (with_transport m tracer connected)

  -- The root context has no deadline, and the metrics are there.
  unfoldable pub with_metrics :
      Result Metrics → Telemetry → Option (Result (FrameworkContext D V)) × Telemetry
  unfolding when_connected
  with_metrics (err x) t = (some (err (wrap (codes "failed to initialize metrics") x)), t)
  with_metrics (ok m) t =
      let (tracer, t') =
        new_tracer_manager refuses c.framework.service_name c.framework.observability t in
      (when_connected m tracer (new_redis_transport e fuel (redis_config c) false true []), t')

-- What is made after LoadConfig; `none` means that the loop that connects ran out of fuel.
unfoldable pub new_framework_context :
    {D V : Type 0} (e : Env) (fuel : ℕ) (exporter : Option Error) (refuses : Text → Option Error)
    → MapJson D
    → Result (Config D)
    → Telemetry
    → Option (Result (FrameworkContext D V)) × Telemetry
unfolding with_metrics
new_framework_context e fuel exporter refuses json (err x) t =
    (some (err (wrap (codes "failed to load config") x)), t)
new_framework_context e fuel exporter refuses json (ok c) t =
    with_metrics e fuel exporter refuses json c (new_metrics c.framework.observability exporter) t

module _ {D V : Type 0} where
  -- A round of the heartbeat, which logs what IsHealthy answers: the pause that follows, `none` for a
  -- panic. The supervisor always answers that it is healthy.
  unfoldable pub heartbeat_round : Env → FrameworkContext D V → Option ℕ × FrameworkContext D V
  heartbeat_round e f =
      let (healthy, r) = is_healthy e f.service true f.transport in
      (
        elim healthy [
          | none ↦ none
          | some _ ↦ some f.config.framework.health_check.heartbeat_interval
        ],
        record f { transport = r },
      )

  module _ {R : Type 0} (makes : Kind → Text → Bool) (http : Http R)
      (f : FrameworkContext D V) where
    unfoldable pub context_request_raw :
        (method url : Text) (body : Bytes) (headers : Dict Text) (duration : ℤ)
        → Option (Result (R × Bytes) × Option Metrics)
    context_request_raw method url body headers duration =
        request_http_raw makes http f.compliance f.user_agent method url body headers duration
          f.metrics

    unfoldable pub context_request :
        {A B : Type 0} (marshal : A → Result Bytes) (unmarshal : Bytes → Result B)
        (method url : Text)
        → A
        → Option (Dict Text)
        → (duration : ℤ) → Option (Result B × Option Metrics)
    context_request marshal unmarshal method url input headers duration =
        request_http makes http f.compliance f.user_agent marshal unmarshal method url input headers
          duration f.metrics
