-- ===== src/Service/HealthServer.antt =====
-- base/microservice/internal/service/health_server.go: the server around the three handlers of
-- Service.Lifecycle. net/http is a parameter.
use caaspay_core.Prelude.{
  ℕ, ◌*◌, ◌^◌, Bool, Option, none, some, Text, codes, List, [], ◌∷◌, ◌++◌, Error, decimal,
  if◌then◌else◌,
}
use caaspay_core.Config.{HealthConfig}
use caaspay_core.Service.Lifecycle.{
  ServiceLifecycle, Status, handle_healthz, handle_readyz, handle_livez,
}

-- The handlers of the routes; `metrics` is that of the Prometheus package.
pub data Handler : Type 0 where
  healthz : Handler
  readyz : Handler
  livez : Handler
  metrics : Handler

-- `handler` is the finished http.ServeMux, which gives the handler of a path.
pub record HealthServer : Type 0 where
  pub addr : Text
  pub handler : Text → Option Handler

-- The patterns in the order in which they are registered.
unfoldable pub routes : HealthConfig → List (Text × Handler)
routes c =
    (c.http_server_health_route, healthz)
    ∷ (c.http_server_ready_route, readyz)
    ∷ (c.http_server_live_route, livez)
    ∷ (if c.expose_metrics_endpoint then (c.metrics_route, metrics) ∷ [] else [])

-- The mux that http.ServeMux makes of patterns; `none` is its panic.
unfoldable pub new_health_server :
    (mux : List (Text × Handler) → Option (Text → Option Handler))
    → HealthConfig
    → Option HealthServer
unfolding routes
new_health_server mux c = elim (mux (routes c)) [
  | none ↦ none
  | some h ↦ some (record { addr = codes ":" ++ decimal c.http_server_port; handler = h })
]

-- The answer to a request, `none` where another package gives it.
unfoldable pub respond :
    (framework_healthy : Bool) → ServiceLifecycle → Option Handler → Option Status
respond healthy l none = none
respond healthy l (some healthz) = some (handle_healthz healthy l)
respond healthy l (some readyz) = some (handle_readyz l)
respond healthy l (some livez) = some (handle_livez l)
respond healthy l (some metrics) = none

-- How ListenAndServe returns: without an error, with http.ErrServerClosed, or with another error.
pub data Listened : Type 0 where
  no_error : Listened
  server_closed : Listened
  crashed : Error → Listened

-- What the goroutine that `Start` gives to the supervisor returns.
unfoldable pub listen_result : Listened → Option Error
listen_result no_error = none
listen_result server_closed = none
listen_result (crashed x) = some x

-- The time that `Stop` gives the server; an error of its Shutdown is only logged.
abbrev pub stop_timeout : ℕ
stop_timeout = 5 * 10 ^ 9
