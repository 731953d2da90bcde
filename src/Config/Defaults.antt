-- ===== src/Config/Defaults.antt =====
-- base/microservice/internal/config/config.go: the defaults.
use caaspay_core.Prelude.{ℕ, ◌*◌, ◌^◌, true, false, codes, [], ◌∷◌, pos}
use caaspay_core.Prelude.Dict.{empty}
use caaspay_core.Metrics.{ObservabilityConfig}
use caaspay_core.Config.{
  TransportConfig, HttpClientConfig, HealthConfig, LoggingConfig, SecurityConfig, ServiceConfig,
  Config,
}

abbrev pub seconds : ℕ → ℕ
seconds n = n * 10 ^ 9

-- What `setDefaults` sets; what it leaves out is the zero value.
abbrev pub default_transport : TransportConfig
default_transport = record {
  broker_type = codes "redis";
  redis_addr = codes "redis_7:6379" ∷ [];
  password = [];
  db = 0;
  use_cluster = false;
  tls_required = false;
  use_compression = true;
  use_encryption = true;
  encryption_key = codes "1313c15c22701f9fd383b7f7d69efe7b86783605998990a9fb04b84f817defab";
  service_reply_stream = [];
  response_on_service_stream = false;
  response_stream_sub_once = true;
  dlq_stream = [];
  move_expired_to_dlq = true;
  max_retries = pos 1000;
  retry_delay = pos (seconds 1);
  stream_read_count = 10;
  pool_size = 10;
  min_idle_conns = 2;
  dial_timeout = seconds 5;
  read_timeout = seconds 20;
  write_timeout = seconds 2;
  pool_timeout = seconds 1;
  conn_max_idle_time = seconds 20;
  conn_max_lifetime = seconds 200;
  stream_trim_max_len = 10000;
  stream_trim_approx = true;
  periodic_trim_freq = seconds 5;
}

abbrev pub default_health : HealthConfig
default_health = record {
  internal_health_checker = true;
  http_server_enabled = true;
  http_server_port = 8080;
  http_server_health_route = codes "/healthz";
  http_server_ready_route = codes "/readyz";
  http_server_live_route = codes "/livez";
  expose_metrics_endpoint = true;
  metrics_route = codes "/metrics";
  heartbeat_enabled = true;
  heartbeat_interval = seconds 10;
}

abbrev pub default_logging : LoggingConfig
default_logging = record {
  level = codes "info";
  format = codes "json";
  redact_sensitive = true;
  debug_enabled = false;
}

abbrev pub default_http_client : HttpClientConfig
default_http_client = record {
  timeout = seconds 60;
  user_agent =
      codes "CAASPay/1.0 (service; +https://caaspay.com; contact=requestsinfo@caaspay.com)";
}

abbrev pub default_observability : ObservabilityConfig
default_observability = record {
  tracing_enabled = true;
  opentracing_host = codes "localhost";
  opentracing_port = 6832;
  metrics_adapter = codes "statsd";
  metrics_host = codes "localhost";
  metrics_port = 8125;
  log_level_metrics = true;
  env = codes "test";
}

abbrev pub default_security : SecurityConfig
default_security = record {
  enable_jwt = true;
  jwt_signing_method = codes "HS256";
  enable_rbac = true;
  tls_strict = false;
}

abbrev pub default_config : {D : Type 0} → Config D
default_config = record {
  framework = record {
    service_name = codes "example-service";
    instance_id = codes "main";
    version = codes "1.0.0";
    rpc = record { response_stream_type = codes "dedicated"; max_retries = 3; timeout_ms = 5000 };
    transport = default_transport;
    http_client = default_http_client;
    logging = default_logging;
    health_check = default_health;
    observability = default_observability;
    security = default_security;
    storage_type = codes "inmemory";
    enable_dynamic_reload = false;
  };
  service = empty;
  compliance_enabled = false;
  app_name = codes "example";
  env = [];
  pci_enabled = false;
  encryption_key = codes "Defaultfff";
}

-- `DefaultServiceConfig`
abbrev pub default_service_config : ServiceConfig
default_service_config = record {
  port = 8080;
  environment = codes "development";
  debug_mode = true;
}
