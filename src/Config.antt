-- ===== src/Config.antt =====
-- base/microservice/pkg/api/config.go and base/microservice/internal/config/config.go: the
-- configuration, its check, its defaults and its loading. Viper and encoding/json are parameters.
pub mod Defaults
pub mod Load
pub mod ServiceSettings
mod Tests
use caaspay_core.Prelude.{
  ℕ, zero, suc, ◌*◌, ◌^◌, Bool, true, false, not, ◌&&◌, ◌||◌, Option, none, some, Text, codes, List,
  [], ◌∷◌, ◌++◌, Error, errorf, is_empty, ℤ, if◌then◌else◌,
}
use caaspay_core.Prelude.Dict.{Dict}
use caaspay_core.Metrics.{ObservabilityConfig}

pub record TransportConfig : Type 0 where
  pub broker_type : Text
  pub redis_addr : List Text
  pub password : Text
  pub db : ℕ
  pub use_cluster : Bool
  pub tls_required : Bool
  pub use_compression : Bool
  pub use_encryption : Bool
  pub encryption_key : Text
  pub service_reply_stream : Text
  pub response_on_service_stream : Bool
  pub response_stream_sub_once : Bool
  pub dlq_stream : Text
  pub move_expired_to_dlq : Bool
  pub max_retries : ℤ
  pub retry_delay : ℤ
  pub stream_read_count : ℕ
  pub pool_size : ℕ
  pub min_idle_conns : ℕ
  pub dial_timeout : ℕ
  pub read_timeout : ℕ
  pub write_timeout : ℕ
  pub pool_timeout : ℕ
  pub conn_max_idle_time : ℕ
  pub conn_max_lifetime : ℕ
  pub stream_trim_max_len : ℕ
  pub stream_trim_approx : Bool
  pub periodic_trim_freq : ℕ

pub record LoggingConfig : Type 0 where
  pub level : Text
  pub format : Text
  pub redact_sensitive : Bool
  pub debug_enabled : Bool

pub record HealthConfig : Type 0 where
  pub internal_health_checker : Bool
  pub http_server_enabled : Bool
  pub http_server_port : ℕ
  pub http_server_health_route : Text
  pub http_server_ready_route : Text
  pub http_server_live_route : Text
  pub expose_metrics_endpoint : Bool
  pub metrics_route : Text
  pub heartbeat_enabled : Bool
  pub heartbeat_interval : ℕ

pub record RpcConfig : Type 0 where
  pub response_stream_type : Text
  pub max_retries : ℕ
  pub timeout_ms : ℕ

pub record HttpClientConfig : Type 0 where
  pub timeout : ℕ
  pub user_agent : Text

pub record SecurityConfig : Type 0 where
  pub enable_jwt : Bool
  pub jwt_signing_method : Text
  pub enable_rbac : Bool
  pub tls_strict : Bool

pub record ServiceConfig : Type 0 where
  pub port : ℕ
  pub environment : Text
  pub debug_mode : Bool

pub record FrameworkConfig : Type 0 where
  pub service_name : Text
  pub instance_id : Text
  pub version : Text
  pub rpc : RpcConfig
  pub transport : TransportConfig
  pub http_client : HttpClientConfig
  pub logging : LoggingConfig
  pub health_check : HealthConfig
  pub observability : ObservabilityConfig
  pub security : SecurityConfig
  pub storage_type : Text
  pub enable_dynamic_reload : Bool

-- `D` are the values of `interface{}` that decoded settings hold.
pub record Config (D : Type 0) : Type 0 where
  pub framework : FrameworkConfig
  pub service : Dict D
  pub compliance_enabled : Bool
  pub app_name : Text
  pub env : Text
  pub pci_enabled : Bool
  pub encryption_key : Text

abbrev pub missing_if : Text → Text → List Text
missing_if name value = if is_empty value then name ∷ [] else []

unfoldable pub missing_fields : {D : Type 0} → Config D → List Text
missing_fields c =
    missing_if (codes "Framework.ServiceName") c.framework.service_name
    ++ (missing_if (codes "AppName") c.app_name
        ++ missing_if (codes "EncryptionKey") c.encryption_key)

-- `%s` of a slice of strings: the words between brackets.
pub spaced : List Text → Text
spaced [] = []
spaced (w ∷ []) = w
spaced (w ∷ v ∷ ws) = w ++ (codes " " ++ spaced (v ∷ ws))

unfoldable pub complain : List Text → Option Error
complain [] = none
complain (w ∷ ws) =
    some (errorf (codes "Missing required fields: [" ++ (spaced (w ∷ ws) ++ codes "]")))

-- `Validate`
unfoldable pub validate : {D : Type 0} → Config D → Option Error
unfolding complain missing_fields
validate c = complain (missing_fields c)
