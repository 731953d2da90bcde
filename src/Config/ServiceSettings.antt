-- ===== src/Config/ServiceSettings.antt =====
-- base/microservice/internal/config/config.go: MapToStruct, and the service's own settings that
-- base/microservice/internal/framework/framework_context.go takes with it.
use caaspay_core.Prelude.{
  Option, none, some, Text, Bytes, codes, [], ◌++◌, false, Result, ok, or_wrap, ◌>>=◌,
}
use caaspay_core.Config.{ServiceConfig}
use caaspay_core.Config.Defaults.{default_service_config}

-- `&api.ServiceConfig{}`
abbrev pub zero_service_config : ServiceConfig
zero_service_config = record { port = 0; environment = []; debug_mode = false }

-- encoding/json; `unmarshal` decodes over a value, whose fields it keeps where the text has none.
pub record MapJson (D : Type 0) : Type 0 where
  pub marshal : D → Result Bytes
  pub unmarshal : Bytes → ServiceConfig → Result ServiceConfig

module _ {D : Type 0} (json : MapJson D) where
  unfoldable pub map_to_struct : D → ServiceConfig → Result ServiceConfig
  map_to_struct value out = do
    text ← or_wrap (codes "failed to marshal map to JSON") (json.marshal value)
    or_wrap (codes "failed to unmarshal JSON to struct") (json.unmarshal text out)

  unfoldable pub service_settings : (name : Text) → Option D → Result ServiceConfig
  unfolding map_to_struct
  service_settings name none = ok default_service_config
  service_settings name (some value) =
      or_wrap (codes "failed to map config for service " ++ name)
        (map_to_struct value zero_service_config)
