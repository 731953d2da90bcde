-- ===== src/Framework/Startup/Ready.antt =====
-- What NewFrameworkContext makes of the configuration that LoadConfig returns.
use caaspay_core.Prelude.{
  ℕ, ◌≡◌, false, Option, none, some, Text, codes, Error, Result, ok, is_empty,
}
use caaspay_core.Prelude.Dict.{Dict, get, empty}
use caaspay_core.Config.{Config}
use caaspay_core.Config.ServiceSettings.{MapJson}
use caaspay_core.Metrics.{Metrics, new_metrics}
use caaspay_core.Transport.{Env}
use caaspay_core.Transport.Startup.Keeps.{bare}
use caaspay_core.Framework.Startup.Settings.{configured, IsConfigured, IsDecoded}
use caaspay_core.Framework.Startup.{FrameworkContext}

abbrev HasFields : {D : Type 0} → Config D → Type 0
HasFields c =
    (is_empty c.framework.service_name ≡ false)
    × (is_empty c.app_name ≡ false)
    × (is_empty c.encryption_key ≡ false)

module _ {D V : Type 0} (json : MapJson D) where
  -- The context that belongs to a configuration: the configuration has its required fields, the settings
  -- of the service and of the transport are those that it gives, the store is the empty one in memory,
  -- the metrics are those of its observability settings, the logger redacts and the HTTP client is named
  -- as it says, and no service is set.
  pub record IsReady (exporter : Option Error) (c : Config D) (f : FrameworkContext D V)
      : Type 0 where
    pub named : is_empty c.framework.service_name ≡ false
    pub has_app : is_empty c.app_name ≡ false
    pub has_key : is_empty c.encryption_key ≡ false
    pub settings : IsDecoded json (get c.framework.service_name c.service) f.service_config
    pub transport : IsConfigured c f.transport
    pub untouched : bare f.transport ≡ bare (configured c)
    pub logger : f.logger.redact ≡ c.framework.logging.redact_sensitive
    pub agent : f.user_agent ≡ c.framework.http_client.user_agent
    pub storage : f.storage ≡ empty
    pub in_memory : c.framework.storage_type ≡ codes "inmemory"
    pub metrics : new_metrics c.framework.observability exporter ≡ ok f.metrics
    pub config : f.config ≡ c
    pub no_service : f.service ≡ none

  -- The parts that a context was assembled from.
  module _ (e : Env) (fuel : ℕ) (exporter : Option Error) (refuses : Text → Option Error)
      (c : Config D) where
    -- A result, and what it is if it is a context.
    record Results (made : Option (Result (FrameworkContext D V))) : Type 0 where
      result : Result (FrameworkContext D V)
      ended : made ≡ some result
      ready : (f : FrameworkContext D V) → result ≡ ok f → IsReady exporter c f
