-- ===== src/Framework/Options.antt =====
-- What of the configuration reaches the Redis client.
use caaspay_core.Prelude.{◌≡◌, refl, Bool, false, codes, ◌++◌}
use caaspay_core.Config.{Config}
use caaspay_core.Transport.{single, History}
use caaspay_core.Transport.Startup.{client_options, initial, seconds}
use caaspay_core.Framework.{redis_config}

-- Whatever is configured, the framework's transport talks to a single node without TLS, with the
-- pool of the client's own default and a dial timeout of five seconds, and its dead letters go to the
-- stream `dlq:` of the service's reply stream.
pub redis_config-ignores :
    {D : Type 0} (c : Config D) (has_deadline has_metrics : Bool) (h : History)
    → ((client_options (redis_config c)).client ≡ single)
      × ((client_options (redis_config c)).tls ≡ false)
      × ((client_options (redis_config c)).pool_size ≡ 0)
      × ((client_options (redis_config c)).min_idle_conns ≡ 0)
      × ((client_options (redis_config c)).dial_timeout ≡ seconds 5)
      × ((initial (redis_config c) has_deadline has_metrics h).dlq_stream
          ≡ codes "dlq:" ++ (c.framework.service_name ++ codes "_reply"))
unfolding client_options redis_config initial
redis_config-ignores c has_deadline has_metrics h = (refl, refl, refl, refl, refl, refl)
