-- ===== src/Framework/Samples.antt =====
-- Sample settings for the tests of the framework.
use caaspay_core.Prelude.{Bool, true, false, none, [], ok, pos}
use caaspay_core.Config.{Config}
use caaspay_core.Config.Defaults.{default_config, default_transport, default_health}
use caaspay_core.Config.Load.{Viper}
use caaspay_core.Config.ServiceSettings.{MapJson}
use caaspay_core.Tracing.{Telemetry}

-- The defaults with three attempts to connect, without health server and heartbeat.
abbrev pub sample : Config Bool
sample =
    let c : Config Bool = default_config in
    record c {
      framework = record c.framework {
        transport = record default_transport { max_retries = pos 3 };
        health_check = record default_health {
          http_server_enabled = false;
          heartbeat_enabled = false;
        };
      };
    }

-- No file is found, so the defaults are decoded.
abbrev pub no_files : Viper Bool Bool
no_files = record {
  read_dir = λ d. ok [];
  join = λ dir name. dir;
  start = true;
  read_in_config = λ p. ok true;
  merge = λ s t. ok s;
  unmarshal = λ s. ok sample;
}

abbrev pub no_json : MapJson Bool
no_json = record { marshal = λ b. ok []; unmarshal = λ b c. ok c }

abbrev pub idle : Telemetry
idle = record { global = none; propagates = false; datadog = none; stopped = [] }
