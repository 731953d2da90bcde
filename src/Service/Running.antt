-- ===== src/Service/Running.antt =====
-- base/microservice/internal/service/service.go: Run and Shutdown.
use caaspay_core.Prelude.{
  ℕ, Bool, true, false, Option, none, some, Text, codes, List, Error, if◌then◌else◌,
}
use caaspay_core.Transport.{
  RedisTransport, Env, History, spawn, health_server, start_service, check_service, stop_service,
  stop_server, cancel, clock,
}
use caaspay_core.Transport.Act.{Act, pure, ask, tell, ◌>>=◌, ◌>>◌}
use caaspay_core.Transport.Cleanup.{cleanup_on_shutdown}
use caaspay_core.Service.{MethodInfo, auto_register_functions}
use caaspay_core.Service.Lifecycle.{ServiceLifecycle, mark_started, mark_ready, mark_shutdown}

-- ServiceStruct with the transport of its framework context; `serving` says whether it has a health
-- server.
pub record ServiceStruct : Type 0 where
  pub transport : RedisTransport
  pub lifecycle : ServiceLifecycle
  pub serving : Bool

-- The answers of the service's own Start and HealthCheck.
pub record Answers : Type 0 where
  pub start : History → Option Error
  pub health_check : History → Option Error

module _ (e : Env) (a : Answers) where
  -- The health server, where the configuration asks for one.
  unfoldable pub start_server : Bool → Act (Unit {0})
  start_server true = tell (spawn (codes "health_server") health_server)
  start_server false = pure tt

  -- Whether the service started and is healthy.
  unfoldable pub checked : Option Error → Act Bool
  checked (some _) = pure false
  checked none = do
    failed ← ask a.health_check check_service
    pure (elim failed [ none ↦ true | some _ ↦ false ])

  unfoldable pub prepare :
      (fuel : ℕ) (enabled : Bool) (service : Text) → List MethodInfo → Act (ℕ × Bool)
  unfolding start_server checked
  prepare fuel enabled service methods = do
    auto_register_functions e fuel service methods
    now ← ask e.now clock
    start_server enabled
    failed ← ask a.start start_service
    well ← checked failed
    pure (now, well)

  unfoldable pub run :
      (fuel : ℕ) (enabled : Bool) (service : Text) → List MethodInfo → ServiceStruct → ServiceStruct
  unfolding prepare
  run fuel enabled service methods s =
      let ((now, well), r) = prepare fuel enabled service methods s.transport in
      let started = mark_started now s.lifecycle in
      record {
        transport = r;
        lifecycle = if well then mark_ready started else started;
        serving = if enabled then true else s.serving;
      }

module _ (e : Env) where
  unfoldable pub stop_serving : Bool → Act (Unit {0})
  stop_serving true = tell stop_server
  stop_serving false = pure tt

  -- The answer of Stop is only logged. The flag is set before the transport is cleaned.
  unfoldable pub close_down : Bool → Act (Unit {0})
  unfolding stop_serving
  close_down serving = do
    tell stop_service
    stop_serving serving
    cleanup_on_shutdown e
    tell cancel

  unfoldable pub shutdown : ServiceStruct → ServiceStruct
  unfolding close_down
  shutdown s = record s {
    transport = (close_down s.serving s.transport).1;
    lifecycle = mark_shutdown s.lifecycle;
  }
