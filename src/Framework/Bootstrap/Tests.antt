-- ===== src/Framework/Bootstrap/Tests.antt =====
-- The theorems about a process at concrete inputs.
use caaspay_core.Prelude.{
  ℕ, ◌≡◌, ◌≢◌, refl, ap, Bool, true, false, Option, none, some, Text, codes, [], ◌∷◌, Result, ok,
  errorf, text_eq,
}
use caaspay_core.Metrics.{fresh_metrics}
use caaspay_core.Supervisor.{
  GoroutineInfo, new_supervisor, store_metadata, start, final_name, leave, end_go, shutdown,
  wait_and_shutdown, closed, exited, timer_fired, callback_returned,
}
use caaspay_core.Tracing.{no_op}
use caaspay_core.Transport.{History, clock}
use caaspay_core.Transport.Samples.{surroundings, started}
use caaspay_core.Service.{auto_register_functions}
use caaspay_core.Service.Lifecycle.{new_service_lifecycle, handle_livez, unavailable_503}
use caaspay_core.Service.Running.{ServiceStruct, run, prepare, start_server, checked}
use caaspay_core.Config.Defaults.{default_service_config}
use caaspay_core.Service.HealthServer.{crashed}
use caaspay_core.Prelude.Dict.{get, put}
use caaspay_core.Framework.Samples.{sample, no_json}
use caaspay_core.Framework.Startup.{FrameworkContext, assemble, set_service}
use caaspay_core.Framework.Bootstrap.{
  Process, Service, running, os_signal, is_ready, received, shut_down, after_event, handle, Reach,
  here, next, starts, signals, supervised_error, handles, new_service_struct, adopt, watched,
  registered, serve, bootstrap,
}
use caaspay_core.Framework.Bootstrap.Crash.{after_server, crash-shuts_down}
use caaspay_core.Framework.Bootstrap.Endings.{bootstrap-ends, handle-shuts_down}

abbrev context : FrameworkContext Bool ℕ
context =
    assemble surroundings 3 none (λ url. none) no_json sample (fresh_metrics true true false)
      (no_op (codes "example-service")) started [] default_service_config

abbrev idle_service : Service
idle_service = record {
  methods = [];
  answers = record { start = λ h. none; health_check = λ h. none };
}

abbrev create_idle : FrameworkContext Bool ℕ → Option Service
create_idle f = some idle_service

abbrev ident : History → Text × GoroutineInfo
ident h = (
  codes "u",
  record { start_time = 0; origin = []; caller_file = []; caller_line = 0; method_name = [] },
)

abbrev made : Option (Result (FrameworkContext Bool ℕ))
made = some (ok context)

abbrev waiting_service : ServiceStruct
waiting_service = record {
  transport = record started { history = clock ∷ [] };
  lifecycle = new_service_lifecycle 7;
  serving = false;
}

abbrev booted : Process
booted =
    watched surroundings 3 ident context.logger
      (run surroundings idle_service.answers 3 false (codes "example-service") [] waiting_service)

boots : bootstrap surroundings 3 ident create_idle made ≡ running booted
unfolding bootstrap serve registered set_service new_service_struct assemble run
boots = refl

-- The process after a signal of the operating system.
abbrev signalled : Process
signalled = record booted { signal = true }

abbrev handler : Text
handler = codes "signal.handler:u"

handle-shuts_down_example :
    ((handle surroundings handler os_signal signalled).supervisor.cancelled ≡ true)
    × ((handle surroundings handler os_signal signalled).service.lifecycle.shutdown ≡ true)
    × ((r : Process)
        → Reach surroundings (handle surroundings handler os_signal signalled) r
        → (wait_and_shutdown timer_fired r.supervisor ≡ exited)
          × (r.supervisor.running ≡ 0
              → wait_and_shutdown callback_returned r.supervisor
                ≡ closed (record r.supervisor { done_closed = true })))
unfolding watched final_name is_ready
handle-shuts_down_example =
    handle-shuts_down surroundings 3 ident create_idle made booted signalled handler os_signal boots
      (next here signals) refl refl

-- The handler was the only goroutine.
abbrev finished : Process
finished = handle surroundings handler os_signal signalled

ended_in_order :
    wait_and_shutdown callback_returned finished.supervisor
    ≡ closed (record finished.supervisor { done_closed = true })
unfolding wait_and_shutdown handle after_event shut_down received end_go leave shutdown watched run
    prepare start_server checked auto_register_functions adopt start store_metadata new_supervisor
ended_in_order = refl

bootstrap-ends_example :
    (finished.supervisor.running ≡ 0)
    × (finished.service.lifecycle.shutdown ≡ true)
    × (handle_livez finished.service.lifecycle ≡ unavailable_503)
unfolding watched final_name is_ready
bootstrap-ends_example =
    bootstrap-ends surroundings 3 ident create_idle made booted finished callback_returned
      (record finished.supervisor { done_closed = true }) boots
      (next (next here signals) (handles handler os_signal refl refl)) ended_in_order

-- The process with a health server.
abbrev serving : Process
serving = record booted {
  supervisor = start (codes "health_server") (codes "s") (ident []).1 booted.supervisor;
}

abbrev server : Text
server = codes "health_server:s"

abbrev is_server : Option Text → Bool
is_server none = false
is_server (some name) = text_eq name server

not_the_server : serving.handler ≢ some server
unfolding watched final_name text_eq
not_the_server h = let no : false ≡ true = ap is_server h in absurd (cc)

crash-shuts_down_example :
    let r = after_server server (crashed (errorf (codes "bind"))) serving in
    let end = handle surroundings handler supervised_error r in
    Reach surroundings booted r
    × (is_ready supervised_error r ≡ true)
    × (handle_livez end.service.lifecycle ≡ unavailable_503)
    × (end.supervisor.cancelled ≡ true)
unfolding watched final_name start store_metadata get put text_eq run prepare start_server checked
    auto_register_functions adopt new_supervisor
crash-shuts_down_example =
    crash-shuts_down surroundings 3 ident create_idle made booted serving server handler
      (ident []).1 (errorf (codes "bind")) boots
      (next here (starts (codes "health_server") (codes "s") (ident []).1 refl)) refl refl
      not_the_server
