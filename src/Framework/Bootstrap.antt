-- ===== src/Framework/Bootstrap.antt =====
-- base/microservice/internal/framework/bootstrap.go, and NewServiceStruct of
-- base/microservice/internal/service/service.go: a process, from its start to the end that
-- WaitAndShutdown announces.
pub mod Orderly
pub mod Endings
pub mod Crash
mod Tests
use caaspay_core.Prelude.{
  ℕ, ◌≡◌, ◌≢◌, Bool, true, false, ◌||◌, Option, none, some, Text, codes, List, [], ◌∷◌, Error,
  errorf, Result, ok, err,
}
use caaspay_core.Prelude.Dict.{get}
use caaspay_core.Logger.{Logger}
use caaspay_core.Supervisor.{
  Supervisor, GoroutineInfo, Outcome, returned, new_supervisor, final_name, start, end_go, end_loop,
  take_error,
}
use caaspay_core.Supervisor.{shutdown as stop_supervisor}
use caaspay_core.Transport.{RedisTransport, Env, History, Call, spawn, clock, fatal}
use caaspay_core.Service.{MethodInfo}
use caaspay_core.Service.Lifecycle.{new_service_lifecycle}
use caaspay_core.Service.Running.{ServiceStruct, Answers, run, shutdown}
use caaspay_core.Framework.Startup.{FrameworkContext, set_service}

-- What the developer gives: the methods that reflection finds, and the answers of Start and
-- HealthCheck.
pub record Service : Type 0 where
  pub methods : List MethodInfo
  pub answers : Answers

-- `signal` says whether the channel of the operating system's signals, of capacity one, holds one;
-- `handler` is the goroutine that waits for a reason to shut down, until it has one.
pub record Process : Type 0 where
  pub service : ServiceStruct
  pub supervisor : Supervisor
  pub logger : Logger
  pub signal : Bool
  pub handler : Option Text

-- How the start ends: log.Fatalf, os.Exit, a process, or the end of the fuel for the connection.
pub data Started : Type 0 where
  failed : Error → Started
  exited : Error → Started
  running : Process → Started
  out_of_fuel : Started

-- `NewServiceStruct`, with the service that it holds and the time that NewServiceLifecycle reads.
unfoldable pub new_service_struct :
    Env → RedisTransport → Option Service → Result (Service × ServiceStruct)
new_service_struct e r none = err (errorf (codes "service instance cannot be nil"))
new_service_struct e r (some s) =
    let h = clock ∷ r.history in
    ok (
      s,
      record {
        transport = record r { history = h };
        lifecycle = new_service_lifecycle (e.now h);
        serving = false;
      },
    )

-- The supervisor with the goroutines that a history started, none of which has ended. `ident` gives
-- the id and the metadata of each.
unfoldable pub adopt : (ident : History → Text × GoroutineInfo) → History → Supervisor
adopt ident [] = new_supervisor
adopt ident (spawn name task ∷ h) = let (id, info) = ident h in start name id info (adopt ident h)
adopt ident (_ ∷ h) = adopt ident h

-- Whether Fatal was called.
unfoldable pub has_fatal : History → Bool
has_fatal [] = false
has_fatal (fatal ∷ h) = true
has_fatal (_ ∷ h) = has_fatal h

-- What the handler's select waits for.
pub data Event : Type 0 where
  os_signal : Event
  ctx_done : Event
  supervised_error : Event
  logger_fatal : Event

unfoldable pub is_ready : Event → Process → Bool
is_ready os_signal p = p.signal
is_ready ctx_done p = p.supervisor.cancelled
is_ready supervised_error p = elim p.supervisor.err_chan [ none ↦ false | some _ ↦ true ]
is_ready logger_fatal p = p.logger.signalled

-- The receive of an event.
unfoldable pub received : Event → Process → Process
received os_signal p = record p { signal = false }
received ctx_done p = p
received supervised_error p = record p { supervisor = (take_error p.supervisor).1 }
received logger_fatal p = record p { logger = record p.logger { signalled = false } }

-- `SetService` is given nil where there is no service.
unfoldable pub registered :
    {D V : Type 0} → Option Service → FrameworkContext D V → FrameworkContext D V
registered none f = f
registered (some s) f = set_service s.answers.health_check f

module _ (e : Env) where
  -- The service's Shutdown, which ends with that of the supervisor.
  unfoldable pub shut_down : Process → Process
  shut_down p = record p {
    service = shutdown e p.service;
    supervisor = stop_supervisor p.supervisor;
  }

  -- Where the context is done, the handler returns without a shutdown.
  unfoldable pub after_event : Event → Process → Process
  unfolding shut_down
  after_event ctx_done p = p
  after_event os_signal p = shut_down p
  after_event supervised_error p = shut_down p
  after_event logger_fatal p = shut_down p

  -- The handler, of this name, from its event to its end, as one step.
  unfoldable pub handle : (name : Text) → Event → Process → Process
  unfolding received after_event
  handle name event p =
      let q = after_event event (received event p) in
      record q { supervisor = end_go name (returned none) q.supervisor; handler = none }

  -- What happens once the handler waits. A goroutine that is not the handler starts or ends, the
  -- operating system signals, a fatal error is logged, the transport works, or the handler acts.
  pub data Step (p : Process) : Process → Type 0 where
    starts :
        (name id : Text) (info : GoroutineInfo)
        → get (final_name name id) p.supervisor.active ≡ none
        → Step p (record p { supervisor = start name id info p.supervisor })
    ends_go :
        (name : Text) (info : GoroutineInfo) (o : Outcome)
        → get name p.supervisor.active ≡ some info
        → p.handler ≢ some name
        → Step p (record p { supervisor = end_go name o p.supervisor })
    ends_loop :
        (name : Text) (info : GoroutineInfo) (o : Outcome)
        → get name p.supervisor.active ≡ some info
        → p.handler ≢ some name
        → Step p (record p { supervisor = end_loop name o p.supervisor })
    signals : Step p (record p { signal = true })
    logs_fatal : Step p (record p { logger = record p.logger { signalled = true } })
    works :
        (r : RedisTransport) → Step p (record p { service = record p.service { transport = r } })
    handles :
        (name : Text) (event : Event)
        → p.handler ≡ some name
        → is_ready event p ≡ true
        → Step p (handle name event p)

  pub data Reach (p : Process) : Process → Type 0 where
    here : Reach p p
    next : {q r : Process} → Reach p q → Step q r → Reach p r

  module _ (fuel : ℕ) (ident : History → Text × GoroutineInfo) where
    -- The handler starts, as the last goroutine, once Run has returned.
    unfoldable pub watched : Logger → ServiceStruct → Process
    watched logger s =
        let h = s.transport.history in
        let (id, info) = ident (clock ∷ h) in
        record {
          service = s;
          supervisor = start (codes "signal.handler") id info (adopt ident h);
          logger = record logger { signalled = logger.signalled || has_fatal h };
          signal = false;
          handler = some (final_name (codes "signal.handler") id);
        }

    unfoldable pub serve :
        {D V : Type 0} → FrameworkContext D V → Result (Service × ServiceStruct) → Started
    unfolding watched
    serve f (err x) = exited x
    serve f (ok (service, s)) = running (
        watched f.logger (
          run e service.answers fuel f.config.framework.health_check.http_server_enabled
            f.service_name service.methods s))

    -- `Bootstrap`, from what NewFrameworkContext gives to the start of the handler.
    unfoldable pub bootstrap :
        {D V : Type 0} (create : FrameworkContext D V → Option Service)
        → Option (Result (FrameworkContext D V))
        → Started
    unfolding serve registered
    bootstrap create none = out_of_fuel
    bootstrap create (some (err x)) = failed x
    bootstrap create (some (ok f)) =
        let service = create f in
        let f' = registered service f in serve f' (new_service_struct e f'.transport service)
