-- ===== src/Framework/Bootstrap/Endings.antt =====
-- How a process that Bootstrap runs comes to its end.
use caaspay_core.Prelude.{ℕ, ◌≡◌, true, Option, some, Text, arith, Result}
use caaspay_core.Supervisor.{
  Supervisor, GoroutineInfo, wait_and_shutdown, Seen, timer_fired, callback_returned, closed,
  exited,
}
use caaspay_core.Supervisor.Steps.{waited-cases}
use caaspay_core.Transport.{Env, History}
use caaspay_core.Service.Lifecycle.{handle_livez, unavailable_503}
use caaspay_core.Framework.Startup.{FrameworkContext}
use caaspay_core.Framework.Bootstrap.{
  Process, Service, running, Event, is_ready, handle, Reach, bootstrap,
}
use caaspay_core.Framework.Bootstrap.Orderly.{
  Reach-IsOrderly, bootstrap-IsOrderly, handle-IsStopped, Reach-IsStopped,
}

module _ {D V : Type 0} (e : Env) (fuel : ℕ) (ident : History → Text × GoroutineInfo)
    (create : FrameworkContext D V → Option Service) (made : Option (Result (FrameworkContext D V)))
    (p q : Process) where
  -- When WaitAndShutdown ends in order for a process that Bootstrap started, whatever happened since,
  -- no goroutine is counted and the service was shut down: its liveness endpoint answers 503.
  pub bootstrap-ends :
      (seen : Seen) (s : Supervisor)
      → bootstrap e fuel ident create made ≡ running p
      → Reach e p q
      → wait_and_shutdown seen q.supervisor ≡ closed s
      → (q.supervisor.running ≡ 0)
        × (q.service.lifecycle.shutdown ≡ true)
        × (handle_livez q.service.lifecycle ≡ unavailable_503)
  unfolding handle_livez
  bootstrap-ends seen s started reach ended =
      let (cancelled, idle, _) = waited-cases seen q.supervisor s ended in
      let orderly =
        Reach-IsOrderly e reach (bootstrap-IsOrderly e fuel ident create made p started) in
      let shut = orderly.stopped cancelled in (idle, shut, ground (arith, shut))

  -- While the handler of a process that Bootstrap started waits, an error of a supervised goroutine, a
  -- signal or a fatal error makes it shut the process down: the supervisor is cancelled and the service
  -- marked. In whatever state follows, WaitAndShutdown exits with 1 if its timer fires first, and ends in
  -- order if no goroutine is counted and its callback has returned before that.
  pub handle-shuts_down :
      (name : Text) (event : Event)
      → bootstrap e fuel ident create made ≡ running p
      → Reach e p q
      → q.handler ≡ some name
      → is_ready event q ≡ true
      → ((handle e name event q).supervisor.cancelled ≡ true)
        × ((handle e name event q).service.lifecycle.shutdown ≡ true)
        × ((r : Process)
            → Reach e (handle e name event q) r
            → (wait_and_shutdown timer_fired r.supervisor ≡ exited)
              × (r.supervisor.running ≡ 0
                  → wait_and_shutdown callback_returned r.supervisor
                    ≡ closed (record r.supervisor { done_closed = true })))
  unfolding wait_and_shutdown
  handle-shuts_down name event started reach waiting ready =
      let orderly =
        Reach-IsOrderly e reach (bootstrap-IsOrderly e fuel ident create made p started) in
      let stopped = handle-IsStopped e name event q waiting ready orderly in
      (
        stopped.cancelled,
        stopped.shut,
        λ r after.
            let cancelled = (Reach-IsStopped e after stopped).cancelled in
            (ground (arith, cancelled), λ idle. ground (arith, cancelled, idle)),
      )
