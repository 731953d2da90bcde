-- ===== src/Framework/Bootstrap/Crash.antt =====
-- A crash of the health server ends the process.
use caaspay_core.Prelude.{
  ℕ, ◌≡◌, ◌≢◌, refl, true, false, Option, some, Option-cases, inl, inr, Text, arith, Error, Result,
}
use caaspay_core.Prelude.Dict.{get}
use caaspay_core.Supervisor.{GoroutineInfo, returned, end_go, offer_unless, offer, leave}
use caaspay_core.Transport.{Env, History}
use caaspay_core.Service.HealthServer.{Listened, crashed, listen_result}
use caaspay_core.Service.Lifecycle.{handle_livez, unavailable_503}
use caaspay_core.Framework.Startup.{FrameworkContext}
use caaspay_core.Framework.Bootstrap.{
  Process, Service, running, supervised_error, is_ready, handle, Reach, next, ends_go, bootstrap,
}
use caaspay_core.Framework.Bootstrap.Orderly.{Reach-IsOrderly, bootstrap-IsOrderly}
use caaspay_core.Framework.Bootstrap.Endings.{handle-shuts_down}

-- The process after the goroutine of this name returned as the health server does.
abbrev pub after_server : (name : Text) → Listened → Process → Process
after_server name l q = record q {
  supervisor = end_go name (returned (listen_result l)) q.supervisor;
}

offers :
    (name : Text) (x : Error) (q : Process)
    → q.supervisor.cancelled ≡ false
    → is_ready supervised_error (after_server name (crashed x) q) ≡ true
unfolding is_ready listen_result end_go leave offer_unless offer
offers name x q h = elim (Option-cases q.supervisor.err_chan) [
  | inl p ↦ rw (h, p) refl
  | inr (y, p) ↦ rw (h, p) refl
]

module _ {D V : Type 0} (e : Env) (fuel : ℕ) (ident : History → Text × GoroutineInfo)
    (create : FrameworkContext D V → Option Service) (made : Option (Result (FrameworkContext D V)))
    (p q : Process) where
  -- If the health server of a process that Bootstrap started crashes while the handler waits, the
  -- handler receives an error and shuts the service down: the liveness endpoint answers 503, and the
  -- supervisor is cancelled.
  pub crash-shuts_down :
      (name handler : Text) (info : GoroutineInfo) (x : Error)
      → bootstrap e fuel ident create made ≡ running p
      → Reach e p q
      → q.handler ≡ some handler
      → get name q.supervisor.active ≡ some info
      → q.handler ≢ some name
      → let r = after_server name (crashed x) q in
        let end = handle e handler supervised_error r in
        Reach e p r
        × (is_ready supervised_error r ≡ true)
        × (handle_livez end.service.lifecycle ≡ unavailable_503)
        × (end.supervisor.cancelled ≡ true)
  unfolding handle_livez
  crash-shuts_down name handler info x started reach waiting found other =
      let orderly =
        Reach-IsOrderly e reach (bootstrap-IsOrderly e fuel ident create made p started) in
      let r = after_server name (crashed x) q in
      let reached : Reach e p r = next reach (ends_go name info _ found other) in
      let ready = offers name x q (orderly.waits handler waiting) in
      let (cancelled, shut, _) =
        handle-shuts_down e fuel ident create made p r handler supervised_error started reached
          waiting ready in
      (reached, ready, ground (arith, shut), cancelled)
