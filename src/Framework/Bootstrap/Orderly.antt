-- ===== src/Framework/Bootstrap/Orderly.antt =====
-- A process ends in order, and an event ends it.
use caaspay_core.Prelude.{
  ℕ, ◌≡◌, refl, sym, ◌∙◌, subst, true, false, Option, none, some, Text, [], ◌∷◌, arith, Result, ok,
  err,
}
use caaspay_core.Logger.{Logger}
use caaspay_core.Supervisor.{
  Supervisor, GoroutineInfo, Outcome, returned, panicked, new_supervisor, store_metadata, start,
  offer, offer_unless, leave, end_go, end_loop, take_error,
}
use caaspay_core.Supervisor.{shutdown as stop_supervisor}
use caaspay_core.Transport.{Env, History, spawn}
use caaspay_core.Service.Lifecycle.{mark_shutdown}
use caaspay_core.Service.Running.{ServiceStruct, shutdown}
use caaspay_core.Framework.Startup.{FrameworkContext}
use caaspay_core.Framework.Bootstrap.{
  Process, Service, running, adopt, Event, os_signal, ctx_done, supervised_error, logger_fatal,
  is_ready, received, shut_down, after_event, handle, Step, starts, ends_go, ends_loop, signals,
  logs_fatal, works, handles, Reach, here, next, watched, serve, bootstrap, registered,
}

start-cancelled :
    (name id : Text) (info : GoroutineInfo) (s : Supervisor)
    → (start name id info s).cancelled ≡ s.cancelled
unfolding start store_metadata
start-cancelled name id info s = refl

end_go-cancelled :
    (name : Text) (o : Outcome) (s : Supervisor) → (end_go name o s).cancelled ≡ s.cancelled
unfolding end_go leave offer_unless offer
end_go-cancelled name panicked s = refl
end_go-cancelled name (returned none) s = refl
end_go-cancelled name (returned (some x)) s = ground arith

end_loop-cancelled :
    (name : Text) (o : Outcome) (s : Supervisor) → (end_loop name o s).cancelled ≡ s.cancelled
unfolding end_loop leave offer
end_loop-cancelled name panicked s = refl
end_loop-cancelled name (returned none) s = refl
end_loop-cancelled name (returned (some x)) s = refl

adopt-cancelled :
    (ident : History → Text × GoroutineInfo) (h : History) → (adopt ident h).cancelled ≡ false
unfolding adopt new_supervisor
adopt-cancelled ident [] = refl
adopt-cancelled ident (spawn name task ∷ h) = start-cancelled name _ _ _ ∙ adopt-cancelled ident h
adopt-cancelled ident (_ ∷ h) = adopt-cancelled ident h

running-injective : {p q : Process} → running p ≡ running q → p ≡ q
running-injective h = cc

-- Nobody but the handler cancels, and it first shuts the service down.
pub record IsOrderly (p : Process) : Type 0 where
  pub waits : (name : Text) → p.handler ≡ some name → p.supervisor.cancelled ≡ false
  pub stopped : p.supervisor.cancelled ≡ true → p.service.lifecycle.shutdown ≡ true

module _ (e : Env) where
  Step-IsOrderly : {p q : Process} → Step e p q → IsOrderly p → IsOrderly q
  unfolding handle after_event received shut_down shutdown stop_supervisor take_error mark_shutdown
  Step-IsOrderly {p} (starts name id info fresh) h =
      let same = start-cancelled name id info p.supervisor in
      record { waits = λ n w. same ∙ h.waits n w; stopped = λ c. h.stopped (sym same ∙ c) }
  Step-IsOrderly {p} (ends_go name info o found other) h =
      let same = end_go-cancelled name o p.supervisor in
      record { waits = λ n w. same ∙ h.waits n w; stopped = λ c. h.stopped (sym same ∙ c) }
  Step-IsOrderly {p} (ends_loop name info o found other) h =
      let same = end_loop-cancelled name o p.supervisor in
      record { waits = λ n w. same ∙ h.waits n w; stopped = λ c. h.stopped (sym same ∙ c) }
  Step-IsOrderly signals h = record { waits = h.waits; stopped = h.stopped }
  Step-IsOrderly logs_fatal h = record { waits = h.waits; stopped = h.stopped }
  Step-IsOrderly (works r) h = record { waits = h.waits; stopped = h.stopped }
  Step-IsOrderly {p} (handles name os_signal waiting ready) h = record {
    waits = λ n w. cc;
    stopped = λ c. refl;
  }
  Step-IsOrderly {p} (handles name supervised_error waiting ready) h = record {
    waits = λ n w. cc;
    stopped = λ c. refl;
  }
  Step-IsOrderly {p} (handles name logger_fatal waiting ready) h = record {
    waits = λ n w. cc;
    stopped = λ c. refl;
  }
  Step-IsOrderly {p} (handles name ctx_done waiting ready) h = record {
    waits = λ n w. cc;
    stopped = λ c. h.stopped (sym (end_go-cancelled name (returned none) p.supervisor) ∙ c);
  }

  pub Reach-IsOrderly : {p q : Process} → Reach e p q → IsOrderly p → IsOrderly q
  Reach-IsOrderly here h = h
  Reach-IsOrderly (next before step) h = Step-IsOrderly step (Reach-IsOrderly before h)

  -- What stays, once the handler has shut the process down.
  pub record IsStopped (p : Process) : Type 0 where
    pub cancelled : p.supervisor.cancelled ≡ true
    pub shut : p.service.lifecycle.shutdown ≡ true
    pub gone : p.handler ≡ none

  Step-IsStopped : {p q : Process} → Step e p q → IsStopped p → IsStopped q
  Step-IsStopped {p} (starts name id info fresh) h = record {
    cancelled = start-cancelled name id info p.supervisor ∙ h.cancelled;
    shut = h.shut;
    gone = h.gone;
  }
  Step-IsStopped {p} (ends_go name info o found other) h = record {
    cancelled = end_go-cancelled name o p.supervisor ∙ h.cancelled;
    shut = h.shut;
    gone = h.gone;
  }
  Step-IsStopped {p} (ends_loop name info o found other) h = record {
    cancelled = end_loop-cancelled name o p.supervisor ∙ h.cancelled;
    shut = h.shut;
    gone = h.gone;
  }
  Step-IsStopped signals h = record { cancelled = h.cancelled; shut = h.shut; gone = h.gone }
  Step-IsStopped logs_fatal h = record { cancelled = h.cancelled; shut = h.shut; gone = h.gone }
  Step-IsStopped (works r) h = record { cancelled = h.cancelled; shut = h.shut; gone = h.gone }
  Step-IsStopped (handles name event waiting ready) h = absurd (ground (arith, h.gone, waiting))

  pub Reach-IsStopped : {p q : Process} → Reach e p q → IsStopped p → IsStopped q
  Reach-IsStopped here h = h
  Reach-IsStopped (next before step) h = Step-IsStopped step (Reach-IsStopped before h)

  pub handle-IsStopped :
      (name : Text) (event : Event) (p : Process)
      → p.handler ≡ some name
      → is_ready event p ≡ true
      → IsOrderly p
      → IsStopped (handle e name event p)
  unfolding handle after_event received shut_down shutdown stop_supervisor take_error mark_shutdown
      is_ready
  handle-IsStopped name os_signal p waiting ready h = record {
    cancelled = end_go-cancelled name (returned none) _;
    shut = refl;
    gone = refl;
  }
  handle-IsStopped name supervised_error p waiting ready h = record {
    cancelled = end_go-cancelled name (returned none) _;
    shut = refl;
    gone = refl;
  }
  handle-IsStopped name logger_fatal p waiting ready h = record {
    cancelled = end_go-cancelled name (returned none) _;
    shut = refl;
    gone = refl;
  }
  handle-IsStopped name ctx_done p waiting ready h =
      absurd (ground (arith, ready, h.waits name waiting))

  watched-IsOrderly :
      (fuel : ℕ) (ident : History → Text × GoroutineInfo) (l : Logger) (s : ServiceStruct)
      → IsOrderly (watched e fuel ident l s)
  unfolding watched
  watched-IsOrderly fuel ident l s =
      let calm =
        start-cancelled _ _ _ (adopt ident s.transport.history)
        ∙ adopt-cancelled ident s.transport.history in
      record { waits = λ n w. calm; stopped = λ c. absurd (ground (arith, sym calm ∙ c)) }

  serve-IsOrderly :
      {D V : Type 0} (fuel : ℕ) (ident : History → Text × GoroutineInfo) (f : FrameworkContext D V)
      (made : Result (Service × ServiceStruct)) (p : Process)
      → serve e fuel ident f made ≡ running p
      → IsOrderly p
  unfolding serve
  serve-IsOrderly fuel ident f (err x) p h = absurd (ground (arith, h))
  serve-IsOrderly fuel ident f (ok (service, s)) p h =
      subst IsOrderly (running-injective h) (watched-IsOrderly fuel ident f.logger _)

  pub bootstrap-IsOrderly :
      {D V : Type 0} (fuel : ℕ) (ident : History → Text × GoroutineInfo)
      (create : FrameworkContext D V → Option Service)
      (made : Option (Result (FrameworkContext D V))) (p : Process)
      → bootstrap e fuel ident create made ≡ running p
      → IsOrderly p
  unfolding bootstrap
  bootstrap-IsOrderly fuel ident create none p h = absurd (ground (arith, h))
  bootstrap-IsOrderly fuel ident create (some (err x)) p h = absurd (ground (arith, h))
  bootstrap-IsOrderly fuel ident create (some (ok f)) p h =
      serve-IsOrderly fuel ident (registered (create f) f) _ p h
