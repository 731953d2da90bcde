-- ===== src/Service/Lifecycle.antt =====
-- base/microservice/internal/service/lifecycle.go, the handlers of health_server.go, and Run and
-- Shutdown of service.go. The flags are atomic, so each method is one step.
use caaspay_core.Prelude.{ℕ, Bool, true, false, ◌||◌, not, ◌≡◌, refl, arith, if◌then◌else◌}

pub record ServiceLifecycle : Type 0 where
  pub started : Bool
  pub ready : Bool
  pub shutdown : Bool
  pub timestamp : ℕ

unfoldable pub new_service_lifecycle : (now : ℕ) → ServiceLifecycle
new_service_lifecycle now = record {
  started = false;
  ready = false;
  shutdown = false;
  timestamp = now;
}

unfoldable pub mark_started : (now : ℕ) → ServiceLifecycle → ServiceLifecycle
mark_started now l = record l { started = true; timestamp = now }

unfoldable pub mark_ready : ServiceLifecycle → ServiceLifecycle
mark_ready l = record l { ready = true }

unfoldable pub mark_shutdown : ServiceLifecycle → ServiceLifecycle
mark_shutdown l = record l { shutdown = true }

-- What the three HTTP handlers answer: 200 or 503.
pub data Status : Type 0 where
  ok_200 : Status
  unavailable_503 : Status

-- `framework_healthy` is the answer of IsHealthy of the framework context.
unfoldable pub handle_healthz : (framework_healthy : Bool) → ServiceLifecycle → Status
handle_healthz framework_healthy l =
    if not l.started || l.shutdown
    then unavailable_503
    else if not framework_healthy
    then unavailable_503
    else ok_200

unfoldable pub handle_readyz : ServiceLifecycle → Status
handle_readyz l = if not l.ready then unavailable_503 else ok_200

unfoldable pub handle_livez : ServiceLifecycle → Status
handle_livez l = if l.shutdown then unavailable_503 else ok_200

-- What happens to the flags: Run marks the start and then perhaps the readiness, Shutdown the end.
pub data Step : ServiceLifecycle → ServiceLifecycle → Type 0 where
  starts : (now : ℕ) (l : ServiceLifecycle) → Step l (mark_started now l)
  gets_ready : (l : ServiceLifecycle) → Step l (mark_ready l)
  shuts_down : (l : ServiceLifecycle) → Step l (mark_shutdown l)

pub data Reach (l : ServiceLifecycle) : ServiceLifecycle → Type 0 where
  here : Reach l l
  next : {m n : ServiceLifecycle} → Reach l m → Step m n → Reach l n

-- The flags that are set in the first are set in the second.
pub record Grows (l m : ServiceLifecycle) : Type 0 where
  pub keeps_started : l.started ≡ true → m.started ≡ true
  pub keeps_ready : l.ready ≡ true → m.ready ≡ true
  pub keeps_shutdown : l.shutdown ≡ true → m.shutdown ≡ true

Step-Grows : {l m n : ServiceLifecycle} → Grows l m → Step m n → Grows l n
unfolding mark_started mark_ready mark_shutdown
Step-Grows g (starts now m) = record {
  keeps_started = λ _. refl;
  keeps_ready = g.keeps_ready;
  keeps_shutdown = g.keeps_shutdown;
}
Step-Grows g (gets_ready m) = record {
  keeps_started = g.keeps_started;
  keeps_ready = λ _. refl;
  keeps_shutdown = g.keeps_shutdown;
}
Step-Grows g (shuts_down m) = record {
  keeps_started = g.keeps_started;
  keeps_ready = g.keeps_ready;
  keeps_shutdown = λ _. refl;
}

Reach-Grows : {l m : ServiceLifecycle} → Reach l m → Grows l m
Reach-Grows here = record { keeps_started = λ h. h; keeps_ready = λ h. h; keeps_shutdown = λ h. h }
Reach-Grows (next before step) = Step-Grows (Reach-Grows before) step

-- After a shutdown, whatever follows, the health and the liveness endpoint answer 503, and the
-- readiness endpoint goes on to answer 200 if it did so before.
pub shutdown_final :
    (healthy : Bool) (l m : ServiceLifecycle)
    → Reach (mark_shutdown l) m
    → (handle_healthz healthy m ≡ unavailable_503)
      × (handle_livez m ≡ unavailable_503)
      × (handle_readyz l ≡ ok_200 → handle_readyz m ≡ ok_200)
unfolding mark_shutdown handle_healthz handle_livez handle_readyz
shutdown_final healthy l m reach =
    let g = Reach-Grows reach in ground (arith, g.keeps_shutdown refl, g.keeps_ready)
