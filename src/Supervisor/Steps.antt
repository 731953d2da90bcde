-- ===== src/Supervisor/Steps.antt =====
-- What happens to a supervisor, and what stays true.
use caaspay_core.Prelude.{
  ◌≤◌, ◌≡◌, refl, sym, ◌∙◌, Bool, true, false, none, some, subst, Text, text_eq_iff, arith, length,
  Error,
}
use caaspay_core.Prelude.Dict.{get}
use caaspay_core.Prelude.DictSize.{
  entries, length-put, length-erase, entries-put, entries-erase, entries-some, entries-none,
}
use caaspay_core.Supervisor.{
  Supervisor, GoroutineInfo, Outcome, returned, panicked, new_supervisor, final_name,
  store_metadata, start, offer, offer_unless, leave, end_go, end_loop, take_error, shutdown,
  wait_and_shutdown, Seen, nothing_yet, timer_fired, callback_returned, closed,
}

-- A goroutine starts under a fresh id, an active one ends, the bootstrap takes an error or shuts down,
-- and the wait for the end succeeds.
pub data Step (s : Supervisor) : Supervisor → Type 0 where
  starts :
      (name id : Text) (info : GoroutineInfo)
      → get (final_name name id) s.active ≡ none
      → Step s (start name id info s)
  ends_go :
      (name : Text) (info : GoroutineInfo) (o : Outcome)
      → get name s.active ≡ some info
      → Step s (end_go name o s)
  ends_loop :
      (name : Text) (info : GoroutineInfo) (o : Outcome)
      → get name s.active ≡ some info
      → Step s (end_loop name o s)
  takes_error : Step s (take_error s).1
  shuts_down : Step s (shutdown s)
  waits : (seen : Seen) (t : Supervisor) → wait_and_shutdown seen s ≡ closed t → Step s t

pub data Reach (s : Supervisor) : Supervisor → Type 0 where
  here : Reach s s
  next : {t u : Supervisor} → Reach s t → Step t u → Reach s u

-- The WaitGroup counts the active goroutines, each of which is listed once, and the end is
-- announced only after a cancellation.
pub record IsSound (s : Supervisor) : Type 0 where
  pub counted : s.running ≡ length s.active
  pub once : (name : Text) → entries name s.active ≤ 1
  pub in_order : s.done_closed ≡ true → s.cancelled ≡ true

pub new_supervisor-IsSound : IsSound new_supervisor
unfolding new_supervisor
new_supervisor-IsSound = record { counted = refl; once = λ name. omega arith; in_order = λ h. cc }

start-IsSound :
    (name id : Text) (info : GoroutineInfo) (s : Supervisor)
    → get (final_name name id) s.active ≡ none
    → IsSound s
    → IsSound (start name id info s)
unfolding start store_metadata
start-IsSound name id info s fresh h = record {
  counted = omega (arith, h.counted, length-put {0} (final_name name id) info s.active fresh);
  once = λ other. ground (
    arith,
    h.once other,
    entries-put (final_name name id) other info s.active fresh,
    entries-none (final_name name id) s.active fresh,
    text_eq_iff (final_name name id) other,
  );
  in_order = h.in_order;
}

leave-IsSound :
    (name : Text) (info : GoroutineInfo) (s : Supervisor)
    → get name s.active ≡ some info
    → IsSound s
    → IsSound (leave name s)
unfolding leave
leave-IsSound name info s found h = record {
  counted = omega (
    arith,
    h.counted,
    length-erase {0} name s.active,
    h.once name,
    entries-some {0} name info s.active found,
  );
  once = λ other. ground (arith, h.once other, entries-erase name other s.active);
  in_order = h.in_order;
}

-- An offered error changes the channel alone.
offer-IsSound : (x : Error) (s : Supervisor) → IsSound s → IsSound (offer x s)
unfolding offer
offer-IsSound x s h = record { counted = h.counted; once = h.once; in_order = h.in_order }

unless-IsSound : (b : Bool) (x : Error) (s : Supervisor) → IsSound s → IsSound (offer_unless b x s)
unfolding offer_unless
unless-IsSound true x s h = h
unless-IsSound false x s h = offer-IsSound x s h

unless-active :
    (b : Bool) (x : Error) (s : Supervisor) (name : Text)
    → get name (offer_unless b x s).active ≡ get name s.active
unfolding offer_unless offer
unless-active true x s name = refl
unless-active false x s name = refl

end_go-IsSound :
    (name : Text) (info : GoroutineInfo) (o : Outcome) (s : Supervisor)
    → get name s.active ≡ some info
    → IsSound s
    → IsSound (end_go name o s)
unfolding end_go offer
end_go-IsSound name info panicked s found h = leave-IsSound name info s found h
end_go-IsSound name info (returned none) s found h = leave-IsSound name info s found h
end_go-IsSound name info (returned (some x)) s found h =
    leave-IsSound name info (offer_unless s.cancelled x s)
      (unless-active s.cancelled x s name ∙ found) (unless-IsSound s.cancelled x s h)

end_loop-IsSound :
    (name : Text) (info : GoroutineInfo) (o : Outcome) (s : Supervisor)
    → get name s.active ≡ some info
    → IsSound s
    → IsSound (end_loop name o s)
unfolding end_loop offer
end_loop-IsSound name info panicked s found h = leave-IsSound name info s found h
end_loop-IsSound name info (returned none) s found h = leave-IsSound name info s found h
end_loop-IsSound name info (returned (some x)) s found h =
    leave-IsSound name info (offer x s) found (offer-IsSound x s h)

-- A wait that succeeds found no goroutine and a cancelled supervisor.
pub waited-cases :
    (seen : Seen) (s t : Supervisor)
    → wait_and_shutdown seen s ≡ closed t
    → (s.cancelled ≡ true) × (s.running ≡ 0) × (t ≡ record s { done_closed = true })
unfolding wait_and_shutdown
waited-cases nothing_yet s t h = absurd (ground (arith, h))
waited-cases timer_fired s t h = absurd (ground (arith, h))
waited-cases callback_returned s t h = ground (arith, h)

pub Step-IsSound : {s t : Supervisor} → Step s t → IsSound s → IsSound t
unfolding take_error shutdown
Step-IsSound (starts name id info fresh) h = start-IsSound name id info _ fresh h
Step-IsSound (ends_go name info o found) h = end_go-IsSound name info o _ found h
Step-IsSound (ends_loop name info o found) h = end_loop-IsSound name info o _ found h
Step-IsSound takes_error h = record { counted = h.counted; once = h.once; in_order = h.in_order }
Step-IsSound shuts_down h = record { counted = h.counted; once = h.once; in_order = λ _. refl }
Step-IsSound {s} (waits seen t e) h =
    let (stopped, _, same) = waited-cases seen s t e in
    subst IsSound (sym same)
      (record { counted = h.counted; once = h.once; in_order = λ _. stopped })

-- However goroutines start and end, errors are taken and the supervisor is shut down: the WaitGroup
-- counts the active goroutines, each of which is listed once, and the end is announced only after a
-- cancellation. So `wg.Done` never meets a counter of zero.
pub reach-IsSound : {s t : Supervisor} → Reach s t → IsSound s → IsSound t
reach-IsSound here h = h
reach-IsSound (next before step) h = Step-IsSound step (reach-IsSound before h)
