-- ===== src/Supervisor.antt =====
-- base/microservice/pkg/common/supervisor/supervisor.go: the goroutines that the supervisor keeps
-- track of. A method, or what a goroutine does at its start or its end, is one change of the state.
pub mod Loop
pub mod Steps
pub mod Abstract
pub mod Basic
mod Tests
use caaspay_core.Prelude.{
  ℕ, zero, suc, ◌-◌, ◌*◌, ◌^◌, Bool, true, false, Option, none, some, Text, codes, List, [], ◌∷◌,
  ◌++◌, Error, if◌then◌else◌, ltb,
}
use caaspay_core.Prelude.Dict.{Dict, empty, get, put, erase}

abbrev pub min_loop_delay : ℕ
min_loop_delay = 10 * 10 ^ 6

abbrev pub shutdown_timeout : ℕ
shutdown_timeout = 40 * 10 ^ 9

pub record GoroutineInfo : Type 0 where
  pub start_time : ℕ
  pub origin : Text
  pub caller_file : Text
  pub caller_line : ℕ
  pub method_name : Text

-- `running` is the counter of the WaitGroup, `err_chan` the channel of capacity one.
pub record Supervisor : Type 0 where
  pub running : ℕ
  pub err_chan : Option Error
  pub cancelled : Bool
  pub done_closed : Bool
  pub active : Dict GoroutineInfo

unfoldable pub new_supervisor : Supervisor
new_supervisor = record {
  running = 0;
  err_chan = none;
  cancelled = false;
  done_closed = false;
  active = empty;
}

-- `name + ":" + id`, with the id that uuid.New gives.
unfoldable pub final_name : (name id : Text) → Text
final_name name id = name ++ (codes ":" ++ id)

unfoldable pub store_metadata : (name id : Text) → GoroutineInfo → Supervisor → Supervisor
store_metadata name id info s = record s { active = put (final_name name id) info s.active }

-- What `Go` and `GoLoop` do before the goroutine runs: `wg.Add(1)` and the metadata.
unfoldable pub start : (name id : Text) → GoroutineInfo → Supervisor → Supervisor
unfolding store_metadata
start name id info s = store_metadata name id info (record s { running = suc s.running })

-- `select { case errChan <- err: default: }`
abbrev pub offered : Error → Option Error → Option Error
offered x none = some x
offered x (some y) = some y

unfoldable pub offer : Error → Supervisor → Supervisor
offer x s = record s { err_chan = offered x s.err_chan }

-- The deferred function: the metadata go, and `wg.Done`.
unfoldable pub leave : Text → Supervisor → Supervisor
leave name s = record s { active = erase name s.active; running = s.running - 1 }

-- How the function of a goroutine ends; a panic is recovered and only logged.
pub data Outcome : Type 0 where
  returned : Option Error → Outcome
  panicked : Outcome

-- `s.ctx.Err() == nil` guards the offer in `Go`.
unfoldable pub offer_unless : (cancelled : Bool) → Error → Supervisor → Supervisor
unfolding offer
offer_unless true x s = s
offer_unless false x s = offer x s

-- The end of a goroutine of `Go`: an error counts only while the supervisor is not cancelled.
unfoldable pub end_go : Text → Outcome → Supervisor → Supervisor
unfolding offer_unless leave
end_go name panicked s = leave name s
end_go name (returned none) s = leave name s
end_go name (returned (some x)) s = leave name (offer_unless s.cancelled x s)

-- The end of a goroutine of `GoLoop`, whose error counts in any case.
unfoldable pub end_loop : Text → Outcome → Supervisor → Supervisor
unfolding offer leave
end_loop name panicked s = leave name s
end_loop name (returned none) s = leave name s
end_loop name (returned (some x)) s = leave name (offer x s)

-- A receive from `ErrorChannel()`.
unfoldable pub take_error : Supervisor → Option Error × Supervisor
take_error s = (s.err_chan, record s { err_chan = none })

unfoldable pub shutdown : Supervisor → Supervisor
shutdown s = record s { cancelled = true }

-- What the select of `WaitAndShutdown` is given: the timer fires, or the other goroutine closes `done`,
-- once `wg.Wait` and the callback after it have returned, or neither has happened yet.
pub data Seen : Type 0 where
  nothing_yet : Seen
  timer_fired : Seen
  callback_returned : Seen

-- How `WaitAndShutdown` ends, after the context is done: `closed` with the supervisor in which `done` is
-- closed, or `exited`, by os.Exit(1), which the timer leads to however the goroutines go on.
pub data Waited : Type 0 where
  closed : Supervisor → Waited
  exited : Waited
  still_waiting : Waited

unfoldable pub wait_and_shutdown : Seen → Supervisor → Waited
wait_and_shutdown nothing_yet s = still_waiting
wait_and_shutdown timer_fired s = if s.cancelled then exited else still_waiting
wait_and_shutdown callback_returned s =
    if s.cancelled
    then (if ltb 0 s.running then still_waiting else closed (record s { done_closed = true }))
    else still_waiting

-- `IsHealthy` logs each goroutine; no branch of it makes the answer false.
unfoldable pub is_healthy : Supervisor → Bool
is_healthy s = true
