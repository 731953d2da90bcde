-- ===== src/Supervisor/Basic.antt =====
-- base/microservice/pkg/common/supervisor/basic.go: the supervisor without a context.
use caaspay_core.Prelude.{
  ℕ, suc, ◌-◌, Bool, true, false, Option, none, some, Error, Result, ok, err, ltb, if◌then◌else◌,
}
use caaspay_core.Supervisor.{offered}

-- `running` is the counter of the WaitGroup, `err_ch` the channel of capacity one.
pub record BasicSupervisor : Type 0 where
  pub running : ℕ
  pub err_ch : Option Error
  pub done_closed : Bool

unfoldable pub new_basic_supervisor : BasicSupervisor
new_basic_supervisor = record { running = 0; err_ch = none; done_closed = false }

-- `Go` before the goroutine runs, and the end of the goroutine with the result of its function. A
-- panic is not recovered.
unfoldable pub basic_go : BasicSupervisor → BasicSupervisor
basic_go s = record s { running = suc s.running }

unfoldable pub basic_end : Option Error → BasicSupervisor → BasicSupervisor
basic_end none s = record s { running = s.running - 1 }
basic_end (some x) s = record s { running = s.running - 1; err_ch = offered x s.err_ch }

-- A round of the function that GoLoop hands to Go: its result, or none to go on after the pause. The
-- context is context.Background(), which is never done.
unfoldable pub basic_round : {S : Type 0} (work : S → Result ℕ × S) → S → Option Error × (ℕ × S)
basic_round work s =
    let (result, t) = work s in
    elim result [ ok delay ↦ (none, (delay, t)) | err x ↦ (some x, (0, t)) ]

-- How `Shutdown` goes: the channel is closed, it is closed for a second time, which panics, or the wait
-- goes on.
pub data BasicEnd : Type 0 where
  closed : BasicSupervisor → BasicEnd
  panicked : BasicEnd
  still_waiting : BasicEnd

unfoldable pub basic_shutdown : BasicSupervisor → BasicEnd
basic_shutdown s =
    if ltb 0 s.running
    then still_waiting
    else if s.done_closed
    then panicked
    else closed (record s { done_closed = true })
