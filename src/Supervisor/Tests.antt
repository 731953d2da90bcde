-- ===== src/Supervisor/Tests.antt =====
-- The theorems about the supervisor at concrete inputs.
use caaspay_core.Prelude.{ℕ, ◌+◌, ◌*◌, ◌≤◌, refl, false, some, codes, ok, arith, errorf, text_eq}
use caaspay_core.Prelude.Dict.{get, put}
use caaspay_core.Supervisor.{
  Supervisor, GoroutineInfo, new_supervisor, final_name, start, store_metadata, end_loop, returned,
  shutdown, min_loop_delay,
}
use caaspay_core.Supervisor.Steps.{
  Reach, IsSound, here, next, starts, ends_loop, shuts_down, reach-IsSound, new_supervisor-IsSound,
}
use caaspay_core.Supervisor.Abstract.{Moves, view, labels, Reach-Moves}
use caaspay_core.Supervisor.Loop.{LoopEnv, loop_round, after_work, slept, go_loop}
use caaspay_core.Supervisor.Loop.Pace.{ClockLaws, go_loop-paced}

abbrev info : GoroutineInfo
info = record {
  start_time = 5;
  origin = codes "framework";
  caller_file = codes "unknown";
  caller_line = 0;
  method_name = codes "loop";
}

abbrev one_running : Supervisor
one_running = start (codes "loop") (codes "u1") info new_supervisor

abbrev one_failed : Supervisor
one_failed = end_loop (codes "loop:u1") (returned (some (errorf (codes "boom")))) one_running

session : Reach new_supervisor (shutdown one_failed)
unfolding new_supervisor start store_metadata get put text_eq final_name
session =
    next
      (next (next here (starts (codes "loop") (codes "u1") info refl))
        (ends_loop (codes "loop:u1") info (returned (some (errorf (codes "boom")))) refl))
      shuts_down

reach-IsSound_example : IsSound (shutdown one_failed)
reach-IsSound_example = reach-IsSound session new_supervisor-IsSound

Reach-Moves_example : Moves (view new_supervisor) (view (shutdown one_failed)) (labels session)
Reach-Moves_example = Reach-Moves new_supervisor-IsSound session

-- A function that takes 3 ms and asks for no delay.
abbrev ticking : LoopEnv ℕ
ticking = record {
  now = λ t. t;
  done = λ t. false;
  work = λ t. (ok 0, t + 3_000_000);
  pause = λ d t. (false, t + d);
}

ticking_laws : ClockLaws ticking
ticking_laws = record { work_later = λ t. omega arith; pause_later = λ d t h. omega arith }

go_loop-paced_example : 7 + 2 * min_loop_delay ≤ (go_loop ticking 2 7).1
unfolding go_loop loop_round after_work slept
go_loop-paced_example = go_loop-paced ticking ticking_laws 2 7 refl
