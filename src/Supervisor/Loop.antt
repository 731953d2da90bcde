-- ===== src/Supervisor/Loop.antt =====
-- base/microservice/pkg/common/supervisor/supervisor.go: the loop of `GoLoop`, over any state that the
-- function, the clock and the waiting change.
pub mod Pace
use caaspay_core.Prelude.{
  ℕ, zero, suc, ◌-◌, Bool, true, false, Option, none, some, Error, Result, ok, err, ltb,
  if◌then◌else◌,
}
use caaspay_core.Supervisor.{min_loop_delay}

-- How the loop ends: the context is done, seen at the start of a round or during a sleep, or the
-- function fails. `unfinished` is the end of the fuel.
pub data LoopEnd : Type 0 where
  stopped : LoopEnd
  interrupted : LoopEnd
  failed : Error → LoopEnd
  unfinished : LoopEnd

-- `nextInterval`, at least the minimum, less what the round took; not below 0, where the source does
-- not sleep.
abbrev pub sleep_for : (interval elapsed : ℕ) → ℕ
sleep_for interval elapsed =
    (if ltb interval min_loop_delay then min_loop_delay else interval) - elapsed

-- `now` is the clock of a state, `done` whether it shows the context as done; `pause` is the select
-- of the sleep, whose answer `true` means that the context was done.
pub record LoopEnv (S : Type 0) : Type 0 where
  pub now : S → ℕ
  pub done : S → Bool
  pub work : S → Result ℕ × S
  pub pause : ℕ → S → Bool × S

module _ {S : Type 0} (e : LoopEnv S) where
  unfoldable pub slept : ℕ → S → Bool × S
  slept zero s = (false, s)
  slept (suc n) s = e.pause (suc n) s

  -- What follows the function of a round that began at the given time: the end, or the next state.
  unfoldable pub after_work : ℕ → Result ℕ × S → Option LoopEnd × S
  after_work start (err x, s) = (some (failed x), s)
  after_work start (ok interval, s) =
      let (cut, s₂) = slept (sleep_for interval (e.now s - start)) s in
      (elim cut [ true ↦ some interrupted | false ↦ none ], s₂)

  unfoldable pub loop_round : S → Option LoopEnd × S
  loop_round s = elim (e.done s) [
    | true ↦ (some stopped, s)
    | false ↦ after_work (e.now s) (e.work s)
  ]

  unfoldable pub go_loop : ℕ → S → LoopEnd × S
  go_loop zero s = (unfinished, s)
  go_loop (suc fuel) s =
      let (end, s₂) = loop_round s in elim end [ some x ↦ (x, s₂) | none ↦ go_loop fuel s₂ ]
