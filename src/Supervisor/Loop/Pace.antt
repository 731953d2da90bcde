-- ===== src/Supervisor/Loop/Pace.antt =====
-- How fast the loop of `GoLoop` can turn.
use caaspay_core.Prelude.{
  ℕ, zero, suc, ◌+◌, ◌*◌, ◌-◌, ◌≤◌, ◌≡◌, ◌≢◌, refl, sym, ap, ◌∙◌, true, false, Bool-cases, none,
  some, Option-cases, inl, inr, arith, Result, ok, err,
}
use caaspay_core.Supervisor.{min_loop_delay}
use caaspay_core.Supervisor.Loop.{
  LoopEnd, LoopEnv, stopped, unfinished, sleep_for, slept, after_work, loop_round, go_loop,
}

-- The clock is not turned back by the function, and time.After(d) takes at least d.
pub record ClockLaws {S : Type 0} (e : LoopEnv S) : Type 0 where
  pub work_later : (s : S) → e.now s ≤ e.now (e.work s).1
  pub pause_later : (d : ℕ) (s : S) → (e.pause d s).0 ≡ false → e.now s + d ≤ e.now (e.pause d s).1

module _ {S : Type 0} (e : LoopEnv S) (laws : ClockLaws e) where
  slept_later : (d : ℕ) (s : S) → (slept e d s).0 ≡ false → e.now s + d ≤ e.now (slept e d s).1
  unfolding slept
  slept_later zero s h = omega arith
  slept_later (suc d) s h = laws.pause_later (suc d) s h

  -- A sleep that is not cut short fills the round.
  after_work_later :
      (start : ℕ) (o : Result ℕ) (s : S)
      → start ≤ e.now s
      → (after_work e start (o, s)).0 ≡ none
      → start + min_loop_delay ≤ e.now (after_work e start (o, s)).1
  unfolding after_work
  after_work_later start (err x) s le h = absurd (ground (arith, h))
  after_work_later start (ok interval) s le h =
      let d = sleep_for interval (e.now s - start) in
      elim (Bool-cases (slept e d s).0) [
        | inl cut ↦ absurd (ground (arith, cut, h))
        | inr whole ↦ ground (arith, slept_later d s whole, le)
      ]

  round_works : (s : S) → e.done s ≡ false → loop_round e s ≡ after_work e (e.now s) (e.work s)
  unfolding loop_round
  round_works s p = rw (loop_round, p) refl

  round_stops : (s : S) → e.done s ≡ true → loop_round e s ≡ (some stopped, s)
  unfolding loop_round
  round_stops s p = rw (loop_round, p) refl

  round_later :
      (s : S) → (loop_round e s).0 ≡ none → e.now s + min_loop_delay ≤ e.now (loop_round e s).1
  round_later s h = elim (Bool-cases (e.done s)) [
    | inl p ↦ absurd (ground (arith, ap (λ x. x.0) (round_stops s p), h))
    | inr p ↦
        let same = round_works s p in
        rw same (
          after_work_later (e.now s) (e.work s).0 (e.work s).1 (laws.work_later s)
            (ap (λ x. x.0) (sym same) ∙ h))
  ]

  work_ends : (start : ℕ) (o : Result ℕ) (s : S) → (after_work e start (o, s)).0 ≢ some unfinished
  unfolding after_work
  work_ends start (err x) s h = cc
  work_ends start (ok interval) s h = ground (arith, h)

  round_ends : (s : S) → (loop_round e s).0 ≢ some unfinished
  round_ends s h = elim (Bool-cases (e.done s)) [
    | inl p ↦ ground (arith, ap (λ x. x.0) (round_stops s p), h)
    | inr p ↦
        work_ends (e.now s) (e.work s).0 (e.work s).1 (ap (λ x. x.0) (sym (round_works s p)) ∙ h)
  ]

  goes_on :
      (rounds : ℕ) (s : S)
      → (loop_round e s).0 ≡ none
      → go_loop e (suc rounds) s ≡ go_loop e rounds (loop_round e s).1
  unfolding go_loop
  goes_on rounds s p = rw (go_loop, p) refl

  comes_to_end :
      (rounds : ℕ) (s : S) (x : LoopEnd)
      → (loop_round e s).0 ≡ some x
      → (go_loop e (suc rounds) s).0 ≡ x
  unfolding go_loop
  comes_to_end rounds s x p = rw (go_loop, p) refl

  -- Rounds of a loop that has not ended take at least the minimal delay each, so the loop cannot spin,
  -- if the function does not turn the clock back and time.After waits as long as it is told.
  pub go_loop-paced :
      (rounds : ℕ) (s : S)
      → (go_loop e rounds s).0 ≡ unfinished
      → e.now s + rounds * min_loop_delay ≤ e.now (go_loop e rounds s).1
  unfolding go_loop
  go_loop-paced zero s h = omega arith
  go_loop-paced (suc rounds) s h = elim (Option-cases (loop_round e s).0) [
    | inl p ↦
        let t = (loop_round e s).1 in
        let same = goes_on rounds s p in
        rw same
          (omega (arith, round_later s p, go_loop-paced rounds t (ap (λ x. x.0) (sym same) ∙ h)))
    | inr (x, p) ↦ absurd (round_ends s (p ∙ ap some (sym (comes_to_end rounds s x p) ∙ h)))
  ]
