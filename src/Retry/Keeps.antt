-- ===== src/Retry/Keeps.antt =====
-- What the operation and the waits keep, `retry` keeps.
use caaspay_core.Prelude.{ℕ, zero, suc, ◌-◌, Option, Option-cases, inl, inr, Error}
use caaspay_core.Retry.{doubled, retry_loop, retry}
use caaspay_core.Retry.Bounds.{
  loop_cancelled, loop_succeeded, loop_failed, retry_succeeded, retry_failed,
}

module _ {S : Type 0} (P : S → Type 0) (wait : ℕ → S → Option Error × S)
    (operation : S → Option Error × S) (wait_keeps : (d : ℕ) (s : S) → P s → P (wait d s).1)
    (op_keeps : (s : S) → P s → P (operation s).1) where
  loop_keeps :
      (rounds delay : ℕ) (e : Error) (s : S)
      → P s
      → P (retry_loop wait operation rounds delay e s).1
  unfolding retry_loop
  loop_keeps zero delay e s h = h
  loop_keeps (suc rounds) delay e s h = elim (Option-cases (wait delay s).0) [
    | inr (c, p) ↦ rw (loop_cancelled wait operation rounds delay e c s p) (wait_keeps delay s h)
    | inl p ↦ elim (Option-cases (operation (wait delay s).1).0) [
      | inl q ↦
          rw (loop_succeeded wait operation rounds delay e s p q)
            (op_keeps _ (wait_keeps delay s h))
      | inr (e', q) ↦
          rw (loop_failed wait operation rounds delay e e' s p q)
            (loop_keeps rounds (doubled delay) e' _ (op_keeps _ (wait_keeps delay s h)))
    ]
  ]

  pub retry_keeps : (attempts delay : ℕ) (s : S) → P s → P (retry wait operation attempts delay s).1
  retry_keeps attempts delay s h = elim (Option-cases (operation s).0) [
    | inl q ↦ rw (retry_succeeded wait operation attempts delay s q) (op_keeps s h)
    | inr (e, q) ↦
        rw (retry_failed wait operation attempts delay e s q)
          (loop_keeps (attempts - 1) delay e _ (op_keeps s h))
  ]
