-- ===== src/Retry.antt =====
-- base/microservice/pkg/common/transport/retry.go: `Retry`, over any state that the operation and
-- the waiting change.
pub mod Bounds
pub mod Keeps
pub mod Overflow
mod Tests
use caaspay_core.Prelude.{ℕ, zero, suc, ◌-◌, ◌*◌, ◌%◌, ◌^◌, Option, none, some, Error}

-- A time.Duration as its 64 bits; `delay *= 2` wraps around.
abbrev pub doubled : ℕ → ℕ
doubled delay = delay * 2 % 2 ^ 64

-- `wait d` is the `select` of ctx.Done and time.After(d): `some e` means that the context was
-- cancelled and that ctx.Err() is `e`.
module _ {S : Type 0} (wait : ℕ → S → Option Error × S) (operation : S → Option Error × S) where
  -- The loop with the rounds that are left, the delay and the error of the last attempt.
  unfoldable pub retry_loop : ℕ → ℕ → Error → S → Option Error × S
  retry_loop zero delay e s = (some e, s)
  retry_loop (suc rounds) delay e s =
      let (cancelled, s₁) = wait delay s in
      elim cancelled [
        | some c ↦ (some c, s₁)
        | none ↦
            let (failed, s₂) = operation s₁ in
            elim failed [ none ↦ (none, s₂) | some e' ↦ retry_loop rounds (doubled delay) e' s₂ ]
      ]

  -- The first attempt is made in any case; `i := 1; i < attempts` leaves `attempts - 1` rounds.
  unfoldable pub retry : ℕ → ℕ → S → Option Error × S
  unfolding retry_loop
  retry attempts delay s =
      let (failed, s₁) = operation s in
      elim failed [ none ↦ (none, s₁) | some e ↦ retry_loop (attempts - 1) delay e s₁ ]
