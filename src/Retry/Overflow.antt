-- ===== src/Retry/Overflow.antt =====
-- The doubling of the delay in 64 bits.
use caaspay_core.Prelude.{
  ℕ, zero, suc, ◌+◌, ◌*◌, ◌%◌, ◌^◌, ◌≡◌, refl, ap, ◌∙◌, Option, Error, List, [], ◌∷◌, ◌++◌, arith,
  drop, All,
}
use caaspay_core.Retry.{doubled, retry}
use caaspay_core.Retry.Bounds.{backoff, retry-IsRetried}

-- The delay after some doublings, and the same without the bound of 64 bits.
abbrev delay_after : ℕ → ℕ → ℕ
delay_after zero delay = delay
delay_after (suc n) delay = delay_after n (doubled delay)

abbrev scaled : ℕ → ℕ → ℕ
scaled zero delay = delay
scaled (suc n) delay = scaled n (delay * 2)

doubled-mod : (a : ℕ) → doubled (a % 2 ^ 64) ≡ a * 2 % 2 ^ 64
doubled-mod a = omega arith

delay_after-scaled : (n a : ℕ) → delay_after n (a % 2 ^ 64) ≡ scaled n a % 2 ^ 64
delay_after-scaled zero a = refl
delay_after-scaled (suc n) a = ap (delay_after n) (doubled-mod a) ∙ delay_after-scaled n (a * 2)

-- Whatever the delay, 64 doublings leave nothing of it.
delay_after-64 : (delay : ℕ) → delay_after 64 delay ≡ 0
delay_after-64 delay =
    let all_shifted : scaled 63 (delay * 2) % 2 ^ 64 ≡ 0 = omega arith in
    delay_after-scaled 63 (delay * 2) ∙ all_shifted

abbrev AllZero : List ℕ → Type 0
AllZero ds = All (λ d. d ≡ 0) ds

backoff-zero : (n : ℕ) → AllZero (backoff n 0)
unfolding backoff
backoff-zero zero = tt
backoff-zero (suc n) = (refl, backoff-zero n)

drop-backoff :
    (n waits delay : ℕ) → delay_after n delay ≡ 0 → AllZero (drop n (backoff waits delay))
unfolding backoff
drop-backoff zero waits delay h = rw h (backoff-zero waits)
drop-backoff (suc n) zero delay h = tt
drop-backoff (suc n) (suc waits) delay h = drop-backoff n waits (doubled delay) h

module _ {S : Type 0} (wait : ℕ → S → Option Error × S) (operation : S → Option Error × S)
    (runs_of : S → ℕ) (waits_of : S → List ℕ)
    (wait_runs : (d : ℕ) (s : S) → runs_of (wait d s).1 ≡ runs_of s)
    (wait_waits : (d : ℕ) (s : S) → waits_of (wait d s).1 ≡ waits_of s ++ d ∷ [])
    (op_runs : (s : S) → runs_of (operation s).1 ≡ runs_of s + 1)
    (op_waits : (s : S) → waits_of (operation s).1 ≡ waits_of s) where
  -- Whatever the first delay, every wait of `Retry` after the first 64 is for no time at all.
  pub retry-unspaced :
      (attempts delay : ℕ) (s : S)
      → (waits : List ℕ) × (waits_of (retry wait operation attempts delay s).1
          ≡ waits_of s ++ waits)
        × AllZero (drop 64 waits)
  retry-unspaced attempts delay s =
      let h =
        retry-IsRetried wait operation runs_of waits_of wait_runs wait_waits op_runs op_waits
          attempts delay s in
      (backoff h.waits delay, h.backs_off, drop-backoff 64 h.waits delay (delay_after-64 delay))
