-- ===== src/Retry/Bounds.antt =====
-- How often `retry` runs its operation and how long it waits between two runs.
use caaspay_core.Prelude.{
  ℕ, zero, suc, ◌-◌, ◌+◌, ◌≤◌, ◌<◌, ◌≡◌, ◌≢◌, ◌⊎◌, inl, inr, refl, sym, ◌∙◌, ap, Option, none, some,
  Option-cases, Error, List, [], ◌∷◌, ◌++◌, append-nil, append_assoc, arith,
}
use caaspay_core.Retry.{doubled, retry_loop, retry}

-- d, 2d, 4d, …, each modulo 2^64.
unfoldable pub backoff : ℕ → ℕ → List ℕ
backoff zero delay = []
backoff (suc n) delay = delay ∷ backoff n (doubled delay)

-- What a call did between `before` and `after`, by two counts that its state keeps. After the
-- first `base` runs the operation ran `more` times, the waits were the first of the backoff, and the
-- call ended in one of three ways: with success, with every round used, or cancelled in a wait.
pub record IsRetried {S : Type 0} (runs_of : S → ℕ) (waits_of : S → List ℕ) (base rounds delay : ℕ)
    (before : S) (end : Option Error × S) : Type 0 where
  pub more : ℕ
  pub waits : ℕ
  pub runs : runs_of end.1 ≡ runs_of before + (base + more)
  pub backs_off : waits_of end.1 ≡ waits_of before ++ backoff waits delay
  pub within : more ≤ rounds
  pub ended :
      ((end.0 ≡ none) × (waits ≡ more))
      ⊎ ((end.0 ≢ none) × (waits ≡ rounds) × (more ≡ rounds))
      ⊎ ((end.0 ≢ none) × (waits ≡ suc more) × (more < rounds))

some-ne-none : {e : Error} → ◌≢◌ {A = Option Error} (some e) none
some-ne-none h = cc

-- One more round in front.
module _ {S : Type 0} (runs_of : S → ℕ) (waits_of : S → List ℕ) (rounds delay : ℕ) (s s₂ : S)
    (end : Option Error × S) (ran : runs_of s₂ ≡ runs_of s + 1)
    (waited : waits_of s₂ ≡ waits_of s ++ delay ∷ []) where
  IsRetried-suc :
      IsRetried runs_of waits_of 0 rounds (doubled delay) s₂ end
      → IsRetried runs_of waits_of 0 (suc rounds) delay s end
  unfolding backoff
  IsRetried-suc h = record {
    more = suc h.more;
    waits = suc h.waits;
    runs = omega (arith, h.runs);
    backs_off =
        h.backs_off
        ∙ ap (λ l. l ++ backoff h.waits (doubled delay)) waited
        ∙ append_assoc (waits_of s) (delay ∷ []) (backoff h.waits (doubled delay));
    within = omega (arith, h.within);
    ended = ground (arith, h.ended);
  }

-- A first run before the loop.
module _ {S : Type 0} (runs_of : S → ℕ) (waits_of : S → List ℕ) (rounds delay : ℕ) (s s₁ : S)
    (end : Option Error × S) (ran : runs_of s₁ ≡ runs_of s + 1)
    (waited : waits_of s₁ ≡ waits_of s) where
  IsRetried-base :
      IsRetried runs_of waits_of 0 rounds delay s₁ end
      → IsRetried runs_of waits_of 1 rounds delay s end
  IsRetried-base h = record {
    more = h.more;
    waits = h.waits;
    runs = omega (arith, h.runs);
    backs_off = h.backs_off ∙ ap (λ l. l ++ backoff h.waits delay) waited;
    within = h.within;
    ended = h.ended;
  }

-- The branches of one round.
module _ {S : Type 0} (wait : ℕ → S → Option Error × S) (operation : S → Option Error × S) where
  pub loop_cancelled :
      (rounds delay : ℕ) (e c : Error) (s : S)
      → (wait delay s).0 ≡ some c
      → retry_loop wait operation (suc rounds) delay e s ≡ (some c, (wait delay s).1)
  unfolding retry_loop
  loop_cancelled rounds delay e c s p = ground arith

  pub loop_succeeded :
      (rounds delay : ℕ) (e : Error) (s : S)
      → (wait delay s).0 ≡ none
      → (operation (wait delay s).1).0 ≡ none
      → retry_loop wait operation (suc rounds) delay e s ≡ (none, (operation (wait delay s).1).1)
  unfolding retry_loop
  loop_succeeded rounds delay e s p q = ground arith

  pub loop_failed :
      (rounds delay : ℕ) (e e' : Error) (s : S)
      → (wait delay s).0 ≡ none
      → (operation (wait delay s).1).0 ≡ some e'
      → retry_loop wait operation (suc rounds) delay e s
        ≡ retry_loop wait operation rounds (doubled delay) e' (operation (wait delay s).1).1
  unfolding retry_loop
  loop_failed rounds delay e e' s p q = ground arith

  pub retry_succeeded :
      (attempts delay : ℕ) (s : S)
      → (operation s).0 ≡ none
      → retry wait operation attempts delay s ≡ (none, (operation s).1)
  unfolding retry
  retry_succeeded attempts delay s q = ground arith

  pub retry_failed :
      (attempts delay : ℕ) (e : Error) (s : S)
      → (operation s).0 ≡ some e
      → retry wait operation attempts delay s
        ≡ retry_loop wait operation (attempts - 1) delay e (operation s).1
  unfolding retry
  retry_failed attempts delay e s q = ground arith

-- `operation` counts its runs and no waits, `wait` the other way round.
module _ {S : Type 0} (wait : ℕ → S → Option Error × S) (operation : S → Option Error × S)
    (runs_of : S → ℕ) (waits_of : S → List ℕ)
    (wait_runs : (d : ℕ) (s : S) → runs_of (wait d s).1 ≡ runs_of s)
    (wait_waits : (d : ℕ) (s : S) → waits_of (wait d s).1 ≡ waits_of s ++ d ∷ [])
    (op_runs : (s : S) → runs_of (operation s).1 ≡ runs_of s + 1)
    (op_waits : (s : S) → waits_of (operation s).1 ≡ waits_of s) where
  loop_IsRetried :
      (rounds delay : ℕ) (e : Error) (s : S)
      → IsRetried runs_of waits_of 0 rounds delay s (retry_loop wait operation rounds delay e s)
  unfolding retry_loop backoff
  loop_IsRetried zero delay e s = record {
    more = 0;
    waits = 0;
    runs = omega arith;
    backs_off = sym (append-nil (waits_of s));
    within = omega arith;
    ended = inr (inl (some-ne-none, refl, refl));
  }
  loop_IsRetried (suc rounds) delay e s = elim (Option-cases (wait delay s).0) [
    | inr (c, p) ↦ rw (loop_cancelled wait operation rounds delay e c s p) (record {
      more = 0;
      waits = 1;
      runs = omega (arith, wait_runs delay s);
      backs_off = wait_waits delay s;
      within = omega arith;
      ended = inr (inr (some-ne-none, refl, omega arith));
    })
    | inl p ↦ elim (Option-cases (operation (wait delay s).1).0) [
      | inl q ↦ rw (loop_succeeded wait operation rounds delay e s p q) (record {
        more = 1;
        waits = 1;
        runs = omega (arith, wait_runs delay s, op_runs (wait delay s).1);
        backs_off = op_waits (wait delay s).1 ∙ wait_waits delay s;
        within = omega arith;
        ended = inl (refl, refl);
      })
      | inr (e', q) ↦ rw (loop_failed wait operation rounds delay e e' s p q) (
          IsRetried-suc runs_of waits_of rounds delay s (operation (wait delay s).1).1 _
            (omega (arith, wait_runs delay s, op_runs (wait delay s).1))
            (op_waits (wait delay s).1 ∙ wait_waits delay s)
            (loop_IsRetried rounds (doubled delay) e' (operation (wait delay s).1).1))
    ]
  ]

  -- `Retry` runs its operation once, and then at most `attempts - 1` times more. It waits before
  -- each of the later runs, each time twice as long as before (in 64 bits), and ends with success,
  -- with an error after all rounds, or with an error where a wait was cut short.
  pub retry-IsRetried :
      (attempts delay : ℕ) (s : S)
      → IsRetried runs_of waits_of 1 (attempts - 1) delay s (retry wait operation attempts delay s)
  unfolding backoff
  retry-IsRetried attempts delay s = elim (Option-cases (operation s).0) [
    | inl q ↦ rw (retry_succeeded wait operation attempts delay s q) (record {
      more = 0;
      waits = 0;
      runs = omega (arith, op_runs s);
      backs_off = op_waits s ∙ sym (append-nil (waits_of s));
      within = omega arith;
      ended = inl (refl, refl);
    })
    | inr (e, q) ↦ rw (retry_failed wait operation attempts delay e s q) (
        IsRetried-base runs_of waits_of (attempts - 1) delay s (operation s).1 _ (op_runs s)
          (op_waits s) (loop_IsRetried (attempts - 1) delay e (operation s).1))
  ]
