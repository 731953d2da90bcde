-- ===== src/Retry/Tests.antt =====
-- Runs of `retry` over a state that counts, and its theorems there.
use caaspay_core.Prelude.{
  ℕ, ◌+◌, ◌≡◌, refl, Option, none, some, List, [], ◌∷◌, ◌++◌, codes, Error, errorf, leb, drop, All,
  if◌then◌else◌,
}
use caaspay_core.Retry.{retry}
use caaspay_core.Retry.Bounds.{IsRetried, retry-IsRetried}
use caaspay_core.Retry.Overflow.{retry-unspaced}

record Trial : Type 0 where
  runs : ℕ
  waits : List ℕ
  good_from : ℕ  -- the run from which on the operation succeeds

abbrev wait : ℕ → Trial → Option Error × Trial
wait d s = (none, record s { waits = s.waits ++ d ∷ [] })

abbrev operation : Trial → Option Error × Trial
operation s = (
  if leb s.good_from (s.runs + 1) then none else some (errorf (codes "no route")),
  record s { runs = s.runs + 1 },
)

abbrev start : ℕ → Trial
start n = record { runs = 0; waits = []; good_from = n }

third_time :
    retry wait operation 5 500 (start 3)
    ≡ (none, record { runs = 3; waits = 500 ∷ 1000 ∷ []; good_from = 3 })
unfolding retry
third_time = refl

gives_up :
    retry wait operation 3 1 (start 9)
    ≡ (some (errorf (codes "no route")), record { runs = 3; waits = 1 ∷ 2 ∷ []; good_from = 9 })
unfolding retry
gives_up = refl

retry-IsRetried_example :
    IsRetried (λ s. s.runs) (λ s. s.waits) 1 4 500 (start 3) (retry wait operation 5 500 (start 3))
retry-IsRetried_example =
    retry-IsRetried wait operation (λ s. s.runs) (λ s. s.waits) (λ d s. refl) (λ d s. refl)
      (λ s. refl) (λ s. refl) 5 500 (start 3)

-- 70 attempts of which none succeeds.
abbrev exhausted : Option Error × Trial
exhausted = retry wait operation 70 500 (start 99)

retry-unspaced_example :
    (waits : List ℕ) × (exhausted.1.waits ≡ [] ++ waits) × All (λ d. d ≡ 0) (drop 64 waits)
retry-unspaced_example =
    retry-unspaced wait operation (λ s. s.runs) (λ s. s.waits) (λ d s. refl) (λ d s. refl)
      (λ s. refl) (λ s. refl) 70 500 (start 99)

five_zeros : drop 64 exhausted.1.waits ≡ 0 ∷ 0 ∷ 0 ∷ 0 ∷ 0 ∷ []
unfolding retry
five_zeros = refl
