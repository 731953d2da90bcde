-- ===== src/Prelude/Decimal.antt =====
-- `%d` of a number that is not negative.
use Prim.Native.Nat.{ℕ, zero, suc, ◌+◌, ◌/◌, ◌%◌}
use mathlib.Core.Bool.{true, false}
use mathlib.Core.List.{[], ◌∷◌, ◌++◌}
use caaspay_core.Prelude.Tests.{ltb}
use caaspay_core.Prelude.Strings.{Text}

-- The digits of a number, at most so many.
unfoldable pub digits : (most : ℕ) → ℕ → Text
digits zero n = []
digits (suc most) n = elim (ltb n 10) [
  | true ↦ (b'0' + n) ∷ []
  | false ↦ digits most (n / 10) ++ ((b'0' + n % 10) ∷ [])
]

-- A number of 64 bits has at most 20 digits.
unfoldable pub decimal : ℕ → Text
unfolding digits
decimal n = digits 20 n
