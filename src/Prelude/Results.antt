-- ===== src/Prelude/Results.antt =====
-- Go's `error` and the pair `(value, error)`.
use mathlib.Core.Path.{◌≡◌, refl}
use mathlib.Core.Logic.{◌⊎◌, inl, inr}
use mathlib.Core.List.{◌++◌}
use native.Mathlib.Omega.{arith}
use caaspay_core.Prelude.Strings.{Text, codes}

-- `errorf` is an error with its text, `wrap` is `fmt.Errorf("text: %w", err)`.
pub data Error : Type 0 where
  errorf : Text → Error
  wrap : Text → Error → Error

-- err.Error()
unfoldable pub error_text : Error → Text
error_text (errorf t) = t
error_text (wrap t e) = t ++ (codes ": " ++ error_text e)

pub data Result {ℓ} (A : Type ℓ) : Type ℓ where
  ok : A → Result A
  err : Error → Result A

infixl 5 ◌>>=◌
abbrev pub ◌>>=◌ {ℓ κ} : {A : Type ℓ} {B : Type κ} → Result A → (A → Result B) → Result B
ok a >>= f = f a
err e >>= f = err e

-- `if err != nil { return nil, fmt.Errorf("text: %w", err) }`
abbrev pub or_wrap {ℓ} : {A : Type ℓ} → Text → Result A → Result A
or_wrap t (ok a) = ok a
or_wrap t (err e) = err (wrap t e)

-- A chain that succeeds succeeds in each part.
pub bind-ok {ℓ κ} :
    {A : Type ℓ} {B : Type κ} (m : Result A) (f : A → Result B) (b : B)
    → (m >>= f) ≡ ok b
    → (a : A) × (m ≡ ok a) × (f a ≡ ok b)
bind-ok (ok a) f b h = (a, refl, h)
bind-ok (err e) f b h = absurd (ground (arith, h))

pub or_wrap-ok {ℓ} : {A : Type ℓ} (t : Text) (m : Result A) (a : A) → or_wrap t m ≡ ok a → m ≡ ok a
or_wrap-ok t (ok b) a h = h
or_wrap-ok t (err e) a h = absurd (ground (arith, h))

pub ok-injective {ℓ} : {A : Type ℓ} {a b : A} → ◌≡◌ {A = Result A} (ok a) (ok b) → a ≡ b
ok-injective h = cc

pub Result-cases {ℓ} :
    {A : Type ℓ} (m : Result A) → ((a : A) × (m ≡ ok a)) ⊎ ((x : Error) × (m ≡ err x))
Result-cases (ok a) = inl (a, refl)
Result-cases (err x) = inr (x, refl)
