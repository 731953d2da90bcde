-- ===== src/Prelude/DictSize.antt =====
-- How many entries a dictionary has.
use Prim.Native.Nat.{ℕ, ◌+◌, ◌≤◌}
use mathlib.Core.Path.{◌≡◌, refl}
use mathlib.Core.Option.{none, some}
use mathlib.Core.List.{[], ◌∷◌}
use native.Mathlib.Omega.{arith}
use caaspay_core.Prelude.Tests.{if◌then◌else◌}
use caaspay_core.Prelude.Lists.{length}
use caaspay_core.Prelude.Strings.{Text, text_eq, text_eq_iff}
use caaspay_core.Prelude.Dict.{Dict, get, put, erase}

module _ {ℓ} {V : Type ℓ} where
  -- How many entries have the key.
  abbrev pub entries : Text → Dict V → ℕ
  entries k [] = 0
  entries k ((j, v) ∷ m) = (if text_eq j k then 1 else 0) + entries k m

  pub length-erase : (k : Text) (m : Dict V) → length (erase k m) + entries k m ≡ length m
  unfolding erase
  length-erase k [] = refl
  length-erase k ((j, v) ∷ m) = ground (arith, length-erase k m)

  pub entries-none : (k : Text) (m : Dict V) → get k m ≡ none → entries k m ≡ 0
  unfolding get
  entries-none k [] h = refl
  entries-none k ((j, v) ∷ m) h = ground (arith, h, entries-none k m)

  pub length-put :
      (k : Text) (v : V) (m : Dict V) → get k m ≡ none → length (put k v m) ≡ length m + 1
  unfolding get put
  length-put k v [] h = refl
  length-put k v ((j, w) ∷ m) h = ground (arith, h, length-put k v m)

  pub entries-put :
      (k j : Text) (v : V) (m : Dict V)
      → get k m ≡ none
      → entries j (put k v m) ≡ entries j m + (if text_eq k j then 1 else 0)
  unfolding get put
  entries-put k j v [] h = omega arith
  entries-put k j v ((i, w) ∷ m) h = ground (arith, h, entries-put k j v m)

  pub entries-erase :
      (k j : Text) (m : Dict V) → entries j (erase k m) ≡ (if text_eq k j then 0 else entries j m)
  unfolding erase
  entries-erase k j [] = ground arith
  entries-erase k j ((i, w) ∷ m) =
      ground (arith, entries-erase k j m, text_eq_iff k j, text_eq_iff i k, text_eq_iff i j)

  pub entries-some : (k : Text) (v : V) (m : Dict V) → get k m ≡ some v → 1 ≤ entries k m
  unfolding get
  entries-some k v [] h = absurd (ground (arith, h))
  entries-some k v ((j, w) ∷ m) h = ground (arith, h, entries-some k v m)
