-- ===== src/Transport/Act.antt =====
-- Methods of RedisTransport as state passing, and the calls that they make.
use caaspay_core.Prelude.{List, ◌∷◌}
use caaspay_core.Transport.{RedisTransport, Call, History}

abbrev pub Act : Type 0 → Type 0
Act A = RedisTransport → A × RedisTransport

module _ {A : Type 0} where
  abbrev pub pure : A → Act A
  pure a r = (a, r)

  abbrev pub gets : (RedisTransport → A) → Act A
  gets f r = (f r, r)

  -- A call, answered from the history that it ends.
  abbrev pub ask : (History → A) → Call → Act A
  ask f c r = let h = c ∷ r.history in (f h, record r { history = h })

-- A call whose answer is not read.
abbrev pub tell : Call → Act (Unit {0})
tell c r = (tt, record r { history = c ∷ r.history })

abbrev pub modify : (RedisTransport → RedisTransport) → Act (Unit {0})
modify f r = (tt, f r)

infixl 5 ◌>>=◌ ◌>>◌
abbrev pub ◌>>=◌ : {A B : Type 0} → Act A → (A → Act B) → Act B
◌>>=◌ m f r = let (a, r') = m r in f a r'

abbrev pub ◌>>◌ : {A B : Type 0} → Act A → Act B → Act B
m >> k = m >>= λ _. k

-- `for _, x := range xs { … }`
abbrev pub for_each : {A : Type 0} → List A → (A → Act (Unit {0})) → Act (Unit {0})
for_each List.[] body r = (tt, r)
for_each (x ∷ xs) body r = for_each xs body (body x r).1
