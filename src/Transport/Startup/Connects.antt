-- ===== src/Transport/Startup/Connects.antt =====
-- The loop in which NewRedisTransport checks its connection ends.
use caaspay_core.Prelude.{
  ℕ, zero, suc, ◌+◌, ◌*◌, ◌%◌, ◌^◌, ◌≤◌, ◌<◌, ◌≡◌, inl, inr, refl, true, false, none, some,
  Option-cases, Bool-cases, ◌∷◌, arith, Error, wrap, codes, leb,
}
use caaspay_core.Transport.{RedisTransport, Env, sleep, ping}
use caaspay_core.Transport.Calls.{count_calls, is_ping}
use caaspay_core.Transport.Trim.{verify_connection}
use caaspay_core.Transport.Startup.{Connected, connected, refused, connect}

abbrev pings : RedisTransport → ℕ
pings r = count_calls is_ping r.history

-- How a loop that starts after `trials` attempts ends: connected, after one PING or more and at most
-- as many as are left, or refused after all of them.
pub data EndsWithin (trials : ℕ) (before : RedisTransport)
    : Connected × RedisTransport → Type 0 where
  success :
      (more : ℕ) (after : RedisTransport)
      → pings after ≡ pings before + suc more
      → trials + more < before.max_retries
      → EndsWithin trials before (connected, after)
  failure :
      (x : Error) (after : RedisTransport)
      → pings after + trials ≡ pings before + before.max_retries
      → EndsWithin trials before (refused x, after)

one_more :
    (trials : ℕ) (r s : RedisTransport) (end : Connected × RedisTransport)
    → pings s ≡ pings r + 1
    → s.max_retries ≡ r.max_retries
    → EndsWithin (suc trials) s end
    → EndsWithin trials r end
one_more trials r s _ p q (success more after counted within) =
    success (suc more) after (omega (arith, p, counted)) (omega (arith, q, within))
one_more trials r s _ p q (failure x after counted) = failure x after (omega (arith, p, q, counted))

module _ (e : Env) where
  abbrev pinged : RedisTransport → RedisTransport
  pinged r = record r { history = ping ∷ r.history }

  -- The transport after a failed attempt and its sleep.
  abbrev slept : ℕ → RedisTransport → RedisTransport
  slept trials r = record r {
    history = sleep (r.retry_delay * suc trials % 2 ^ 64) ∷ ping ∷ r.history;
  }

  connect_succeeded :
      (fuel trials : ℕ) (r : RedisTransport)
      → e.status (ping ∷ r.history) ≡ none
      → connect e (suc fuel) trials r ≡ (connected, pinged r)
  unfolding connect verify_connection
  connect_succeeded fuel trials r p = rw p refl

  connect-refused :
      (fuel trials : ℕ) (r : RedisTransport) (x : Error)
      → e.status (ping ∷ r.history) ≡ some x
      → leb r.max_retries (suc trials) ≡ true
      → connect e (suc fuel) trials r
        ≡ (refused (wrap (codes "failed to connect to Redis") x), pinged r)
  unfolding connect verify_connection
  connect-refused fuel trials r x p q = rw (p, q) refl

  connect_again :
      (fuel trials : ℕ) (r : RedisTransport) (x : Error)
      → e.status (ping ∷ r.history) ≡ some x
      → leb r.max_retries (suc trials) ≡ false
      → connect e (suc fuel) trials r ≡ connect e fuel (suc trials) (slept trials r)
  unfolding connect verify_connection
  connect_again fuel trials r x p q = rw (p, q) refl

  -- The loop, after some attempts and with fuel for all that are left, does not run out of fuel: it
  -- connects within the attempts that are left, or is refused after exactly that many.
  pub connect-EndsWithin :
      (fuel trials : ℕ) (r : RedisTransport)
      → trials < r.max_retries
      → r.max_retries ≤ trials + fuel
      → EndsWithin trials r (connect e fuel trials r)
  connect-EndsWithin zero trials r lt le = absurd (omega (arith, lt, le))
  connect-EndsWithin (suc fuel) trials r lt le = elim (Option-cases (e.status (ping ∷ r.history))) [
    | inl p ↦
        rw (connect_succeeded fuel trials r p)
          (success 0 (pinged r) (omega arith) (omega (arith, lt)))
    | inr (x, p) ↦ elim (Bool-cases (leb r.max_retries (suc trials))) [
      | inl q ↦
          rw (connect-refused fuel trials r x p q) (
            failure (wrap (codes "failed to connect to Redis") x) (pinged r)
              (ground (arith, lt, q)))
      | inr q ↦ rw (connect_again fuel trials r x p q) (
          one_more trials r (slept trials r) _ (omega arith) refl (
            connect-EndsWithin fuel (suc trials) (slept trials r) (ground (arith, q))
              (omega (arith, le))))
    ]
  ]
