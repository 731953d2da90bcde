-- ===== src/Transport/Startup/Keeps.antt =====
-- NewRedisTransport ends, with the settings that it was given.
use caaspay_core.Prelude.{
  ℕ, zero, suc, ◌<◌, ◌≤◌, ◌≡◌, refl, sym, ap, ◌∙◌, Bool, ◌&&◌, Bool-cases, inl, inr, Option, some,
  Option-cases, arith, leb, ltb, ℤ, pos, negsuc, Result, ok, err, ok-injective, [], ◌∷◌,
}
use caaspay_core.Transport.{RedisTransport, Env, History, ping}
use caaspay_core.Transport.Trim.{verify_connection}
use caaspay_core.Transport.Startup.{
  RedisTransportConfig, Connected, connect, initial, start_trim, finish_start, new_redis_transport,
  positive_or,
}
use caaspay_core.Transport.Startup.Connects.{EndsWithin, success, failure, connect-EndsWithin}

-- The transport without its calls.
abbrev pub bare : RedisTransport → RedisTransport
bare r = record r { history = [] }

pub positive_or-positive : (d : ℕ) (n : ℤ) → 0 < d → 0 < positive_or d n
positive_or-positive d (pos zero) h = h
positive_or-positive d (pos (suc n)) h = omega arith
positive_or-positive d (negsuc n) h = h

tries :
    (cfg : RedisTransportConfig) (has_deadline has_metrics : Bool) (h : History)
    → 0 < (initial cfg has_deadline has_metrics h).max_retries
unfolding initial
tries cfg has_deadline has_metrics h = positive_or-positive 300 cfg.max_retries (omega arith)

module _ (e : Env) where
  connect-bare : (fuel trials : ℕ) (r : RedisTransport) → bare (connect e fuel trials r).1 ≡ bare r
  unfolding connect verify_connection
  connect-bare zero trials r = refl
  connect-bare (suc fuel) trials r = elim (Option-cases (e.status (ping ∷ r.history))) [
    | inl p ↦ rw p refl
    | inr (x, p) ↦ elim (Bool-cases (leb r.max_retries (suc trials))) [
      | inl q ↦ rw (p, q) refl
      | inr q ↦ rw (p, q) (connect-bare fuel (suc trials) _)
    ]
  ]

  trim-bare : (freq : ℕ) (r : RedisTransport) → bare (start_trim e freq r).1 ≡ bare r
  unfolding start_trim
  trim-bare freq r = elim (Bool-cases (ltb 0 freq && ltb 0 r.stream_trim_max_len)) [
    | inl p ↦ rw p refl
    | inr p ↦ rw p refl
  ]

  -- How the start ends, given an end of the loop other than that of its fuel.
  pub record Ends (before : RedisTransport) (end : Option (Result RedisTransport)) : Type 0 where
    pub result : Result RedisTransport
    pub ended : end ≡ some result
    pub kept : (r : RedisTransport) → result ≡ ok r → bare r ≡ bare before

  finish-Ends :
      (cfg : RedisTransportConfig) (before : RedisTransport) (end : Connected × RedisTransport)
      → EndsWithin 0 before end
      → bare end.1 ≡ bare before
      → Ends before (finish_start e cfg end)
  unfolding finish_start
  finish-Ends cfg before _ (success more after _ _) kept = record {
    result = ok (start_trim e cfg.periodic_trim_freq after).1;
    ended = refl;
    kept = λ r h. ap bare (sym (ok-injective h)) ∙ trim-bare cfg.periodic_trim_freq after ∙ kept;
  }
  finish-Ends cfg before _ (failure x after _) kept = record {
    result = err x;
    ended = refl;
    kept = λ r h. absurd (ground (arith, h));
  }

  -- With fuel for each attempt the start ends, and a transport that it gives has the settings that it
  -- was given.
  pub new_redis_transport-Ends :
      (fuel : ℕ) (cfg : RedisTransportConfig) (has_deadline has_metrics : Bool) (h : History)
      → (initial cfg has_deadline has_metrics h).max_retries ≤ fuel
      → Ends
          (initial cfg has_deadline has_metrics h)
          (new_redis_transport e fuel cfg has_deadline has_metrics h)
  unfolding new_redis_transport
  new_redis_transport-Ends fuel cfg has_deadline has_metrics h enough =
      let r = initial cfg has_deadline has_metrics h in
      finish-Ends cfg r (connect e fuel 0 r)
        (connect-EndsWithin e fuel 0 r (tries cfg has_deadline has_metrics h)
          (omega (arith, enough)))
        (connect-bare fuel 0 r)
