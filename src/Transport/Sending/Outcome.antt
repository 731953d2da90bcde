-- ===== src/Transport/Sending/Outcome.antt =====
-- How often `Publish` writes, how long it waits, and when it leaves a dead letter.
use caaspay_core.Prelude.{
  ℕ, ◌-◌, ◌/◌, ◌^◌, ◌≡◌, ◌≢◌, refl, ap, ◌∙◌, true, Option, none, some, Text, Bytes, text_eq_refl,
  List, ◌∷◌, ◌++◌, arith, Error,
}
use mathlib.Core.Path.{subst₂}
use caaspay_core.Retry.Bounds.{IsRetried, backoff, retry-IsRetried}
use caaspay_core.Retry.Keeps.{retry_keeps}
use caaspay_core.Transport.{
  RedisTransport, Env, StreamMeta, zero_meta, History, xadd, dead_bytes, clock,
}
use caaspay_core.Transport.Calls.{count_calls, waits_in, is_add, dead_in}
use caaspay_core.Transport.Streams.{register_stream}
use caaspay_core.Transport.Sending.{
  publish, throttle, retried, wait_for, add_op, dead_letter, publish_to_dlq,
}

module _ (e : Env) (stream : Text) (coded : Bytes) where
  abbrev adds : RedisTransport → ℕ
  adds r = count_calls (is_add stream coded) r.history

  abbrev waits : RedisTransport → List ℕ
  waits r = waits_in r.history

  abbrev letters : RedisTransport → History
  letters r = dead_in r.history

  -- What `before` and `after` agree on when only other calls were made.
  abbrev Quiet : RedisTransport → RedisTransport → Type 0
  Quiet r s =
      (adds s ≡ adds r)
      × (waits s ≡ waits r)
      × (s.max_retries ≡ r.max_retries)
      × (s.retry_delay ≡ r.retry_delay)
      × (letters s ≡ letters r)
      × (s.dlq_stream ≡ r.dlq_stream)

  register-Quiet :
      (meta : StreamMeta) (r : RedisTransport) → Quiet r (register_stream stream meta r).1
  unfolding register_stream
  register-Quiet meta r = ground arith

  throttle-Quiet : (r : RedisTransport) → Quiet r (throttle e stream r).1
  unfolding throttle
  throttle-Quiet r = ground arith

  retried-IsRetried :
      (r : RedisTransport)
      → IsRetried adds waits 1
          (r.max_retries - 1)
          r.retry_delay
          r
          (retried e r.max_retries r.retry_delay (add_op e stream coded) r)
  retried-IsRetried r =
      retry-IsRetried (wait_for e) (add_op e stream coded) adds waits (λ d s. refl) (λ d s. refl)
        (λ s. rw (text_eq_refl stream, text_eq_refl coded) (omega arith)) (λ s. refl) r.max_retries
        r.retry_delay r

  retried-letters :
      (attempts delay : ℕ) (r : RedisTransport)
      → let s = (retried e attempts delay (add_op e stream coded) r).1 in
        (letters s ≡ letters r) × (s.dlq_stream ≡ r.dlq_stream)
  retried-letters attempts delay r =
      retry_keeps (λ s. (letters s ≡ letters r) × (s.dlq_stream ≡ r.dlq_stream)) (wait_for e)
        (add_op e stream coded) (λ d s h. h) (λ s h. h) attempts delay r (refl, refl)

  -- The dead letters that are sent on the way from `r` to `s`, by the result: none for a success, and
  -- for a failure one, the last call, to the stream for dead letters, with the stream, the body and the
  -- time in seconds.
  abbrev pub Leaves : Option Error → (r s : RedisTransport) → Type 0
  Leaves none r s = letters s ≡ letters r
  Leaves (some x) r s =
      (h : History) × (s.history
        ≡ xadd r.dlq_stream (dead_bytes stream coded (e.now (clock ∷ h) / 10 ^ 9)) ∷ clock ∷ h)
      × (dead_in h ≡ letters r)

  dead_letter-Leaves :
      (o : Option Error) (r r₃ : RedisTransport)
      → letters r₃ ≡ letters r
      → r₃.dlq_stream ≡ r.dlq_stream
      → Leaves (dead_letter e stream coded o r₃).0 r (dead_letter e stream coded o r₃).1
  unfolding dead_letter publish_to_dlq
  dead_letter-Leaves none r r₃ kept same = kept
  dead_letter-Leaves (some x) r r₃ kept same = (r₃.history, rw same refl, kept)

  dead_letter-counts :
      (o : Option Error) (r : RedisTransport)
      → (adds (dead_letter e stream coded o r).1 ≡ adds r)
        × (waits (dead_letter e stream coded o r).1 ≡ waits r)
  unfolding dead_letter publish_to_dlq
  dead_letter-counts o r = ground arith

  -- The result, for the reader of an `IsRetried`: an error stays an error.
  dead_letter-none :
      (o : Option Error) (r : RedisTransport) → o ≡ none → (dead_letter e stream coded o r).0 ≡ none
  unfolding dead_letter
  dead_letter-none o r h = ground arith

  dead_letter-some :
      (o : Option Error) (r : RedisTransport) → o ≢ none → (dead_letter e stream coded o r).0 ≢ none
  unfolding dead_letter
  dead_letter-some none r h = absurd (h refl)
  dead_letter-some (some x) r h = λ q. cc

  IsRetried-around :
      (rounds delay : ℕ) (r r₂ r₃ : RedisTransport) (o : Option Error)
      → Quiet r r₂
      → IsRetried adds waits 1 rounds delay r₂ (o, r₃)
      → IsRetried adds waits 1 rounds delay r (dead_letter e stream coded o r₃)
  IsRetried-around rounds delay r r₂ r₃ o q h =
      let (same_adds, same_waits) = dead_letter-counts o r₃ in
      record {
        more = h.more;
        waits = h.waits;
        runs = omega (arith, h.runs, same_adds, q.0);
        backs_off = same_waits ∙ h.backs_off ∙ ap (λ l. l ++ backoff h.waits delay) q.1;
        within = h.within;
        ended = ground (arith, h.ended, dead_letter-none o r₃, dead_letter-some o r₃);
      }

  prepared-Quiet :
      (r : RedisTransport)
      → Quiet r
          (throttle e stream (register_stream stream (record zero_meta { to_trim = true }) r).1).1
  prepared-Quiet r =
      let meta = record zero_meta { to_trim = true } in
      let r₁ = (register_stream stream meta r).1 in
      ground (arith, register-Quiet meta r, throttle-Quiet r₁)

  -- `Publish` sends its XADD once and at most `max_retries - 1` times more, waits between two
  -- attempts as `Retry` does, and ends with success, after all attempts, or with a wait cut short.
  pub publish-IsRetried :
      (r : RedisTransport)
      → IsRetried adds waits 1 (r.max_retries - 1) r.retry_delay r (publish e stream coded r)
  unfolding publish
  publish-IsRetried r =
      let r₂ =
        (throttle e stream (register_stream stream (record zero_meta { to_trim = true }) r).1).1 in
      let q : Quiet r r₂ = prepared-Quiet r in
      let (failed, r₃) = retried e r₂.max_retries r₂.retry_delay (add_op e stream coded) r₂ in
      IsRetried-around (r.max_retries - 1) r.retry_delay r r₂ r₃ failed q (
        subst₂
          (λ n d.
            IsRetried adds waits 1 (n - 1) d r₂
              (retried e r₂.max_retries r₂.retry_delay (add_op e stream coded) r₂))
          q.2 q.3 (retried-IsRetried r₂))

  -- `Publish` sends no dead letter if it succeeds. If it fails, it sends one, as its last call, to the
  -- stream for dead letters: the stream, the body and the time in seconds are in it.
  pub publish-letters :
      (r : RedisTransport) → Leaves (publish e stream coded r).0 r (publish e stream coded r).1
  unfolding publish
  publish-letters r =
      let r₂ =
        (throttle e stream (register_stream stream (record zero_meta { to_trim = true }) r).1).1 in
      let q : Quiet r r₂ = prepared-Quiet r in
      let (failed, r₃) = retried e r₂.max_retries r₂.retry_delay (add_op e stream coded) r₂ in
      let (kept, same) = retried-letters r₂.max_retries r₂.retry_delay r₂ in
      dead_letter-Leaves failed r r₃ (kept ∙ q.4) (same ∙ q.5)
