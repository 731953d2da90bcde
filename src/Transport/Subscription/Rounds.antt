-- ===== src/Transport/Subscription/Rounds.antt =====
-- What one round of a subscription handles and acknowledges.
use caaspay_core.Prelude.{
  ℕ, zero, suc, ◌+◌, ◌-◌, ◌≤◌, ◌≡◌, refl, sym, ap, ◌∙◌, true, Option, none, some, Text, text_eq,
  text_eq_refl, List, [], ◌∷◌, ◌++◌, append-nil, append_assoc, arith, length, length-append, Error,
  ok, if◌then◌else◌,
}
use caaspay_core.Message.{TransportMessage}
use caaspay_core.Retry.Bounds.{IsRetried, retry-IsRetried}
use caaspay_core.Retry.Keeps.{retry_keeps}
use caaspay_core.Transport.{RedisTransport, Env, History, handle, xread_group}
use caaspay_core.Transport.Act.{ask}
use caaspay_core.Transport.Calls.{count_calls, waits_in, is_ack}
use caaspay_core.Transport.Streams.{marked, update_stream_subscription_status}
use caaspay_core.Transport.Reading.{coding}
use caaspay_core.Transport.Reading.Batch.{outcome, acknowledged, read_group_lem}
use caaspay_core.Transport.Sending.{retried, wait_for, publish_to_dlq}
use caaspay_core.Transport.Subscription.{
  after_handler, handle_messages, handle_read, subscribe_round,
}

-- The messages that were handed to a handler, the oldest first.
abbrev pub handled_in : History → List TransportMessage
handled_in [] = []
handled_in (handle m ∷ h) = handled_in h ++ m ∷ []
handled_in (_ ∷ h) = handled_in h

abbrev pub replicate {ℓ} : {A : Type ℓ} → ℕ → A → List A
replicate zero a = []
replicate (suc n) a = a ∷ replicate n a

replicate-snoc {ℓ} : {A : Type ℓ} (n : ℕ) (a : A) → replicate n a ++ a ∷ [] ≡ replicate (suc n) a
replicate-snoc zero a = refl
replicate-snoc (suc n) a = ap (λ l. a ∷ l) (replicate-snoc n a)

length-replicate {ℓ} : {A : Type ℓ} (n : ℕ) (a : A) → length (replicate n a) ≡ n
length-replicate zero a = refl
length-replicate (suc n) a = ap suc (length-replicate n a)

module _ (e : Env) (m : TransportMessage) where
  abbrev handler : RedisTransport → Option Error × RedisTransport
  handler = ask e.status (handle m)

  abbrev handled : RedisTransport → List TransportMessage
  handled r = handled_in r.history

  -- Since `r`, the handler has seen `m` alone.
  record OnlySees (r s : RedisTransport) : Type 0 where
    times : ℕ
    sees : handled s ≡ handled r ++ replicate times m

  sees_once_more : (r s : RedisTransport) → OnlySees r s → OnlySees r (handler s).1
  sees_once_more r s h = record {
    times = suc h.times;
    sees =
        ap (λ l. l ++ m ∷ []) h.sees
        ∙ append_assoc (handled r) (replicate h.times m) (m ∷ [])
        ∙ ap (λ l. handled r ++ l) (replicate-snoc h.times m);
  }

  retried-OnlySees :
      (attempts delay : ℕ) (r : RedisTransport) → OnlySees r (retried e attempts delay handler r).1
  retried-OnlySees attempts delay r =
      retry_keeps (OnlySees r) (wait_for e) handler
        (λ d s h. record { times = h.times; sees = h.sees }) (sees_once_more r) attempts delay r
        (record { times = 0; sees = sym (append-nil (handled r)) })

  retried-counts :
      (attempts delay : ℕ) (r : RedisTransport)
      → IsRetried
          (λ s. length (handled s))
          (λ s. waits_in s.history)
          1
          (attempts - 1)
          delay
          r
          (retried e attempts delay handler r)
  retried-counts attempts delay r =
      retry-IsRetried (wait_for e) handler (λ s. length (handled s)) (λ s. waits_in s.history)
        (λ d s. refl) (λ d s. refl) (λ s. length-append (handled s) (m ∷ [])) (λ s. refl) attempts
        delay r

  retried-acks :
      (stream group id : Text) (attempts delay : ℕ) (r : RedisTransport)
      → count_calls (is_ack stream group id) (retried e attempts delay handler r).1.history
        ≡ count_calls (is_ack stream group id) r.history
  retried-acks stream group id attempts delay r =
      retry_keeps
        (λ s.
          count_calls (is_ack stream group id) s.history
          ≡ count_calls (is_ack stream group id) r.history)
        (wait_for e) handler (λ d s h. h) (λ s h. h) attempts delay r refl

-- What the handler has seen between two states: one message, once or more.
pub record HandlesOnly (m : TransportMessage) (attempts : ℕ) (before after : History) : Type 0 where
  pub retries : ℕ
  pub within : retries ≤ attempts - 1
  pub seen : handled_in after ≡ handled_in before ++ replicate (suc retries) m

module _ (e : Env) where
  after_handler-keeps :
      (stream group : Text) (m : TransportMessage) (o : Option Error) (r : RedisTransport)
      → handled_in (after_handler e stream group m o r).1.history ≡ handled_in r.history
  unfolding after_handler publish_to_dlq
  after_handler-keeps stream group m none r = refl
  after_handler-keeps stream group m (some x) r = refl

  after_handler-acks :
      (stream group id : Text) (m : TransportMessage) (o : Option Error) (r : RedisTransport)
      → count_calls (is_ack stream group id) (after_handler e stream group m o r).1.history
        ≡ count_calls (is_ack stream group id) r.history + (if text_eq m.id id then 1 else 0)
  unfolding after_handler publish_to_dlq
  after_handler-acks stream group id m none r =
      rw (text_eq_refl stream, text_eq_refl group) (ground arith)
  after_handler-acks stream group id m (some x) r =
      rw (text_eq_refl stream, text_eq_refl group) (ground arith)

  retried-times :
      (m : TransportMessage) (attempts delay : ℕ) (r : RedisTransport)
      → HandlesOnly m attempts r.history
          (retried e attempts delay (ask e.status (handle m)) r).1.history
  retried-times m attempts delay r =
      let only = retried-OnlySees e m attempts delay r in
      let counted = retried-counts e m attempts delay r in
      let seen_length =
        ap length only.sees ∙ length-append (handled_in r.history) (replicate only.times m) in
      let same : only.times ≡ suc counted.more =
        omega (arith, seen_length, counted.runs, length-replicate only.times m) in
      record {
        retries = counted.more;
        within = counted.within;
        seen = only.sees ∙ ap (λ n. handled_in r.history ++ replicate n m) same;
      }

  handle_messages-HandlesOnly :
      (stream group : Text) (m : TransportMessage) (ms : List TransportMessage) (r : RedisTransport)
      → HandlesOnly m r.max_retries r.history (handle_messages e stream group (m ∷ ms) r).1.history
  unfolding handle_messages
  handle_messages-HandlesOnly stream group m ms r =
      let (failed, s) = retried e r.max_retries r.retry_delay (ask e.status (handle m)) r in
      let h = retried-times m r.max_retries r.retry_delay r in
      record {
        retries = h.retries;
        within = h.within;
        seen = after_handler-keeps stream group m failed s ∙ h.seen;
      }

  handle_messages-acks :
      (stream group id : Text) (m : TransportMessage) (ms : List TransportMessage)
      (r : RedisTransport)
      → count_calls (is_ack stream group id) (handle_messages e stream group (m ∷ ms) r).1.history
        ≡ count_calls (is_ack stream group id) r.history + (if text_eq m.id id then 1 else 0)
  unfolding handle_messages
  handle_messages-acks stream group id m ms r =
      let (failed, s) = retried e r.max_retries r.retry_delay (ask e.status (handle m)) r in
      after_handler-acks stream group id m failed s
      ∙ ap (λ n. n + (if text_eq m.id id then 1 else 0))
          (retried-acks e m stream group id r.max_retries r.retry_delay r)

  -- The history in which the read of a round is answered, and the one after its decoding.
  abbrev pub asked : (stream group : Text) → RedisTransport → History
  asked stream group r =
      xread_group group r.service_instance_id stream r.stream_read_count r.block_timeout ∷ r.history

  abbrev pub read_from : (stream group : Text) → RedisTransport → History
  read_from stream group r =
      let h = asked stream group r in acknowledged e (coding r) group (e.reading h) h

  -- One round of the loop of `Subscribe` where the read gives at least one message. The handler is
  -- given the first message alone, once and at most `max_retries - 1` times more, whether it fails
  -- or not. After the read, the round acknowledges one entry id, that of the message's own `id`.
  pub subscribe_round-handles :
      (stream group : Text) (m : TransportMessage) (ms : List TransportMessage) (r : RedisTransport)
      → outcome e (coding r) (e.reading (asked stream group r)) ≡ ok (m ∷ ms)
      → HandlesOnly m r.max_retries
          (read_from stream group r)
          (subscribe_round e stream group r).1.history
        × ((id : Text)
            → count_calls (is_ack stream group id) (subscribe_round e stream group r).1.history
              ≡ count_calls (is_ack stream group id) (read_from stream group r)
                + (if text_eq m.id id then 1 else 0))
  unfolding subscribe_round handle_read update_stream_subscription_status
  subscribe_round-handles stream group m ms r first =
      let r₁ = record r { streams_created = marked stream true r.streams_created } in
      let s = record r {
        streams_created = marked stream true r₁.streams_created;
        history = read_from stream group r;
      } in
      rw (read_group_lem e stream group r.service_instance_id r₁, first)
        (
          handle_messages-HandlesOnly stream group m ms s,
          λ id. handle_messages-acks stream group id m ms s,
        )
