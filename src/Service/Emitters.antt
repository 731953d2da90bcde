-- ===== src/Service/Emitters.antt =====
-- base/microservice/internal/service/service.go: one round of the loops that registerEmitterPull and
-- registerEmitterChannel start. A round gives the delay to the next one, or an error.
pub mod Counts
pub mod Pulls
mod Tests
use caaspay_core.Prelude.{
  ℕ, ◌-◌, ◌*◌, ◌^◌, Option, none, some, Text, codes, List, [], ◌∷◌, Error, Result, ok, err,
}
use caaspay_core.Message.{TransportMessage}
use caaspay_core.Transport.{
  Env, History, clock, increment, observe, track, invoke, ctx_err, channel,
}
use caaspay_core.Transport.Act.{Act, pure, ask, tell, ◌>>=◌, ◌>>◌}
use caaspay_core.Transport.Groups.{millisecond}
use caaspay_core.Transport.Sending.{emit}
use caaspay_core.Service.{stage_tags}
use caaspay_core.Service.Rpc.{stream_tags}

-- What the method of a pulling emitter returns: another number of results than three, or messages
-- (nil for none), the interval and an error. A negative interval acts as 0: the supervisor waits for
-- its least delay in both cases.
pub data Pulled : Type 0 where
  other_count : Pulled
  pulled : List (Option TransportMessage) → (interval : ℕ) → Option Error → Pulled

abbrev pub paused : ℕ
paused = 100 * millisecond

-- The pair `(interval, err)`: the supervisor reads the interval only if there is no error.
unfoldable pub ended : ℕ → Option Error → Result ℕ
ended interval none = ok interval
ended interval (some x) = err x

module _ (e : Env) (call : History → Pulled) (stream : Text) where
  unfoldable pub count_pulled : Option Error → Act (Unit {0})
  count_pulled (some _) =
      tell (increment (codes "emitter_pull_errors") (stage_tags stream (codes "publish")))
  count_pulled none = do
    tell (track (codes "emitter_pull_emit"))
    tell (increment (codes "emitter_pull_emitted") (stream_tags stream))

  -- The loop over the messages; a cancelled context ends it with its error.
  unfoldable pub pull_messages : List (Option TransportMessage) → Act (Option Error)
  unfolding count_pulled
  pull_messages [] = pure none
  pull_messages (none ∷ ms) = pull_messages ms
  pull_messages (some msg ∷ ms) = do
    stopped ← ask e.cancelled ctx_err
    elim stopped [
      | some x ↦ pure (some x)
      | none ↦ do failed ← emit e stream msg; count_pulled failed; pull_messages ms
    ]

  unfoldable pub pull_finished :
      (start interval : ℕ) → (failed stopped : Option Error) → Act (Result ℕ)
  unfolding ended
  pull_finished start interval failed (some x) = pure (err x)
  pull_finished start interval failed none = do
    now ← ask e.now clock
    tell (observe (codes "emitter_pull_duration") (now - start) (stream_tags stream))
    pure (ended interval failed)

  unfoldable pub pull_called : ℕ → Pulled → Act (Result ℕ)
  unfolding pull_messages pull_finished
  pull_called start other_count = do
    tell (increment (codes "emitter_pull_errors") (stage_tags stream (codes "signature")))
    pure (ok (5 * 10 ^ 9))
  pull_called start (pulled messages interval failed) = do
    stopped ← pull_messages messages
    pull_finished start interval failed stopped

  unfoldable pub emitter_pull_round : Act (Result ℕ)
  unfolding pull_called
  emitter_pull_round = do
    start ← ask e.now clock
    stopped ← ask e.cancelled ctx_err
    elim stopped [
      | some x ↦ pure (err x)
      | none ↦ do results ← ask call (invoke stream []); pull_called start results
    ]

-- What the `select` of a channel emitter gives.
pub data Received : Type 0 where
  context_done : Received
  nil_message : Received
  a_message : TransportMessage → Received

module _ (e : Env) (select : History → Received) (stream : Text) where
  unfoldable pub channel_emitted : ℕ → Option Error → Act (Result ℕ)
  channel_emitted start (some _) = do
    tell (increment (codes "emitter_channel_errors") (stage_tags stream (codes "publish")))
    pure (ok paused)
  channel_emitted start none = do
    tell (track (codes "emitter_channel_emit"))
    tell (increment (codes "emitter_channel_emitted") (stream_tags stream))
    now ← ask e.now clock
    tell (observe (codes "emitter_channel_duration") (now - start) (stream_tags stream))
    pure (ok paused)

  unfoldable pub channel_received : Received → Act (Result ℕ)
  unfolding channel_emitted
  channel_received context_done = pure (ok 0)
  channel_received nil_message = pure (ok paused)
  channel_received (a_message msg) = do
    start ← ask e.now clock
    failed ← emit e stream msg
    channel_emitted start failed

  unfoldable pub emitter_channel_round : Act (Result ℕ)
  unfolding channel_received
  emitter_channel_round = do received ← ask select (channel stream); channel_received received
