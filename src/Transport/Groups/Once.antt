-- ===== src/Transport/Groups/Once.antt =====
-- The pending cleanup of a stream and group is launched at most once.
use caaspay_core.Prelude.{
  ℕ, ◌≤◌, Bool, true, false, Option, none, some, Option-cases, inl, inr, Text, text_eq_iff, arith,
  Error, if◌then◌else◌,
}
use caaspay_core.Prelude.Dict.{get, get-put}
use caaspay_core.Transport.{RedisTransport, StreamMeta, Env, xgroup_create}
use caaspay_core.Transport.Act.{ask, pure}
use caaspay_core.Transport.Calls.{count_calls, is_cleanup}
use caaspay_core.Transport.Streams.{register_stream}
use caaspay_core.Transport.Groups.{
  cleanup_key, launch_cleanup, register_group, settle_group, finish_group, ensure_consumer_group,
}

abbrev launches : (stream group : Text) → RedisTransport → ℕ
launches stream group r = count_calls (is_cleanup stream group) r.history

abbrev marks : Option Bool → ℕ
marks none = 0
marks (some _) = 1

-- A cleanup that was launched is marked as pending, and was launched once.
pub record LaunchesOnce (r : RedisTransport) : Type 0 where
  pub bounded :
      (stream group : Text)
      → launches stream group r ≤ marks (get (cleanup_key stream group) r.pending_cleanups)

module _ (stream group : Text) where
  launch-LaunchesOnce :
      (r : RedisTransport) → LaunchesOnce r → LaunchesOnce (launch_cleanup stream group r).1
  unfolding launch_cleanup
  launch-LaunchesOnce r h = record {
    bounded = λ s g. ground (
      arith,
      h.bounded s g,
      get-put (cleanup_key stream group) (cleanup_key s g) true r.pending_cleanups,
      text_eq_iff (cleanup_key stream group) (cleanup_key s g),
      text_eq_iff stream s,
      text_eq_iff group g,
    );
  }

  register_stream-LaunchesOnce :
      (meta : StreamMeta) (r : RedisTransport)
      → LaunchesOnce r
      → LaunchesOnce (register_stream stream meta r).1
  unfolding register_stream
  register_stream-LaunchesOnce meta r h = elim (Option-cases (get stream r.streams_created)) [
    | inl p ↦ rw (register_stream, p) (record { bounded = h.bounded })
    | inr (m, p) ↦ rw (register_stream, p) h
  ]

  when-LaunchesOnce :
      (b : Bool) (r : RedisTransport)
      → LaunchesOnce r
      → LaunchesOnce ((if b then launch_cleanup stream group else pure tt) r).1
  when-LaunchesOnce true r h = launch-LaunchesOnce r h
  when-LaunchesOnce false r h = h

  register_group-LaunchesOnce :
      (meta : StreamMeta) (r : RedisTransport)
      → LaunchesOnce r
      → LaunchesOnce (register_group group stream meta r).1
  unfolding register_group
  register_group-LaunchesOnce meta r h =
      let (registered, s) = register_stream stream (record meta { group = group }) r in
      when-LaunchesOnce registered.to_clean_pending s
        (register_stream-LaunchesOnce (record meta { group = group }) r h)

  module _ (e : Env) where
    settle-LaunchesOnce :
        (o : Option Error) (r : RedisTransport)
        → LaunchesOnce r
        → LaunchesOnce (settle_group e group stream o r).1
    unfolding settle_group
    settle-LaunchesOnce o r h = record { bounded = λ s g. ground (arith, h.bounded s g) }

    finish-LaunchesOnce :
        (meta : StreamMeta) (o : Option Error) (r : RedisTransport)
        → LaunchesOnce r
        → LaunchesOnce (finish_group e group stream meta o r).1
    unfolding finish_group
    finish-LaunchesOnce meta none r h = register_group-LaunchesOnce meta r h
    finish-LaunchesOnce meta (some x) r h = h

    -- `ensureConsumerGroup` keeps it true that the pending cleanup of each stream and group was
    -- launched at most once, and not at all where it is not marked as pending.
    pub ensure_consumer_group-LaunchesOnce :
        (meta : StreamMeta) (r : RedisTransport)
        → LaunchesOnce r
        → LaunchesOnce (ensure_consumer_group e group stream meta r).1
    unfolding ensure_consumer_group
    ensure_consumer_group-LaunchesOnce meta r h =
        let (failed, r₁) = ask e.status (xgroup_create stream group) r in
        let (settled, r₂) = settle_group e group stream failed r₁ in
        finish-LaunchesOnce meta settled r₂
          (settle-LaunchesOnce failed r₁ (record { bounded = h.bounded }))
