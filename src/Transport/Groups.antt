-- ===== src/Transport/Groups.antt =====
-- ensureConsumerGroup
pub mod Once
use caaspay_core.Prelude.{
  ℕ, ◌*◌, ◌^◌, true, Option, none, some, Text, codes, ◌++◌, contains, error_text, Error,
  if◌then◌else◌,
}
use caaspay_core.Prelude.Dict.{get, put}
use caaspay_core.Transport.{StreamMeta, Env, xgroup_create, sleep, spawn, cleanup_pending}
use caaspay_core.Transport.Act.{Act, pure, ask, tell, ◌>>=◌, ◌>>◌}
use caaspay_core.Transport.Streams.{register_stream}

abbrev pub millisecond : ℕ
millisecond = 10 ^ 6

abbrev pub cleanup_key : Text → Text → Text
cleanup_key stream group = stream ++ (codes "::" ++ group)

-- LoadOrStore on `pendingCleanups`: the task is started once for each stream and group.
unfoldable pub launch_cleanup : (stream group : Text) → Act (Unit {0})
launch_cleanup stream group r =
    let key = cleanup_key stream group in
    elim (get key r.pending_cleanups) [
      | some _ ↦ (tt, r)
      | none ↦
          tell (spawn (codes "cleanup_pending_" ++ group) (cleanup_pending stream group))
            (record r { pending_cleanups = put key true r.pending_cleanups })
    ]

-- The metadata that counts is what `register_stream` returns.
unfoldable pub register_group : (group stream : Text) → StreamMeta → Act (Option Error)
unfolding launch_cleanup register_stream
register_group group stream meta = do
  registered ← register_stream stream (record meta { group = group })
  if registered.to_clean_pending then launch_cleanup stream group else pure tt
  pure none

module _ (e : Env) where
  -- The error that counts after one attempt: a group that exists is none, and after NOGROUP the
  -- command is sent once more.
  unfoldable pub settle_group : (group stream : Text) → Option Error → Act (Option Error)
  settle_group group stream none = pure none
  settle_group group stream (some x) =
      if contains (error_text x) (codes "BUSYGROUP")
      then pure none
      else if contains (error_text x) (codes "NOGROUP")
      then (do tell (sleep (50 * millisecond)); ask e.status (xgroup_create stream group))
      else pure (some x)

  unfoldable pub finish_group :
      (group stream : Text) → StreamMeta → Option Error → Act (Option Error)
  finish_group group stream meta none = register_group group stream meta
  finish_group group stream meta (some x) = pure (some x)

  unfoldable pub ensure_consumer_group : (group stream : Text) → StreamMeta → Act (Option Error)
  unfolding settle_group finish_group register_group
  ensure_consumer_group group stream meta = do
    failed ← ask e.status (xgroup_create stream group)
    settled ← settle_group group stream failed
    finish_group group stream meta settled
