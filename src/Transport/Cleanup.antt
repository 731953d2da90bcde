-- ===== src/Transport/Cleanup.antt =====
-- cleanupStaleConsumers, CleanupOnStartup, CleanupOnShutdown and cleanupExpiredPendingMessages.
pub mod Pending
pub mod Expired
mod Tests
use caaspay_core.Prelude.{
  ℕ, suc, ◌*◌, ◌^◌, ◌&&◌, not, none, some, Text, List, [], ◌∷◌, Result, ok, err, ltb, is_empty,
  Bytes, if◌then◌else◌,
}
use caaspay_core.Message.{TransportMessage}
use caaspay_core.Transport.{
  StreamMeta, ConsumerDetail, Entry, Body, string, dead_bytes, Env, ctx_err, xinfo_consumers,
  xgroup_del_consumer, del, xgroup_destroy, xpending, xpending_ext, xrange, xack,
}
use caaspay_core.Transport.Act.{Act, pure, ask, tell, gets, ◌>>=◌, ◌>>◌, for_each}
use caaspay_core.Transport.Reading.{coding, decode_entry}
use caaspay_core.Transport.Sending.{publish_to_dlq}
use caaspay_core.Transport.Rpc.{is_expired}

abbrev pub stale_after : ℕ
stale_after = 30 * 60 * 10 ^ 9  -- 30 * time.Minute

module _ (e : Env) where
  unfoldable pub remove_stale : (stream group : Text) → ℕ → ConsumerDetail → Act (Unit {0})
  remove_stale stream group threshold c =
      if ltb threshold c.idle then tell (xgroup_del_consumer stream group c.name) else pure tt

  unfoldable pub remove_all_stale :
      (stream group : Text) → ℕ → Result (List ConsumerDetail) → Act (Unit {0})
  unfolding remove_stale
  remove_all_stale stream group threshold (err _) = pure tt
  remove_all_stale stream group threshold (ok cs) =
      for_each cs (remove_stale stream group threshold)

  unfoldable pub cleanup_stale_consumers : (stream group : Text) → ℕ → Act (Unit {0})
  unfolding remove_all_stale
  cleanup_stale_consumers stream group threshold = do
    stopped ← ask e.cancelled ctx_err
    elim stopped [
      | some _ ↦ pure tt
      | none ↦ do
        consumers ← ask e.consumers (xinfo_consumers stream group)
        remove_all_stale stream group threshold consumers
    ]

  unfoldable pub startup_visit : Text × StreamMeta → Act (Unit {0})
  startup_visit (stream, meta) =
      if meta.to_clean_pending
      then cleanup_stale_consumers stream meta.group stale_after
      else pure tt

  unfoldable pub cleanup_on_startup : Act (Unit {0})
  unfolding startup_visit
  cleanup_on_startup r = for_each r.streams_created startup_visit r

  -- What is done to one stream at shutdown: DEL, or else XGROUP DESTROY of its group.
  unfoldable pub shutdown_visit : Text → StreamMeta → Act (Unit {0})
  shutdown_visit stream meta =
      if meta.to_delete
      then tell (del stream)
      else if meta.to_clean_group && not (is_empty meta.group)
      then tell (xgroup_destroy stream meta.group)
      else pure tt

  -- The visits end at the first that finds the context cancelled.
  unfoldable pub shutdown_visits : List (Text × StreamMeta) → Act (Unit {0})
  unfolding shutdown_visit
  shutdown_visits [] = pure tt
  shutdown_visits ((stream, meta) ∷ rest) = do
    stopped ← ask e.cancelled ctx_err
    elim stopped [ some _ ↦ pure tt | none ↦ do shutdown_visit stream meta; shutdown_visits rest ]

  unfoldable pub cleanup_on_shutdown : Act (Unit {0})
  unfolding shutdown_visits
  cleanup_on_shutdown r = shutdown_visits r.streams_created r

  unfoldable pub dead_letter_expired : Text → Bytes → Act (Unit {0})
  dead_letter_expired stream raw r =
      if r.move_expired_to_dlq
      then (do publish_to_dlq e (dead_bytes stream raw); pure tt) r
      else (tt, r)

  unfoldable pub drop_expired : (stream group id : Text) → Bytes → TransportMessage → Act (Unit {0})
  unfolding dead_letter_expired
  drop_expired stream group id raw m = do
    expired ← is_expired e m
    if expired then (do tell (xack stream group id); dead_letter_expired stream raw) else pure tt

  unfoldable pub inspect_decoded :
      (stream group id : Text) → Bytes → Result TransportMessage → Act (Unit {0})
  unfolding drop_expired
  inspect_decoded stream group id raw (err _) = pure tt
  inspect_decoded stream group id raw (ok m) = drop_expired stream group id raw m

  unfoldable pub inspect_body : (stream group id : Text) → Entry → Body → Act (Unit {0})
  unfolding inspect_decoded
  inspect_body stream group id entry (string raw) = do
    decoded ← gets (λ r. decode_entry e (coding r) entry)
    inspect_decoded stream group id raw decoded
  inspect_body stream group id entry _ = pure tt

  unfoldable pub inspect_found : (stream group id : Text) → Result (List Entry) → Act (Unit {0})
  unfolding inspect_body
  inspect_found stream group id (ok (entry ∷ _)) = inspect_body stream group id entry entry.body
  inspect_found stream group id _ = pure tt

  -- One pending id: its entry is read again, and acknowledged if it is past its deadline.
  unfoldable pub inspect_pending : (stream group id : Text) → Act (Unit {0})
  unfolding inspect_found
  inspect_pending stream group id = do
    found ← ask e.range (xrange stream id)
    inspect_found stream group id found

  unfoldable pub inspect_listed : (stream group : Text) → Result (List Text) → Act (Unit {0})
  inspect_listed stream group (err _) = pure tt
  inspect_listed stream group (ok ids) = for_each ids (inspect_pending stream group)

  unfoldable pub inspect_counted : (stream group : Text) → Result ℕ → Act (Unit {0})
  unfolding inspect_listed
  inspect_counted stream group (ok (suc _)) = do
    ids ← ask e.pending_ids (xpending_ext stream group 100)
    inspect_listed stream group ids
  inspect_counted stream group _ = pure tt

  -- The error that the source returns is nil on every branch.
  unfoldable pub cleanup_expired_pending_messages : (stream group : Text) → Act (Unit {0})
  unfolding inspect_counted
  cleanup_expired_pending_messages stream group = do
    count ← ask e.number (xpending stream group)
    inspect_counted stream group count
