-- ===== src/Transport/Trim.antt =====
-- collectStreamStats, trimStream, the periodic trim that NewRedisTransport starts, and IsHealthy.
pub mod Overflow
pub mod Lags
use caaspay_core.Prelude.{
  ℕ, Bool, true, false, ◌||◌, Option, none, some, Text, codes, List, [], ◌∷◌, Error, Result, ok,
  err, ltb, if◌then◌else◌,
}
use caaspay_core.Prelude.Dict.{put}
use caaspay_core.Transport.{
  StreamMeta, StreamStats, ConsumerGroup, ConsumerDetail, Client, other_client, Env, ctx_err,
  xinfo_stream, xinfo_groups, xinfo_consumers, xtrim, observe, ping,
}
use caaspay_core.Transport.Act.{Act, pure, ask, tell, modify, ◌>>=◌, ◌>>◌, for_each}

abbrev found_consumers : Result (List ConsumerDetail) → List ConsumerDetail
found_consumers (ok cs) = cs
found_consumers (err _) = []

module _ (e : Env) where
  -- XINFO CONSUMERS of each group; a group whose consumers cannot be read keeps none.
  unfoldable pub collect_groups : Text → List ConsumerGroup → Act (List ConsumerGroup)
  collect_groups stream [] = pure []
  collect_groups stream (g ∷ gs) = do
    consumers ← ask e.consumers (xinfo_consumers stream g.name)
    rest ← collect_groups stream gs
    pure (record g { consumers = found_consumers consumers } ∷ rest)

  unfoldable pub with_groups : Text → ℕ → Result (List ConsumerGroup) → Act (Result StreamStats)
  unfolding collect_groups
  with_groups stream len (err _) = pure (ok (record { name = stream; length = len; groups = [] }))
  with_groups stream len (ok gs) = do
    groups ← collect_groups stream gs
    pure (ok (record { name = stream; length = len; groups = groups }))

  unfoldable pub with_info : Text → Result ℕ → Act (Result StreamStats)
  unfolding with_groups
  with_info stream (err x) = pure (err x)
  with_info stream (ok len) = do
    groups ← ask e.groups (xinfo_groups stream)
    with_groups stream len groups

  unfoldable pub collect_stream_stats : Text → Act (Result StreamStats)
  unfolding with_info
  collect_stream_stats stream = do
    stopped ← ask e.cancelled ctx_err
    elim stopped [
      | some x ↦ pure (err x)
      | none ↦ do info ← ask e.number (xinfo_stream stream); with_info stream info
    ]

  unfoldable pub trimmed : Text → Result ℕ → Act (Unit {0})
  trimmed stream (err _) r = (tt, r)
  trimmed stream (ok n) r =
      if r.has_metrics
      then tell (observe (codes "redis.stream.trimmed") n (codes "stream" ∷ stream ∷ [])) r
      else (tt, r)

  unfoldable pub send_trim : Text → Client → Act (Unit {0})
  unfolding trimmed
  send_trim stream other_client r = (tt, r)
  send_trim stream _ r =
      let (answer, r') = ask e.number (xtrim stream r.stream_trim_approx r.stream_trim_max_len) r in
      trimmed stream answer r'

  -- XTRIM, if a length is configured and the context is live.
  unfoldable pub trim_stream : Text → Act (Unit {0})
  unfolding send_trim
  trim_stream stream r =
      if ltb 0 r.stream_trim_max_len
      then (do
        stopped ← ask e.cancelled ctx_err
        elim stopped [ some _ ↦ pure tt | none ↦ λ s. send_trim stream s.client s ])
          r
      else (tt, r)

  -- Whether a group lags by more than the bound.
  unfoldable pub is_lagging : ℕ → List ConsumerGroup → Bool
  is_lagging bound [] = false
  is_lagging bound (g ∷ gs) = ltb bound g.lag || is_lagging bound gs

  unfoldable pub store_overflowing : Text → StreamMeta → Bool → Act (Unit {0})
  store_overflowing stream meta b = modify (λ r. record r {
    streams_created = put stream (record meta { overflowing = b }) r.streams_created;
  })

  unfoldable pub trim_measured : Text → StreamMeta → Result StreamStats → Act (Unit {0})
  unfolding store_overflowing
  trim_measured stream meta (err _) r = (tt, r)
  trim_measured stream meta (ok stats) r =
      let overflowing = is_lagging r.stream_trim_max_len stats.groups in
      let r' = (store_overflowing stream meta overflowing r).1 in
      if overflowing then (tt, r') else trim_stream stream r'

  -- The visit of one stream, with the metadata as they were when the visit began.
  unfoldable pub trim_visit : Text × StreamMeta → Act (Unit {0})
  unfolding trim_measured
  trim_visit (stream, meta) =
      if meta.to_trim
      then (do stats ← collect_stream_stats stream; trim_measured stream meta stats)
      else pure tt

  unfoldable pub periodic_trim_round : Act (Unit {0})
  periodic_trim_round r = for_each r.streams_created trim_visit r

  -- The visits of `IsHealthy` end at the first that finds the context cancelled.
  unfoldable pub health_visits : List (Text × StreamMeta) → Act (Unit {0})
  health_visits [] = pure tt
  health_visits ((stream, meta) ∷ rest) = do
    stopped ← ask e.cancelled ctx_err
    elim stopped [
      | some _ ↦ pure tt
      | none ↦ do
        if meta.to_trim then trim_stream stream else pure tt
        collect_stream_stats stream
        health_visits rest
    ]

  abbrev ponged : Option Error → Option Bool
  ponged none = some true
  ponged (some _) = some false

  unfoldable pub health_checked : List (Text × StreamMeta) → Act (Option Bool)
  unfolding health_visits
  health_checked metas = do health_visits metas; failed ← ask e.status ping; pure (ponged failed)

  unfoldable pub health_with : Bool → List (Text × StreamMeta) → Act (Option Bool)
  unfolding health_checked
  health_with true (_ ∷ _) = pure none
  health_with true [] = health_checked []
  health_with false metas = health_checked metas

  -- `none` is a panic: if the root context has a deadline, the local `ctx` stays nil, and the first
  -- visit calls a method of it. With no stream registered the nil context is handed to PING.
  unfoldable pub is_healthy : Act (Option Bool)
  unfolding health_with
  is_healthy r = health_with r.has_deadline r.streams_created r

  -- `none` is the nil error.
  unfoldable pub verify_connection : Act (Option Error)
  verify_connection = ask e.status ping
