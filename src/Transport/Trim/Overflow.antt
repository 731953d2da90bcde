-- ===== src/Transport/Trim/Overflow.antt =====
-- What a visit of the periodic trim records and trims.
use caaspay_core.Prelude.{
  subst, ℕ, ◌≡◌, refl, sym, ap, ◌∙◌, Bool, true, false, Text, Option-cases, Bool-cases, inl, inr,
  List, [], ◌∷◌, arith, Result, ok, err, ltb,
}
use caaspay_core.Prelude.Dict.{get-put_self}
use caaspay_core.Transport.{
  RedisTransport, StreamMeta, StreamStats, ConsumerGroup, Client, single, cluster, other_client,
  Env, ctx_err, xinfo_stream, xinfo_groups, xinfo_consumers, xtrim,
}
use caaspay_core.Transport.Act.{ask}
use caaspay_core.Transport.Calls.{count_calls, is_trim}
use caaspay_core.Transport.Streams.{is_stream_overflowing}
use caaspay_core.Transport.Trim.{
  collect_groups, with_groups, with_info, collect_stream_stats, trimmed, send_trim, trim_stream,
  is_lagging, store_overflowing, trim_measured, trim_visit,
}

module _ (e : Env) (stream : Text) where
  abbrev trims : RedisTransport → ℕ
  trims r = count_calls (is_trim stream) r.history

  -- Reading the statistics leaves the registry and the bound alone, and trims nothing.
  abbrev Quiet : RedisTransport → RedisTransport → Type 0
  Quiet r s =
      (s.streams_created ≡ r.streams_created)
      × (s.stream_trim_max_len ≡ r.stream_trim_max_len)
      × (trims s ≡ trims r)

  groups-Quiet :
      (gs : List ConsumerGroup) (r : RedisTransport) → Quiet r (collect_groups e stream gs r).1
  unfolding collect_groups
  groups-Quiet [] r = (refl, refl, refl)
  groups-Quiet (g ∷ gs) r = groups-Quiet gs (ask e.consumers (xinfo_consumers stream g.name) r).1

  with_groups-Quiet :
      (len : ℕ) (o : Result (List ConsumerGroup)) (r : RedisTransport)
      → Quiet r (with_groups e stream len o r).1
  unfolding with_groups
  with_groups-Quiet len (err x) r = (refl, refl, refl)
  with_groups-Quiet len (ok gs) r = groups-Quiet gs r

  with_info-Quiet : (o : Result ℕ) (r : RedisTransport) → Quiet r (with_info e stream o r).1
  unfolding with_info
  with_info-Quiet (err x) r = (refl, refl, refl)
  with_info-Quiet (ok len) r =
      let (groups, s) = ask e.groups (xinfo_groups stream) r in with_groups-Quiet len groups s

  stats-Quiet : (r : RedisTransport) → Quiet r (collect_stream_stats e stream r).1
  unfolding collect_stream_stats
  stats-Quiet r = elim (Option-cases (e.cancelled (ctx_err ∷ r.history))) [
    | inl p ↦
        let r₁ = (ask e.cancelled ctx_err r).1 in
        let (info, r₂) = ask e.number (xinfo_stream stream) r₁ in
        rw (collect_stream_stats, p) (with_info-Quiet info r₂)
    | inr (x, p) ↦ rw (collect_stream_stats, p) (refl, refl, refl)
  ]

  trimmed-registry :
      (o : Result ℕ) (r : RedisTransport)
      → (trimmed e stream o r).1.streams_created ≡ r.streams_created
  unfolding trimmed
  trimmed-registry (err x) r = refl
  trimmed-registry (ok n) r = ground arith

  send_trim-registry :
      (c : Client) (r : RedisTransport)
      → (send_trim e stream c r).1.streams_created ≡ r.streams_created
  unfolding send_trim
  send_trim-registry other_client r = refl
  send_trim-registry single r =
      let (answer, s) = ask e.number (xtrim stream r.stream_trim_approx r.stream_trim_max_len) r in
      trimmed-registry answer s
  send_trim-registry cluster r =
      let (answer, s) = ask e.number (xtrim stream r.stream_trim_approx r.stream_trim_max_len) r in
      trimmed-registry answer s

  trim_stream-registry :
      (r : RedisTransport) → (trim_stream e stream r).1.streams_created ≡ r.streams_created
  unfolding trim_stream
  trim_stream-registry r = elim (Bool-cases (ltb 0 r.stream_trim_max_len)) [
    | inr p ↦ rw p refl
    | inl p ↦ elim (Option-cases (e.cancelled (ctx_err ∷ r.history))) [
      | inl q ↦ rw (p, q) (send_trim-registry r.client (ask e.cancelled ctx_err r).1)
      | inr (x, q) ↦ rw (p, q) refl
    ]
  ]

  stored-overflowing :
      (meta : StreamMeta) (b : Bool) (r : RedisTransport)
      → is_stream_overflowing stream (store_overflowing e stream meta b r).1 ≡ b
  unfolding is_stream_overflowing store_overflowing
  stored-overflowing meta b r =
      rw
        (
          is_stream_overflowing,
          get-put_self stream (record meta { overflowing = b }) r.streams_created,
        )
        refl

  stored-trims :
      (meta : StreamMeta) (b : Bool) (r : RedisTransport)
      → trims (store_overflowing e stream meta b r).1 ≡ trims r
  unfolding store_overflowing
  stored-trims meta b r = refl

  same_registry :
      (r s : RedisTransport)
      → s.streams_created ≡ r.streams_created
      → is_stream_overflowing stream s ≡ is_stream_overflowing stream r
  unfolding is_stream_overflowing
  same_registry r s h = rw h refl

  measured_lagging :
      (meta : StreamMeta) (stats : StreamStats) (r : RedisTransport)
      → is_lagging e r.stream_trim_max_len stats.groups ≡ true
      → trim_measured e stream meta (ok stats) r ≡ (tt, (store_overflowing e stream meta true r).1)
  unfolding trim_measured
  measured_lagging meta stats r p = rw p refl

  measured_calm :
      (meta : StreamMeta) (stats : StreamStats) (r : RedisTransport)
      → is_lagging e r.stream_trim_max_len stats.groups ≡ false
      → trim_measured e stream meta (ok stats) r
        ≡ trim_stream e stream (store_overflowing e stream meta false r).1
  unfolding trim_measured
  measured_calm meta stats r p = rw p refl

  measured-overflowing :
      (meta : StreamMeta) (stats : StreamStats) (r : RedisTransport)
      → (is_stream_overflowing stream (trim_measured e stream meta (ok stats) r).1
          ≡ is_lagging e r.stream_trim_max_len stats.groups)
        × (is_lagging e r.stream_trim_max_len stats.groups ≡ true
            → trims (trim_measured e stream meta (ok stats) r).1 ≡ trims r)
  measured-overflowing meta stats r =
      elim (Bool-cases (is_lagging e r.stream_trim_max_len stats.groups)) [
        | inl p ↦
            let same = measured_lagging meta stats r p in
            (
              ap (λ x. is_stream_overflowing stream x.1) same
                  ∙ stored-overflowing meta true r
                  ∙ sym p,
              λ _. ap (λ x. trims x.1) same ∙ stored-trims meta true r,
            )
        | inr p ↦
            let same = measured_calm meta stats r p in
            let s = (store_overflowing e stream meta false r).1 in
            (
              ap (λ x. is_stream_overflowing stream x.1) same
                  ∙ same_registry s (trim_stream e stream s).1 (trim_stream-registry s)
                  ∙ stored-overflowing meta false r
                  ∙ sym p,
              λ q. absurd (ground (arith, p, q)),
            )
      ]

  visit_measures :
      (meta : StreamMeta) (stats : StreamStats) (r : RedisTransport)
      → meta.to_trim ≡ true
      → (collect_stream_stats e stream r).0 ≡ ok stats
      → trim_visit e (stream, meta) r
        ≡ trim_measured e stream meta (ok stats) (collect_stream_stats e stream r).1
  unfolding trim_visit
  visit_measures meta stats r to_trim read = simp (to_trim, read)

  -- A visit records what `is_lagging` says of the statistics, and trims nothing where that is true.
  pub trim_visit-records :
      (meta : StreamMeta) (stats : StreamStats) (r : RedisTransport)
      → meta.to_trim ≡ true
      → (collect_stream_stats e stream r).0 ≡ ok stats
      → (is_stream_overflowing stream (trim_visit e (stream, meta) r).1
          ≡ is_lagging e r.stream_trim_max_len stats.groups)
        × (is_lagging e r.stream_trim_max_len stats.groups ≡ true
            → trims (trim_visit e (stream, meta) r).1 ≡ trims r)
  trim_visit-records meta stats r to_trim read =
      let s = (collect_stream_stats e stream r).1 in
      let (_, bound, quiet) = stats-Quiet r in
      let (recorded, kept) = measured-overflowing meta stats s in
      rw (visit_measures meta stats r to_trim read) (
        subst
          (λ n.
            (is_stream_overflowing stream (trim_measured e stream meta (ok stats) s).1
              ≡ is_lagging e n stats.groups)
            × (is_lagging e n stats.groups ≡ true
                → trims (trim_measured e stream meta (ok stats) s).1 ≡ trims r))
          bound (recorded, λ q. kept q ∙ quiet))
