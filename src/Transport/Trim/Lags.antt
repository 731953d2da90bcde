-- ===== src/Transport/Trim/Lags.antt =====
-- When a visit of the periodic trim finds a stream overflowing, by what Redis answers.
use caaspay_core.Prelude.{
  ℕ, ◌<◌, ◌≡◌, ◌↔◌, ◌⊎◌, refl, sym, ap, ◌∙◌, true, none, Text, inl, inr, List, [], ◌∷◌, arith, ok,
  ltb, ◌||◌, Bool-cases,
}
use caaspay_core.Transport.{
  RedisTransport, StreamMeta, ConsumerGroup, Env, ctx_err, xinfo_stream, xinfo_groups,
  xinfo_consumers,
}
use caaspay_core.Transport.Act.{ask}
use caaspay_core.Transport.Calls.{count_calls, is_trim}
use caaspay_core.Transport.Streams.{is_stream_overflowing}
use caaspay_core.Transport.Trim.{
  collect_groups, with_groups, with_info, collect_stream_stats, is_lagging, trim_visit,
}
use caaspay_core.Transport.Trim.Overflow.{trim_visit-records}

-- Some group of the stream lags by more than the bound.
abbrev pub Lags : (bound : ℕ) → List ConsumerGroup → Type 0
Lags bound [] = ⊥
Lags bound (g ∷ gs) = (bound < g.lag) ⊎ Lags bound gs

module _ (e : Env) where
  or-true :
      (n : ℕ) (g : ConsumerGroup) (gs : List ConsumerGroup)
      → is_lagging e n (g ∷ gs) ≡ true
      → (n < g.lag) ⊎ (is_lagging e n gs ≡ true)
  unfolding is_lagging
  or-true n g gs h = elim (Bool-cases (ltb n g.lag)) [
    | inl p ↦ inl (ground (arith, p))
    | inr p ↦ inr (ground (arith, p, h))
  ]

  is_lagging-Lags :
      (bound : ℕ) (gs : List ConsumerGroup) → is_lagging e bound gs ≡ true → Lags bound gs
  unfolding is_lagging
  is_lagging-Lags bound [] h = absurd (ground (arith, h))
  is_lagging-Lags bound (g ∷ gs) h = elim (or-true bound g gs h) [
    | inl p ↦ inl p
    | inr q ↦ inr (is_lagging-Lags bound gs q)
  ]

  Lags-is_lagging :
      (bound : ℕ) (gs : List ConsumerGroup) → Lags bound gs → is_lagging e bound gs ≡ true
  unfolding is_lagging
  Lags-is_lagging bound [] h = elim h [ ]
  Lags-is_lagging bound (g ∷ gs) (inl p) = ground (arith, p)
  Lags-is_lagging bound (g ∷ gs) (inr q) = ground (arith, Lags-is_lagging bound gs q)

  -- The consumers of a group do not change its lag.
  collected-lagging :
      (stream : Text) (bound : ℕ) (gs : List ConsumerGroup) (r : RedisTransport)
      → is_lagging e bound (collect_groups e stream gs r).0 ≡ is_lagging e bound gs
  unfolding is_lagging collect_groups
  collected-lagging stream bound [] r = refl
  collected-lagging stream bound (g ∷ gs) r =
      ap (λ b. ltb bound g.lag || b)
        (collected-lagging stream bound gs (ask e.consumers (xinfo_consumers stream g.name) r).1)

  module _ (stream : Text) where
    -- The transport once Redis has answered for the stream and its groups.
    abbrev read_by : RedisTransport → RedisTransport
    read_by r = record r {
      history = xinfo_groups stream ∷ xinfo_stream stream ∷ ctx_err ∷ r.history;
    }

    stats-read :
        (len : ℕ) (gs : List ConsumerGroup) (r : RedisTransport)
        → e.cancelled (ctx_err ∷ r.history) ≡ none
        → e.number (xinfo_stream stream ∷ ctx_err ∷ r.history) ≡ ok len
        → e.groups (xinfo_groups stream ∷ xinfo_stream stream ∷ ctx_err ∷ r.history) ≡ ok gs
        → (collect_stream_stats e stream r).0
          ≡ ok (record {
            name = stream;
            length = len;
            groups = (collect_groups e stream gs (read_by r)).0;
          })
    unfolding collect_stream_stats with_info with_groups
    stats-read len gs r runs long found = simp (runs, long, found)

    -- A visit of the periodic trim to a stream that is to be trimmed, where the context is not cancelled
    -- and Redis gives the stream's length and its groups, records the stream as overflowing exactly if
    -- one of those groups lags by more than the bound, and in that case trims nothing.
    pub trim_visit-overflowing :
        (meta : StreamMeta) (len : ℕ) (gs : List ConsumerGroup) (r : RedisTransport)
        → meta.to_trim ≡ true
        → e.cancelled (ctx_err ∷ r.history) ≡ none
        → e.number (xinfo_stream stream ∷ ctx_err ∷ r.history) ≡ ok len
        → e.groups (xinfo_groups stream ∷ xinfo_stream stream ∷ ctx_err ∷ r.history) ≡ ok gs
        → (is_stream_overflowing stream (trim_visit e (stream, meta) r).1 ≡ true
            ↔ Lags r.stream_trim_max_len gs)
          × (Lags r.stream_trim_max_len gs
              → count_calls (is_trim stream) (trim_visit e (stream, meta) r).1.history
                ≡ count_calls (is_trim stream) r.history)
    trim_visit-overflowing meta len gs r to_trim runs long found =
        let bound = r.stream_trim_max_len in
        let (recorded, kept) =
          trim_visit-records e stream meta _ r to_trim (stats-read len gs r runs long found) in
        let same = collected-lagging stream bound gs (read_by r) in
        (
          (
            λ p. is_lagging-Lags bound gs (sym same ∙ sym recorded ∙ p),
            λ p. recorded ∙ same ∙ Lags-is_lagging bound gs p,
          ),
          λ p. kept (same ∙ Lags-is_lagging bound gs p),
        )
