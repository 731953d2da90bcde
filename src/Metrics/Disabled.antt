-- ===== src/Metrics/Disabled.antt =====
-- When the metrics record, do nothing, or panic.
use caaspay_core.Prelude.{
  ◌≡◌, refl, sym, ap, ◌∙◌, Bool, true, false, ◌||◌, Bool-cases, Option-cases, inl, inr, Option,
  none, some, Text, List, [], ◌∷◌, arith, Error, Result, ok, ℤ, pos, codes, if◌then◌else◌,
}
use caaspay_core.Prelude.Dict.{Dict, get, put}
use caaspay_core.Metrics.{
  ObservabilityConfig, Kind, counter, histogram, gauge, Metrics, setup_prometheus, finish_metrics,
  fresh_metrics, wants, new_metrics, registry, with_registry, add, add_to, create, get_or_create,
  measure, one_or_first, attributes, increment, increment_tagged, observe_histogram,
  track_active_requests,
}

-- The operations; the others are made of these.
pub data Op : Type 0 where
  increments : Text → List ℤ → Op
  increments_tagged : Text → List Text → Op
  observes : Text → ℤ → List Text → Op
  tracks : ℤ → Op

abbrev is_track : Op → Bool
is_track (tracks _) = true
is_track _ = false

abbrev pub has_track : List Op → Bool
has_track [] = false
has_track (op ∷ ops) = is_track op || has_track ops

module _ (makes : Kind → Text → Bool) where
  abbrev pub apply : Op → Metrics → Option Metrics
  apply (increments name delta) m = increment makes name delta m
  apply (increments_tagged name tags) m = increment_tagged makes name tags m
  apply (observes name value tags) m = observe_histogram makes name value tags m
  apply (tracks delta) m = track_active_requests makes delta m

  -- The operations in turn, up to the first panic.
  abbrev pub apply_all : List Op → Metrics → Option Metrics
  apply_all [] m = some m
  apply_all (op ∷ ops) m = elim (apply op m) [ none ↦ none | some n ↦ apply_all ops n ]

  -- The call ends without a panic and with a meter.
  EndsWell : Option Metrics → Type 0
  EndsWell o = (n : Metrics) × (o ≡ some n) × (n.has_meter ≡ true)

  registry-meter :
      (kind : Kind) (d : Dict Text) (m : Metrics) → (with_registry kind d m).has_meter ≡ m.has_meter
  unfolding with_registry
  registry-meter counter d m = refl
  registry-meter histogram d m = refl
  registry-meter gauge d m = refl

  create_made :
      (kind : Kind) (name : Text) (m : Metrics)
      → m.has_meter ≡ true
      → makes kind name ≡ true
      → create makes kind name m
        ≡ some (some name, with_registry kind (put name name (registry kind m)) m)
  unfolding create
  create_made kind name m ready made = ground (arith, ready, made)

  create_refused :
      (kind : Kind) (name : Text) (m : Metrics)
      → m.has_meter ≡ true
      → makes kind name ≡ false
      → create makes kind name m ≡ some (none, m)
  unfolding create
  create_refused kind name m ready refused = ground (arith, ready, refused)

  get_unknown :
      (kind : Kind) (name : Text) (m : Metrics)
      → get name (registry kind m) ≡ none
      → get_or_create makes kind name m ≡ create makes kind name m
  unfolding get_or_create
  get_unknown kind name m unknown = ground (arith, unknown)

  get_known :
      (kind : Kind) (name instrument : Text) (m : Metrics)
      → get name (registry kind m) ≡ some instrument
      → get_or_create makes kind name m ≡ some (some instrument, m)
  unfolding get_or_create
  get_known kind name instrument m known = ground (arith, known)

  module _ (kind : Kind) (amount : ℤ) (attrs : List (Text × Text)) where
    create_ready :
        (name : Text) (m : Metrics)
        → m.has_meter ≡ true
        → EndsWell (add_to makes kind amount attrs (create makes kind name m))
    unfolding add EndsWell
    create_ready name m ready = elim (Bool-cases (makes kind name)) [
      | inl made ↦
          let d = put name name (registry kind m) in
          (
            add kind name amount attrs (with_registry kind d m),
            ap (add_to makes kind amount attrs) (create_made kind name m ready made),
            registry-meter kind d m ∙ ready,
          )
      | inr refused ↦
          (m, ap (add_to makes kind amount attrs) (create_refused kind name m ready refused), ready)
    ]

    measure_ready :
        (name : Text) (m : Metrics)
        → m.has_meter ≡ true
        → EndsWell (measure makes kind name amount attrs m)
    unfolding measure add EndsWell
    measure_ready name m ready = elim (Option-cases (get name (registry kind m))) [
      | inl unknown ↦
          let (n, done, still) = create_ready name m ready in
          (n, ap (add_to makes kind amount attrs) (get_unknown kind name m unknown) ∙ done, still)
      | inr (instrument, known) ↦ (
        add kind instrument amount attrs m,
        ap (add_to makes kind amount attrs) (get_known kind name instrument m known),
        ready,
      )
    ]

  guarded_ready :
      (b : Bool) (o : Option Metrics) (m : Metrics)
      → m.has_meter ≡ true
      → EndsWell o
      → EndsWell (if b then o else some m)
  unfolding EndsWell
  guarded_ready true o m ready h = h
  guarded_ready false o m ready h = (m, refl, ready)

  apply_ready : (op : Op) (m : Metrics) → m.has_meter ≡ true → EndsWell (apply op m)
  unfolding increment increment_tagged observe_histogram track_active_requests
  apply_ready (increments name delta) m ready =
      guarded_ready m.enabled _ m ready
        (measure_ready counter (one_or_first makes delta) [] name m ready)
  apply_ready (increments_tagged name tags) m ready =
      guarded_ready m.enabled _ m ready
        (measure_ready counter (pos 1) (attributes tags) name m ready)
  apply_ready (observes name value tags) m ready =
      guarded_ready m.enabled _ m ready
        (measure_ready histogram value (attributes tags) name m ready)
  apply_ready (tracks delta) m ready =
      measure_ready gauge delta [] (codes "active_requests") m ready

  all_ready :
      (ops : List Op) (m : Metrics)
      → m.has_meter ≡ true
      → (n : Metrics) × (apply_all ops m ≡ some n)
  unfolding EndsWell
  all_ready [] m ready = (m, refl)
  all_ready (op ∷ ops) m ready =
      let (n, done, still) = apply_ready op m ready in
      let after : Option Metrics → Option Metrics =
        λ o. elim o [ none ↦ none | some x ↦ apply_all ops x ] in
      let (last, rest) = all_ready ops n still in (last, ap after done ∙ rest)

  -- A disabled state as `new_metrics` makes it.
  abbrev off : Metrics
  off = fresh_metrics false false false

  all_off : (ops : List Op) → apply_all ops off ≡ (if has_track ops then none else some off)
  unfolding increment increment_tagged observe_histogram track_active_requests measure get_or_create
      create registry get
  all_off [] = refl
  all_off (increments _ _ ∷ ops) = all_off ops
  all_off (increments_tagged _ _ ∷ ops) = all_off ops
  all_off (observes _ _ _ ∷ ops) = all_off ops
  all_off (tracks delta ∷ ops) = refl

  finished-meter :
      (cfg : ObservabilityConfig) (o : Option Error) (m : Metrics)
      → finish_metrics cfg o ≡ ok m
      → m.has_meter ≡ true
  finished-meter cfg (some x) m h = absurd (ground (arith, h))
  finished-meter cfg none m h = ground (arith, h)

  abbrev with_exporter : ObservabilityConfig → Option Error → Result Metrics
  with_exporter cfg exporter =
      finish_metrics cfg
        (if wants (codes "prometheus") cfg then setup_prometheus exporter else none)

  new_metrics-on :
      (cfg : ObservabilityConfig) (exporter : Option Error) (m : Metrics)
      → cfg.tracing_enabled ≡ true
      → new_metrics cfg exporter ≡ ok m
      → m.has_meter ≡ true
  unfolding new_metrics setup_prometheus
  new_metrics-on cfg exporter m on made =
      finished-meter cfg
        (if wants (codes "prometheus") cfg then setup_prometheus exporter else none) m
        (ap (λ b. if b then with_exporter cfg exporter else ok off) (sym on) ∙ made)

  new_metrics-off :
      (cfg : ObservabilityConfig) (exporter : Option Error) (m : Metrics)
      → cfg.tracing_enabled ≡ false
      → new_metrics cfg exporter ≡ ok m
      → m ≡ off
  unfolding new_metrics
  new_metrics-off cfg exporter m off_by made =
      let both : ok m ≡ ok off =
        sym made ∙ ap (λ b. if b then with_exporter cfg exporter else ok off) off_by in
      ground (arith, both)

  -- Metrics that NewMetrics makes never panic while tracing is enabled. While it is disabled they
  -- record nothing and keep no instrument, but the first call of TrackActiveRequests panics.
  pub new_metrics-panics :
      (cfg : ObservabilityConfig) (exporter : Option Error) (m : Metrics) (ops : List Op)
      → new_metrics cfg exporter ≡ ok m
      → (cfg.tracing_enabled ≡ true → (n : Metrics) × (apply_all ops m ≡ some n))
        × (cfg.tracing_enabled ≡ false → apply_all ops m ≡ (if has_track ops then none else some m))
  new_metrics-panics cfg exporter m ops made = (
    λ on. all_ready ops m (new_metrics-on cfg exporter m on made),
    λ disabled. rw (new_metrics-off cfg exporter m disabled made) (all_off ops),
  )
