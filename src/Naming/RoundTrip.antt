-- ===== src/Naming/RoundTrip.antt =====
-- A valid stream configuration is read back from its name.
use caaspay_core.Prelude.{
  ◌<◌, ◌≤◌, ◌≡◌, ◌↔◌, ◌⊎◌, inl, inr, refl, sym, ap, ◌∙◌, true, false, ◌||◌, none, List, [], ◌∷◌,
  ◌++◌, append_assoc, map-append, arith, Text, codes, text_eq, text_eq_iff, ltb, Bool-cases, Lacks,
  length, is_empty, to_lower, ok, err, ok-injective, errorf,
}
use caaspay_core.Naming.{
  StreamConfig, colon, validate, stream_type_rpc, stream_type_emitter, stream_type_receiver,
  stream_type_reply, stream_type_service, check_colons, normalize, join_parts, build_stream_name,
  split, of_parts, parse_stream_name, has_colon, needs_method, no_method,
}
use caaspay_core.Naming.Parts.{
  count, length-split, split-Lacks, split-append, to_lower-Lacks, to_lower_idem, has_colon-Lacks,
}

-- No field of the configuration holds a colon.
pub record IsColonFree (c : StreamConfig) : Type 0 where
  pub kind : Lacks colon c.kind
  pub service : Lacks colon c.service
  pub method : Lacks colon c.method
  pub instance_id : Lacks colon c.instance_id

Lacks-text_eq : (t a : Text) → Lacks colon a → text_eq t a ≡ true → Lacks colon t
Lacks-text_eq t a h e = rw ((text_eq_iff t a).0 e) h

-- The five stream types hold no colon.
Lacks-known : (t : Text) → (needs_method t || no_method t) ≡ true → Lacks colon t
unfolding needs_method no_method
Lacks-known t h = elim (Bool-cases (text_eq t stream_type_rpc)) [
  | inl e ↦ Lacks-text_eq t stream_type_rpc (omega arith) e
  | inr n₁ ↦ elim (Bool-cases (text_eq t stream_type_emitter)) [
    | inl e ↦ Lacks-text_eq t stream_type_emitter (omega arith) e
    | inr n₂ ↦ elim (Bool-cases (text_eq t stream_type_receiver)) [
      | inl e ↦ Lacks-text_eq t stream_type_receiver (omega arith) e
      | inr n₃ ↦ elim (Bool-cases (text_eq t stream_type_reply)) [
        | inl e ↦ Lacks-text_eq t stream_type_reply (omega arith) e
        | inr n₄ ↦ Lacks-text_eq t stream_type_service (omega arith) (ground arith)
      ]
    ]
  ]
]

validate_kind :
    (c : StreamConfig) → validate c ≡ none → (needs_method c.kind || no_method c.kind) ≡ true
unfolding validate
validate_kind c h = ground arith

validate_colons :
    (c : StreamConfig)
    → validate c ≡ none
    → (has_colon c.service ≡ false)
      × (has_colon c.method ≡ false)
      × (has_colon c.instance_id ≡ false)
unfolding validate check_colons
validate_colons c h = ground arith

validate-IsColonFree : (c : StreamConfig) → validate c ≡ none → IsColonFree c
validate-IsColonFree c h =
    let (s, m, i) = validate_colons c h in
    record {
      kind = Lacks-known c.kind (validate_kind c h);
      service = has_colon-Lacks c.service s;
      method = has_colon-Lacks c.method m;
      instance_id = has_colon-Lacks c.instance_id i;
    }

normalize-IsColonFree : {c : StreamConfig} → IsColonFree c → IsColonFree (normalize c)
unfolding normalize
normalize-IsColonFree {c} h = record {
  kind = to_lower-Lacks c.kind h.kind;
  service = to_lower-Lacks c.service h.service;
  method = to_lower-Lacks c.method h.method;
  instance_id = to_lower-Lacks c.instance_id h.instance_id;
}

normalize_idem : (c : StreamConfig) → normalize (normalize c) ≡ normalize c
unfolding normalize
normalize_idem c = simp to_lower_idem

-- Reading the joined parts, whatever the case of the letters.
parse-join_parts :
    (k s m i : Text)
    → IsColonFree (record { kind = k; service = s; method = m; instance_id = i })
    → parse_stream_name (join_parts (record { kind = k; service = s; method = m; instance_id = i }))
      ≡ ok (normalize (record { kind = k; service = s; method = m; instance_id = i }))
unfolding parse_stream_name join_parts of_parts
parse-join_parts k s m [] h =
    rw (
      split-append colon k _ h.kind,
      split-append colon s m h.service,
      split-Lacks colon m h.method,
    )
parse-join_parts k s m (x ∷ i) h = rw (
  append_assoc,
  split-append colon k _ h.kind,
  split-append colon s _ h.service,
  split-append colon m _ h.method,
  split-Lacks colon (x ∷ i) h.instance_id,
)

-- A configuration that `Validate` accepts is read back from its stream name, in lower case.
pub parse-build :
    (cfg : StreamConfig)
    → validate cfg ≡ none
    → parse_stream_name (build_stream_name cfg) ≡ ok (normalize cfg)
unfolding build_stream_name
parse-build cfg h =
    let n = normalize cfg in
    parse-join_parts n.kind n.service n.method n.instance_id
      (normalize-IsColonFree (validate-IsColonFree cfg h))
    ∙ ap ok (normalize_idem cfg)

-- Two configurations that `Validate` accepts share a stream name exactly when they agree in lower
-- case: in type, service, method and instance.
build-eq_iff :
    (a b : StreamConfig)
    → validate a ≡ none
    → validate b ≡ none
    → (build_stream_name a ≡ build_stream_name b) ↔ (normalize a ≡ normalize b)
build-eq_iff a b va vb = (
  λ e. ok-injective (sym (parse-build a va) ∙ ap parse_stream_name e ∙ parse-build b vb),
  λ e. unfold build_stream_name in ap join_parts e,
)

of_parts-err :
    (s : Text) (ps : List Text)
    → ltb (length ps) 3 ≡ true
    → of_parts s ps ≡ err (errorf (codes "invalid stream name format: " ++ s))
unfolding of_parts
of_parts-err s [] h = refl
of_parts-err s (a ∷ []) h = refl
of_parts-err s (a ∷ b ∷ []) h = refl
of_parts-err s (a ∷ b ∷ c ∷ ps) h = absurd (ground arith)

of_parts-ok :
    (s : Text) (ps : List Text)
    → ltb (length ps) 3 ≡ false
    → (c : StreamConfig) × (of_parts s ps ≡ ok c)
unfolding of_parts
of_parts-ok s [] h = absurd (cc)
of_parts-ok s (a ∷ []) h = absurd (ground arith)
of_parts-ok s (a ∷ b ∷ []) h = absurd (ground arith)
of_parts-ok s (a ∷ b ∷ c ∷ []) h =
    (normalize (record { kind = a; service = b; method = c; instance_id = [] }), refl)
of_parts-ok s (a ∷ b ∷ c ∷ d ∷ ps) h =
    (normalize (record { kind = a; service = b; method = c; instance_id = d }), refl)

-- A text with fewer than two colons is refused, with the text in the error.
parse_refuses :
    (s : Text)
    → count colon s < 2
    → parse_stream_name s ≡ err (errorf (codes "invalid stream name format: " ++ s))
unfolding parse_stream_name
parse_refuses s h = of_parts-err s (split colon s) (rw (length-split colon s) (ground arith))

-- A text with two colons or more is accepted.
parse_accepts : (s : Text) → 2 ≤ count colon s → (c : StreamConfig) × (parse_stream_name s ≡ ok c)
unfolding parse_stream_name
parse_accepts s h = of_parts-ok s (split colon s) (rw (length-split colon s) (ground arith))

-- A text is accepted if it holds two colons or more, and otherwise refused with an error that names
-- it.
parse_decides :
    (s : Text)
    → ((2 ≤ count colon s) × ((c : StreamConfig) × (parse_stream_name s ≡ ok c)))
      ⊎ ((count colon s < 2)
          × (parse_stream_name s ≡ err (errorf (codes "invalid stream name format: " ++ s))))
parse_decides s = elim (Bool-cases (ltb (count colon s) 2)) [
  | inl e ↦ let few : count colon s < 2 = ground arith in inr (few, parse_refuses s few)
  | inr e ↦ let enough : 2 ≤ count colon s = ground arith in inl (enough, parse_accepts s enough)
]

to_lower-append : (s t : Text) → to_lower (s ++ t) ≡ to_lower s ++ to_lower t
unfolding to_lower
to_lower-append s t = rw map-append

to_lower-colon : (s : Text) → to_lower (colon ∷ s) ≡ colon ∷ to_lower s
unfolding to_lower
to_lower-colon s = refl

ruleset lower_laws = (to_lower-append, to_lower-colon, to_lower_idem)

-- A stream name holds no upper-case letter, whatever the configuration spells.
to_lower-build : (cfg : StreamConfig) → to_lower (build_stream_name cfg) ≡ build_stream_name cfg
unfolding build_stream_name
to_lower-build cfg = elim (Bool-cases (is_empty (to_lower cfg.instance_id))) [
  | inl e ↦ rw e (simp lower_laws)
  | inr e ↦ rw e (simp lower_laws)
]
