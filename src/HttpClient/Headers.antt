-- ===== src/HttpClient/Headers.antt =====
-- base/microservice/internal/httpclient/http_client.go: which headers a request has.
use caaspay_core.Prelude.{
  ◌≡◌, ◌≢◌, sym, ◌∙◌, true, false, some, Text, text_eq, text_eq_iff, text_eq-ne, [], ◌⊎◌, Bool, ◌∷◌,
  arith, inl, inr, ap, refl, Bool-cases, subst,
}
use caaspay_core.Prelude.Dict.{Dict, get, put, get-put}
use caaspay_core.Metrics.{Kind}
use caaspay_core.HttpClient.{ComplianceReporter, Http, set_headers}

-- The map has the entry.
abbrev pub Has : (k v : Text) → Dict Text → Type 0
Has k v [] = ⊥
Has k v ((j, w) ∷ m) = ((j ≡ k) × (w ≡ v)) ⊎ Has k v m

-- Each key stands once.
abbrev pub IsMap : Dict Text → Type 0
IsMap [] = Unit
IsMap ((k, v) ∷ m) = ((w : Text) → ¬ Has k w m) × IsMap m

put-first :
    (k v j w i u : Text) (m : Dict Text)
    → text_eq i k ≡ true
    → Has j w (put k v ((i, u) ∷ m))
    → ((k ≡ j) × (v ≡ w)) ⊎ Has j w m
unfolding put
put-first k v j w i u m p found = rw p at found

put-later :
    (k v j w i u : Text) (m : Dict Text)
    → text_eq i k ≡ false
    → Has j w (put k v ((i, u) ∷ m))
    → ((i ≡ j) × (u ≡ w)) ⊎ Has j w (put k v m)
unfolding put
put-later k v j w i u m p found = rw p at found

-- An entry of a map after a key was set is the new one, or an older one with another key.
pub Has-put :
    (k v j w : Text) (m : Dict Text)
    → IsMap m
    → Has j w (put k v m)
    → ((j ≡ k) × (w ≡ v)) ⊎ ((j ≢ k) × Has j w m)
unfolding put
Has-put k v j w [] h (inl (p, q)) = inl (sym p, sym q)
Has-put k v j w [] h (inr none_there) = elim none_there [ ]
Has-put k v j w ((i, u) ∷ m) (alone, h) found = elim (Bool-cases (text_eq i k)) [
  | inl p ↦
      let same = (text_eq_iff i k).0 p in
      let now : ((k ≡ j) × (v ≡ w)) ⊎ Has j w m = put-first k v j w i u m p found in
      elim now [
        | inl (a, b) ↦ inl (sym a, sym b)
        | inr old ↦ inr (λ q. alone w (subst (λ x. Has x w m) (q ∙ sym same) old), inr old)
      ]
  | inr p ↦
      let now : ((i ≡ j) × (u ≡ w)) ⊎ Has j w (put k v m) = put-later k v j w i u m p found in
      elim now [
        | inl (a, b) ↦
            inr (
              λ q. let t = (text_eq_iff i k).1 (a ∙ q) in absurd (ground (arith, p, t)),
              inl (a, b),
            )
        | inr older ↦ elim (Has-put k v j w m h older) [
          | inl new ↦ inl new
          | inr (ne, old) ↦ inr (ne, inr old)
        ]
      ]
]

pub Has-put_self : (k v : Text) (m : Dict Text) → Has k v (put k v m)
unfolding put
Has-put_self k v [] = inl (refl, refl)
Has-put_self k v ((i, u) ∷ m) = elim (Bool-cases (text_eq i k)) [
  | inl p ↦ rw p (inl (refl, refl))
  | inr p ↦ rw p (inr (Has-put_self k v m))
]

pub Has-put_other : (k v j w : Text) (m : Dict Text) → j ≢ k → Has j w m → Has j w (put k v m)
unfolding put
Has-put_other k v j w [] ne found = elim found [ ]
Has-put_other k v j w ((i, u) ∷ m) ne found = elim (Bool-cases (text_eq i k)) [
  | inl p ↦
      let same = (text_eq_iff i k).0 p in
      elim found [ inl (a, b) ↦ absurd (ne (sym a ∙ same)) | inr old ↦ rw p (inr old) ]
  | inr p ↦ elim found [
    | inl both ↦ rw p (inl both)
    | inr old ↦ rw p (inr (Has-put_other k v j w m ne old))
  ]
]

module _ {R : Type 0} (makes : Kind → Text → Bool) (http : Http R) (reporter : ComplianceReporter)
    (user_agent : Text) where
  abbrev pub headers_of : Dict Text → Dict Text → Dict Text
  headers_of headers set = set_headers makes http reporter user_agent headers set

  put-hit : (k v c : Text) (set : Dict Text) → k ≡ c → get c (put k v set) ≡ some v
  put-hit k v c set p = rw (get-put, (text_eq_iff k c).1 p) refl

  put-miss : (k v c : Text) (set : Dict Text) → k ≢ c → get c (put k v set) ≡ get c set
  put-miss k v c set p = rw (get-put, text_eq-ne k c p) refl

  -- A header that no entry names stays as it was.
  pub set_headers-others :
      (c : Text) (headers set : Dict Text)
      → ((j w : Text) → Has j w headers → http.canonical j ≢ c)
      → get c (headers_of headers set) ≡ get c set
  unfolding set_headers
  set_headers-others c [] set h = refl
  set_headers-others c ((k, v) ∷ headers) set unnamed =
      set_headers-others c headers (put (http.canonical k) v set) (λ j w h. unnamed j w (inr h))
      ∙ put-miss (http.canonical k) v c set (unnamed k v (inl (refl, refl)))

  -- A header that is set, or that some entry names, has the value, if each entry that names it has it.
  pub set_headers-found :
      (c v : Text) (headers set : Dict Text)
      → ((j w : Text) → Has j w headers → http.canonical j ≡ c → w ≡ v)
      → ((k : Text) × (http.canonical k ≡ c) × Has k v headers) ⊎ (get c set ≡ some v)
      → get c (headers_of headers set) ≡ some v
  unfolding set_headers
  set_headers-found c v [] set same (inl (k, names, none_there)) = elim none_there [ ]
  set_headers-found c v [] set same (inr h) = h
  set_headers-found c v ((j, w) ∷ headers) set same h =
      let more : (i u : Text) → Has i u headers → http.canonical i ≡ c → u ≡ v =
        λ i u old. same i u (inr old) in
      elim (Bool-cases (text_eq (http.canonical j) c)) [
        | inl p ↦
            let named = (text_eq_iff (http.canonical j) c).0 p in
            let value = same j w (inl (refl, refl)) named in
            set_headers-found c v headers (put (http.canonical j) w set) more
              (inr (put-hit (http.canonical j) w c set named ∙ ap some value))
        | inr p ↦
            let other : http.canonical j ≢ c = λ q.
              let t = (text_eq_iff (http.canonical j) c).1 q in absurd (ground (arith, p, t)) in
            set_headers-found c v headers (put (http.canonical j) w set) more (elim h [
              | inl (k, names, inl (a, b)) ↦ absurd (other (ap http.canonical a ∙ names))
              | inl (k, names, inr old) ↦ inl (k, names, old)
              | inr q ↦ inr (put-miss (http.canonical j) w c set other ∙ q)
            ])
      ]
