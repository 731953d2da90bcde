-- ===== src/Logger/Redaction.antt =====
-- What a log can tell of sensitive fields.
use caaspay_core.Prelude.{
  ◌≡◌, refl, ap, Bool, true, false, some, Text, codes, [], ◌∷◌, if◌then◌else◌,
}
use caaspay_core.Prelude.Dict.{Dict}
use caaspay_core.Message.{Context}
use caaspay_core.Logger.{
  Level, Logger, is_sensitive_key, redact_sensitive_data, map_to_args, log_at, fatal,
}

-- The same keys, and the same values but under sensitive keys.
abbrev pub AgreesWith : {V : Type 0} → Dict V → Dict V → Type 0
AgreesWith [] [] = Unit
AgreesWith [] (_ ∷ _) = ⊥
AgreesWith (_ ∷ _) [] = ⊥
AgreesWith ((k, v) ∷ fs) ((j, w) ∷ gs) =
    (k ≡ j) × (is_sensitive_key k ≡ false → v ≡ w) × AgreesWith fs gs

module _ {V : Type 0} (text : Text → V) where
  shown :
      (k : Text) (b : Bool) (v w : V)
      → (b ≡ false → v ≡ w)
      → ◌≡◌ {A = Text × V}
          (k, if b then text (codes "[REDACTED]") else v)
          (k, if b then text (codes "[REDACTED]") else w)
  shown k true v w h = refl
  shown k false v w h = ap (λ x. (k, x)) (h refl)

  redact-agree :
      (fs gs : Dict V)
      → AgreesWith fs gs
      → redact_sensitive_data text fs ≡ redact_sensitive_data text gs
  unfolding redact_sensitive_data
  redact-agree [] [] h = refl
  redact-agree [] (_ ∷ _) h = absurd h
  redact-agree (_ ∷ _) [] h = absurd h
  redact-agree ((k, v) ∷ fs) ((j, w) ∷ gs) (same_key, same_value, rest) =
      rw (← same_key, redact-agree fs gs rest)
        (ap (λ x. x ∷ redact_sensitive_data text gs) (shown k (is_sensitive_key k) v w same_value))

  -- A logger that redacts writes the same, at each level and when it signals a fatal error, for fields
  -- that differ only in the values of sensitive keys.
  pub log_at-hides :
      (l : Logger) (level : Level) (now : Text) (ctx : Context) (message : Text) (fs gs : Dict V)
      → l.redact ≡ true
      → AgreesWith fs gs
      → (log_at text l level now ctx message (some fs)
          ≡ log_at text l level now ctx message (some gs))
        × (fatal text l now ctx message (some fs) ≡ fatal text l now ctx message (some gs))
  unfolding fatal log_at map_to_args
  log_at-hides l level now ctx message fs gs redacts agree =
      rw (redacts, redact-agree fs gs agree) (refl, refl)
