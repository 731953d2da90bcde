-- ===== src/Logger/Tests.antt =====
-- The theorem about the logger at a concrete input, and runs.
use caaspay_core.Prelude.{
  ◌≡◌, refl, true, none, some, Text, codes, [], ◌∷◌, has_prefix, contains, to_lower, lower, text_eq,
}
use caaspay_core.Prelude.Dict.{Dict, empty, get, put}
use caaspay_core.Message.{ctx_key_stream}
use caaspay_core.Logger.{
  level_info, level_warn, Logger, new_logger, is_sensitive_key, redact_sensitive_data, map_to_args,
  context_attrs, handled, log_at, fatal,
}
use caaspay_core.Logger.Redaction.{AgreesWith, log_at-hides}

abbrev itself : Text → Text
itself t = t

abbrev careful : Logger
careful = new_logger (codes "svc") (codes "warn") true

abbrev login : Text → Dict Text
login password = (codes "user", codes "ann") ∷ (codes "userPassword", password) ∷ []

same_logins : AgreesWith (login (codes "1234")) (login (codes "abcd"))
unfolding is_sensitive_key contains has_prefix to_lower lower
same_logins = (refl, (λ h. refl), (refl, (λ h. cc), tt))

log_at-hides_example :
    (log_at itself careful level_warn (codes "now") empty (codes "m") (some (login (codes "1234")))
      ≡ log_at itself careful level_warn
          (codes "now")
          empty
          (codes "m")
          (some (login (codes "abcd"))))
    × (fatal itself careful (codes "now") empty (codes "m") (some (login (codes "1234")))
        ≡ fatal itself careful (codes "now") empty (codes "m") (some (login (codes "abcd"))))
unfolding new_logger
log_at-hides_example =
    log_at-hides itself careful level_warn (codes "now") empty (codes "m") (login (codes "1234"))
      (login (codes "abcd")) refl same_logins

warned :
    log_at itself careful level_warn
      (codes "now")
      (put ctx_key_stream (codes "Ping") empty)
      (codes "m")
      (some (login (codes "1234")))
    ≡ record {
      level = level_warn;
      message = codes "m";
      attrs =
          (codes "user", codes "ann")
          ∷ (codes "userPassword", codes "[REDACTED]")
          ∷ (codes "service", codes "svc")
          ∷ (codes "timestamp", codes "now")
          ∷ (codes "stream", codes "Ping")
          ∷ [];
    }
      ∷ []
unfolding new_logger get put text_eq log_at map_to_args redact_sensitive_data is_sensitive_key
    contains has_prefix to_lower lower handled context_attrs
warned = refl

-- Below its level the logger writes nothing.
quiet : log_at itself careful level_info (codes "now") empty (codes "m") none ≡ []
unfolding new_logger get text_eq log_at
quiet = refl
