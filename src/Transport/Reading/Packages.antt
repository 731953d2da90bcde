-- ===== src/Transport/Reading/Packages.antt =====
-- Two transports with the same packages decode alike.
use caaspay_core.Prelude.{◌≡◌, refl, ap, ◌∙◌, Text, Bytes, Result, ok, err}
use caaspay_core.Message.{decode_transport_message}
use caaspay_core.Codec.{Coding, process_data}
use caaspay_core.Transport.{Env, Entry, Body, missing, not_string, string}
use caaspay_core.Transport.Reading.{decode_entry, decode_body, decode_processed}

-- What an entry decodes to depends on the packages alone.
module _ (e d : Env) (json : e.json ≡ d.json) (crypto : e.crypto ≡ d.crypto) where
  processed-same :
      (id : Text) (o : Result Bytes) → decode_processed e id o ≡ decode_processed d id o
  unfolding decode_processed
  processed-same id (err x) = refl
  processed-same id (ok processed) = ap (λ j. decode_transport_message j processed id) json

  body-same : (c : Coding) (id : Text) (b : Body) → decode_body e c id b ≡ decode_body d c id b
  unfolding decode_body
  body-same c id missing = refl
  body-same c id not_string = refl
  body-same c id (string b) =
      ap (λ k. decode_processed e id (process_data k c b)) crypto
      ∙ processed-same id (process_data d.crypto c b)

  pub decode-same : (c : Coding) (entry : Entry) → decode_entry e c entry ≡ decode_entry d c entry
  unfolding decode_entry
  decode-same c entry = body-same c entry.id entry.body
