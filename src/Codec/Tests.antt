-- ===== src/Codec/Tests.antt =====
-- Runs of the codec over a small instance of its packages, and its theorems there. The instance
-- marks a ciphertext with its key and refuses any other.
use caaspay_core.Prelude.{
  ◌≡◌, refl, none, ok, err, errorf, wrap, true, ◌++◌, Bytes, codes, length, take, drop, take-append,
  drop-append, text_eq, text_eq_refl, Result, if◌then◌else◌,
}
use caaspay_core.Codec.{
  Crypto, CryptoLaws, Coding, encrypt_aes, decrypt_aes, compress_zstd, prepare_data, process_data,
}
use caaspay_core.Codec.RoundTrip.{process-prepare}

abbrev reveal : Bytes → Bytes → Bytes → Result Bytes
reveal k n d =
    if text_eq (take (length k) d) k
    then ok (drop (length k) d)
    else err (errorf (codes "cipher: message authentication failed"))

abbrev toy : Crypto
toy = record {
  hex_decode = λ t. ok t;
  new_cipher = λ k. none;
  new_gcm = λ k. none;
  nonce_size = 3;
  seal = λ k n d. k ++ d;
  unseal = reveal;
  new_writer = none;
  encode_all = λ d. d ++ codes "z";
  new_reader = none;
  decode_all = λ d. ok d;
}

reveal_lem : (k n d : Bytes) → reveal k n (k ++ d) ≡ ok d
reveal_lem k n d = rw (take-append k d, text_eq_refl k, drop-append k d)

abbrev plain_toy : Crypto
plain_toy = record toy { encode_all = λ d. d }

toy_laws : CryptoLaws plain_toy
toy_laws = record { unseal-seal = reveal_lem; decode-encode = λ d. refl; has_reader = refl }

abbrev both : Coding
both = record { use_compression = true; use_encryption = true; encryption_key = codes "ab" }

sealed_order : prepare_data toy both (ok (codes "123")) (codes "hi") ≡ ok (codes "123abhiz")
unfolding prepare_data encrypt_aes compress_zstd
sealed_order = refl

wrong_key :
    decrypt_aes toy (codes "123abhi") (codes "xy")
    ≡ err (
        wrap
          (codes "DecryptAES: open failed")
          (errorf (codes "cipher: message authentication failed")))
unfolding decrypt_aes text_eq
wrong_key = refl

too_short :
    decrypt_aes toy (codes "12") (codes "xy") ≡ err (errorf (codes "DecryptAES: data too short"))
unfolding decrypt_aes
too_short = refl

process-prepare_example : process_data plain_toy both (codes "123abhi") ≡ ok (codes "hi")
unfolding prepare_data encrypt_aes compress_zstd
process-prepare_example =
    process-prepare plain_toy toy_laws both (codes "123") (codes "hi") (codes "123abhi") (λ _. refl)
      refl
