-- ===== src/Codec.antt =====
-- base/microservice/pkg/common/transport/encryption.go, compression.go, and prepareData and
-- processData of redis_transport.go. The cryptography and zstd are the parameter `Crypto`.
pub mod RoundTrip
mod Tests
use caaspay_core.Prelude.{
  ℕ, ◌≡◌, Bool, true, false, Option, none, some, ◌++◌, Text, Bytes, codes, length, take, drop, ltb,
  if◌then◌else◌, Error, errorf, wrap, Result, ok, err, or_wrap, ◌>>=◌, error_text,
}

-- encoding/hex, crypto/aes with crypto/cipher (GCM), and github.com/klauspost/compress/zstd.
pub record Crypto : Type 0 where
  pub hex_decode : Text → Result Bytes
  pub new_cipher : Bytes → Option Error  -- aes.NewCipher
  pub new_gcm : Bytes → Option Error  -- cipher.NewGCM, over the cipher of the key
  pub nonce_size : ℕ
  pub seal : (key nonce plaintext : Bytes) → Bytes
  pub unseal : (key nonce ciphertext : Bytes) → Result Bytes  -- the method `Open`
  pub new_writer : Option Error
  pub encode_all : Bytes → Bytes
  pub new_reader : Option Error
  pub decode_all : Bytes → Result Bytes

-- What the packages document.
pub record CryptoLaws (c : Crypto) : Type 0 where
  pub unseal-seal : (k n d : Bytes) → c.unseal k n (c.seal k n d) ≡ ok d
  pub decode-encode : (d : Bytes) → c.decode_all (c.encode_all d) ≡ ok d
  pub has_reader : c.new_reader ≡ none

-- `if err != nil { return nil, … }` for a call that returns an error alone.
abbrev pub demand : Option Error → (Error → Error) → Result (Unit {0})
demand none f = ok tt
demand (some e) f = err (f e)

-- `%v` and `%s` flatten an error into the text of a new one.
flat : Text → Error → Error
flat t e = errorf (t ++ (codes ": " ++ error_text e))

or_flat : {A : Type 0} → Text → Result A → Result A
or_flat t (ok a) = ok a
or_flat t (err e) = err (flat t e)

module _ (c : Crypto) where
  -- `random` is what reading `nonce_size` bytes of crypto/rand gives. The text of the key in the
  -- second error is left out.
  unfoldable pub encrypt_aes : Result Bytes → Bytes → Text → Result Bytes
  unfolding or_flat flat
  encrypt_aes random plain hex_key = do
    key ← or_flat (codes "EncryptAES: Failed to decode hex key") (c.hex_decode hex_key)
    _ ← demand (c.new_cipher key) (wrap (codes "EncryptAES: NewCipher error"))
    _ ← demand (c.new_gcm key) (wrap (codes "EncryptAES: NewGCM error"))
    nonce ← or_wrap (codes "EncryptAES: generating nonce error") random
    ok (nonce ++ c.seal key nonce plain)

  -- The nonce stands in front of the ciphertext.
  open_sealed : Bytes → Bytes → Result Bytes
  open_sealed key coded =
      if ltb (length coded) c.nonce_size
      then err (errorf (codes "DecryptAES: data too short"))
      else or_wrap (codes "DecryptAES: open failed")
          (c.unseal key (take c.nonce_size coded) (drop c.nonce_size coded))

  unfoldable pub decrypt_aes : Bytes → Text → Result Bytes
  unfolding or_flat flat open_sealed
  decrypt_aes coded hex_key = do
    key ← or_flat (codes "DecryptAES: Failed to decode hex key") (c.hex_decode hex_key)
    _ ← demand (c.new_cipher key) (wrap (codes "DecryptAES: NewCipher error"))
    _ ← demand (c.new_gcm key) (wrap (codes "DecryptAES: NewGCM error"))
    open_sealed key coded

  unfoldable pub compress_zstd : Bytes → Result Bytes
  compress_zstd plain = do
    _ ← demand c.new_writer (wrap (codes "CompressZstd: NewWriter error"))
    ok (c.encode_all plain)

  unfoldable pub decompress_zstd : Bytes → Result Bytes
  decompress_zstd coded = do
    _ ← demand c.new_reader (wrap (codes "DecompressZstd: NewReader error"))
    or_wrap (codes "DecompressZstd: DecodeAll error") (c.decode_all coded)

-- The fields of RedisTransport that the two methods read.
pub record Coding : Type 0 where
  pub use_compression : Bool
  pub use_encryption : Bool
  pub encryption_key : Text

module _ (c : Crypto) where
  -- Compression first, then encryption. The bytes that the source returns beside an error are read
  -- by no caller.
  unfoldable pub prepare_data : Coding → Result Bytes → Bytes → Result Bytes
  prepare_data s random plain = do
    packed ← (if s.use_compression then compress_zstd c plain else ok plain)
    if s.use_encryption then encrypt_aes c random packed s.encryption_key else ok packed

  unfoldable pub process_data : Coding → Bytes → Result Bytes
  process_data s coded = do
    packed ← (if s.use_encryption then decrypt_aes c coded s.encryption_key else ok coded)
    if s.use_compression then decompress_zstd c packed else ok packed
