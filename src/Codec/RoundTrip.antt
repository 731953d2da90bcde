-- ===== src/Codec/RoundTrip.antt =====
-- What `prepare_data` writes, `process_data` reads back.
use caaspay_core.Prelude.{
  true, ◌≡◌, ok, false, ◌++◌, Text, Bytes, length, take-append, drop-append, ltb, arith,
  length-append,
}
use caaspay_core.Codec.{
  Crypto, CryptoLaws, Coding, encrypt_aes, decrypt_aes, compress_zstd, decompress_zstd,
  prepare_data, process_data, open_sealed,
}

ltb_append : (xs ys : Bytes) → ltb (length (xs ++ ys)) (length xs) ≡ false
ltb_append xs ys = ground (arith, length-append xs ys)

module _ (c : Crypto) (laws : CryptoLaws c) where
  open_sealed-append :
      (key nonce plain : Bytes)
      → length nonce ≡ c.nonce_size
      → open_sealed c key (nonce ++ c.seal key nonce plain) ≡ ok plain
  unfolding open_sealed
  open_sealed-append key nonce plain h = rw (
    ← h,
    ltb_append nonce (c.seal key nonce plain),
    take-append nonce (c.seal key nonce plain),
    drop-append nonce (c.seal key nonce plain),
    laws.unseal-seal key nonce plain,
  )

  -- With a nonce of the cipher's size, a text that encrypts is decrypted to itself under its key.
  decrypt-encrypt :
      (nonce plain coded : Bytes) (hex_key : Text)
      → length nonce ≡ c.nonce_size
      → encrypt_aes c (ok nonce) plain hex_key ≡ ok coded
      → decrypt_aes c coded hex_key ≡ ok plain
  unfolding encrypt_aes decrypt_aes
  decrypt-encrypt nonce plain coded hex_key h e = grind (arith, open_sealed-append)

  decompress-compress :
      (plain coded : Bytes) → compress_zstd c plain ≡ ok coded → decompress_zstd c coded ≡ ok plain
  unfolding compress_zstd decompress_zstd
  decompress-compress plain coded e = ground (arith, laws.decode-encode plain, laws.has_reader)

  -- A body that `prepareData` encodes, under any setting of the two switches, is what
  -- `processData` under the same settings gives back; the nonce has the cipher's size if there is
  -- encryption.
  pub process-prepare :
      (s : Coding) (nonce plain coded : Bytes)
      → (s.use_encryption ≡ true → length nonce ≡ c.nonce_size)
      → prepare_data c s (ok nonce) plain ≡ ok coded
      → process_data c s coded ≡ ok plain
  unfolding prepare_data process_data
  process-prepare s nonce plain coded h e = grind (arith, decrypt-encrypt, decompress-compress)
