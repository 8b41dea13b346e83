-- ===== src/Rpc/Aes/RoundTrip.antt =====
-- Encryption and decryption of rpc/aesctrcrypt.go together, and where they fail. rpc/msg.go passes
-- the key as the initialisation vector too.
use rocommon.Prelude.{◌+◌, ◌%◌, ◌≤◌, ◌≡◌, ◌≢◌, ◌⊎◌, true, arith, length}
use rocommon.Rpc.Fault.{ok, err, panic, key_len, iv_aes}
use rocommon.Rpc.Aes.{
  Bytes, BlockCipher, IsCipher, is_key_len, block_size, pkcs5_padding, aes_ctr_encrypt,
  aes_ctr_decrypt,
}
use rocommon.Rpc.Aes.Padding.{length-pkcs5_padding, pkcs5_unpadding-padding}

module _ (c : BlockCipher) (ivaes : Bytes) (p : IsCipher c) where
  -- Under a key of 16, 24 or 32 bytes and an initialisation vector of 16, every text is encrypted,
  -- to whole blocks that are at most 16 bytes longer, and decryption gives the text back.
  pub aes_ctr_decrypt-encrypt :
      (text key iv : Bytes)
      → is_key_len (length key) ≡ true
      → length iv ≡ 16
      → (cipher_text : Bytes) × (aes_ctr_encrypt c ivaes text key iv ≡ ok cipher_text)
        × (aes_ctr_decrypt c ivaes cipher_text key iv ≡ ok text)
        × (length cipher_text % 16 ≡ 0)
        × (length cipher_text ≤ length text + 16)
  unfolding aes_ctr_encrypt aes_ctr_decrypt
  aes_ctr_decrypt-encrypt text key iv hk hv =
      let padded = pkcs5_padding text block_size in
      let (whole, _, near) = length-pkcs5_padding text in
      let same = p.length-encrypt key iv padded in
      let back = p.decrypt-encrypt key iv padded hk hv whole in
      let a = p.accepts_key key hk in
      (
        c.encrypt key iv padded,
        ground (arith, a),
        ground (arith, a, back, pkcs5_unpadding-padding text 16 (omega arith) (omega arith)),
        omega arith,
        omega arith,
      )

  -- With the key for its own vector only keys of 16 bytes encrypt: those of 24 and 32 bytes are
  -- refused for the vector, all others for the key.
  pub aes_ctr_encrypt-key_iv :
      (text key : Bytes)
      → ((length key ≡ 16)
          × (aes_ctr_encrypt c ivaes text key key
              ≡ ok (c.encrypt key key (pkcs5_padding text block_size))))
        ⊎ (((length key ≡ 24) ⊎ (length key ≡ 32))
            × (aes_ctr_encrypt c ivaes text key key ≡ err iv_aes))
        ⊎ ((is_key_len (length key) ≢ true) × (aes_ctr_encrypt c ivaes text key key ≡ err key_len))
  unfolding aes_ctr_encrypt
  aes_ctr_encrypt-key_iv text key = ground (arith, p.accepts_key key, (length-pkcs5_padding text).0)

  -- A received text that is not of whole blocks makes decryption panic, under any key of 16 bytes
  -- that serves as its own vector.
  pub aes_ctr_decrypt_partial :
      (cipher_text key : Bytes)
      → length key ≡ 16
      → length cipher_text % 16 ≢ 0
      → aes_ctr_decrypt c ivaes cipher_text key key ≡ panic
  unfolding aes_ctr_decrypt
  aes_ctr_decrypt_partial cipher_text key hk partial =
      ground (arith, p.accepts_key key (ground arith))
