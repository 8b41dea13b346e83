-- ===== src/Rpc/Message/Crypt.antt =====
-- The bodies that `SendMessage` of rpc/msg.go encrypts are those that `ReadMessage` decrypts.
use rocommon.Prelude.{
  ℕ, ◌+◌, ◌^◌, ◌<◌, ◌≤◌, ◌≡◌, ◌≢◌, ◌⊎◌, inl, inr, arith, length, Bool-cases, ◌==◌,
}
use rocommon.Rpc.Fault.{ok}
use rocommon.Rpc.Aes.{Bytes, IsCipher, aes_ctr_encrypt, aes_ctr_decrypt}
use rocommon.Rpc.Aes.RoundTrip.{aes_ctr_decrypt-encrypt, aes_ctr_encrypt-key_iv}
use rocommon.Rpc.Rsa.{IsPair, rsa_decrypt-rsa_encrypt}
use rocommon.Rpc.Message.{
  Env, decrypt_body, encrypt_body, sc_hand_shake_ntf_msg_id, sc_ping_ack_msg_id,
}

-- What the documentation of the libraries and the choice of the key variables promise.
pub record IsSound (env : Env) : Type 0 where
  pub cipher_laws : IsCipher env.cipher
  pub client_pair : IsPair env.rsa env.public_client_key env.private_client_key

module _ (env : Env) (s : IsSound env) (aes_key : Bytes) where
  aes_body :
      (plain body : Bytes)
      → aes_ctr_encrypt env.cipher env.ivaes plain aes_key aes_key ≡ ok body
      → aes_ctr_decrypt env.cipher env.ivaes body aes_key aes_key ≡ ok plain
  aes_body plain body e =
      elim (aes_ctr_encrypt-key_iv env.cipher env.ivaes s.cipher_laws plain aes_key) [
        | inl (k, _) ↦
            let (ct, e1, e2, _, _) =
              aes_ctr_decrypt-encrypt env.cipher env.ivaes s.cipher_laws plain aes_key aes_key
                (ground arith) k in
            ground arith
        | inr (inl (_, bad)) ↦ ground arith
        | inr (inr (_, bad)) ↦ ground arith
      ]

  -- Whatever body `SendMessage` encrypts for a message id, under RSA, AES or not at all,
  -- `ReadMessage` decrypts to the plain body under the flag that was sent.
  pub decrypt_body-encrypt_body :
      (msg_id flag : ℕ) (plain body : Bytes)
      → encrypt_body env aes_key msg_id plain ≡ ok (flag, body)
      → (decrypt_body env aes_key msg_id flag body ≡ ok plain) × (flag < 2 ^ 16)
  unfolding encrypt_body decrypt_body
  decrypt_body-encrypt_body msg_id flag plain body h = ground (
    arith,
    aes_body plain body,
    rsa_decrypt-rsa_encrypt env.rsa env.public_client_key env.private_client_key s.client_pair plain
        body,
  )

  -- Every body is encrypted under a key of 16 bytes, or under none, for every id but that of the
  -- RSA handshake, and grows by 16 bytes at most.
  pub encrypt_body_total :
      (msg_id : ℕ) (plain : Bytes)
      → msg_id ≢ sc_hand_shake_ntf_msg_id
      → (length aes_key ≡ 0) ⊎ (length aes_key ≡ 16)
      → (flag : ℕ) × (body : Bytes) × (encrypt_body env aes_key msg_id plain ≡ ok (flag, body))
        × (length body ≤ length plain + 16)
  unfolding encrypt_body
  encrypt_body_total msg_id plain h (inl none_set) = (0, plain, ground arith, omega arith)
  encrypt_body_total msg_id plain h (inr k) = elim (Bool-cases (msg_id == sc_ping_ack_msg_id)) [
    | inl ping ↦ (0, plain, ground arith, omega arith)
    | inr other ↦
        let (ct, e1, e2, _, near) =
          aes_ctr_decrypt-encrypt env.cipher env.ivaes s.cipher_laws plain aes_key aes_key
            (ground arith) k in
        (2, ct, ground arith, near)
  ]
