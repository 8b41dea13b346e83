-- ===== src/Rpc/Message/Faults.antt =====
-- What a peer can make of `ReadMessage` of rpc/msg.go, and what `SendMessage` drops.
use mathlib.Core.Path.{subst}
use rocommon.Prelude.{
  ℕ, ◌%◌, ◌^◌, ◌<◌, ◌≤◌, ◌≡◌, ◌≢◌, refl, arith, length, List, [], ◌++◌, none, some,
}
use rocommon.Codec.{GoType, Registry}
use rocommon.Rpc.Fault.{Result, ok, err, panic}
use rocommon.Rpc.Aes.{Bytes}
use rocommon.Rpc.Aes.RoundTrip.{aes_ctr_decrypt_partial}
use rocommon.Rpc.Rsa.{rsa_decrypt}
use rocommon.Rpc.Frame.{Package, recv_package_data, frame}
use rocommon.Rpc.Frame.Receive.{recv_package_data-frame}
use rocommon.Rpc.Writer.{WriteStep, done}
use rocommon.Rpc.Message.{
  Env, MsgCodec, transmit, TransmitPacket, decrypt_body, encrypt_body, read_message, frame_message,
  send_message,
}
use rocommon.Rpc.Message.Crypt.{IsSound, decrypt_body-encrypt_body}

module _ {M : Type 0} (type_of : M → GoType) (reg : Registry (MsgCodec M)) (env : Env)
    (aes_key : Bytes) where
  module _ (seq max : ℕ) (body rest : Bytes) (hs : seq < 2 ^ 32) (hm : max < 2 ^ 16)
      (h : length body ≤ max) where
    -- A package with id 0 and the RSA flag makes the receiver panic, whatever its body, as long as
    -- the server's private key holds no PEM data.
    pub read_message_no_server_key :
        env.rsa.pem_decode env.private_server_key ≡ none
        → read_message type_of reg env (frame 0 seq 1 body ++ rest) max aes_key ≡ panic
    unfolding read_message decrypt_body rsa_decrypt
    read_message_no_server_key e =
        ground
          (arith, recv_package_data-frame 0 seq 1 max body rest (omega arith) hs (omega arith) hm h)

    -- Under a key of 16 bytes, a package with the AES flag whose body is not of whole blocks makes the
    -- receiver panic.
    pub read_message_partial_block :
        (id : ℕ)
        → IsSound env
        → id < 2 ^ 16
        → length aes_key ≡ 16
        → length body % 16 ≢ 0
        → read_message type_of reg env (frame id seq 2 body ++ rest) max aes_key ≡ panic
    unfolding read_message decrypt_body
    read_message_partial_block id s hi hk partial = ground (
      arith,
      recv_package_data-frame id seq 2 max body rest hi hs (omega arith) hm h,
      aes_ctr_decrypt_partial env.cipher env.ivaes s.cipher_laws body aes_key hk partial,
    )

  transmit-parts :
      (m : TransmitPacket) (out : Bytes) (max : ℕ) (sealed : Result (ℕ × Bytes))
      → encrypt_body env aes_key (m.msg_id % 2 ^ 16) m.msg_data ≡ sealed
      → frame_message type_of reg env (transmit m) aes_key max ≡ ok (some out)
      → (flag : ℕ) × (body : Bytes) × (sealed ≡ ok (flag, body))
        × (length body ≤ max)
        × (frame (m.msg_id % 2 ^ 16) m.seq_id flag body ≡ out)
  unfolding frame_message
  transmit-parts m out max (ok (flag, body)) e h = (flag, body, refl, ground arith, ground arith)
  transmit-parts m out max (err x) e h = absurd (ground arith)
  transmit-parts m out max panic e h = absurd (ground arith)

  -- A relayed packet that is put out arrives with its sequence number, the low 16 bits of its id,
  -- and, once decrypted, its data.
  pub recv_package_data-transmit :
      (m : TransmitPacket) (out rest : Bytes) (max : ℕ)
      → IsSound env
      → max < 2 ^ 16
      → m.seq_id < 2 ^ 32
      → frame_message type_of reg env (transmit m) aes_key max ≡ ok (some out)
      → (p : Package) × (recv_package_data (out ++ rest) max ≡ ok (p, rest))
        × (p.msg_seq_id ≡ m.seq_id)
        × (p.msg_id ≡ m.msg_id % 2 ^ 16)
        × (decrypt_body env aes_key p.msg_id p.msg_flag_id p.msg_data ≡ ok m.msg_data)
  recv_package_data-transmit m out rest max s hm hs h =
      let id = m.msg_id % 2 ^ 16 in
      let (flag, body, e, le, same) =
        transmit-parts m out max (encrypt_body env aes_key id m.msg_data) refl h in
      let (back, hf) = decrypt_body-encrypt_body env s aes_key id flag m.msg_data body e in
      (
        record { msg_id = id; msg_seq_id = m.seq_id; msg_flag_id = flag; msg_data = body },
        subst
            (λ o.
              recv_package_data (o ++ rest) max
              ≡ ok (
                record { msg_id = id; msg_seq_id = m.seq_id; msg_flag_id = flag; msg_data = body },
                rest,
              ))
            same (recv_package_data-frame id m.seq_id flag max body rest (omega arith) hs hf hm le),
        refl,
        refl,
        back,
      )

  -- A packet whose encrypted body is over the sender's limit is dropped: nothing reaches the writer,
  -- and the call reports success.
  pub send_message_oversize :
      (m : TransmitPacket) (writer : List WriteStep) (max flag : ℕ) (body : Bytes)
      → encrypt_body env aes_key (m.msg_id % 2 ^ 16) m.msg_data ≡ ok (flag, body)
      → max < length body
      → send_message type_of reg env writer (transmit m) aes_key max ≡ ok ([], done)
  unfolding send_message frame_message
  send_message_oversize m writer max flag body e h = ground arith
