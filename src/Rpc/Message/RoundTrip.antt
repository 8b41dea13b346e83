-- ===== src/Rpc/Message/RoundTrip.antt =====
-- `ReadMessage` of rpc/msg.go against `SendMessage`.
use mathlib.Core.Path.{subst}
use rocommon.Prelude.{
  ℕ, ◌+◌, ◌^◌, ◌<◌, ◌≤◌, ◌≡◌, ◌≢◌, refl, ◌⊎◌, arith, length, List, ◌++◌, some, false, All,
}
use rocommon.Prelude.Outcome
use rocommon.Codec.{GoType, MessageInfo, Registry, message_info_by_msg, register_all, empty}
use rocommon.Codec.Consistent.{message_info_by_msg-by_id}
use rocommon.Rpc.Fault.{Result, ok, err, panic}
use rocommon.Rpc.Aes.{Bytes}
use rocommon.Rpc.Frame.{frame}
use rocommon.Rpc.Frame.Receive.{recv_package_data-frame}
use rocommon.Rpc.Writer.{WriteStep, done, TakesSome, write_full-done}
use rocommon.Rpc.Message.{
  Env, MsgCodec, bytes, message, encrypt_body, encode_message, decode_message, read_message,
  frame_message, send_message, sc_hand_shake_ntf_msg_id,
}
use rocommon.Rpc.Message.Crypt.{IsSound, decrypt_body-encrypt_body, encrypt_body_total}

module _ {M : Type 0} (type_of : M → GoType) where
  -- A message that the registry knows: the registrations made it, its codec marshals it to `plain`,
  -- and unmarshals that, at its type, to the message again.
  pub record Known (reg : Registry (MsgCodec M)) (msg : M) (plain : Bytes) : Type 0 where
    pub infos : List (MessageInfo (MsgCodec M))
    pub info : MessageInfo (MsgCodec M)
    pub registered : register_all empty infos ≡ Outcome.ok reg
    pub found : message_info_by_msg reg (type_of msg) ≡ some info
    pub marshals : info.codec.marshal msg ≡ (bytes plain, false)
    pub unmarshals : info.codec.unmarshal info.type plain ≡ some msg
    pub id_fits : info.id < 2 ^ 16

  module _ (reg : Registry (MsgCodec M)) (env : Env) (aes_key : Bytes) where
    pub encode-Known :
        (msg : M) (plain : Bytes) (k : Known reg msg plain)
        → encode_message type_of reg msg ≡ ok (plain, k.info)
    unfolding encode_message
    encode-Known msg plain k = ground (arith, k.found, k.marshals)

    pub decode-Known :
        (msg : M) (plain : Bytes) (k : Known reg msg plain)
        → decode_message type_of reg k.info.id plain ≡ ok (msg, k.info)
    unfolding decode_message
    decode-Known msg plain k = ground (
      arith,
      message_info_by_msg-by_id reg k.infos (type_of msg) k.info k.registered k.found,
      k.unmarshals,
    )

    pub read-frame :
        (msg : M) (plain : Bytes) (k : Known reg msg plain) (s : IsSound env) (max flag : ℕ)
        (body rest : Bytes)
        → encrypt_body env aes_key k.info.id plain ≡ ok (flag, body)
        → length body ≤ max
        → max < 2 ^ 16
        → read_message type_of reg env (frame k.info.id 0 flag body ++ rest) max aes_key
          ≡ ok (msg, 0, rest)
    unfolding read_message
    read-frame msg plain k s max flag body rest e h hm =
        let (back, hf) = decrypt_body-encrypt_body env s aes_key k.info.id flag plain body e in
        ground (
          arith,
          recv_package_data-frame k.info.id 0 flag max body rest k.id_fits (omega arith) hf hm h,
          back,
          decode-Known msg plain k,
        )

    pub frame_message-parts :
        (msg : M) (plain out : Bytes) (max : ℕ) (k : Known reg msg plain)
        (sealed : Result (ℕ × Bytes))
        → encrypt_body env aes_key k.info.id plain ≡ sealed
        → frame_message type_of reg env (message msg) aes_key max ≡ ok (some out)
        → (flag : ℕ) × (body : Bytes) × (sealed ≡ ok (flag, body))
          × (length body ≤ max)
          × (frame k.info.id 0 flag body ≡ out)
    unfolding frame_message
    frame_message-parts msg plain out max k (ok (flag, body)) e h =
        let enc = encode-Known msg plain k in
        (flag, body, refl, ground (arith, enc, k.id_fits), ground (arith, enc, k.id_fits))
    frame_message-parts msg plain out max k (err x) e h =
        absurd (ground (arith, encode-Known msg plain k, k.id_fits))
    frame_message-parts msg plain out max k panic e h =
        absurd (ground (arith, encode-Known msg plain k, k.id_fits))

    -- Where `SendMessage` puts out a package, whatever the encryption, the receiver under the same
    -- key and limit reads the message sent, with sequence number 0, and the stream stands after it.
    pub read_message-frame_message :
        (msg : M) (plain out rest : Bytes) (max : ℕ)
        → Known reg msg plain
        → IsSound env
        → max < 2 ^ 16
        → frame_message type_of reg env (message msg) aes_key max ≡ ok (some out)
        → read_message type_of reg env (out ++ rest) max aes_key ≡ ok (msg, 0, rest)
    read_message-frame_message msg plain out rest max k s hm h =
        let (flag, body, e, le, same) =
          frame_message-parts msg plain out max k (encrypt_body env aes_key k.info.id plain) refl
            h in
        subst (λ o. read_message type_of reg env (o ++ rest) max aes_key ≡ ok (msg, 0, rest)) same
          (read-frame msg plain k s max flag body rest e le hm)

    -- Under a key of 16 bytes or none, every known message but the RSA handshake is put out, if it
    -- leaves 16 bytes below the limit; a writer that takes a byte at least on each call, and enough
    -- calls, gets all of it; and the receiver reads the message.
    pub send_message-read_message :
        (msg : M) (plain : Bytes) (max : ℕ) (k : Known reg msg plain)
        → IsSound env
        → max < 2 ^ 16
        → k.info.id ≢ sc_hand_shake_ntf_msg_id
        → (length aes_key ≡ 0) ⊎ (length aes_key ≡ 16)
        → length plain + 16 ≤ max
        → (out : Bytes) × ((writer : List WriteStep)
            → All TakesSome writer
            → length out ≤ length writer
            → send_message type_of reg env writer (message msg) aes_key max ≡ ok (out, done))
          × ((rest : Bytes)
              → read_message type_of reg env (out ++ rest) max aes_key ≡ ok (msg, 0, rest))
    unfolding frame_message send_message
    send_message-read_message msg plain max k s hm hid hk hl =
        let (flag, body, e, near) = encrypt_body_total env s aes_key k.info.id plain hid hk in
        (
          frame k.info.id 0 flag body,
          λ writer takes enough. ground (
            arith,
            encode-Known msg plain k,
            e,
            k.id_fits,
            write_full-done writer (frame k.info.id 0 flag body) takes enough,
          ),
          λ rest. read-frame msg plain k s max flag body rest e (omega arith) hm,
        )
