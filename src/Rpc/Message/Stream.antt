-- ===== src/Rpc/Message/Stream.antt =====
-- Successive calls of `SendMessage` and `ReadMessage` of rpc/msg.go on one connection, as `RunSend`
-- and `RunRecv` of socket/tcp/session.go make them.

use rocommon.Prelude.{
  ℕ, zero, suc, ◌+◌, ◌^◌, ◌<◌, ◌≤◌, ◌≡◌, ◌≢◌, refl, ◌⊎◌, arith, length, List, [], ◌∷◌, ◌++◌,
  append_assoc, none, some, All,
}
use rocommon.Codec.{GoType, Registry}
use rocommon.Rpc.Fault.{Result, ok, ◌>>=◌}
use rocommon.Rpc.Aes.{Bytes}
use rocommon.Rpc.Frame.{frame}
use rocommon.Rpc.Message.{
  Env, MsgCodec, message, read_message, frame_message, sc_hand_shake_ntf_msg_id,
}
use rocommon.Rpc.Message.Crypt.{IsSound, encrypt_body_total}
use rocommon.Rpc.Message.RoundTrip.{Known, encode-Known, read-frame}

module _ {M : Type 0} (type_of : M → GoType) (reg : Registry (MsgCodec M)) (env : Env)
    (aes_key : Bytes) (max : ℕ) where
  -- What the calls of `SendMessage` for a list of messages write; one over the limit writes nothing.
  pub frame_all : List M → Result Bytes
  frame_all [] = ok []
  frame_all (msg ∷ msgs) = frame_message type_of reg env (message msg) aes_key max >>= λ o.
      frame_all msgs >>= λ stream. elim o [ none ↦ ok stream | some out ↦ ok (out ++ stream) ]

  -- A number of calls of `ReadMessage`, one after the other, and what the stream still holds.
  pub read_all : ℕ → Bytes → Result (List M × Bytes)
  read_all zero stream = ok ([], stream)
  read_all (suc n) stream = read_message type_of reg env stream max aes_key >>= λ (msg, _, rest).
      read_all n rest >>= λ (msgs, last). ok (msg ∷ msgs, last)

  -- A message of the registry, but for the RSA handshake, that leaves 16 bytes below the limit.
  pub record Sendable (msg : M) : Type 0 where
    pub plain : Bytes
    pub known : Known type_of reg msg plain
    pub no_handshake : known.info.id ≢ sc_hand_shake_ntf_msg_id
    pub fits : length plain + 16 ≤ max

  -- The frame of one message, which is read back before any rest.
  Sendable-frame :
      (msg : M)
      → Sendable msg
      → IsSound env
      → max < 2 ^ 16
      → (length aes_key ≡ 0) ⊎ (length aes_key ≡ 16)
      → (out : Bytes) × (frame_message type_of reg env (message msg) aes_key max ≡ ok (some out))
        × ((rest : Bytes)
            → read_message type_of reg env (out ++ rest) max aes_key ≡ ok (msg, 0, rest))
  unfolding frame_message
  Sendable-frame msg m s hm hk =
      let k = m.known in
      let (flag, body, e, near) =
        encrypt_body_total env s aes_key k.info.id m.plain m.no_handshake hk in
      let h = m.fits in
      (
        frame k.info.id 0 flag body,
        ground (arith, encode-Known type_of reg env aes_key msg m.plain k, e, k.id_fits),
        λ rest.
            read-frame type_of reg env aes_key msg m.plain k s max flag body rest e (omega arith)
              hm,
      )

  -- Any list of such messages, sent one after the other under a key of 16 bytes or none, is read back
  -- by as many calls of ReadMessage, in the order sent, and the stream stands after the last one.
  pub read_all-frame_all :
      (msgs : List M)
      → All Sendable msgs
      → IsSound env
      → max < 2 ^ 16
      → (length aes_key ≡ 0) ⊎ (length aes_key ≡ 16)
      → (stream : Bytes) × (frame_all msgs ≡ ok stream)
        × ((rest : Bytes) → read_all (length msgs) (stream ++ rest) ≡ ok (msgs, rest))
  unfolding frame_all read_all
  read_all-frame_all [] all s hm hk = ([], refl, λ rest. refl)
  read_all-frame_all (msg ∷ msgs) (m, all) s hm hk =
      let (out, e, back) = Sendable-frame msg m s hm hk in
      let (stream, f, more) = read_all-frame_all msgs all s hm hk in
      (
        out ++ stream,
        ground (arith, e, f),
        λ rest. ground (arith, append_assoc out stream rest, back (stream ++ rest), more rest),
      )
