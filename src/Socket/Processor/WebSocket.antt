-- ===== src/Socket/Processor/WebSocket.antt =====
-- The websocket processor of socket/procrpc.go.
use mathlib.Core.Path.{subst}
use rocommon.Prelude.{ℕ, ◌^◌, ◌<◌, ◌≡◌, refl, true, false, none, some, arith, length}
use rocommon.Codec.{GoType, Registry}
use rocommon.Rpc.Fault.{ok, panic}
use rocommon.Rpc.Aes.{Bytes}
use rocommon.Rpc.Frame.{uint16, uint32, put_uint16, put_uint32, frame}
use rocommon.Rpc.Message.{Env, MsgCodec, message, encrypt_body}
use rocommon.Rpc.Message.Crypt.{IsSound, decrypt_body-encrypt_body}
use rocommon.Rpc.Message.RoundTrip.{Known, decode-Known, frame_message-parts}
use rocommon.Socket.Processor.{
  read_error, read_panics, read, ws_header, ws_on_recv_msg, ws_on_send_msg,
}

ws_header-frame :
    (id seq ct : ℕ) (body : Bytes)
    → id < 2 ^ 16
    → seq < 2 ^ 32
    → ct < 2 ^ 16
    → ws_header (frame id seq ct body) ≡ ok (id, seq, ct, body)
unfolding ws_header frame uint16 uint32 put_uint16 put_uint32
ws_header-frame id seq ct body hi hs hc = ground arith

-- Less than a header of 10 bytes makes the receiver panic.
pub ws_header_short : (raw : Bytes) → length raw < 10 → ws_header raw ≡ panic
unfolding ws_header
ws_header_short raw h = ground arith

module _ {M : Type 0} (type_of : M → GoType) (reg : Registry (MsgCodec M)) (env : Env)
    (aes_key : Bytes) where
  -- What a node named "wsclient" hands to its websocket for a known message, under any encryption,
  -- is read by the peer as that message, with sequence number 0.
  pub ws_on_recv_msg-ws_on_send_msg :
      (msg : M) (plain out : Bytes) (max : ℕ)
      → Known type_of reg msg plain
      → IsSound env
      → ws_on_send_msg type_of reg env true true (message msg) max aes_key ≡ ok (some out)
      → ws_on_recv_msg type_of reg env (some (read true out)) aes_key ≡ ok (some msg, 0)
  unfolding ws_on_recv_msg ws_on_send_msg
  ws_on_recv_msg-ws_on_send_msg msg plain out max k s h =
      let (flag, body, e, le, same) =
        frame_message-parts type_of reg env aes_key msg plain out max k
          (encrypt_body env aes_key k.info.id plain) refl h in
      let (back, hf) = decrypt_body-encrypt_body env s aes_key k.info.id flag plain body e in
      subst (λ o. ws_on_recv_msg type_of reg env (some (read true o)) aes_key ≡ ok (some msg, 0))
        same
        (ground (
          arith,
          ws_header-frame k.info.id 0 flag body k.id_fits (omega arith) hf,
          back,
          decode-Known type_of reg env aes_key msg plain k,
        ))

  -- A binary message of less than 10 bytes makes the receiver panic; a failed read, and a message
  -- that is not binary, give a nil message with no error.
  pub ws_on_recv_msg_bad_input :
      (raw : Bytes)
      → (length raw < 10 → ws_on_recv_msg type_of reg env (some (read true raw)) aes_key ≡ panic)
        × (ws_on_recv_msg type_of reg env (some read_error) aes_key ≡ ok (none, 0))
        × (ws_on_recv_msg type_of reg env (some (read false raw)) aes_key ≡ ok (none, 0))
  unfolding ws_on_recv_msg
  ws_on_recv_msg_bad_input raw = (λ h. ground (arith, ws_header_short raw h), refl, refl)

  -- A panic of the read is one of the receiver.
  pub ws_on_recv_msg_panic : ws_on_recv_msg type_of reg env (some read_panics) aes_key ≡ panic
  unfolding ws_on_recv_msg
  ws_on_recv_msg_panic = refl
