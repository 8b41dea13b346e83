-- ===== src/Socket/Processor.antt =====
-- socket/procrpc.go: the message processors of TCP and websocket sessions. What `s.Raw()` holds, and
-- what a websocket's `ReadMessage` returns, are arguments.
mod Tests
pub mod WebSocket
use rocommon.Prelude.{
  ℕ, ◌+◌, ◌≡◌, List, [], Bool, true, false, Option, none, some, ltb, if◌then◌else◌, length, drop,
  not,
}
use rocommon.Codec.{GoType, Registry}
use rocommon.Rpc.Fault.{Result, ok, err, panic, ◌>>=◌, msg_decode_failed}
use rocommon.Rpc.Aes.{Bytes}
use rocommon.Rpc.Frame.{uint16, uint32}
use rocommon.Rpc.Writer.{WriteStep, WriteEnd, done}
use rocommon.Rpc.Message.{
  Env, MsgCodec, Outgoing, decrypt_body, decode_message, read_message, frame_message, send_message,
}

-- The result of a websocket's `ReadMessage`: an error, a panic, which the library answers repeated reads
-- of a failed connection with, or a message that is binary or not.
pub data WsRead : Type 0 where
  read_error : WsRead
  read_panics : WsRead
  read : Bool → Bytes → WsRead

-- `binary.BigEndian.Uint16(raw[k:])` and `Uint32(raw[k:])`, which panic on too short a slice.
uint16_at : Bytes → ℕ → Result ℕ
uint16_at raw k = if ltb (length raw) (k + 2) then panic else ok (uint16 (drop k raw))

uint32_at : Bytes → ℕ → Result ℕ
uint32_at raw k = if ltb (length raw) (k + 4) then panic else ok (uint32 (drop k raw))

-- The header of a websocket message: id, sequence number, flag, and the rest. The length field is
-- read and not used.
pub ws_header : Bytes → Result (ℕ × ℕ × ℕ × Bytes)
unfolding uint16_at uint32_at
ws_header raw = do
  msg_len ← uint16_at raw 0
  msg_id ← uint16_at raw 2
  msg_seq_id ← uint32_at raw 4
  flag_id ← uint16_at raw 8
  ok (msg_id, msg_seq_id, flag_id, drop 10 raw)

module _ {M : Type 0} (type_of : M → GoType) (reg : Registry (MsgCodec M)) (env : Env) where
  -- `TCPMessageProcessor.OnRecvMsg`: message, sequence number, rest of the stream. With no reader it
  -- returns a nil message and no error. The read deadline is set around the call.
  pub tcp_on_recv_msg : Option Bytes → ℕ → Bytes → Result (Option M × ℕ × Bytes)
  tcp_on_recv_msg none max_msg_len aes_key = ok (none, 0, [])
  tcp_on_recv_msg (some reader) max_msg_len aes_key =
      read_message type_of reg env reader max_msg_len aes_key >>= λ r. ok (some (r.0), r.1, r.2)

  -- `TCPMessageProcessor.OnSendMsg`; both branches on the node's name make the same call.
  pub tcp_on_send_msg : Option (List WriteStep) → Outgoing M → ℕ → Bytes → Result (Bytes × WriteEnd)
  tcp_on_send_msg none msg max_msg_len aes_key = ok ([], done)
  tcp_on_send_msg (some writer) msg max_msg_len aes_key =
      send_message type_of reg env writer msg aes_key max_msg_len

  -- The part of `WSMessageProcessor.OnRecvMsg` after the read: the same decryption and decoding as in
  -- `ReadMessage`.
  ws_message : Bytes → Bytes → Result (Option M × ℕ)
  ws_message raw aes_key = do
    (msg_id, msg_seq_id, flag_id, sealed) ← ws_header raw
    msg_data ← decrypt_body env aes_key msg_id flag_id sealed
    elim (decode_message type_of reg msg_id msg_data) [
      | ok (msg, info) ↦ ok (some msg, msg_seq_id)
      | err e ↦ err msg_decode_failed
      | panic ↦ panic
    ]

  -- `WSMessageProcessor.OnRecvMsg`. A failed read, and a message that is not binary, return a nil
  -- message and no error.
  pub ws_on_recv_msg : Option WsRead → Bytes → Result (Option M × ℕ)
  unfolding ws_message
  ws_on_recv_msg none aes_key = ok (none, 0)
  ws_on_recv_msg (some read_error) aes_key = ok (none, 0)
  ws_on_recv_msg (some read_panics) aes_key = panic
  ws_on_recv_msg (some (read false raw)) aes_key = ok (none, 0)
  ws_on_recv_msg (some (read true raw)) aes_key = ws_message raw aes_key

  -- `WSMessageProcessor.OnSendMsg`: what is handed to the websocket, if anything. `is_ws_client` says
  -- that the node's name is "wsclient".
  unfoldable pub ws_on_send_msg : Bool → Bool → Outgoing M → ℕ → Bytes → Result (Option Bytes)
  ws_on_send_msg has_conn is_ws_client msg max_msg_len aes_key =
      if not has_conn
      then ok none
      else if not is_ws_client
      then ok none
      else frame_message type_of reg env msg aes_key max_msg_len
