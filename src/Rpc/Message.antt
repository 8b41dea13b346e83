-- ===== src/Rpc/Message.antt =====
-- rpc/msg.go: `SendMessage`, `ReadMessage` and what they call. The type of decoded messages and
-- `reflect.TypeOf` on them are parameters; so are the libraries of `Env`. A message id is not
-- negative.
pub mod Crypt
pub mod RoundTrip
pub mod Faults
pub mod Stream
use rocommon.Prelude.{
  ℕ, ◌%◌, ◌^◌, ◌≡◌, List, [], ◌++◌, Bool, true, false, Option, none, some, ltb, ◌==◌, ◌&&◌, not,
  if◌then◌else◌, length,
}
use rocommon.Codec.{GoType, MessageInfo, Registry, message_info_by_id, message_info_by_msg}
use rocommon.Rpc.Fault.{
  Error, Result, ok, err, panic, ◌>>=◌, msg_not_register, msg_decode_failed, codec,
}
use rocommon.Rpc.Aes.{Bytes, BlockCipher, aes_ctr_encrypt, aes_ctr_decrypt}
use rocommon.Rpc.Rsa.{RsaLib, rsa_encrypt, rsa_decrypt}
use rocommon.Rpc.Frame.{Package, recv_package_data, frame}
use rocommon.Rpc.Writer.{done, WriteStep, WriteEnd, write_full}

abbrev pub sc_hand_shake_ntf_msg_id : ℕ
sc_hand_shake_ntf_msg_id = 1006

abbrev pub sc_hand_shake_ack_msg_id : ℕ
sc_hand_shake_ack_msg_id = 0

abbrev pub cs_hand_shake_req_msg_id : ℕ
cs_hand_shake_req_msg_id = 0

abbrev pub sc_ping_ack_msg_id : ℕ
sc_ping_ack_msg_id = 1001

-- What the package rests on: crypto, and the key variables of rpc/rsacrypt.go.
pub record Env : Type 0 where
  pub cipher : BlockCipher
  pub ivaes : Bytes
  pub rsa : RsaLib
  pub private_key : Bytes
  pub private_client_key : Bytes
  pub public_client_key : Bytes
  pub private_server_key : Bytes

-- The value that a codec's `Marshal` returns as an `interface{}`: a byte slice, or anything else.
pub data Marshalled : Type 0 where
  bytes : Bytes → Marshalled
  other : Marshalled

-- rocommon.Codec on messages of the type `M`. `unmarshal` is into a new value of a type.
pub record MsgCodec (M : Type 0) : Type 0 where
  pub marshal : M → Marshalled × Bool
  pub unmarshal : GoType → Bytes → Option M

-- rocommon.TransmitPacket
pub record TransmitPacket : Type 0 where
  pub msg_data : Bytes
  pub msg_id : ℕ
  pub seq_id : ℕ

-- The argument of `SendMessage`, by the cases of its type switch.
pub data Outgoing (M : Type 0) : Type 0 where
  transmit : TransmitPacket → Outgoing M
  message : M → Outgoing M

-- The body of a received package by its flag: 1 is RSA, 2 is AES.
pub decrypt_body : Env → Bytes → ℕ → ℕ → Bytes → Result Bytes
decrypt_body env aes_key msg_id flag_id msg_data =
    if flag_id == 1
    then (if msg_id == sc_hand_shake_ntf_msg_id
        then rsa_decrypt env.rsa msg_data env.private_client_key
        else if msg_id == cs_hand_shake_req_msg_id
        then rsa_decrypt env.rsa msg_data env.private_server_key
        else if msg_id == sc_hand_shake_ack_msg_id
        then rsa_decrypt env.rsa msg_data env.private_client_key
        else rsa_decrypt env.rsa msg_data env.private_key)
    else if flag_id == 2
    then aes_ctr_decrypt env.cipher env.ivaes msg_data aes_key aes_key
    else ok msg_data

-- The body to send and its flag.
unfoldable pub encrypt_body : Env → Bytes → ℕ → Bytes → Result (ℕ × Bytes)
encrypt_body env aes_key msg_id msg_data =
    if msg_id == sc_hand_shake_ntf_msg_id
    then (rsa_encrypt env.rsa msg_data env.public_client_key >>= λ d. ok (1, d))
    else if ltb 0 (length aes_key) && not (msg_id == sc_ping_ack_msg_id)
    then (aes_ctr_encrypt env.cipher env.ivaes msg_data aes_key aes_key >>= λ d. ok (2, d))
    else ok (0, msg_data)

module _ {M : Type 0} (type_of : M → GoType) (reg : Registry (MsgCodec M)) where
  -- `tempData.([]byte)`, then the error of `Marshal`. A value that is no byte slice panics before
  -- the error, here the flag, is looked at.
  take_bytes :
      Marshalled × Bool → MessageInfo (MsgCodec M) → Result (Bytes × MessageInfo (MsgCodec M))
  take_bytes (other, failed) info = panic
  take_bytes (bytes temp_data, true) info = err codec
  take_bytes (bytes temp_data, false) info = ok (temp_data, info)

  unfoldable pub encode_message : M → Result (Bytes × MessageInfo (MsgCodec M))
  unfolding take_bytes
  encode_message msg = elim (message_info_by_msg reg (type_of msg)) [
    | none ↦ err msg_not_register
    | some info ↦ take_bytes (info.codec.marshal msg) info
  ]

  pub decode_message : ℕ → Bytes → Result (M × MessageInfo (MsgCodec M))
  decode_message id data_ = elim (message_info_by_id reg id) [
    | none ↦ err msg_not_register
    | some info ↦ elim (info.codec.unmarshal info.type data_) [
      | none ↦ err codec
      | some msg ↦ ok (msg, info)
    ]
  ]

  -- `ReadMessage`: the message, its sequence number, and what the stream still holds. Each error of
  -- `DecodeMessage` is wrapped into one.
  pub read_message : Env → Bytes → ℕ → Bytes → Result (M × ℕ × Bytes)
  read_message env reader max_msg_len aes_key = do
    (p, rest) ← recv_package_data reader max_msg_len
    msg_data ← decrypt_body env aes_key p.msg_id p.msg_flag_id p.msg_data
    elim (decode_message p.msg_id msg_data) [
      | ok (msg, info) ↦ ok (msg, p.msg_seq_id, rest)
      | err e ↦ err msg_decode_failed
      | panic ↦ panic
    ]

  -- The type switch of `SendMessage`: body, id and sequence number.
  outgoing_parts : Outgoing M → Result (Bytes × ℕ × ℕ)
  outgoing_parts (transmit m) = ok (m.msg_data, m.msg_id % 2 ^ 16, m.seq_id)
  outgoing_parts (message m) = encode_message m >>= λ (data_, info). ok (data_, info.id % 2 ^ 16, 0)

  -- `SendMessage` up to the write. `none`: the body was over the limit; that is logged, and the call
  -- returns no error.
  unfoldable pub frame_message : Env → Outgoing M → Bytes → ℕ → Result (Option Bytes)
  unfolding outgoing_parts
  frame_message env msg aes_key max_msg_len = do
    (plain, msg_id, seq_id) ← outgoing_parts msg
    (crypt_type, msg_data) ← encrypt_body env aes_key msg_id plain
    if ltb max_msg_len (length msg_data)
        then ok none
        else ok (some (frame msg_id seq_id crypt_type msg_data))

  -- `SendMessage`: the bytes that reach the writer, and how the write ended.
  pub send_message : Env → List WriteStep → Outgoing M → Bytes → ℕ → Result (Bytes × WriteEnd)
  send_message env writer msg aes_key max_msg_len =
      frame_message env msg aes_key max_msg_len >>= λ r. elim r [
        | none ↦ ok ([], done)
        | some data_ ↦ ok (write_full writer data_)
      ]
