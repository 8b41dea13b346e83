-- ===== src/Rpc/Tests.antt =====
-- Runs of rpc/msg.go, and its theorems at a library of one message type. PEM data starts
-- with 45; a key of RSA is its number, which encryption puts first, and base64 doubles each byte.
use rocommon.Prelude.{
  ◌==◌, if◌then◌else◌, ◌^◌, ◌≤◌, ◌≡◌, refl, inr, arith, List, [], ◌∷◌, ◌++◌, Option, none, some,
  false, length, All, ◌%◌,
}
use rocommon.Prelude.Outcome
use rocommon.Codec.{
  GoType, named, pointer, MessageInfo, Registry, empty, register_all, register_message_info,
  lookup_by, type_eq, type_name, strip_pointer, message_info_by_msg,
}
use rocommon.Rpc.Fault.{ok}
use rocommon.Rpc.Aes.{Bytes}
use rocommon.Rpc.Aes.Tests.{shift_cipher, shift_cipher-IsCipher, sample_key}
use rocommon.Rpc.Rsa.{RsaLib, rsa_encrypt}
use rocommon.Rpc.Frame.{Package, recv_package_data, frame, put_uint16, put_uint32}
use rocommon.Rpc.Writer.{WriteStep, done, TakesSome}
use rocommon.Rpc.Message.{
  Env, MsgCodec, bytes, message, transmit, TransmitPacket, read_message, frame_message,
  send_message, decrypt_body, encrypt_body, encode_message,
}
use rocommon.Rpc.Message.Crypt.{IsSound}
use rocommon.Rpc.Message.RoundTrip.{Known, read_message-frame_message, send_message-read_message}
use rocommon.Rpc.Message.Stream.{Sendable, frame_all, read_all, read_all-frame_all}
use rocommon.Rpc.Message.Faults.{recv_package_data-transmit}

pub pem : Bytes → Option Bytes
pem [] = none
pem (b ∷ bs) = if b == 45 then some bs else none

pub doubled : Bytes → Bytes
doubled [] = []
doubled (b ∷ bs) = b ∷ b ∷ doubled bs

pub halved : Bytes → Option Bytes
halved [] = some []
halved (b ∷ []) = none
halved (b ∷ c ∷ bs) =
    let rest = halved bs in
    if b == c then (elim rest [ none ↦ none | some ds ↦ some (b ∷ ds) ]) else none

halved-doubled : (bs : Bytes) → halved (doubled bs) ≡ some bs
unfolding halved doubled
halved-doubled [] = refl
halved-doubled (b ∷ bs) = ground (arith, halved-doubled bs)

pub unsealed : Bytes → Bytes → Option Bytes
unsealed key [] = none
unsealed [] (b ∷ bs) = none
unsealed (k ∷ key) (b ∷ bs) = if k == b then some bs else none

pub sealed : Bytes → Bytes → Option Bytes
sealed [] bs = none
sealed (k ∷ key) bs = some (k ∷ bs)

abbrev sample_rsa : RsaLib
sample_rsa = record {
  pem_decode = pem;
  parse_public = λ k. some k;
  parse_private = λ k. some k;
  encrypt = sealed;
  decrypt = unsealed;
  base64_encode = doubled;
  base64_decode = halved;
}

abbrev pub env : Env
env = record {
  cipher = shift_cipher;
  ivaes = [];
  rsa = sample_rsa;
  private_key = 45 ∷ 8 ∷ [];
  private_client_key = 45 ∷ 7 ∷ [];
  public_client_key = 45 ∷ 7 ∷ [];
  private_server_key = [];
}

pub env-IsSound : IsSound env
unfolding pem sealed unsealed
env-IsSound = record {
  cipher_laws = shift_cipher-IsCipher;
  client_pair = record {
    public_block = 7 ∷ [];
    private_block = 7 ∷ [];
    public_key = 7 ∷ [];
    private_key = 7 ∷ [];
    public_pem = refl;
    private_pem = refl;
    public_parsed = refl;
    private_parsed = refl;
    key_pair = λ text cipher e. ground (arith, e);
    base64_back = halved-doubled;
  };
}

-- Messages are byte strings, marshalled as they are.
abbrev raw_codec : MsgCodec Bytes
raw_codec = record { marshal = λ m. (bytes m, false); unmarshal = λ t d. some d }

abbrev raw_info : MessageInfo (MsgCodec Bytes)
raw_info = record { codec = raw_codec; type = named 1 7; id = 300; confirm_msg_id = 0 }

abbrev pub reg : Registry (MsgCodec Bytes)
reg = record {
  message_by_id = (300, raw_info) ∷ [];
  message_by_type = (named 1 7, raw_info) ∷ [];
  message_by_name = (7, raw_info) ∷ [];
}

abbrev pub type_of : Bytes → GoType
type_of m = pointer (named 1 7)

reg_run : register_all empty (raw_info ∷ []) ≡ Outcome.ok reg
unfolding register_all register_message_info empty lookup_by type_eq type_name strip_pointer
reg_run = refl

reg_found : message_info_by_msg reg (pointer (named 1 7)) ≡ some raw_info
unfolding message_info_by_msg lookup_by type_eq strip_pointer
reg_found = refl

pub hi-Known : Known type_of reg (5 ∷ 6 ∷ []) (5 ∷ 6 ∷ [])
hi-Known = record {
  infos = raw_info ∷ [];
  info = raw_info;
  registered = reg_run;
  found = reg_found;
  marshals = refl;
  unmarshals = refl;
  id_fits = omega arith;
}

abbrev pub hi_frame : Bytes
hi_frame = 0 ∷ 2 ∷ 1 ∷ 44 ∷ 0 ∷ 0 ∷ 0 ∷ 0 ∷ 0 ∷ 0 ∷ 5 ∷ 6 ∷ []

pub hi_frame_run :
    frame_message type_of reg env (message (5 ∷ 6 ∷ [])) [] 40960 ≡ ok (some hi_frame)
unfolding frame_message frame put_uint16 put_uint32 encode_message encrypt_body message_info_by_msg
    lookup_by type_eq strip_pointer
hi_frame_run = refl

-- The message of the RSA handshake.
abbrev shake_info : MessageInfo (MsgCodec Bytes)
shake_info = record { codec = raw_codec; type = named 1 7; id = 1006; confirm_msg_id = 0 }

abbrev shake_reg : Registry (MsgCodec Bytes)
shake_reg = record {
  message_by_id = (1006, shake_info) ∷ [];
  message_by_type = (named 1 7, shake_info) ∷ [];
  message_by_name = (7, shake_info) ∷ [];
}

shake_reg_run : register_all empty (shake_info ∷ []) ≡ Outcome.ok shake_reg
unfolding register_all register_message_info empty lookup_by type_eq type_name strip_pointer
shake_reg_run = refl

shake_found : message_info_by_msg shake_reg (pointer (named 1 7)) ≡ some shake_info
unfolding message_info_by_msg lookup_by type_eq strip_pointer
shake_found = refl

shake-Known : Known type_of shake_reg (5 ∷ 6 ∷ []) (5 ∷ 6 ∷ [])
shake-Known = record {
  infos = shake_info ∷ [];
  info = shake_info;
  registered = shake_reg_run;
  found = shake_found;
  marshals = refl;
  unmarshals = refl;
  id_fits = omega arith;
}

-- Its body is 7, 5, 6 in base64, under the flag 1.
abbrev shake_frame : Bytes
shake_frame = 0 ∷ 6 ∷ 3 ∷ 238 ∷ 0 ∷ 0 ∷ 0 ∷ 0 ∷ 0 ∷ 1 ∷ 7 ∷ 7 ∷ 5 ∷ 5 ∷ 6 ∷ 6 ∷ []

shake_frame_run :
    frame_message type_of shake_reg env (message (5 ∷ 6 ∷ [])) [] 40960 ≡ ok (some shake_frame)
unfolding frame_message frame put_uint16 put_uint32 encode_message encrypt_body message_info_by_msg
    lookup_by type_eq strip_pointer rsa_encrypt pem sealed doubled
shake_frame_run = refl

read_message-frame_message_example :
    read_message type_of shake_reg env (shake_frame ++ 9 ∷ []) 40960 [] ≡ ok (5 ∷ 6 ∷ [], 0, 9 ∷ [])
read_message-frame_message_example =
    read_message-frame_message type_of shake_reg env [] (5 ∷ 6 ∷ []) (5 ∷ 6 ∷ []) shake_frame
      (9 ∷ []) 40960 shake-Known env-IsSound (omega arith) shake_frame_run

hi-Sendable : Sendable type_of reg env sample_key 40960 (5 ∷ 6 ∷ [])
unfolding hi-Known
hi-Sendable = record {
  plain = 5 ∷ 6 ∷ [];
  known = hi-Known;
  no_handshake = omega arith;
  fits = omega arith;
}

send_message-read_message_example :
    (out : Bytes) × ((writer : List WriteStep)
      → All TakesSome writer
      → length out ≤ length writer
      → send_message type_of reg env writer (message (5 ∷ 6 ∷ [])) sample_key 40960
        ≡ ok (out, done))
    × ((rest : Bytes)
        → read_message type_of reg env (out ++ rest) 40960 sample_key ≡ ok (5 ∷ 6 ∷ [], 0, rest))
unfolding hi-Known
send_message-read_message_example =
    send_message-read_message type_of reg env sample_key (5 ∷ 6 ∷ []) (5 ∷ 6 ∷ []) 40960 hi-Known
      env-IsSound (omega arith) (omega arith) (inr refl) (omega arith)

abbrev packet : TransmitPacket
packet = record { msg_data = 5 ∷ 6 ∷ []; msg_id = 300; seq_id = 4 }

packet-frame_run :
    frame_message type_of reg env (transmit packet) [] 100 ≡ ok (some (frame 300 4 0 (5 ∷ 6 ∷ [])))
unfolding frame_message encrypt_body
packet-frame_run = refl

recv_package_data-transmit_example :
    (p : Package) × (recv_package_data (frame 300 4 0 (5 ∷ 6 ∷ []) ++ []) 100 ≡ ok (p, []))
    × (p.msg_seq_id ≡ 4)
    × (p.msg_id ≡ 300 % 2 ^ 16)
    × (decrypt_body env [] p.msg_id p.msg_flag_id p.msg_data ≡ ok (5 ∷ 6 ∷ []))
recv_package_data-transmit_example =
    recv_package_data-transmit type_of reg env [] packet (frame 300 4 0 (5 ∷ 6 ∷ [])) [] 100
      env-IsSound (omega arith) (omega arith) packet-frame_run

read_all-frame_all_example :
    (stream : Bytes) × (frame_all type_of reg env sample_key 40960
        ((5 ∷ 6 ∷ []) ∷ (5 ∷ 6 ∷ []) ∷ [])
      ≡ ok stream)
    × ((rest : Bytes)
        → read_all type_of reg env sample_key 40960 2 (stream ++ rest)
          ≡ ok ((5 ∷ 6 ∷ []) ∷ (5 ∷ 6 ∷ []) ∷ [], rest))
unfolding hi-Known
read_all-frame_all_example =
    read_all-frame_all type_of reg env sample_key 40960 ((5 ∷ 6 ∷ []) ∷ (5 ∷ 6 ∷ []) ∷ [])
      (hi-Sendable, (hi-Sendable, tt)) env-IsSound (omega arith) (inr refl)
