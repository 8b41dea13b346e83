-- ===== src/Rpc/Frame.antt =====
-- The header of rpc/msg.go: body length (uint16), message id (uint16), sequence number (uint32) and
-- encryption flag (uint16), big-endian, then the body.
pub mod Bytes
pub mod Receive
use rocommon.Prelude.{
  ℕ, ◌+◌, ◌*◌, ◌/◌, ◌%◌, ◌^◌, ◌≡◌, List, [], ◌∷◌, ◌++◌, Bool, ltb, leb, ◌==◌, ◌&&◌, if◌then◌else◌,
  length, take, drop, get_or,
}
use rocommon.Rpc.Fault.{Result, ok, err, panic, ◌>>=◌, eof, unexpected_eof}

-- encoding/binary, BigEndian.
unfoldable pub uint16 : List ℕ → ℕ
uint16 b = get_or b 0 0 * 256 + get_or b 1 0

unfoldable pub uint32 : List ℕ → ℕ
uint32 b = get_or b 0 0 * 2 ^ 24 + get_or b 1 0 * 2 ^ 16 + get_or b 2 0 * 256 + get_or b 3 0

unfoldable pub put_uint16 : ℕ → List ℕ
put_uint16 v = (v / 256 % 256) ∷ (v % 256) ∷ []

unfoldable pub put_uint32 : ℕ → List ℕ
put_uint32 v = (v / 2 ^ 24 % 256) ∷ (v / 2 ^ 16 % 256) ∷ (v / 256 % 256) ∷ (v % 256) ∷ []

-- `io.ReadFull` of `n` bytes: the bytes, and what the stream still holds.
pub read_full : ℕ → List ℕ → Result (List ℕ × List ℕ)
read_full n stream =
    if leb n (length stream)
    then ok (take n stream, drop n stream)
    else if length stream == 0
    then err eof
    else err unexpected_eof

pub record Package : Type 0 where
  pub msg_id : ℕ
  pub msg_seq_id : ℕ
  pub msg_flag_id : ℕ
  pub msg_data : List ℕ

-- The part of `RecvPackageData` after the header. Too long a body is logged, and the call returns
-- with no error and no data; the body stays in the stream.
recv_body : ℕ → ℕ → ℕ → ℕ → ℕ → List ℕ → Result (Package × List ℕ)
recv_body max_msg_len msg_len id seq flag stream =
    let no_data : Package = record {
      msg_id = id;
      msg_seq_id = seq;
      msg_flag_id = flag;
      msg_data = [];
    } in
    if ltb 0 msg_len && ltb (max_msg_len % 2 ^ 16) msg_len
    then ok (no_data, stream)
    else if ltb 0 msg_len
    then (read_full msg_len stream >>= λ r. ok (record no_data { msg_data = r.0 }, r.1))
    else ok (no_data, stream)

-- `RecvPackageData`. After a full read no buffer is short, so the checks of `len` never hold. The
-- values that come with an error are not used by the callers, and are left out.
pub recv_package_data : List ℕ → ℕ → Result (Package × List ℕ)
unfolding recv_body
recv_package_data reader max_msg_len = do
  (buf_msg_len, r1) ← read_full 2 reader
  (buf_id_len, r2) ← read_full 2 r1
  (buf_seq_id_len, r3) ← read_full 4 r2
  (buf_flag_len, r4) ← read_full 2 r3
  recv_body max_msg_len (uint16 buf_msg_len) (uint16 buf_id_len) (uint32 buf_seq_id_len)
      (uint16 buf_flag_len) r4

-- The part of `SendMessage` that fills `data`: the header, then the body.
unfoldable pub frame : ℕ → ℕ → ℕ → List ℕ → List ℕ
frame msg_id seq_id crypt_type msg_data =
    put_uint16 (length msg_data % 2 ^ 16)
    ++ (put_uint16 msg_id ++ (put_uint32 seq_id ++ (put_uint16 crypt_type ++ msg_data)))
