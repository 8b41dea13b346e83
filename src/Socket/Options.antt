-- ===== src/Socket/Options.antt =====
-- socket/socketoption.go: the options of a node's sockets. Sizes and durations are Go's signed integers.
mod Tests
use rocommon.Prelude.{
  All, ℕ, zero, suc, ◌≤◌, ◌<◌, ◌^◌, List, [], ◌∷◌, Bool, true, false, Option, none, some, leb,
  if◌then◌else◌, ◌≡◌, refl, arith, if_holds,
}
use rocommon.Text.{ℤ, pos, negsuc}

pub record NetTcpSocketOption : Type 0 where
  pub read_buffer_size : ℤ
  pub write_buffer_size : ℤ
  pub read_timeout : ℤ
  pub write_timeout : ℤ
  pub no_delay : Bool
  pub max_msg_len : ℤ

-- The zero value after `Init`.
pub init_option : NetTcpSocketOption
init_option = record {
  read_buffer_size = pos 0;
  write_buffer_size = pos 0;
  read_timeout = pos 0;
  write_timeout = pos 0;
  no_delay = false;
  max_msg_len = pos 40960;
}

-- `if read > 0`
positive_or : ℤ → ℤ → ℤ
positive_or (pos (suc n)) old = pos (suc n)
positive_or n old = old

-- `if maxMsgLen >= math.MaxUint16`
cap_uint16 : ℤ → ℤ
cap_uint16 (pos n) = if leb 65535 n then pos 65535 else pos n
cap_uint16 (negsuc n) = negsuc n

-- `SetSocketBuff`
pub set_socket_buff : ℤ → ℤ → Bool → NetTcpSocketOption → NetTcpSocketOption
unfolding positive_or cap_uint16
set_socket_buff read write no_delay op = record op {
  read_buffer_size = read;
  write_buffer_size = write;
  no_delay = no_delay;
  max_msg_len = cap_uint16 (positive_or read op.max_msg_len);
}

-- `SetMaxMsgLen`
pub set_max_msg_len : ℤ → NetTcpSocketOption → NetTcpSocketOption
set_max_msg_len size op = record op { max_msg_len = size }

-- `SetSocketDeadline`
pub set_socket_deadline : ℤ → ℤ → NetTcpSocketOption → NetTcpSocketOption
set_socket_deadline read write op = record op { read_timeout = read; write_timeout = write }

-- `op.CopyOpt(opt)`: the timeouts are not copied.
pub copy_opt : NetTcpSocketOption → NetTcpSocketOption → NetTcpSocketOption
copy_opt op opt = record opt {
  max_msg_len = op.max_msg_len;
  no_delay = op.no_delay;
  read_buffer_size = op.read_buffer_size;
  write_buffer_size = op.write_buffer_size;
}

-- The options of a connection: its deadlines, and what `SocketOpt` set.
pub record ConnOptions : Type 0 where
  pub read_deadline : Option ℤ
  pub write_deadline : Option ℤ
  pub conn_no_delay : Bool
  pub conn_read_buffer : ℤ
  pub conn_write_buffer : ℤ

-- `SocketOpt` and `SocketOptWebSocket` on a TCP connection.
pub socket_opt : NetTcpSocketOption → ConnOptions → ConnOptions
socket_opt op c = record c {
  conn_no_delay = op.no_delay;
  conn_read_buffer = op.read_buffer_size;
  conn_write_buffer = op.write_buffer_size;
}

-- `SocketReadTimeout`, around a callback that uses the connection; the deadline counts from now.
pub socket_read_timeout :
    NetTcpSocketOption → (ConnOptions → ConnOptions) → ConnOptions → ConnOptions
socket_read_timeout op callback c = elim op.read_timeout [
  | pos (suc n) ↦ record (callback (record c { read_deadline = some (pos (suc n)) })) {
    read_deadline = none;
  }
  | _ ↦ callback c
]

-- `SocketWriteTimeout`
pub socket_write_timeout :
    NetTcpSocketOption → (ConnOptions → ConnOptions) → ConnOptions → ConnOptions
socket_write_timeout op callback c = elim op.write_timeout [
  | pos (suc n) ↦ record (callback (record c { write_deadline = some (pos (suc n)) })) {
    write_deadline = none;
  }
  | _ ↦ callback c
]

-- How a node's options come about: Init, then the calls above, and copies into the options of a session.
-- The list holds the sizes that SetMaxMsgLen was given.
pub data Configured : List ℤ → NetTcpSocketOption → Type 0 where
  initial : Configured [] init_option
  buffered :
      {sizes : List ℤ} {op : NetTcpSocketOption} (read write : ℤ) (no_delay : Bool)
      → Configured sizes op
      → Configured sizes (set_socket_buff read write no_delay op)
  with_deadline :
      {sizes : List ℤ} {op : NetTcpSocketOption} (read write : ℤ)
      → Configured sizes op
      → Configured sizes (set_socket_deadline read write op)
  limited :
      {sizes : List ℤ} {op : NetTcpSocketOption} (size : ℤ)
      → Configured sizes op
      → Configured (size ∷ sizes) (set_max_msg_len size op)
  copied :
      {sizes : List ℤ} {op : NetTcpSocketOption} (opt : NetTcpSocketOption)
      → Configured sizes op
      → Configured sizes (copy_opt op opt)

-- A limit that fits the length field of a frame.
abbrev pub IsLimit : ℤ → Type 0
IsLimit (pos n) = (1 ≤ n) × (n < 2 ^ 16)
IsLimit (negsuc n) = ⊥

cap_uint16-IsLimit : (n old : ℤ) → IsLimit old → IsLimit (cap_uint16 (positive_or n old))
unfolding cap_uint16 positive_or
cap_uint16-IsLimit (pos zero) (pos o) h = ground (arith, h)
cap_uint16-IsLimit (pos zero) (negsuc o) h = absurd h
cap_uint16-IsLimit (pos (suc n)) old h = ground arith
cap_uint16-IsLimit (negsuc n) (pos o) h = ground (arith, h)
cap_uint16-IsLimit (negsuc n) (negsuc o) h = absurd h

max_msg_len-IsLimit :
    (sizes : List ℤ) (op : NetTcpSocketOption)
    → Configured sizes op
    → All IsLimit sizes
    → IsLimit op.max_msg_len
unfolding init_option set_socket_buff set_socket_deadline set_max_msg_len copy_opt
max_msg_len-IsLimit sizes op initial h = (omega arith, omega arith)
max_msg_len-IsLimit sizes op (buffered {op = o} read write no_delay c) h =
    cap_uint16-IsLimit read o.max_msg_len (max_msg_len-IsLimit sizes o c h)
max_msg_len-IsLimit sizes op (with_deadline {op = o} read write c) h =
    max_msg_len-IsLimit sizes o c h
max_msg_len-IsLimit sizes op (limited size c) h = h.0
max_msg_len-IsLimit sizes op (copied {op = o} opt c) h = max_msg_len-IsLimit sizes o c h

-- Whatever buffer sizes and deadlines are set, negative ones and copies included, the limit of a message
-- is at least 1 and fits the 16 bits of the length in a frame, as long as every size given to SetMaxMsgLen
-- does; and so do the limits that SetSocketBuff with a positive read size then sets.
pub Configured-IsLimit :
    (sizes : List ℤ) (op : NetTcpSocketOption)
    → Configured sizes op
    → All IsLimit sizes
    → IsLimit op.max_msg_len
      × ((n : ℕ) (write : ℤ) (no_delay : Bool)
          → IsLimit (set_socket_buff (pos (suc n)) write no_delay op).max_msg_len)
unfolding set_socket_buff cap_uint16 positive_or
Configured-IsLimit sizes op c h =
    (max_msg_len-IsLimit sizes op c h, λ n write no_delay. ground arith)
