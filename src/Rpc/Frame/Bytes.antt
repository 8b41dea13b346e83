-- ===== src/Rpc/Frame/Bytes.antt =====
-- Big-endian numbers, and a read of a whole part of a stream.
use rocommon.Prelude.{
  ℕ, ◌^◌, ◌<◌, ◌≡◌, refl, List, ◌++◌, arith, length, append-take, append-drop, length-append,
}
use rocommon.Rpc.Fault.{ok}
use rocommon.Rpc.Frame.{uint16, uint32, put_uint16, put_uint32, read_full}

pub uint16-put_uint16 : (v : ℕ) → v < 2 ^ 16 → uint16 (put_uint16 v) ≡ v
unfolding uint16 put_uint16
uint16-put_uint16 v h = omega arith

pub uint32-put_uint32 : (v : ℕ) → v < 2 ^ 32 → uint32 (put_uint32 v) ≡ v
unfolding uint32 put_uint32
uint32-put_uint32 v h = omega arith

pub read_full-append :
    (part rest : List ℕ) → read_full (length part) (part ++ rest) ≡ ok (part, rest)
unfolding read_full
read_full-append part rest =
    ground (arith, append-take part rest, append-drop part rest, length-append part rest)

pub length-put_uint16 : (v : ℕ) → length (put_uint16 v) ≡ 2
unfolding put_uint16
length-put_uint16 v = refl

pub length-put_uint32 : (v : ℕ) → length (put_uint32 v) ≡ 4
unfolding put_uint32
length-put_uint32 v = refl
