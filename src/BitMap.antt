-- ===== src/BitMap.antt =====
-- util/bitmap.go: a set of numbers up to `max`, one bit each. A `uint32` is a number below 2 ^ 32;
-- the `int32` counter `curNum` is its bit pattern, so that it wraps as the source's does.
pub mod Members
pub mod Counter
mod Tests
use rocommon.Prelude.{
  ℕ, zero, suc, ◌+◌, ◌-◌, ◌/◌, ◌%◌, ◌^◌, Bool, true, false, List, [], ◌∷◌, none, some, ltb, ◌==◌,
  if◌then◌else◌, get_elem?, set, replicate, bit_and, bit_or, bit_xor,
}
use rocommon.Prelude.Bits.{test_bit}
use rocommon.Prelude.Outcome.{Outcome, ok, panic}

pub record BitMap : Type 0 where
  pub bites : List ℕ
  pub max : ℕ
  pub cur_num : ℕ

abbrev pub i32 : ℕ → ℕ
i32 n = n % 2 ^ 32

pub new_bit_map : ℕ → BitMap
new_bit_map max = record { bites = replicate (max / 8 + 1) 0; max = max; cur_num = 0 }

-- `num >> 3` and `num & 0x07` are `num / 8` and `num % 8`; an index out of range panics.
pub add : BitMap → ℕ → Outcome BitMap
add a num = if ltb a.max num then ok a else elim (get_elem? a.bites (num / 8)) [
  | none ↦ panic
  | some b ↦ ok (record a {
    bites = set a.bites (num / 8) (bit_or b (2 ^ (num % 8)));
    cur_num = i32 (a.cur_num + 1);
  })
]

pub is_exist : BitMap → ℕ → Outcome Bool
is_exist a num =
    if ltb a.max num
    then ok false
    else elim (get_elem? a.bites (num / 8)) [ none ↦ panic | some b ↦ ok (test_bit b (num % 8)) ]

-- `^(1 << pos)` on a byte is `255 xor (1 << pos)`.
pub remove : BitMap → ℕ → Outcome BitMap
remove a num = if ltb a.max num then ok a else elim (get_elem? a.bites (num / 8)) [
  | none ↦ panic
  | some b ↦ ok (record a {
    bites = set a.bites (num / 8) (bit_and b (bit_xor 255 (2 ^ (num % 8))));
    cur_num = i32 (a.cur_num + (2 ^ 32 - 1));
  })
]

-- The inner loop of `cntNumProcess`: `tmpVal` is shifted right until it is 0.
pub count_byte : ℕ → ℕ → ℕ → ℕ
count_byte zero tmp_val cur_num = cur_num
count_byte (suc fuel) tmp_val cur_num = elim (tmp_val == 0) [
  | true ↦ cur_num
  | false ↦
      count_byte fuel (tmp_val / 2) (if bit_and tmp_val 1 == 0 then cur_num else i32 (cur_num + 1))
]

-- The loop of `cntNumProcess`. A byte is 0 after 8 shifts.
pub cnt_num_process : List ℕ → ℕ → ℕ
cnt_num_process [] cur_num = cur_num
cnt_num_process (b ∷ bites) cur_num = cnt_num_process bites (count_byte 8 b cur_num)

pub set_bites : BitMap → List ℕ → BitMap
set_bites a b = record a { bites = b; cur_num = cnt_num_process b 0 }
