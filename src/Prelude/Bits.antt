-- ===== src/Prelude/Bits.antt =====
-- Bits of a byte: the laws of `|`, `&` and `^` at one bit, by tables over all bytes.
use Prim.Native.Nat.{ℕ, zero, suc, ◌+◌, ◌^◌, ◌<◌, bit_and, bit_or, bit_xor}
use mathlib.Core.Path.{◌≡◌, refl}
use mathlib.Core.Bool.{Bool, true, not, ◌&&◌, ◌||◌}
use native.Mathlib.Omega.{arith}
use rocommon.Prelude.Tests.{ltb, ◌==◌, if◌then◌else◌}

-- `b & (1 << p) != 0`
unfoldable pub test_bit : ℕ → ℕ → Bool
test_bit b p = not (bit_and b (2 ^ p) == 0)

abbrev pub to_ℕ : Bool → ℕ
to_ℕ b = if b then 1 else 0

-- How many of the lowest `n` bits are set.
unfoldable pub ones : ℕ → ℕ → ℕ
ones zero b = 0
ones (suc n) b = ones n b + to_ℕ (test_bit b n)

-- A test of every number under a limit.
unfoldable pub all_below : (ℕ → Bool) → ℕ → Bool
all_below test zero = true
all_below test (suc limit) = all_below test limit && test limit

pub test-all_below :
    (test : ℕ → Bool) (limit k : ℕ) → k < limit → all_below test limit ≡ true → test k ≡ true
unfolding all_below
test-all_below test zero k lt passed = elim lt [ ]
test-all_below test (suc limit) k lt passed = ground (arith, test-all_below test limit k)

-- A check of all bytes and bits.
all_bits : (ℕ → ℕ → Bool) → Bool
all_bits f = all_below (λ b. all_below (f b) 8) 256

all_bits_sound : (f : ℕ → ℕ → Bool) (b p : ℕ) → all_bits f ≡ true → b < 256 → p < 8 → f b p ≡ true
unfolding all_bits
all_bits_sound f b p h hb hp =
    test-all_below (f b) 8 p hp (test-all_below (λ c. all_below (f c) 8) 256 b hb h)

same : Bool → Bool → Bool
same a b = if a then b else not b

same→eq : (a b : Bool) → same a b ≡ true → a ≡ b
unfolding same
same→eq a b h = ground arith

or_cell : ℕ → ℕ → ℕ → Bool
or_cell b p q = same (test_bit (bit_or b (2 ^ p)) q) (p == q || test_bit b q)

clear_cell : ℕ → ℕ → ℕ → Bool
clear_cell b p q =
    same (test_bit (bit_and b (bit_xor 255 (2 ^ p))) q) (not (p == q) && test_bit b q)

or_row : ℕ → ℕ → Bool
or_row b p =
    ltb (bit_or b (2 ^ p)) 256
    && (ones 8 (bit_or b (2 ^ p)) + to_ℕ (test_bit b p) == ones 8 b + 1)
    && all_below (or_cell b p) 8

clear_row : ℕ → ℕ → Bool
clear_row b p =
    ltb (bit_and b (bit_xor 255 (2 ^ p))) 256
    && (ones 8 (bit_and b (bit_xor 255 (2 ^ p))) + to_ℕ (test_bit b p) == ones 8 b)
    && all_below (clear_cell b p) 8

or_table : all_bits or_row ≡ true
unfolding all_bits all_below or_row or_cell test_bit ones same
or_table = refl

clear_table : all_bits clear_row ≡ true
unfolding all_bits all_below clear_row clear_cell test_bit ones same
clear_table = refl

module _ (b p : ℕ) (hb : b < 256) (hp : p < 8) where
  -- `b | (1 << p)` is a byte, has bit `p` set more, and no other bit changed.
  pub or_bit-lt : bit_or b (2 ^ p) < 256
  unfolding or_row
  or_bit-lt = ground (arith, all_bits_sound or_row b p or_table hb hp)

  pub or_bit-ones : ones 8 (bit_or b (2 ^ p)) + to_ℕ (test_bit b p) ≡ ones 8 b + 1
  unfolding or_row
  or_bit-ones = ground (arith, all_bits_sound or_row b p or_table hb hp)

  -- `b & ^(1 << p)` likewise, with bit `p` cleared.
  pub clear_bit-lt : bit_and b (bit_xor 255 (2 ^ p)) < 256
  unfolding clear_row
  clear_bit-lt = ground (arith, all_bits_sound clear_row b p clear_table hb hp)

  pub clear_bit-ones : ones 8 (bit_and b (bit_xor 255 (2 ^ p))) + to_ℕ (test_bit b p) ≡ ones 8 b
  unfolding clear_row
  clear_bit-ones = ground (arith, all_bits_sound clear_row b p clear_table hb hp)

  pub or_bit-test : (q : ℕ) → q < 8 → test_bit (bit_or b (2 ^ p)) q ≡ (p == q || test_bit b q)
  unfolding or_row or_cell
  or_bit-test q hq = same→eq _ _ (
      test-all_below (or_cell b p) 8 q hq
        (ground (arith, all_bits_sound or_row b p or_table hb hp)))

  pub clear_bit-test :
      (q : ℕ)
      → q < 8
      → test_bit (bit_and b (bit_xor 255 (2 ^ p))) q ≡ (not (p == q) && test_bit b q)
  unfolding clear_row clear_cell
  clear_bit-test q hq = same→eq _ _ (
      test-all_below (clear_cell b p) 8 q hq
        (ground (arith, all_bits_sound clear_row b p clear_table hb hp)))
