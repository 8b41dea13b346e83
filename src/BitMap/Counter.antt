-- ===== src/BitMap/Counter.antt =====
-- The counter `curNum` of util/bitmap.go against the number of bits that are set.

use rocommon.Prelude.{
  true, ℕ, zero, suc, ◌+◌, ◌-◌, ◌/◌, ◌%◌, ◌^◌, ◌≤◌, ◌<◌, ◌≡◌, refl, Bool, List, [], ◌∷◌, some,
  arith, get_elem?, set, All, bit_or, bit_and, bit_xor, length-set, ==_iff, ◌==◌,
}
use rocommon.Prelude.Bits.{
  test-all_below, ones, test_bit, to_ℕ, or_bit-lt, or_bit-ones, clear_bit-lt, clear_bit-ones,
  all_below,
}
use rocommon.Prelude.Outcome.{ok}
use rocommon.BitMap.{BitMap, i32, add, is_exist, remove, set_bites, count_byte, cnt_num_process}
use rocommon.BitMap.Members.{IsByte, IsValid, get_elem?-IsByte, set-IsByte}

-- How many bits of the array are set.
unfoldable pub population : List ℕ → ℕ
population [] = 0
population (b ∷ bs) = ones 8 b + population bs

population-set :
    (bs : List ℕ) (i b w : ℕ)
    → get_elem? bs i ≡ some b
    → population (set bs i w) + ones 8 b ≡ population bs + ones 8 w
unfolding population
population-set [] i b w e = cc
population-set (x ∷ bs) zero b w e = ground arith
population-set (x ∷ bs) (suc i) b w e = omega (arith, population-set bs i b w e)

-- On a well-formed map `Add` of a number within `max` succeeds, keeps the map well formed, and
-- leaves the counter at the population plus one for a number that was there already.
pub add-cur_num :
    (a : BitMap) (num : ℕ)
    → IsValid a
    → num ≤ a.max
    → a.cur_num ≡ i32 (population a.bites)
    → (c : BitMap) × (old : Bool) × (add a num ≡ ok c)
      × IsValid c
      × (is_exist a num ≡ ok old)
      × (c.cur_num ≡ i32 (population c.bites + to_ℕ old))
unfolding add is_exist
add-cur_num a num v h k =
    let (b, e, lt) = get_elem?-IsByte a.bites (num / 8) v.bytes (omega (arith, v.covers)) in
    let w = bit_or b (2 ^ (num % 8)) in
    (
      record a { bites = set a.bites (num / 8) w; cur_num = i32 (a.cur_num + 1) },
      test_bit b (num % 8),
      ground arith,
      record {
        covers = omega (arith, v.covers, length-set a.bites (num / 8) w);
        bytes = set-IsByte a.bites (num / 8) w v.bytes (or_bit-lt b (num % 8) lt (omega arith));
      },
      ground arith,
      omega (
        arith,
        k,
        population-set a.bites (num / 8) b w e,
        or_bit-ones b (num % 8) lt (omega arith),
      ),
    )

-- `Remove` of a number within `max` likewise; the counter is one too low, modulo 2 ^ 32, for a
-- number that was not there.
pub remove-cur_num :
    (a : BitMap) (num : ℕ)
    → IsValid a
    → num ≤ a.max
    → a.cur_num ≡ i32 (population a.bites)
    → (c : BitMap) × (old : Bool) × (remove a num ≡ ok c)
      × IsValid c
      × (is_exist a num ≡ ok old)
      × (i32 (c.cur_num + 1) ≡ i32 (population c.bites + to_ℕ old))
unfolding remove is_exist
remove-cur_num a num v h k =
    let (b, e, lt) = get_elem?-IsByte a.bites (num / 8) v.bytes (omega (arith, v.covers)) in
    let w = bit_and b (bit_xor 255 (2 ^ (num % 8))) in
    (
      record a { bites = set a.bites (num / 8) w; cur_num = i32 (a.cur_num + (2 ^ 32 - 1)) },
      test_bit b (num % 8),
      ground arith,
      record {
        covers = omega (arith, v.covers, length-set a.bites (num / 8) w);
        bytes = set-IsByte a.bites (num / 8) w v.bytes (clear_bit-lt b (num % 8) lt (omega arith));
      },
      ground arith,
      omega (
        arith,
        k,
        population-set a.bites (num / 8) b w e,
        clear_bit-ones b (num % 8) lt (omega arith),
      ),
    )

count_cell : ℕ → Bool
count_cell b = count_byte 8 b 0 == ones 8 b

count_table : all_below count_cell 256 ≡ true
unfolding all_below count_cell count_byte ones test_bit
count_table = refl

-- The loop adds to the counter what it counts from 0.
count_byte_shift : (fuel b n : ℕ) → i32 (count_byte fuel b n) ≡ i32 (n + count_byte fuel b 0)
unfolding count_byte
count_byte_shift zero b n = omega arith
count_byte_shift (suc fuel) b n = ground (
  arith,
  count_byte_shift fuel (b / 2) n,
  count_byte_shift fuel (b / 2) (i32 (n + 1)),
  count_byte_shift fuel (b / 2) 1,
)

count_byte-ones : (b n : ℕ) → b < 256 → i32 (count_byte 8 b n) ≡ i32 (n + ones 8 b)
unfolding count_cell
count_byte-ones b n h = omega (
  arith,
  count_byte_shift 8 b n,
  (==_iff (count_byte 8 b 0) (ones 8 b)).0 (test-all_below count_cell 256 b h count_table),
)

cnt_num_process-population :
    (bs : List ℕ) (n : ℕ) → All IsByte bs → i32 (cnt_num_process bs n) ≡ i32 (n + population bs)
unfolding cnt_num_process population
cnt_num_process-population [] n h = omega arith
cnt_num_process-population (b ∷ bs) n h =
    omega (arith, cnt_num_process-population bs (count_byte 8 b n) h.1, count_byte-ones b n h.0)

count_byte-lt : (fuel b n : ℕ) → n < 2 ^ 32 → count_byte fuel b n < 2 ^ 32
unfolding count_byte
count_byte-lt zero b n h = h
count_byte-lt (suc fuel) b n h =
    ground (arith, count_byte-lt fuel (b / 2) n h, count_byte-lt fuel (b / 2) (i32 (n + 1)))

cnt_num_process-lt : (bs : List ℕ) (n : ℕ) → n < 2 ^ 32 → cnt_num_process bs n < 2 ^ 32
unfolding cnt_num_process
cnt_num_process-lt [] n h = h
cnt_num_process-lt (b ∷ bs) n h = cnt_num_process-lt bs (count_byte 8 b n) (count_byte-lt 8 b n h)

-- `SetBites` counts the bits of the array anew, whatever the counter was.
pub set_bites-cur_num :
    (a : BitMap) (bs : List ℕ) → All IsByte bs → (set_bites a bs).cur_num ≡ i32 (population bs)
unfolding set_bites
set_bites-cur_num a bs h =
    omega (arith, cnt_num_process-population bs 0 h, cnt_num_process-lt bs 0 (omega arith))
