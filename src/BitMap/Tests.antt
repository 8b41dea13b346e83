-- ===== src/BitMap/Tests.antt =====
-- Runs of util/bitmap.go, and its theorems at a map that holds 0 and 2.
use rocommon.Prelude.{◌≡◌, refl, [], ◌∷◌}
use rocommon.Prelude.Bits.{ones, test_bit}
use rocommon.Prelude.Outcome.{ok}
use rocommon.BitMap.{BitMap, i32, add, new_bit_map}
use rocommon.BitMap.Counter.{population}

abbrev sample : BitMap
sample = record { bites = 5 ∷ 0 ∷ []; max = 15; cur_num = 2 }

add_run : add sample 9 ≡ ok (record { bites = 5 ∷ 2 ∷ []; max = 15; cur_num = 3 })
unfolding add
add_run = refl

-- A second `Add` of the same number counts it twice.
add_again_run : add sample 2 ≡ ok (record { bites = 5 ∷ 0 ∷ []; max = 15; cur_num = 3 })
unfolding add
add_again_run = refl

new_run : new_bit_map 9 ≡ record { bites = 0 ∷ 0 ∷ []; max = 9; cur_num = 0 }
unfolding new_bit_map
new_run = refl

sample-counted : sample.cur_num ≡ i32 (population sample.bites)
unfolding population ones test_bit
sample-counted = refl
