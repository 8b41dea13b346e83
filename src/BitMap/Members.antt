-- ===== src/BitMap/Members.antt =====
-- What `Add`, `Remove` and `IsExist` of util/bitmap.go do to membership.
use rocommon.Prelude.{
  true, false, ℕ, ◌+◌, ◌-◌, ◌/◌, ◌%◌, ◌^◌, ◌≤◌, ◌<◌, ◌≡◌, refl, Bool, ◌&&◌, List, [], ◌∷◌, some,
  inl, inr, arith, ltb, leb, ◌==◌, if◌then◌else◌, zero, suc, length, get_elem?, set, All,
  get_elem?-set_self, get_elem?-set_ne, length-replicate, bit_or, bit_and, bit_xor, Bool-cases,
  replicate, ap,
}
use native.Mathlib.Decide.{ℕ_discrete}
use rocommon.Prelude.Bits.{test_bit, or_bit-test, clear_bit-test}
use rocommon.Prelude.Outcome.{Outcome, ok, panic, ◌>>=◌}
use rocommon.BitMap.{i32, BitMap, new_bit_map, add, is_exist, remove}

abbrev pub IsByte : ℕ → Type 0
IsByte b = b < 256

-- The array covers every number up to `max`, and holds bytes.
pub record IsValid (a : BitMap) : Type 0 where
  pub covers : a.max / 8 < length a.bites
  pub bytes : All IsByte a.bites

-- An index in range reads a byte.
pub get_elem?-IsByte :
    (bs : List ℕ) (i : ℕ)
    → All IsByte bs
    → i < length bs
    → (b : ℕ) × (get_elem? bs i ≡ some b) × (b < 256)
get_elem?-IsByte [] i h lt = elim lt [ ]
get_elem?-IsByte (b ∷ bs) zero h lt = (b, refl, h.0)
get_elem?-IsByte (b ∷ bs) (suc i) h lt = get_elem?-IsByte bs i h.1 (omega arith)

pub set-IsByte : (bs : List ℕ) (i b : ℕ) → All IsByte bs → b < 256 → All IsByte (set bs i b)
set-IsByte [] i b h lt = tt
set-IsByte (x ∷ bs) zero b h lt = (lt, h.1)
set-IsByte (x ∷ bs) (suc i) b h lt = (h.0, set-IsByte bs i b h.1 lt)

replicate-IsByte : (n : ℕ) → All IsByte (replicate n 0)
replicate-IsByte zero = tt
replicate-IsByte (suc n) = (omega arith, replicate-IsByte n)

-- A new map is well formed.
pub new_bit_map-IsValid : (max : ℕ) → IsValid (new_bit_map max)
unfolding new_bit_map
new_bit_map-IsValid max = record {
  covers = omega (arith, length-replicate {A = ℕ} (max / 8 + 1) 0);
  bytes = replicate-IsByte (max / 8 + 1);
}

-- A byte of the array that one operation rewrites, seen by `is_exist`.
module _ (a : BitMap) (num w c : ℕ) (v : IsValid a) (h : num ≤ a.max) where
  index_in_range : num / 8 < length a.bites
  index_in_range = omega (arith, v.covers)

  is_exist-set :
      (x b : ℕ) (f : Bool → Bool)
      → get_elem? a.bites (num / 8) ≡ some b
      → ((q : ℕ) → q < 8 → test_bit w q ≡ (if num % 8 == q then f (test_bit b q) else test_bit b q))
      → is_exist (record a { bites = set a.bites (num / 8) w; cur_num = c }) x
        ≡ (is_exist a x >>= λ old. ok (if num == x && leb num a.max then f old else old))
  unfolding is_exist
  is_exist-set x b f e t = elim (ℕ_discrete (num / 8) (x / 8)) [
    | yes same ↦ ground (
      arith,
      get_elem?-set_self a.bites (num / 8) w index_in_range,
      ap (get_elem? a.bites) same,
      ap (get_elem? (set a.bites (num / 8) w)) same,
      t (x % 8),
    )
    | no other ↦ ground (
      arith,
      get_elem?-set_ne a.bites {i = num / 8} {j = x / 8} w other,
      get_elem?-IsByte a.bites (x / 8) v.bytes,
      v.covers,
    )
  ]

unchanged :
    (r : Outcome Bool) (t c : Bool) → t ≡ false → r ≡ (r >>= λ old. ok (if t then c else old))
unchanged (ok old) t c e = ground arith
unchanged panic t c e = refl

-- `Add` makes a number within `max` a member and changes no other membership; above `max` it
-- changes nothing.
pub add-is_exist :
    (a : BitMap) (num x : ℕ)
    → IsValid a
    → (add a num >>= λ c. is_exist c x)
      ≡ (is_exist a x >>= λ old. ok (if num == x && leb num a.max then true else old))
unfolding add
add-is_exist a num x v = elim (Bool-cases (ltb a.max num)) [
  | inl above ↦ rw above (unchanged (is_exist a x) (num == x && leb num a.max) true (ground arith))
  | inr within ↦
      let (b, e, lt) = get_elem?-IsByte a.bites (num / 8) v.bytes (ground (arith, v.covers)) in
      rw (within, e)
        (is_exist-set a num (bit_or b (2 ^ (num % 8))) (i32 (a.cur_num + 1)) v (ground arith) x b
          (λ _. true) e λ q hq. ground (arith, or_bit-test b (num % 8) lt (omega arith) q hq))
]

-- `Remove` takes a number within `max` out and changes no other membership; above `max` it
-- changes nothing.
pub remove-is_exist :
    (a : BitMap) (num x : ℕ)
    → IsValid a
    → (remove a num >>= λ c. is_exist c x)
      ≡ (is_exist a x >>= λ old. ok (if num == x && leb num a.max then false else old))
unfolding remove
remove-is_exist a num x v = elim (Bool-cases (ltb a.max num)) [
  | inl above ↦ rw above (unchanged (is_exist a x) (num == x && leb num a.max) false (ground arith))
  | inr within ↦
      let (b, e, lt) = get_elem?-IsByte a.bites (num / 8) v.bytes (ground (arith, v.covers)) in
      rw (within, e)
        (is_exist-set a num (bit_and b (bit_xor 255 (2 ^ (num % 8))))
          (i32 (a.cur_num + (2 ^ 32 - 1))) v (ground arith) x b (λ _. false) e
          λ q hq. ground (arith, clear_bit-test b (num % 8) lt (omega arith) q hq))
]
