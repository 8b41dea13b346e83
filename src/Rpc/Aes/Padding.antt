-- ===== src/Rpc/Aes/Padding.antt =====
-- PKCS#5 padding of rpc/aesctrcrypt.go.
use rocommon.Prelude.{
  ap, ◌∙◌, ℕ, zero, suc, ◌+◌, ◌-◌, ◌%◌, ◌≤◌, ◌<◌, ◌≡◌, refl, [], ◌∷◌, ◌++◌, arith, length, take,
  replicate, get_or, length-append, length-replicate, append-take,
}
use native.Mathlib.Nat.{mod-eq_of_lt}
use rocommon.Rpc.Fault.{ok}
use rocommon.Rpc.Aes.{Bytes, pkcs5_padding, pkcs5_unpadding, block_size}

get_or-replicate : (n b k : ℕ) → k < n → get_or (replicate n b) k 0 ≡ b
get_or-replicate zero b k h = elim h [ ]
get_or-replicate (suc n) b zero h = refl
get_or-replicate (suc n) b (suc k) h = get_or-replicate n b k (omega arith)

get_or-append-replicate :
    (xs : Bytes) (n b k : ℕ)
    → length xs ≤ k
    → k < length xs + n
    → get_or (xs ++ replicate n b) k 0 ≡ b
get_or-append-replicate [] n b k h lt = get_or-replicate n b k (omega arith)
get_or-append-replicate (x ∷ xs) n b zero h lt = elim h [ ]
get_or-append-replicate (x ∷ xs) n b (suc k) h lt =
    get_or-append-replicate xs n b k (omega arith) (omega arith)

abbrev pad_of : Bytes → ℕ → ℕ
pad_of t k = k - length t % k

padding-length : (t : Bytes) (k : ℕ) → 0 < k → length (pkcs5_padding t k) ≡ length t + pad_of t k
unfolding pkcs5_padding
padding-length t k h = ground (
  arith,
  length-append t (replicate (pad_of t k) (pad_of t k % 256)),
  length-replicate (pad_of t k) (pad_of t k % 256),
)

-- The padded text is of whole blocks of 16 bytes, longer than the text by 1 to 16 bytes.
pub length-pkcs5_padding :
    (t : Bytes)
    → (length (pkcs5_padding t block_size) % block_size ≡ 0)
      × (length t < length (pkcs5_padding t block_size))
      × (length (pkcs5_padding t block_size) ≤ length t + 16)
length-pkcs5_padding t = omega (arith, padding-length t 16 (omega arith))

unpadding-append :
    (t : Bytes) (p : ℕ) → 0 < p → p < 256 → pkcs5_unpadding (t ++ replicate p (p % 256)) ≡ ok t
unfolding pkcs5_unpadding
unpadding-append t p h lt =
    let padded = t ++ replicate p (p % 256) in
    let n : length padded ≡ length t + p =
      omega (arith, length-append t (replicate p (p % 256)), length-replicate p (p % 256)) in
    let last : get_or padded (length padded - 1) 0 ≡ p =
      get_or-append-replicate t p (p % 256) (length padded - 1) (omega (arith, n))
        (omega (arith, n))
      ∙ mod-eq_of_lt lt in
    let body : length padded - p ≡ length t = omega (arith, n) in
    ground (arith, n, last, ap (λ k. take k padded) body, append-take t (replicate p (p % 256)))

-- Padding to blocks of any size from 1 to 255 bytes is undone by unpadding, for every text.
pub pkcs5_unpadding-padding :
    (t : Bytes) (k : ℕ) → 0 < k → k < 256 → pkcs5_unpadding (pkcs5_padding t k) ≡ ok t
unfolding pkcs5_padding
pkcs5_unpadding-padding t k h lt =
    ground (arith, unpadding-append t (pad_of t k) (omega arith) (omega arith))
