-- ===== src/Util/Encoding/RoundTrip.antt =====
-- What is encoded by util/utils.go is decoded again.
use rocommon.Prelude.{
  append-take, ℕ, zero, suc, ◌+◌, ◌*◌, ◌/◌, ◌%◌, ◌^◌, ◌<◌, ◌≤◌, List, [], ◌∷◌, ◌++◌, All, some, ◌≡◌,
  ◌≢◌, refl, ap, ◌∙◌, arith, length, length-append, take,
}
use rocommon.Text.{String, codes, itoa, pos}
use rocommon.Util.Encoding.{
  sized, unsized, big_endian, read_big_endian, int_to_bytes, bytes_to_int, hex_digit, hex_value,
  hex_byte, hex_encode, ensure_hex_decode, index_of, short_host, get_svrmark,
}

read_big_endian-snoc :
    (xs : List ℕ) (acc b : ℕ)
    → read_big_endian acc (xs ++ b ∷ []) ≡ read_big_endian acc xs * 256 + b
unfolding read_big_endian
read_big_endian-snoc [] acc b = refl
read_big_endian-snoc (x ∷ xs) acc b = read_big_endian-snoc xs (acc * 256 + x) b

length-big_endian : (w n : ℕ) → length (big_endian w n) ≡ w
unfolding big_endian
length-big_endian zero n = refl
length-big_endian (suc w) n =
    omega
      (arith, length-append (big_endian w (n / 256)) (n % 256 ∷ []), length-big_endian w (n / 256))

below_pow : (w n : ℕ) → n < 256 ^ suc w → n / 256 < 256 ^ w
below_pow w n h = let e : 256 ^ suc w ≡ 256 ^ w * 256 = omega arith in omega (arith, e, h)

read_big_endian-big_endian : (w n : ℕ) → n < 256 ^ w → read_big_endian 0 (big_endian w n) ≡ n
unfolding big_endian read_big_endian
read_big_endian-big_endian zero n h = omega (arith, h)
read_big_endian-big_endian (suc w) n h =
    read_big_endian-snoc (big_endian w (n / 256)) 0 (n % 256)
    ∙ omega (arith, read_big_endian-big_endian w (n / 256) (below_pow w n h))

take_all : {A : Type 0} (n : ℕ) (xs : List A) → length xs ≤ n → take n xs ≡ xs
take_all zero [] h = refl
take_all zero (x ∷ xs) h = absurd (omega (arith, h))
take_all (suc n) [] h = refl
take_all (suc n) (x ∷ xs) h = ap (λ r. x ∷ r) (take_all n xs (omega (arith, h)))

-- BytesToInt gives back an int64 that IntToBytes printed; of an integer of fewer bytes, and of one of no
-- fixed size such as an int, it makes 0.
pub bytes_to_int-int_to_bytes :
    (n : ℕ)
    → n < 2 ^ 64
    → (bytes_to_int (int_to_bytes (sized 8 n)) ≡ n)
      × ((w k : ℕ) → w < 8 → bytes_to_int (int_to_bytes (sized w k)) ≡ 0)
      × (bytes_to_int (int_to_bytes unsized) ≡ 0)
unfolding bytes_to_int int_to_bytes
bytes_to_int-int_to_bytes n h =
    let len = length-big_endian 8 n in
    (
      ground (
        arith,
        len,
        take_all 8 (big_endian 8 n) (omega (arith, len)),
        read_big_endian-big_endian 8 n h,
      ),
      λ w k hw. ground (arith, length-big_endian w k, hw),
      refl,
    )

hex_value-hex_digit : (n : ℕ) → n < 16 → hex_value (hex_digit n) ≡ some n
hex_value-hex_digit n h = ground (arith, h)

-- EnsureHexDecode gives back the bytes that HexEncode printed.
pub ensure_hex_decode-hex_encode :
    (bs : List ℕ) → All (λ b. b < 256) bs → ensure_hex_decode (hex_encode bs) ≡ bs
unfolding ensure_hex_decode hex_encode hex_byte
ensure_hex_decode-hex_encode [] h = refl
ensure_hex_decode-hex_encode (b ∷ bs) (hb, h) = ground (
  arith,
  hex_value-hex_digit (b / 16) (omega (arith, hb)),
  hex_value-hex_digit (b % 16) (omega arith),
  ensure_hex_decode-hex_encode bs h,
)

index_of_dot :
    (host : String) (c : ℕ) (rest : String)
    → All (λ d. d ≢ 46) host
    → c ≢ 46
    → index_of 46 (host ++ c ∷ 46 ∷ rest) ≡ some (suc (length host))
unfolding index_of
index_of_dot [] c rest h hc = ground (arith, hc)
index_of_dot (d ∷ host) c rest (hd, h) hc = ground (arith, hd, index_of_dot host c rest h hc)

-- On a host with a domain GetSvrmark loses the last char of the host's name before the dot.
pub get_svrmark_cut :
    (host : String) (c : ℕ) (rest svrname : String) (pid : ℕ)
    → All (λ d. d ≢ 46) host
    → c ≢ 46
    → get_svrmark (host ++ c ∷ 46 ∷ rest) pid svrname []
      ≡ host ++ (codes "-" ++ (svrname ++ (codes "-" ++ itoa (pos pid))))
unfolding get_svrmark short_host
get_svrmark_cut host c rest svrname pid h hc =
    ap (λ s. s ++ (codes "-" ++ (svrname ++ (codes "-" ++ itoa (pos pid)))))
      (short_of (index_of_dot host c rest h hc))
  where
    short_of :
        index_of 46 (host ++ c ∷ 46 ∷ rest) ≡ some (suc (length host))
        → short_host (host ++ c ∷ 46 ∷ rest) ≡ host
    short_of e = ground (arith, e, append-take host (c ∷ 46 ∷ rest))
