-- ===== src/Util/Names/Address.antt =====
-- The addresses and the joined values of util/utils.go.
use rocommon.Prelude.{
  ℕ, ◌+◌, ◌*◌, ◌/◌, ◌%◌, ◌^◌, ◌<◌, List, [], ◌∷◌, ◌++◌, Option, some, ◌≡◌, arith, ap, refl, ◌∙◌,
  append_assoc,
}
use rocommon.Prelude.Outcome.{ok}
use rocommon.Text.{String, join}
use rocommon.Util.Names.{Ip, v4, ip_number, ip2uint32, uint32_to_ip, dotted, join_array, join_loop}

-- What is used of `net.ParseIP`: it reads four decimal bytes between dots.
abbrev pub ReadsDotted : (String → Option Ip) → Type 0
ReadsDotted parse_ip =
    (a b c d : ℕ)
    → a < 256
    → b < 256
    → c < 256
    → d < 256
    → parse_ip (dotted a b c d) ≡ some (v4 a b c d)

-- IP2Uint32 reads back the 32 bits that Uint32ToIP printed.
pub ip2uint32-uint32_to_ip :
    (parse_ip : String → Option Ip) (ip : ℕ)
    → ReadsDotted parse_ip
    → ip < 2 ^ 32
    → ip2uint32 parse_ip (uint32_to_ip ip) ≡ ok ip
unfolding ip2uint32 ip_number uint32_to_ip
ip2uint32-uint32_to_ip parse_ip ip reads h =
    let bytes =
      reads (ip / 2 ^ 24) (ip * 2 ^ 8 % 2 ^ 32 / 2 ^ 24) (ip * 2 ^ 16 % 2 ^ 32 / 2 ^ 24)
        (ip * 2 ^ 24 % 2 ^ 32 / 2 ^ 24) (omega arith) (omega arith) (omega arith) (omega arith) in
    let sum : ip / 2 ^ 24 * 2 ^ 24
          + ip * 2 ^ 8 % 2 ^ 32 / 2 ^ 24 * 2 ^ 16
          + ip * 2 ^ 16 % 2 ^ 32 / 2 ^ 24 * 2 ^ 8
          + ip * 2 ^ 24 % 2 ^ 32 / 2 ^ 24
        ≡ ip =
      omega arith in
    ap ip_number bytes ∙ ap ok sum

-- The values from the first on that is not empty.
abbrev pub from_first : List String → List String
from_first [] = []
from_first ([] ∷ vs) = from_first vs
from_first ((c ∷ s) ∷ vs) = (c ∷ s) ∷ vs

join_loop-join :
    (c : ℕ) (s : String) (vs : List String) (sep : String)
    → join_loop (c ∷ s) vs sep ≡ join ((c ∷ s) ∷ vs) sep
unfolding join_loop join
join_loop-join c s [] sep = refl
join_loop-join c s (v ∷ []) sep = refl
join_loop-join c s (v ∷ w ∷ vs) sep =
    join_loop-join c (s ++ (sep ++ v)) (w ∷ vs) sep
    ∙ ap (λ t. c ∷ t)
        (append_assoc s (sep ++ v) (sep ++ join (w ∷ vs) sep)
          ∙ ap (λ t. s ++ t) (append_assoc sep v (sep ++ join (w ∷ vs) sep)))

-- JoinArray joins the values from the first one on that is not empty: empty ones before it leave no
-- separator.
pub join_array-join :
    (vs : List String) (sep : String) → join_array vs sep ≡ join (from_first vs) sep
unfolding join_array join_loop join
join_array-join [] sep = refl
join_array-join ([] ∷ vs) sep = join_array-join vs sep
join_array-join ((c ∷ s) ∷ vs) sep = join_loop-join c s vs sep
