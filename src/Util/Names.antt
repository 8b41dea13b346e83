-- ===== src/Util/Names.antt =====
-- util/utils.go: names of Go fields and of columns, the joining of values, and IPv4 addresses. A name is
-- the list of its runes; the letter functions of package unicode are a parameter.
pub mod Camel
pub mod Address
mod Tests
use rocommon.Prelude.{
  ℕ, ◌+◌, ◌*◌, ◌/◌, ◌%◌, ◌^◌, List, [], ◌∷◌, ◌++◌, Option, none, some, Bool, true, false, ◌==◌,
  ◌||◌, if◌then◌else◌, ◌≡◌, ◌≢◌,
}
use rocommon.Prelude.Outcome.{Outcome, ok, panic}
use rocommon.Text.{String, pos, itoa, codes}

-- Package unicode: lower and upper case of a rune.
pub record Letters : Type 0 where
  pub to_lower : ℕ → ℕ
  pub to_upper : ℕ → ℕ
  pub is_upper : ℕ → Bool

module _ (u : Letters) where
  -- The runes after the first.
  lower_rest : List ℕ → List ℕ
  lower_rest [] = []
  lower_rest (c ∷ cs) =
      if u.is_upper c then b'_' ∷ u.to_lower c ∷ lower_rest cs else c ∷ lower_rest cs

  -- `LowerCaseWithUnderscores`.
  pub lower_case_with_underscores : List ℕ → List ℕ
  unfolding lower_rest
  lower_case_with_underscores [] = []
  lower_case_with_underscores (c ∷ cs) = u.to_lower c ∷ lower_rest cs

  -- The loop of `UpperCaseWithNoUnderscores`: whether the rune is the first, and `under_flag`.
  upper_rest : Bool → Bool → List ℕ → List ℕ
  upper_rest first under_flag [] = []
  upper_rest first under_flag (c ∷ cs) =
      let skip = upper_rest false true cs in
      let keep =
        (if first || under_flag then u.to_upper c else c)
        ∷ upper_rest false (if first || under_flag then false else under_flag) cs in
      if c == b'_' then skip else keep

  pub upper_case_with_no_underscores : List ℕ → List ℕ
  unfolding upper_rest
  upper_case_with_no_underscores name = upper_rest true false name

-- `JoinArray`, of what is printed of the values of a slice.
join_loop : String → List String → String → String
join_loop s [] sep = s
join_loop [] (one ∷ vs) sep = join_loop one vs sep
join_loop (c ∷ s) (one ∷ vs) sep = join_loop ((c ∷ s) ++ (sep ++ one)) vs sep

pub join_array : List String → String → String
unfolding join_loop
join_array vs sep = join_loop [] vs sep

-- What `net.ParseIP` gives: an address of four bytes, or another one.
pub data Ip : Type 0 where
  v4 : ℕ → ℕ → ℕ → ℕ → Ip
  v6 : Ip

-- `IP2Uint32`: `To4` of another address is nil, from which `Uint32` panics.
ip_number : Option Ip → Outcome ℕ
ip_number none = ok 0
ip_number (some (v4 a b c d)) = ok (a * 2 ^ 24 + b * 2 ^ 16 + c * 2 ^ 8 + d)
ip_number (some v6) = panic

pub ip2uint32 : (String → Option Ip) → String → Outcome ℕ
unfolding ip_number
ip2uint32 parse_ip ip_str = ip_number (parse_ip ip_str)

pub dotted : ℕ → ℕ → ℕ → ℕ → String
dotted a b c d =
    itoa (pos a)
    ++ (codes "." ++ (itoa (pos b) ++ (codes "." ++ (itoa (pos c) ++ (codes "." ++ itoa (pos d))))))

-- `Uint32ToIP`, its shifts on 32 bits.
pub uint32_to_ip : ℕ → String
unfolding dotted
uint32_to_ip ip =
    dotted (ip / 2 ^ 24) (ip * 2 ^ 8 % 2 ^ 32 / 2 ^ 24) (ip * 2 ^ 16 % 2 ^ 32 / 2 ^ 24)
      (ip * 2 ^ 24 % 2 ^ 32 / 2 ^ 24)
