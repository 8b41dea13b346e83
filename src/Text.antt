-- ===== src/Text.antt =====
-- Text of the language's library, for the parts that print and parse: a string is the list of its
-- bytes, an int a sign and a natural number; decimal numbers (strconv), `strings.Split` and `Join`.
pub mod Digits
pub mod Split
pub mod Equal
use Prim.Native.Char.{code}
use Prim.Native.String.{String as Literal}
use rocommon.Prelude.{
  zero, ℕ, suc, ◌+◌, ◌-◌, ◌*◌, ◌/◌, ◌%◌, List, [], ◌∷◌, ◌++◌, Option, none, some, ltb, leb, ◌==◌,
  if◌then◌else◌, ◌&&◌, ◌||◌, Bool, true, false,
}

abbrev pub String : Type 0
String = List ℕ

pub data ℤ : Type 0 where
  pos : ℕ → ℤ
  negsuc : ℕ → ℤ

-- The decimal digits of a number; the fuel is at least the number.
unfoldable pub digits_from : ℕ → ℕ → String
digits_from zero n = (48 + n) ∷ []
digits_from (suc f) n =
    let front = digits_from f (n / 10) in
    if ltb n 10 then (48 + n) ∷ [] else front ++ (48 + n % 10) ∷ []

-- `strconv.Itoa`, and `%d` of fmt.
unfoldable pub itoa : ℤ → String
unfolding digits_from
itoa (pos n) = digits_from n n
itoa (negsuc n) = 45 ∷ digits_from (suc n) (suc n)

unfoldable pub read_digits : ℕ → String → Option ℕ
read_digits acc [] = some acc
read_digits acc (c ∷ cs) =
    let rest = read_digits (acc * 10 + (c - 48)) cs in if leb 48 c && leb c 57 then rest else none

-- `strings.Split` at a separator of one byte.
unfoldable pub cons_head : ℕ → List String → List String
cons_head c [] = (c ∷ []) ∷ []
cons_head c (s ∷ ss) = (c ∷ s) ∷ ss

unfoldable pub split : ℕ → String → List String
unfolding cons_head
split sep [] = [] ∷ []
split sep (c ∷ cs) = if c == sep then [] ∷ split sep cs else cons_head c (split sep cs)

-- The bytes of an ASCII text.
abbrev pub codes : Literal → String
codes Literal.[] = []
codes (Literal.◌∷◌ c s) = code c ∷ codes s

-- `strings.Join`.
unfoldable pub join : List String → String → String
join [] sep = []
join (s ∷ []) sep = s
join (s ∷ t ∷ ss) sep = s ++ (sep ++ join (t ∷ ss) sep)

-- `==` of strings, and a list that holds one.
infix 50 ◌=s◌
unfoldable pub ◌=s◌ : String → String → Bool
[] =s [] = true
[] =s (d ∷ t) = false
(c ∷ s) =s [] = false
(c ∷ s) =s (d ∷ t) = c == d && s =s t

unfoldable pub in_array : String → List String → Bool
unfolding ◌=s◌
in_array s [] = false
in_array s (t ∷ ts) = t =s s || in_array s ts

-- `strings.Replace(s, c, by, -1)` of a single byte.
unfoldable pub replace : ℕ → String → String → String
replace c by [] = []
replace c by (d ∷ s) = if d == c then by ++ replace c by s else d ∷ replace c by s

-- `strings.TrimLeft(s, cutset)` and `TrimRight`.
unfoldable pub trim_left : (ℕ → Bool) → String → String
trim_left cut [] = []
trim_left cut (c ∷ s) = if cut c then trim_left cut s else c ∷ s

unfoldable pub trim_right : (ℕ → Bool) → String → String
trim_right cut [] = []
trim_right cut (c ∷ s) = elim (trim_right cut s) [
  | [] ↦ if cut c then [] else c ∷ []
  | d ∷ t ↦ c ∷ d ∷ t
]

unfoldable pub trim : (ℕ → Bool) → String → String
unfolding trim_left trim_right
trim cut s = trim_right cut (trim_left cut s)
