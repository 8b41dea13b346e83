-- ===== src/Service/ServiceId.antt =====
-- service/etcddesc.go: the ids under which services are registered, and their parsing.
pub mod Ints
pub mod Fields
mod Tests
use rocommon.Text.{String, ℤ, pos, negsuc, digits_from, itoa, read_digits, split, cons_head}
use rocommon.Prelude.{
  zero, ℕ, suc, ◌+◌, ◌-◌, ◌*◌, ◌/◌, ◌%◌, ◌^◌, List, [], ◌∷◌, ◌++◌, Option, none, some, ltb, leb,
  ◌==◌, if◌then◌else◌, ◌≡◌, Bool, true, false, not, ◌&&◌, ◌||◌,
}

-- `strconv.ParseInt(str, 10, 32)` of the digits after a sign.
in_range : Bool → Option ℕ → Option ℤ
in_range negative none = none
in_range false (some n) = if ltb n (2 ^ 31) then some (pos n) else none
in_range true (some zero) = some (pos 0)
in_range true (some (suc n)) = if ltb n (2 ^ 31) then some (negsuc n) else none

unsigned : Bool → String → Option ℤ
unfolding in_range read_digits
unsigned negative [] = none
unsigned negative (c ∷ cs) = in_range negative (read_digits 0 (c ∷ cs))

-- `str2Num`: `none` is its error.
pub str2_num : String → Option ℤ
unfolding unsigned
str2_num [] = none
str2_num (c ∷ cs) =
    if c == 45
    then unsigned true cs
    else if c == 43
    then unsigned false cs
    else unsigned false (c ∷ cs)

-- What a server node says of itself (`ServerNodeProperty`, `configServerNode`).
pub record NodeProp : Type 0 where
  pub name : String
  pub zone : ℤ
  pub server_type : ℤ
  pub index : ℤ

-- `GenServiceID`: "name#zone@type@index".
pub gen_service_id : NodeProp → String
unfolding itoa
gen_service_id prop =
    prop.name ++ 35 ∷ (itoa prop.zone ++ 64 ∷ (itoa prop.server_type ++ 64 ∷ itoa prop.index))

infixl 5 ◌>>=◌
abbrev ◌>>=◌ {ℓ κ} : {A : Type ℓ} {B : Type κ} → Option A → (A → Option B) → Option B
none >>= f = none
some a >>= f = f a

-- `ParseServiceID`: server type, zone and index; `none` is its error, whatever values come with it.
parse_fields : List String → Option (ℤ × ℤ × ℤ)
parse_fields (z ∷ t ∷ i ∷ rest) = do
  zone ← str2_num z
  server_type ← str2_num t
  index ← str2_num i
  some (server_type, zone, index)
parse_fields _ = none

parse_parts : List String → Option (ℤ × ℤ × ℤ)
unfolding parse_fields split
parse_parts (name ∷ fields ∷ rest) = parse_fields (split 64 fields)
parse_parts _ = none

pub parse_service_id : String → Option (ℤ × ℤ × ℤ)
unfolding parse_parts split
parse_service_id sid = parse_parts (split 35 sid)

-- "server/"
abbrev server_dir : String
server_dir = 115 ∷ 101 ∷ 114 ∷ 118 ∷ 101 ∷ 114 ∷ 47 ∷ []

is_positive : ℤ → Bool
is_positive (pos n) = ltb 0 n
is_positive (negsuc n) = false

-- `GenDiscoveryServicePrefix`.
pub gen_discovery_service_prefix : String → ℤ → String
unfolding is_positive itoa
gen_discovery_service_prefix s_name zone =
    if is_positive zone
    then server_dir ++ s_name ++ 35 ∷ itoa zone
    else server_dir ++ s_name ++ 35 ∷ []

-- `GenServicePrefix` and `GenServiceZonePrefix`.
pub gen_service_prefix : String → ℤ → String
gen_service_prefix s_name zone = server_dir ++ s_name

pub gen_service_zone_prefix : ℤ → String
unfolding itoa
gen_service_zone_prefix zone = server_dir ++ itoa zone

-- `GenService`: the second part of a key, or "".
second_part : List String → String
second_part (a ∷ b ∷ rest) = b
second_part _ = []

pub gen_service : String → String
unfolding second_part split
gen_service s_key = second_part (split 47 s_key)

-- `GenServiceStatePrefix`: "serverstate/" and the id.
pub gen_service_state_prefix : NodeProp → String
unfolding gen_service_id
gen_service_state_prefix prop =
    (115 ∷ 101 ∷ 114 ∷ 118 ∷ 101 ∷ 114 ∷ 115 ∷ 116 ∷ 97 ∷ 116 ∷ 101 ∷ 47 ∷ [])
    ++ gen_service_id prop
