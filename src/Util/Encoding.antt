-- ===== src/Util/Encoding.antt =====
-- The encodings of util/utils.go: integers as bytes, hexadecimal text, tags of fields and the mark of a
-- server. A byte is a number below 256, and an int64 is its 64 bits.
pub mod RoundTrip
mod Tests
use rocommon.Prelude.{
  ℕ, zero, suc, ◌+◌, ◌-◌, ◌*◌, ◌/◌, ◌%◌, List, [], ◌∷◌, ◌++◌, Bool, true, false, Option, none, some,
  ltb, leb, ◌==◌, if◌then◌else◌, length, take, ◌≡◌, ◌&&◌,
}
use rocommon.Text.{String, codes, itoa, pos, split, trim, ◌=s◌}

-- What `IntToBytes` is given: an integer of a fixed number of bytes, or a value of no fixed size, such as
-- an `int`.
pub data Num : Type 0 where
  sized : ℕ → ℕ → Num
  unsized : Num

-- The big-endian bytes of a number, as many as given.
unfoldable pub big_endian : ℕ → ℕ → List ℕ
big_endian zero n = []
big_endian (suc w) n = big_endian w (n / 256) ++ n % 256 ∷ []

unfoldable pub read_big_endian : ℕ → List ℕ → ℕ
read_big_endian acc [] = acc
read_big_endian acc (b ∷ bs) = read_big_endian (acc * 256 + b) bs

-- `IntToBytes`: `binary.Write` refuses a value of no fixed size, and its error is dropped.
unfoldable pub int_to_bytes : Num → List ℕ
unfolding big_endian
int_to_bytes (sized w n) = big_endian w n
int_to_bytes unsized = []

-- `BytesToInt`: the first 8 bytes; with fewer of them `binary.Read` fails, and its error is dropped.
unfoldable pub bytes_to_int : List ℕ → ℕ
unfolding read_big_endian
bytes_to_int buf = if ltb (length buf) 8 then 0 else read_big_endian 0 (take 8 buf)

-- A hexadecimal digit, and the value of one.
abbrev pub hex_digit : ℕ → ℕ
hex_digit n = if ltb n 10 then 48 + n else 87 + n

abbrev pub hex_value : ℕ → Option ℕ
hex_value c =
    if leb 48 c && leb c 57
    then some (c - 48)
    else if leb 97 c && leb c 102
    then some (c - 87)
    else if leb 65 c && leb c 70
    then some (c - 55)
    else none

-- `HexEncode`
unfoldable pub hex_encode : List ℕ → String
hex_encode [] = []
hex_encode (b ∷ bs) = hex_digit (b / 16) ∷ hex_digit (b % 16) ∷ hex_encode bs

hex_byte : Option ℕ → Option ℕ → List ℕ → List ℕ
hex_byte none low rest = []
hex_byte (some h) none rest = []
hex_byte (some h) (some l) rest = (h * 16 + l) ∷ rest

-- `EnsureHexDecode`: what stands before the first pair that is none.
unfoldable pub ensure_hex_decode : String → List ℕ
unfolding hex_byte
ensure_hex_decode [] = []
ensure_hex_decode (c ∷ []) = []
ensure_hex_decode (c ∷ d ∷ s) = hex_byte (hex_value c) (hex_value d) (ensure_hex_decode s)

-- `strings.Index(s, ".")`
unfoldable pub index_of : ℕ → String → Option ℕ
index_of c [] = none
index_of c (d ∷ s) =
    let rest = index_of c s in
    if d == c then some 0 else elim rest [ none ↦ none | some i ↦ some (suc i) ]

-- The part of the host's name that `GetSvrmark` uses: less the last char before the dot too.
unfoldable pub short_host : String → String
unfolding index_of
short_host hostname = elim (index_of 46 hostname) [
  | none ↦ hostname
  | some zero ↦ hostname
  | some (suc i) ↦ take i hostname
]

-- `GetSvrmark` on a host and a process; `serverid` is the optional argument.
unfoldable pub get_svrmark : String → ℕ → String → List String → String
unfolding short_host itoa
get_svrmark hostname pid svrname [] =
    short_host hostname ++ (codes "-" ++ (svrname ++ (codes "-" ++ itoa (pos pid))))
get_svrmark hostname pid svrname ([] ∷ ids) =
    short_host hostname ++ (codes "-" ++ (svrname ++ (codes "-" ++ itoa (pos pid))))
get_svrmark hostname pid svrname ((c ∷ cs) ∷ ids) = svrname ++ (codes "-" ++ (c ∷ cs))

pub record TagOptions : Type 0 where
  pub skip : Bool
  pub tag_name : String
  pub omitempty : Bool
  pub omitzero : Bool

-- The loop of `GetTagOptions` over the parts after the name.
unfoldable pub tag_parts : List String → TagOptions → TagOptions
unfolding trim ◌=s◌
tag_parts [] opts = opts
tag_parts (s ∷ parts) opts =
    let t = trim (λ c. c == 32) s in
    tag_parts parts (
      if t =s codes "omitempty"
      then record opts { omitempty = true }
      else if t =s codes "omitzero"
      then record opts { omitzero = true }
      else opts)

named_parts : List String → TagOptions
unfolding trim tag_parts
named_parts [] = record { skip = false; tag_name = []; omitempty = false; omitzero = false }
named_parts (p ∷ parts) =
    tag_parts parts (record {
      skip = false;
      tag_name = trim (λ c. c == 32) p;
      omitempty = false;
      omitzero = false;
    })

-- `GetTagOptions`, of the tag's text.
unfoldable pub get_tag_options : String → TagOptions
unfolding split named_parts ◌=s◌
get_tag_options t =
    if t =s codes "-"
    then record { skip = true; tag_name = []; omitempty = false; omitzero = false }
    else named_parts (split 44 t)

-- A field of a struct, as package reflect gives it: its name, its tags "sqler" and "db", and its value.
pub record TaggedField : Type 0 where
  pub own_name : String
  pub sqler_tag : String
  pub db_tag : String
  pub field_value : ℕ

-- The name of a field in the map.
column_of : String → String → String
column_of field [] = field
column_of field (c ∷ cs) = c ∷ cs

-- `Struct2Map`, whose optional argument is a list of names that it leaves out. Of two entries of a column
-- the one in front, which was put last, is the map's.
unfoldable pub field_map :
    List TaggedField → (String → Bool) → List (String × ℕ) → List (String × ℕ)
unfolding get_tag_options column_of ◌=s◌
field_map [] left_out data_ = data_
field_map (f ∷ fs) left_out data_ =
    let sqltag = get_tag_options f.sqler_tag in
    let entry : String × ℕ =
      (column_of f.own_name (get_tag_options f.db_tag).tag_name, f.field_value) in
    field_map fs left_out (
      if sqltag.skip
      then data_
      else if sqltag.tag_name =s codes "skips"
      then data_
      else if left_out f.own_name
      then data_
      else entry ∷ data_)
