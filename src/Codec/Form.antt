-- ===== src/Codec/Form.antt =====
-- The form codec of codec.go: httpFormCodec with form2UrlValues and value2String, and what it uses of the
-- package net/url (Values.Add, Values.Encode, QueryEscape).
pub mod RoundTrip
pub mod Fields
mod Tests
use rocommon.Prelude.{
  ℕ, ◌+◌, ◌/◌, ◌%◌, List, [], ◌∷◌, ◌++◌, Bool, true, false, Option, none, some, ltb, leb, ◌==◌,
  ◌&&◌, ◌||◌, if◌then◌else◌, map, ◌≡◌,
}
use rocommon.Prelude.Outcome.{Outcome, ok, panic, ◌>>=◌}
use rocommon.Text.{String, codes, itoa, ℤ, join, ◌=s◌}

-- The value of a field, by the cases of `value2String`; a float is what strconv.FormatFloat prints of it.
pub data FormValue : Type 0 where
  text : String → FormValue
  flag : Bool → FormValue
  int : ℤ → FormValue
  float : String → FormValue
  other_kind : FormValue

-- `Interface()` panics on a field that is not exported.
pub record FormField : Type 0 where
  pub name : String
  pub is_exported : Bool
  pub value : FormValue

-- A message: a struct or a pointer to one. The type of a pointer has no fields, so that `objType.Field`
-- panics where the struct has one.
pub data FormObject : Type 0 where
  struct : List FormField → FormObject
  pointer : List FormField → FormObject

-- `value2String`
unfoldable pub value2string : FormValue → Outcome String
value2string (text s) = ok s
value2string (flag true) = ok (codes "true")
value2string (flag false) = ok (codes "false")
value2string (int z) = ok (itoa z)
value2string (float s) = ok s
value2string other_kind = panic

-- `Interface()`, and the text of the value.
unfoldable pub field_text : FormField → Outcome String
unfolding value2string
field_text f = if f.is_exported then value2string f.value else panic

-- url.Values: the entries of a map, with the values of each key. `Add`:
unfoldable pub add_value :
    String → String → List (String × List String) → List (String × List String)
add_value k v [] = (k, v ∷ []) ∷ []
add_value k v ((j, vs) ∷ m) =
    let rest = add_value k v m in if j =s k then (j, vs ++ v ∷ []) ∷ m else (j, vs) ∷ rest

-- The loop of `form2UrlValues`.
unfoldable pub form_values :
    List (String × List String) → List FormField → Outcome (List (String × List String))
unfolding field_text add_value
form_values m [] = ok m
form_values m (f ∷ fs) = field_text f >>= λ s. form_values (add_value f.name s m) fs

-- `form2UrlValues`
unfoldable pub form2_url_values : FormObject → Outcome (List (String × List String))
unfolding form_values
form2_url_values (struct fs) = form_values [] fs
form2_url_values (pointer []) = ok []
form2_url_values (pointer (f ∷ fs)) = panic

-- `QueryEscape`: a byte that stands for itself, an upper-case hexadecimal digit, and a byte's text.
unfoldable pub is_unreserved : ℕ → Bool
is_unreserved c =
    leb 48 c && leb c 57
    || leb 65 c && leb c 90
    || leb 97 c && leb c 122
    || c == 45
    || c == 46
    || c == 95
    || c == 126

unfoldable pub upper_digit : ℕ → ℕ
upper_digit n = if ltb n 10 then 48 + n else 55 + n

unfoldable pub escape_byte : ℕ → String
unfolding is_unreserved upper_digit
escape_byte c =
    if is_unreserved c
    then c ∷ []
    else if c == 32
    then 43 ∷ []
    else 37 ∷ upper_digit (c / 16) ∷ upper_digit (c % 16) ∷ []

unfoldable pub query_escape : String → String
unfolding escape_byte
query_escape [] = []
query_escape (c ∷ s) = escape_byte c ++ query_escape s

-- `Encode`: the keys sorted, and for each its values; a pair is `key=value`, and pairs are joined by `&`.
unfoldable pub less_eq : String → String → Bool
less_eq [] t = true
less_eq (c ∷ s) [] = false
less_eq (c ∷ s) (d ∷ t) = ltb c d || c == d && less_eq s t

unfoldable pub insert_key :
    String × List String → List (String × List String) → List (String × List String)
unfolding less_eq
insert_key e [] = e ∷ []
insert_key e (d ∷ m) =
    let rest = insert_key e m in if less_eq (e.0) (d.0) then e ∷ d ∷ m else d ∷ rest

unfoldable pub sort_keys : List (String × List String) → List (String × List String)
unfolding insert_key
sort_keys [] = []
sort_keys (e ∷ m) = insert_key e (sort_keys m)

unfoldable pub pairs_of : List (String × List String) → List (String × String)
pairs_of [] = []
pairs_of ((k, vs) ∷ m) = map (λ v. (k, v)) vs ++ pairs_of m

unfoldable pub pair_text : String × String → String
unfolding query_escape
pair_text p = query_escape (p.0) ++ 61 ∷ query_escape (p.1)

unfoldable pub encode_values : List (String × List String) → String
unfolding pair_text pairs_of sort_keys
encode_values m = join (map pair_text (pairs_of (sort_keys m))) (38 ∷ [])

-- `Marshal`
unfoldable pub form_marshal : FormObject → Outcome String
unfolding form2_url_values encode_values
form_marshal obj = form2_url_values obj >>= λ m. ok (encode_values m)

-- `Unmarshal` into a pointer to a struct of strings: it puts the body into the first field, and reads
-- nothing where the message is nil. No body: the read fails. With the result, whether there is no error.
unfoldable pub form_unmarshal :
    Option (List String) → Option String → Outcome (Bool × Option (List String))
form_unmarshal none body = ok (true, none)
form_unmarshal (some fs) none = ok (false, some fs)
form_unmarshal (some []) (some body) = panic
form_unmarshal (some (f ∷ fs)) (some body) = ok (true, some (body ∷ fs))
