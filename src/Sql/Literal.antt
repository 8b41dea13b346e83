-- ===== src/Sql/Literal.antt =====
-- The literals that socket/mysql/sqler.go prints for values.
use rocommon.Prelude.{
  ℕ, [], ◌∷◌, ◌++◌, Option, none, some, ◌==◌, if◌then◌else◌, ◌≡◌, ◌≢◌, refl, arith, append_assoc,
  map, ap, ◌∙◌,
}
use mathlib.Core.Path.{◌≡⟨◌⟩◌, ◌∎}
use rocommon.Text.{String, itoa, replace, join}
use rocommon.Sql.{Scalar, int, str, moment, other, Arg, one, slice, Built, built, panicked}

-- A backslash is doubled, then a quote gets a backslash.
unfoldable pub escape : String → String
escape s = replace b'\'' (b'\\' ∷ b'\'' ∷ []) (replace b'\\' (b'\\' ∷ b'\\' ∷ []) s)

unfoldable pub quoted : String → String
unfolding escape
quoted s = b'\'' ∷ (escape s ++ b'\'' ∷ [])

-- `utils_ParseStr`.
unfoldable pub parse_str : Scalar → String
unfolding quoted
parse_str (int n) = itoa n
parse_str (str s) = quoted s
parse_str (moment s) = s
parse_str (other s) = quoted s

unfoldable pub parse_arg : Arg → String
unfolding parse_str
parse_arg (one v) = parse_str v
parse_arg (slice printed vs) = quoted printed

-- `utils_Implode`: anything but a slice must be a string, which is taken as it is.
unfoldable pub implode : Arg → String → Built String
unfolding parse_str
implode (slice printed vs) glue = built (join (map parse_str vs) glue)
implode (one (str s)) glue = built s
implode (one _) glue = panicked

-- How MySQL, in its default mode, reads a string literal after its opening quote: the text and
-- what follows. A backslash takes the next byte, two quotes are one.
escaped_byte : ℕ → ℕ
escaped_byte c =
    if c == b'n'
    then 10
    else if c == b't'
    then 9
    else if c == b'r'
    then 13
    else if c == b'0'
    then 0
    else if c == b'b'
    then 8
    else if c == b'Z'
    then 26
    else c

abbrev with_byte : ℕ → Option (String × String) → Option (String × String)
with_byte c none = none
with_byte c (some r) = some (c ∷ r.0, r.1)

read_text : String → Option (String × String)
unfolding escaped_byte
read_text [] = none
read_text (c ∷ []) = if c == b'\'' then some ([], []) else none
read_text (c ∷ d ∷ s) =
    let after_escape = with_byte (escaped_byte d) (read_text s) in
    let after_quotes = with_byte b'\'' (read_text s) in
    let plain = with_byte c (read_text (d ∷ s)) in
    if c == b'\\'
    then after_escape
    else if c == b'\''
    then (if d == b'\'' then after_quotes else some ([], d ∷ s))
    else plain

pub read_literal : String → Option (String × String)
unfolding read_text
read_literal [] = none
read_literal (c ∷ s) = if c == b'\'' then read_text s else none

-- What follows a literal does not begin with a quote.
abbrev pub NoQuote : String → Type 0
NoQuote [] = Unit {0}
NoQuote (c ∷ s) = c ≢ b'\''

-- The two passes are one over the bytes.
hide : ℕ → String
hide c =
    if c == b'\\' then b'\\' ∷ b'\\' ∷ [] else if c == b'\'' then b'\\' ∷ b'\'' ∷ [] else c ∷ []

escape_cons : (c : ℕ) (s : String) → escape (c ∷ s) ≡ hide c ++ escape s
unfolding escape replace hide
escape_cons c s = ground arith

read_text-end : (rest : String) → NoQuote rest → read_text (b'\'' ∷ rest) ≡ some ([], rest)
unfolding read_text
read_text-end [] h = refl
read_text-end (c ∷ rest) h = ground arith

read_text-hide : (c : ℕ) (s : String) → read_text (hide c ++ s) ≡ with_byte c (read_text s)
unfolding read_text hide escaped_byte
read_text-hide c [] = ground arith
read_text-hide c (d ∷ s) = ground arith

read_text-escape :
    (s rest : String) → NoQuote rest → read_text (escape s ++ b'\'' ∷ rest) ≡ some (s, rest)
unfolding escape replace
read_text-escape [] rest h = read_text-end rest h
read_text-escape (c ∷ s) rest h =
    read_text (escape (c ∷ s) ++ b'\'' ∷ rest)
    ≡⟨ ap (λ q. read_text (q ++ b'\'' ∷ rest)) (escape_cons c s) ⟩
      read_text ((hide c ++ escape s) ++ b'\'' ∷ rest)
    ≡⟨ ap read_text (append_assoc (hide c) (escape s) (b'\'' ∷ rest)) ⟩
      read_text (hide c ++ (escape s ++ b'\'' ∷ rest))
    ≡⟨ read_text-hide c (escape s ++ b'\'' ∷ rest) ⟩
      with_byte c (read_text (escape s ++ b'\'' ∷ rest))
    ≡⟨ ap (with_byte c) (read_text-escape s rest h) ⟩ some (c ∷ s, rest) ∎

-- The literal that is printed for a string, whatever bytes it holds, is read back as that string,
-- and ends where it was made to end: no value reaches what follows it, unless that is a quote.
pub read_literal-parse_str :
    (s rest : String) → NoQuote rest → read_literal (parse_str (str s) ++ rest) ≡ some (s, rest)
unfolding read_literal parse_str quoted
read_literal-parse_str s rest h =
    ap read_text (append_assoc (escape s) (b'\'' ∷ []) rest) ∙ read_text-escape s rest h
