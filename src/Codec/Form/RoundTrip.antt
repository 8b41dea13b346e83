-- ===== src/Codec/Form/RoundTrip.antt =====
-- Of the form codec (codec.go): readers of escaped texts and of joined pairs.
use rocommon.Prelude.{
  ℕ, ◌+◌, ◌*◌, ◌/◌, ◌%◌, ◌<◌, List, [], ◌∷◌, ◌++◌, Option, none, some, ◌==◌, if◌then◌else◌, map,
  ◌≡◌, ◌≢◌, All, refl, ap, ◌∙◌, arith,
}
use rocommon.Text.{String, split, join}
use rocommon.Text.Digits.{All-append, All-mono}
use rocommon.Text.Split.{Free, split-Free, split_at}
use rocommon.Util.Encoding.{hex_value}
use rocommon.Codec.Form.{is_unreserved, upper_digit, escape_byte, query_escape, pair_text}

-- A reader of escaped text (as url.QueryUnescape): past `%` it waits for two digits.
data Reading : Type 0 where
  plain percent : Reading
  high : ℕ → Reading

abbrev push : ℕ → Option String → Option String
push c none = none
push c (some s) = some (c ∷ s)

unfoldable unescape : Reading → String → Option String
unescape plain [] = some []
unescape percent [] = none
unescape (high h) [] = none
unescape plain (c ∷ s) =
    let escaped = unescape percent s in
    let rest = unescape plain s in
    if c == 37 then escaped else push (if c == 43 then 32 else c) rest
unescape percent (c ∷ s) = elim (hex_value c) [ none ↦ none | some h ↦ unescape (high h) s ]
unescape (high h) (c ∷ s) = elim (hex_value c) [
  | none ↦ none
  | some l ↦ push (h * 16 + l) (unescape plain s)
]

hex_value-upper_digit : (n : ℕ) → n < 16 → hex_value (upper_digit n) ≡ some n
unfolding upper_digit
hex_value-upper_digit n h = ground (arith, h)

unescape-escape_byte :
    (c : ℕ) (s : String) → c < 256 → unescape plain (escape_byte c ++ s) ≡ push c (unescape plain s)
unfolding unescape escape_byte is_unreserved
unescape-escape_byte c s h = ground (
  arith,
  h,
  hex_value-upper_digit (c / 16) (omega (arith, h)),
  hex_value-upper_digit (c % 16) (omega arith),
)

unescape-query_escape :
    (s : String) → All (λ c. c < 256) s → unescape plain (query_escape s) ≡ some s
unfolding unescape query_escape
unescape-query_escape [] h = refl
unescape-query_escape (c ∷ s) (hc, h) =
    unescape-escape_byte c (query_escape s) hc ∙ ap (push c) (unescape-query_escape s h)

-- Escaped text holds neither `&` nor `=`.
abbrev IsEscaped : ℕ → Type 0
IsEscaped c = (c ≢ 38) × (c ≢ 61)

upper_digit-IsEscaped : (n : ℕ) → n < 16 → IsEscaped (upper_digit n)
unfolding upper_digit
upper_digit-IsEscaped n h = (λ e. ground (arith, h, e), λ e. ground (arith, h, e))

escape_byte-IsEscaped : (c : ℕ) → c < 256 → All IsEscaped (escape_byte c)
unfolding escape_byte is_unreserved
escape_byte-IsEscaped c h = ground (
  arith,
  h,
  upper_digit-IsEscaped (c / 16) (omega (arith, h)),
  upper_digit-IsEscaped (c % 16) (omega arith),
)

query_escape-IsEscaped : (s : String) → All (λ c. c < 256) s → All IsEscaped (query_escape s)
unfolding query_escape
query_escape-IsEscaped [] h = tt
query_escape-IsEscaped (c ∷ s) (hc, h) =
    All-append IsEscaped (escape_byte c) (query_escape s) (escape_byte-IsEscaped c hc)
      (query_escape-IsEscaped s h)

-- `strings.Cut` at `=`, and the two texts of a pair.
unfoldable cut : String → String × String
cut [] = ([], [])
cut (c ∷ s) = let r = cut s in if c == 61 then ([], s) else (c ∷ r.0, r.1)

cut_at : (s t : String) → Free 61 s → cut (s ++ 61 ∷ t) ≡ (s, t)
unfolding cut
cut_at [] t h = refl
cut_at (c ∷ s) t h = ground (arith, h.0, cut_at s t (h.1))

unfoldable unescape_both : String × String → Option (String × String)
unescape_both (s, t) = elim (unescape plain s) [
  | none ↦ none
  | some k ↦ elim (unescape plain t) [ none ↦ none | some v ↦ some (k, v) ]
]

abbrev pub IsBytes : String → Type 0
IsBytes s = All (λ c. c < 256) s

unfoldable pub IsBytesPair : String × String → Type 0
IsBytesPair p = IsBytes (p.0) × IsBytes (p.1)

read_pair-pair_text :
    (p : String × String) → IsBytesPair p → unescape_both (cut (pair_text p)) ≡ some p
unfolding unescape_both pair_text IsBytesPair
read_pair-pair_text (k, v) (hk, hv) =
    ap unescape_both (
      cut_at (query_escape k) (query_escape v) (
        All-mono IsEscaped (λ c. c ≢ 61) (λ c q. q.1) (query_escape k)
          (query_escape-IsEscaped k hk)))
    ∙ ground (arith, unescape-query_escape k hk, unescape-query_escape v hv)

-- A reader of a form (as url.ParseQuery): its pairs in their order, less empty pieces.
unfoldable with_pair :
    Option (String × String) → Option (List (String × String)) → Option (List (String × String))
with_pair none ps = none
with_pair (some p) none = none
with_pair (some p) (some ps) = some (p ∷ ps)

unfoldable read_pieces : List String → Option (List (String × String))
unfolding with_pair unescape_both
read_pieces [] = some []
read_pieces ([] ∷ ss) = read_pieces ss
read_pieces ((c ∷ s) ∷ ss) = with_pair (unescape_both (cut (c ∷ s))) (read_pieces ss)

pub read_form : String → Option (List (String × String))
unfolding read_pieces
read_form s = read_pieces (split 38 s)

read_pieces_nonempty :
    (s t : String) (ss : List String)
    → read_pieces ((s ++ 61 ∷ t) ∷ ss)
      ≡ with_pair (unescape_both (cut (s ++ 61 ∷ t))) (read_pieces ss)
unfolding read_pieces
read_pieces_nonempty [] t ss = refl
read_pieces_nonempty (c ∷ s) t ss = refl

read_pieces-pair_text :
    (ps : List (String × String)) → All IsBytesPair ps → read_pieces (map pair_text ps) ≡ some ps
unfolding read_pieces pair_text with_pair
read_pieces-pair_text [] h = refl
read_pieces-pair_text ((k, v) ∷ ps) (hp, h) =
    read_pieces_nonempty (query_escape k) (query_escape v) (map pair_text ps)
    ∙ ap (λ r. with_pair r (read_pieces (map pair_text ps))) (read_pair-pair_text (k, v) hp)
    ∙ ap (with_pair (some (k, v))) (read_pieces-pair_text ps h)

pair_text-Free : (p : String × String) → IsBytesPair p → Free 38 (pair_text p)
unfolding pair_text IsBytesPair
pair_text-Free (k, v) (hk, hv) =
    let free : (s : String) → IsBytes s → Free 38 (query_escape s) = λ s h.
      All-mono IsEscaped (λ c. c ≢ 38) (λ c q. q.0) (query_escape s) (query_escape-IsEscaped s h) in
    All-append (λ c. c ≢ 38) (query_escape k) (61 ∷ query_escape v) (free k hk)
      (λ e. omega (arith, e), free v hv)

split-join :
    (s : String) (ss : List String)
    → All (Free 38) (s ∷ ss)
    → split 38 (join (s ∷ ss) (38 ∷ [])) ≡ s ∷ ss
unfolding join
split-join s [] (h, _) = split-Free 38 s h
split-join s (t ∷ ss) (h, hs) =
    split_at 38 s (join (t ∷ ss) (38 ∷ [])) h ∙ ap (λ r. s ∷ r) (split-join t ss hs)

pair_texts-Free :
    (ps : List (String × String)) → All IsBytesPair ps → All (Free 38) (map pair_text ps)
pair_texts-Free [] h = tt
pair_texts-Free (p ∷ ps) (hp, h) = (pair_text-Free p hp, pair_texts-Free ps h)

pub read_form-join :
    (ps : List (String × String))
    → All IsBytesPair ps
    → read_form (join (map pair_text ps) (38 ∷ [])) ≡ some ps
unfolding read_form read_pieces split join
read_form-join [] h = refl
read_form-join (p ∷ ps) h =
    ap read_pieces (split-join (pair_text p) (map pair_text ps) (pair_texts-Free (p ∷ ps) h))
    ∙ read_pieces-pair_text (p ∷ ps) h
