-- ===== src/Sql/Execute/Values.antt =====
-- The values that an insert of socket/mysql/sqler.go carries, as MySQL reads them.
use rocommon.Prelude.{
  ℕ, zero, suc, List, [], ◌∷◌, ◌++◌, Option, none, some, ◌==◌, if◌then◌else◌, ◌≡◌, refl, arith, ap,
  ◌∙◌, sym, append_assoc, append-nil, map, length,
}
use rocommon.Text.{String, codes, join}
use rocommon.Sql.{Sqler, Arg, one, str, row_data}
use rocommon.Sql.Literal.{parse_arg, parse_str, read_literal, read_literal-parse_str, NoQuote}
use rocommon.Sql.Execute.{build_data, row_parts}

-- The literals of a row from the first comma on, `n` of them, and the bracket that ends it.
read_more : ℕ → String → Option (List String × String)
read_more zero [] = none
read_more zero (c ∷ s) = if c == b')' then some ([], s) else none
read_more (suc n) [] = none
read_more (suc n) (c ∷ s) =
    let next : Option (List String × String) = elim (read_literal s) [
      | none ↦ none
      | some r ↦ elim (read_more n (r.1)) [ none ↦ none | some q ↦ some (r.0 ∷ q.0, q.1) ]
    ] in
    if c == b',' then next else none

with_text : String → Option (List String × String) → Option (List String × String)
with_text v none = none
with_text v (some q) = some (v ∷ q.0, q.1)

after_literal : ℕ → Option (String × String) → Option (List String × String)
unfolding read_more with_text
after_literal n none = none
after_literal n (some r) = with_text (r.0) (read_more n (r.1))

read_first : ℕ → String → Option (List String × String)
unfolding after_literal
read_first n s = after_literal n (read_literal s)

-- A row of one literal and `n` more.
pub read_row : ℕ → String → Option (List String × String)
unfolding read_first
read_row n [] = none
read_row n (c ∷ s) = if c == b'(' then read_first n s else none

abbrev printed : String → String
printed v = parse_str (str v)

-- The values behind the first one.
tail : List String → String
tail [] = []
tail (v ∷ vs) = b',' ∷ (printed v ++ tail vs)

join-tail :
    (v : String) (vs : List String)
    → join (printed v ∷ map printed vs) (codes ",") ≡ printed v ++ tail vs
unfolding join tail
join-tail v [] = sym (append-nil (printed v))
join-tail v (w ∷ vs) = ap (λ q. printed v ++ b',' ∷ q) (join-tail w vs)

NoQuote-tail : (vs : List String) (rest : String) → NoQuote (tail vs ++ b')' ∷ rest)
unfolding tail
NoQuote-tail [] rest = λ e. omega arith
NoQuote-tail (v ∷ vs) rest = λ e. omega arith

read_more-tail :
    (vs : List String) (rest : String)
    → read_more (length vs) (tail vs ++ b')' ∷ rest) ≡ some (vs, rest)
unfolding read_more tail
read_more-tail [] rest = refl
read_more-tail (v ∷ vs) rest =
    rw
      (
        append_assoc (printed v) (tail vs) (b')' ∷ rest),
        read_literal-parse_str v (tail vs ++ b')' ∷ rest) (NoQuote-tail vs rest),
        read_more-tail vs rest,
      )
      refl

read_first-tail :
    (v : String) (vs : List String) (rest : String)
    → read_first (length vs) (printed v ++ (tail vs ++ b')' ∷ rest)) ≡ some (v ∷ vs, rest)
unfolding read_first
read_first-tail v vs rest =
    ap (after_literal (length vs))
      (read_literal-parse_str v (tail vs ++ b')' ∷ rest) (NoQuote-tail vs rest))
    ∙ ap (with_text v) (read_more-tail vs rest)

-- A row of strings, by its keys.
abbrev pub strings : List (String × String) → List (String × Arg)
strings [] = []
strings ((k, v) ∷ es) = (k, one (str v)) ∷ strings es

abbrev pub texts : List (String × String) → List String
texts [] = []
texts ((k, v) ∷ es) = v ∷ texts es

length-texts : (es : List (String × String)) → length (texts es) ≡ length es
length-texts [] = refl
length-texts ((k, v) ∷ es) = ap suc (length-texts es)

row_parts-strings :
    (s : Sqler) (es : List (String × String))
    → (row_parts s (strings es)).2 ≡ map printed (texts es)
unfolding row_parts parse_arg
row_parts-strings s [] = refl
row_parts-strings s ((k, v) ∷ es) = ap (λ q. printed v ∷ q) (row_parts-strings s es)

regroup : (a b rest : String) → ((a ++ b) ++ codes ")") ++ rest ≡ a ++ (b ++ b')' ∷ rest)
regroup a b rest = simp append_assoc

-- The values of an insert of a row of strings are read by MySQL as exactly these strings, in the order
-- of the keys, whatever bytes they hold and whatever follows the row.
pub read_row-build_data :
    (s : Sqler) (k v : String) (es : List (String × String)) (rest : String)
    → read_row (length es) ((build_data s (row_data (strings ((k, v) ∷ es)))).2 ++ rest)
      ≡ some (v ∷ texts es, rest)
unfolding read_row build_data parse_arg
read_row-build_data s k v es rest =
    ap (λ q. read_first (length es) ((join (printed v ∷ q) (codes ",") ++ codes ")") ++ rest))
      (row_parts-strings s es)
    ∙ ap (λ q. read_first (length es) ((q ++ codes ")") ++ rest)) (join-tail v (texts es))
    ∙ ap (read_first (length es)) (regroup (printed v) (tail (texts es)) rest)
    ∙ ap (λ n. read_first n (printed v ++ (tail (texts es) ++ b')' ∷ rest))) (sym (length-texts es))
    ∙ read_first-tail v (texts es) rest
