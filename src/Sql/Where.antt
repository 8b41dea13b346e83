-- ===== src/Sql/Where.antt =====
-- The where and join clauses of socket/mysql/sqler.go.
pub mod Connectives
use rocommon.Prelude.{
  ℕ, List, [], ◌∷◌, ◌++◌, Option, none, some, ◌==◌, if◌then◌else◌, ◌≡◌, map, ◌||◌, Bool,
}
use rocommon.Text.{String, itoa, join, codes, ◌=s◌, in_array, trim, trim_left}
use rocommon.Sql.{
  Scalar, str, other, Arg, one, slice, Param, plain, mapping, rows, Sqler, SqlError,
  where_parameter, where_format, join_format, Built, built, failed, panicked, ◌>>=◌,
}
use rocommon.Sql.Literal.{parse_str, parse_arg, implode}

-- `.(string)`
unfoldable pub text_of : Arg → Built String
text_of (one (str s)) = built s
text_of (one _) = panicked
text_of (slice printed vs) = panicked

abbrev operators : List String
operators =
    codes "="
    ∷ codes ">"
    ∷ codes "<"
    ∷ codes "!="
    ∷ codes "<>"
    ∷ codes ">="
    ∷ codes "<="
    ∷ codes "like"
    ∷ codes "not like"
    ∷ codes "in"
    ∷ codes "not in"
    ∷ codes "between"
    ∷ codes "not between"
    ∷ []

-- The third part of a condition.
unfoldable pub operand : String → Arg → Built (List String)
unfolding implode
operand op value =
    if op =s codes "like" || op =s codes "not like"
    then built (parse_arg value ∷ [])
    else if op =s codes "in" || op =s codes "not in"
    then (implode value (codes ",") >>= λ s. built ((codes "(" ++ (s ++ codes ")")) ∷ []))
    else if op =s codes "between" || op =s codes "not between"
    then between value
    else built (parse_arg value ∷ [])
  where
    between : Arg → Built (List String)
    between (slice printed (a ∷ b ∷ vs)) =
        built ((parse_str a ++ (codes " and " ++ parse_str b)) ∷ [])
    between (slice printed _) = panicked
    between (one v) = built []

-- `parseParams`. Other numbers of arguments give an empty text.
unfoldable pub parse_params : List Arg → Built String
unfolding operand text_of
parse_params (column ∷ one (str op) ∷ value ∷ []) =
    if in_array op operators
    then (text_of column >>= λ name.
        operand op value >>= λ rest. built (join (name ∷ op ∷ rest) (codes " ")))
    else failed where_parameter
parse_params (column ∷ op ∷ value ∷ []) = failed where_parameter
parse_params (column ∷ value ∷ []) =
    text_of column >>= λ name. built (join (name ∷ codes "=" ∷ parse_arg value ∷ []) (codes " "))
parse_params _ = built []

-- What a parameter is as a value: `utils_ParseStr` prints it, `util.ToSlice` takes the rows apart.
unfoldable pub as_arg : Param → Arg
as_arg (plain v) = v
as_arg (mapping printed entries) = one (other printed)
as_arg (rows printed l) = slice printed (map (λ r. other (r.0)) l)

-- `key=value` of each entry.
unfoldable pub entry_texts : List (String × Arg) → List String
entry_texts [] = []
entry_texts ((key, v) ∷ es) = (key ++ (codes "=" ++ parse_arg v)) ∷ entry_texts es

-- The rows of a slice of slices: two or three values each.
unfoldable pub row_texts : List (String × List Arg) → Built (List String)
unfolding parse_params
row_texts [] = built []
row_texts ((printed, a ∷ b ∷ []) ∷ l) =
    parse_params (a ∷ b ∷ []) >>= λ s. row_texts l >>= λ ss. built (s ∷ ss)
row_texts ((printed, a ∷ b ∷ c ∷ []) ∷ l) =
    parse_params (a ∷ b ∷ c ∷ []) >>= λ s. row_texts l >>= λ ss. built (s ∷ ss)
row_texts (_ ∷ l) = failed where_format

-- The text of one call of Where or OrWhere: none where it has no argument, or more than three.
unfoldable pub where_text : List Param → Built (Option String)
unfolding row_texts entry_texts as_arg
where_text (a ∷ b ∷ c ∷ []) =
    parse_params (as_arg a ∷ as_arg b ∷ as_arg c ∷ []) >>= λ s. built (some s)
where_text (a ∷ b ∷ []) = parse_params (as_arg a ∷ as_arg b ∷ []) >>= λ s. built (some s)
where_text (plain (one (str s)) ∷ []) = built (some (codes "(" ++ (s ++ codes ")")))
where_text (mapping printed entries ∷ []) =
    built (some (codes "(" ++ (join (entry_texts entries) (codes " and ") ++ codes ")")))
where_text (rows printed l ∷ []) =
    row_texts l >>= λ ss. built (some (codes "(" ++ (join ss (codes " and ") ++ codes ")")))
where_text (plain _ ∷ []) = failed where_format
where_text _ = built none

-- The loop of `parseWhere`: each text behind its connective.
abbrev add_text : String → Option String → List String → List String
add_text condition none ss = ss
add_text condition (some s) ss = (condition ++ (codes " " ++ s)) ∷ ss

unfoldable pub where_texts : List (String × List Param) → Built (List String)
unfolding where_text
where_texts [] = built []
where_texts ((condition, params) ∷ ws) =
    where_text params >>= λ s. where_texts ws >>= λ ss. built (add_text condition s ss)

is_space : ℕ → Bool
is_space c = c == b' '

-- The end of `parseWhere`, which takes the first connective off.
unfoldable pub trim_connective : String → String
unfolding is_space
trim_connective s = trim_left is_space (
    trim_left (λ c. c == b'o' || c == b'r')
      (trim_left (λ c. c == b'a' || (c == b'n' || c == b'd')) (trim is_space s)))

unfoldable pub parse_where : List (String × List Param) → Built String
unfolding where_texts
parse_where ws = where_texts ws >>= λ ss. built (trim_connective (join ss (codes " ")))

-- `parseJoin`, of the text arguments of each call of Join, LeftJoin and RightJoin.
scalar_text : Scalar → Built String
scalar_text (str s) = built s
scalar_text _ = panicked

join_text : List Scalar → Built String
unfolding scalar_text
join_text (a ∷ []) = scalar_text a
join_text (a ∷ b ∷ []) = do
  table ← scalar_text a
  on ← scalar_text b
  built (table ++ (codes " ON " ++ on))
join_text (a ∷ b ∷ c ∷ d ∷ []) = do
  table ← scalar_text a
  left ← scalar_text b
  op ← scalar_text c
  right ← scalar_text d
  built (table ++ (codes " ON " ++ (left ++ (codes " " ++ (op ++ (codes " " ++ right))))))
join_text _ = failed join_format

unfoldable pub join_texts : List (String × List Scalar) → Built (List String)
unfolding join_text
join_texts [] = built []
join_texts ((kind, args) ∷ js) = join_text args >>= λ w.
    join_texts js >>= λ ss. built ((codes " " ++ (kind ++ (codes " JOIN " ++ w))) ∷ ss)

unfoldable pub parse_join : List (String × List Scalar) → Built String
unfolding join_texts
parse_join js = join_texts js >>= λ ss. built (join ss (codes " "))
