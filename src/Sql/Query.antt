-- ===== src/Sql/Query.antt =====
-- The select statements of socket/mysql/sqler.go.
pub mod Reset
use rocommon.Prelude.{
  ℕ, zero, suc, ◌*◌, List, [], ◌∷◌, ◌++◌, Option, none, some, ◌==◌, if◌then◌else◌, ◌≡◌, Bool, true,
  false, ltb,
}
use rocommon.Text.{String, ℤ, pos, negsuc, itoa, codes, ◌=s◌}
use rocommon.Sql.{
  Scalar, str, Arg, one, Param, Sqler, Built, built, failed, panicked, ◌>>=◌, new_sqler, row_data,
}
use rocommon.Sql.Literal.{parse_arg}
use rocommon.Sql.Where.{parse_where, parse_join, text_of}

-- `if s == "" then "" else before + s`
abbrev pub clause : String → String → String
clause before [] = []
clause before (c ∷ s) = before ++ (c ∷ s)

-- The first of the aggregates that is set.
abbrev pub first_set : List String → String
first_set [] = []
first_set ([] ∷ ss) = first_set ss
first_set ((c ∷ s) ∷ ss) = c ∷ s

-- What stands behind SELECT: the first aggregate, or the fields, or all.
abbrev pub or_else : String → String → String
or_else [] s = s
or_else (c ∷ r) s = c ∷ r

unfoldable pub selected : Sqler → String
selected s =
    or_else (first_set (s.count ∷ s.sum ∷ s.avg ∷ s.max ∷ s.min ∷ []))
      (or_else s.fields (codes "*"))

number_clause : String → ℤ → String
unfolding itoa
number_clause before (pos zero) = []
number_clause before n = before ++ itoa n

-- `BuildQuery`.
unfoldable pub build_query : Sqler → Built String
unfolding selected number_clause
build_query s = do
  joined ← parse_join s.joins
  wheres ← parse_where s.wheres
  built (
      codes "SELECT "
      ++ ((if s.distinct then codes "distinct " else [])
          ++ (selected s
              ++ (codes " FROM "
                  ++ (s.table
                      ++ (joined
                          ++ (clause (codes " WHERE ") wheres
                              ++ (clause (codes " GROUP BY ") s.group
                                  ++ (clause (codes " HAVING ") s.having
                                      ++ (clause (codes " ORDER BY ") s.order
                                          ++ (number_clause (codes " LIMIT ") s.limit
                                              ++ number_clause (codes " OFFSET ")
                                                  s.offset)))))))))))

-- `utils_RetStr`: the error is dropped, with the empty text that comes with it.
abbrev pub ret_str : Built String → Option String
ret_str (built s) = some s
ret_str (failed e) = some []
ret_str panicked = none

-- `buildUnion`, with the builder that it leaves.
unfoldable pub build_union : Sqler → String → String → Sqler × Built String
build_union s union field =
    let t : Sqler =
      if union =s codes "count"
      then record s { count = union ++ (codes "(" ++ (field ++ (codes ") as " ++ union))) }
      else if union =s codes "sum"
      then record s { sum = codes "COALESCE(sum(" ++ (field ++ codes "),0) as sum") }
      else if union =s codes "avg"
      then record s { avg = codes "COALESCE(avg(" ++ (field ++ codes "),0) as avg") }
      else if union =s codes "max"
      then record s { max = codes "COALESCE(max(" ++ (field ++ codes "),0) as max") }
      else if union =s codes "min"
      then record s { min = codes "COALESCE(min(" ++ (field ++ codes "),0) as min") }
      else s in
    (t, build_query t)

-- `(page - 1) * limit`, exact while it fits into 64 bits.
negated : ℕ → ℤ
negated zero = pos 0
negated (suc n) = negsuc n

times : ℤ → ℤ → ℤ
unfolding negated
times (pos a) (pos b) = pos (a * b)
times (pos a) (negsuc b) = negated (a * suc b)
times (negsuc a) (pos b) = negated (suc a * b)
times (negsuc a) (negsuc b) = pos (suc a * suc b)

less_one : ℤ → ℤ
less_one (pos zero) = negsuc 0
less_one (pos (suc n)) = pos n
less_one (negsuc n) = negsuc (suc n)

-- The calls that set a part of a query and return the builder.
pub data Setter : Type 0 where
  set_table set_group set_having set_order : String → Setter
  set_limit set_offset set_page : ℤ → Setter
  add_where add_or_where : List Param → Setter
  add_join add_left_join add_right_join : List Scalar → Setter
  set_distinct set_ignore : Setter

unfoldable pub set_part : Setter → Sqler → Sqler
unfolding times less_one
set_part (set_table t) s = record s { table = t }
set_part (set_group t) s = record s { group = t }
set_part (set_having t) s = record s { having = t }
set_part (set_order t) s = record s { order = t }
set_part (set_limit n) s = record s { limit = n }
set_part (set_offset n) s = record s { offset = n }
set_part (set_page n) s = record s { offset = times (less_one n) s.limit }
set_part (add_where args) s = record s { wheres = s.wheres ++ (codes "and", args) ∷ [] }
set_part (add_or_where args) s = record s { wheres = s.wheres ++ (codes "or", args) ∷ [] }
set_part (add_join args) s = record s { joins = s.joins ++ (codes "INNER", args) ∷ [] }
set_part (add_left_join args) s = record s { joins = s.joins ++ (codes "LEFT", args) ∷ [] }
set_part (add_right_join args) s = record s { joins = s.joins ++ (codes "RIGHT", args) ∷ [] }
set_part set_distinct s = record s { distinct = true }
set_part set_ignore s = record s { ignore = codes "ignore " }

unfoldable pub set_parts : List Setter → Sqler → Sqler
unfolding set_part
set_parts [] s = s
set_parts (p ∷ ps) s = set_parts ps (set_part p s)

-- `Reset`: the fields for increments, the translation, the kind of statement and IGNORE stay.
unfoldable pub reset : Sqler → Sqler
reset s = record s {
  table = [];
  fields = [];
  wheres = [];
  order = [];
  limit = pos 0;
  offset = pos 0;
  joins = [];
  distinct = false;
  group = [];
  having = [];
  content = none;
  count = [];
  sum = [];
  avg = [];
  max = [];
  min = [];
}

-- `Select`, with the builder that it leaves; a first argument that is no string panics.
unfoldable pub select : Sqler → List Arg → Sqler × Option String
select s [] = (s, ret_str (build_query s))
select s (one (str f) ∷ args) = let t = record s { fields = f } in (t, ret_str (build_query t))
select s (_ ∷ args) = (s, none)

-- `Count`: a column that is given is printed as a value, in quotes.
unfoldable pub count : Sqler → List Arg → Sqler × Option String
unfolding build_union
count s [] = let r = build_union s (codes "count") (codes "*") in (r.0, ret_str (r.1))
count s (a ∷ args) = let r = build_union s (codes "count") (parse_arg a) in (r.0, ret_str (r.1))

-- `Sum`, `Avg`, `Max` and `Min`.
unfoldable pub aggregate : String → Sqler → String → Sqler × Option String
unfolding build_union
aggregate union s field = let r = build_union s union field in (r.0, ret_str (r.1))
