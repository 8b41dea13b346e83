-- ===== src/Sql/Execute/Tests.antt =====
-- Statements that socket/mysql/sqler.go builds.
use rocommon.Prelude.{ℕ, List, [], ◌∷◌, ◌++◌, none, some, ◌≡◌, refl, arith, inl}
use rocommon.Text.{
  String, codes, join, pos, itoa, ◌=s◌, in_array, replace, trim, trim_left, trim_right,
}
use rocommon.Sql.{Param, Sqler, Arg, one, str, int, plain, row_data, new_sqler, built}
use rocommon.Sql.Literal.{parse_str, parse_arg, read_literal, read_literal-parse_str}
use rocommon.Sql.Where.{
  parse_where, where_text, where_texts, parse_params, parse_join, trim_connective,
}
use rocommon.Sql.Where.Connectives.{parse_where_texts}
use rocommon.Sql.Query.{build_query, select, set_parts, reset, set_table, set_limit}
use rocommon.Sql.Query.Reset.{select-set_parts-reset}
use rocommon.Sql.Execute.{insert, build_execut, build_data, row_parts}
use rocommon.Sql.Execute.Values.{read_row, strings, read_row-build_data}

abbrev users : Sqler
users = record (new_sqler none) { table = codes "users" }

-- The text that tries to leave its literal.
abbrev evil : String
evil = codes "x' or 1=1 -- \\"

quoted_run : parse_str (str evil) ≡ codes "'x\\' or 1=1 -- \\\\'"
unfolding parse_str replace
quoted_run = refl

read_literal-parse_str_example :
    read_literal (parse_str (str evil) ++ codes " and 1") ≡ some (evil, codes " and 1")
read_literal-parse_str_example = read_literal-parse_str evil (codes " and 1") (λ e. omega arith)

abbrev id_is : ℕ → List (String × List Param)
id_is n = (codes "and", plain (one (str (codes "id"))) ∷ plain (one (int (pos n))) ∷ []) ∷ []

where_text_run :
    where_text (plain (one (str (codes "id"))) ∷ plain (one (int (pos 7))) ∷ [])
    ≡ built (some (codes "id = 7"))
unfolding where_text parse_params parse_arg join itoa
where_text_run = refl

where_texts_run :
    where_texts ((codes "or", plain (one (str (codes "a=b"))) ∷ []) ∷ [])
    ≡ built (codes "or (a=b)" ∷ [])
unfolding where_texts
where_texts_run = refl

parse_where_texts_example :
    parse_where (
      (codes "and", plain (one (str (codes "id"))) ∷ plain (one (int (pos 7))) ∷ [])
      ∷ (codes "or", plain (one (str (codes "a=b"))) ∷ [])
      ∷ [])
    ≡ built (join (codes "id = 7" ∷ codes "or (a=b)" ∷ []) (codes " "))
unfolding join
parse_where_texts_example =
    parse_where_texts (codes "and") (codes "id = 7")
      (plain (one (str (codes "id"))) ∷ plain (one (int (pos 7))) ∷ [])
      ((codes "or", plain (one (str (codes "a=b"))) ∷ []) ∷ []) (codes "or (a=b)" ∷ []) (inl refl)
      where_text_run where_texts_run (λ e. omega arith) (λ e. omega arith)

-- A condition of four arguments.
abbrev too_many : Sqler
too_many = record users {
  wheres =
      (
        codes "and",
        plain (one (str (codes "id")))
            ∷ plain (one (str (codes ">")))
            ∷ plain (one (int (pos 7)))
            ∷ plain (one (int (pos 8)))
            ∷ [],
      )
      ∷ [];
}

select_run :
    (select (set_parts (set_limit (pos 3) ∷ []) users) []).1
    ≡ some (codes "SELECT * FROM users LIMIT 3")
unfolding select set_parts build_query parse_join parse_where where_texts trim_connective trim
    trim_left trim_right join itoa new_sqler
select_run = refl

select-set_parts-reset_example :
    (select (set_parts (set_table (codes "t") ∷ []) (reset users)) []).1
    ≡ (select (set_parts (set_table (codes "t") ∷ []) (new_sqler none)) []).1
select-set_parts-reset_example = select-set_parts-reset users none (set_table (codes "t") ∷ []) []

abbrev a_row : List (String × Arg)
a_row = (codes "name", one (str (codes "ann"))) ∷ []

insert_run :
    (insert users (row_data a_row)).1 ≡ some (codes "insert into users (name) values ('ann')")
unfolding insert build_execut build_data parse_where where_texts trim_connective trim trim_left
    trim_right join ◌=s◌ parse_arg replace new_sqler in_array row_parts
insert_run = refl

read_row-build_data_example :
    read_row 1 (
      (build_data users (row_data (strings ((codes "a", evil) ∷ (codes "b", codes "y") ∷ [])))).2
      ++ codes ";")
    ≡ some (evil ∷ codes "y" ∷ [], codes ";")
read_row-build_data_example =
    read_row-build_data users (codes "a") evil ((codes "b", codes "y") ∷ []) (codes ";")
