-- ===== src/Sql/Execute.antt =====
-- The statements of socket/mysql/sqler.go that change data.
pub mod Rows
pub mod Batch
pub mod Values
mod Tests
use rocommon.Prelude.{
  ℕ, List, [], ◌∷◌, ◌++◌, Option, none, some, ◌==◌, if◌then◌else◌, ◌≡◌, Bool, true, false, ltb, map,
  ◌&&◌, not, length,
}
use rocommon.Text.{String, codes, ◌=s◌, in_array, join}
use rocommon.Sql.{
  Scalar, str, other, Arg, one, Param, Sqler, Built, built, failed, panicked, ◌>>=◌, Data,
  text_data, rows_data, row_data,
}
use rocommon.Sql.Literal.{parse_arg}
use rocommon.Sql.Where.{parse_where}
use rocommon.Sql.Query.{clause, ret_str}

abbrev pub Row : Type 0
Row = List (String × Arg)

-- `item[key]`: a key that is not there gives nil.
pub item : Row → String → Arg
item [] key = one (other (codes "<nil>"))
item ((k, v) ∷ es) key = if k =s key then v else item es key

abbrev translated : Option (String → String) → String → String
translated none key = key
translated (some f) key = f key

-- The keys that an insert of rows takes from its first row: one that is in the list already is
-- appended.
pub row_keys : Row → List String → List String
row_keys [] fields = fields
row_keys ((key, v) ∷ es) fields =
    row_keys es (if in_array key fields then fields ++ key ∷ [] else fields)

-- One row of values.
pub row_values : List String → Row → String
unfolding item
row_values fields es =
    codes "(" ++ (join (map (λ key. parse_arg (item es key)) fields) (codes ",") ++ codes ")")

-- One row of data: the parts of an update, the keys and the values.
pub row_parts : Sqler → Row → List String × List String × List String
row_parts s [] = ([], [], [])
row_parts s ((k, v) ∷ es) =
    let key = translated s.translate k in
    let val = parse_arg v in
    let rest = row_parts s es in
    (
      (if s.optype =s codes "update" && in_array key s.inc_fields
            then key ++ (codes "=" ++ (key ++ (codes "+" ++ val)))
            else key ++ (codes "=" ++ val))
          ∷ rest.0,
      key ∷ rest.1,
      val ∷ rest.2,
    )

-- `buildData`: what follows `set`, the keys and the values of an insert.
pub build_data : Sqler → Data → String × String × String
unfolding row_keys row_values row_parts
build_data s (text_data t) = (t, [], [])
build_data s (rows_data []) = ([], [], [])
build_data s (rows_data (r ∷ rs)) =
    let fields = row_keys r [] in
    (
      [],
      join (map (translated s.translate) fields) (codes ","),
      join (map (row_values fields) (r ∷ rs)) (codes ","),
    )
build_data s (row_data es) =
    let (parts, keys, vals) = row_parts s es in
    (
      join parts (codes ","),
      join keys (codes ","),
      codes "(" ++ (join vals (codes ",") ++ codes ")"),
    )

-- `BuildExecut`. With no data set, the reading of nil as a struct panics.
execut_parts : Sqler → Option Data → Built (String × String × String)
unfolding build_data
execut_parts s none = panicked
execut_parts s (some content) = built (build_data s content)

pub build_execut : Sqler → Built String
unfolding execut_parts
build_execut s =
    (if s.optype =s codes "delete" then built ([], [], []) else execut_parts s s.content)
    >>= λ parts.
        let (update, keys, vals) = parts in
        parse_where s.wheres >>= λ res.
        let condition = clause (codes " WHERE ") res in
        built (
          if s.optype =s codes "insert"
          then codes "insert "
            ++ (s.ignore
                ++ (codes "into "
                    ++ (s.table
                        ++ (codes " ("
                            ++ (keys
                                ++ (codes ") "
                                    ++ (if length condition == 0
                                        then codes "values " ++ vals
                                        else codes "select "
                                          ++ (vals ++ (codes " where " ++ condition)))))))))
          else if s.optype =s codes "update"
          then codes "update " ++ (s.table ++ (codes " set " ++ (update ++ condition)))
          else if s.optype =s codes "delete"
          then codes "delete from " ++ (s.table ++ condition)
          else [])

-- `Insert` and `InsertBatch`: a struct comes as the row of `utils_Struct2Map`.
pub insert : Sqler → Data → Sqler × Option String
unfolding build_execut
insert s content =
    let t = record s { content = some content; optype = codes "insert" } in
    (t, ret_str (build_execut t))

-- `Update`; the second argument, if any, names the fields to increment.
pub update : Sqler → Data → Option (List String) → Sqler × Option String
unfolding build_execut
update s content none =
    let t = record s { content = some content; optype = codes "update" } in
    (t, ret_str (build_execut t))
update s content (some inc) =
    let t = record s { content = some content; optype = codes "update"; inc_fields = inc } in
    (t, ret_str (build_execut t))

-- `Delete`.
pub delete : Sqler → Sqler × Option String
delete s =
    let t = record s { optype = codes "delete" } in
    (
      t,
      ret_str (
          parse_where t.wheres >>= λ res.
          built (codes "delete from " ++ (t.table ++ clause (codes " WHERE ") res))),
    )

-- What `InsertDuplicate` appends for the entries that are not key fields.
duplicate_parts : Sqler → List String → List String → Row → List String
duplicate_parts s dup_keys inc [] = []
duplicate_parts s dup_keys inc ((k, v) ∷ es) =
    let key = translated s.translate k in
    let rest = duplicate_parts s dup_keys inc es in
    if in_array key dup_keys
    then rest
    else (if in_array key inc
        then key ++ (codes "=" ++ (key ++ (codes "+" ++ parse_arg v)))
        else key ++ (codes "=" ++ parse_arg v))
      ∷ rest

-- `InsertDuplicate` of a map; other data, also a struct, panics at the range over it.
pub insert_duplicate : Sqler → Data → List String → List String → Sqler × Option String
unfolding insert duplicate_parts
insert_duplicate s (row_data es) dup_keys inc =
    let (t, sql) = insert s (row_data es) in
    (
      t,
      elim sql [
        | none ↦ none
        | some q ↦ some (
            q
            ++ (codes " on duplicate key update "
                ++ join (duplicate_parts s dup_keys inc es) (codes ", ")))
      ],
    )
insert_duplicate s content dup_keys inc = ((insert s content).0, none)
