-- ===== src/Sql/Execute/Batch.antt =====
-- `UpdateBatch` of socket/mysql/sqler.go, which updates several rows by one statement, and
-- `utils_Struct2Map`, of the fields that package reflect gives of a struct.
mod Tests
use rocommon.Prelude.{
  List, [], ◌∷◌, ◌++◌, Option, none, some, ◌==◌, if◌then◌else◌, ◌≡◌, refl, map, length, ◌||◌,
}
use rocommon.Text.{String, codes, join, split, cons_head, in_array, ◌=s◌, pos, itoa, digits_from}
use rocommon.Sql.{Arg, one, int, Sqler, new_sqler}
use rocommon.Sql.Literal.{parse_arg, parse_str}
use rocommon.Sql.Execute.{Row, item}

-- `k1=v1 and k2=v2` of the key columns.
key_condition : List String → Row → String
unfolding item
key_condition keys row =
    join (map (λ k. k ++ (codes "=" ++ parse_arg (item row k))) keys) (codes " and ")

-- `cases[k]` with one more alternative.
add_case : String → String → List (String × String) → List (String × String)
add_case k text [] = (k, codes "case " ++ text) ∷ []
add_case k text ((j, before) ∷ cases) =
    let rest = add_case k text cases in
    if j =s k then (j, before ++ text) ∷ cases else (j, before) ∷ rest

-- The columns of one row that are no key.
row_cases : List String → String → Row → List (String × String) → List (String × String)
unfolding add_case
row_cases keys condition [] cases = cases
row_cases keys condition ((k, v) ∷ es) cases =
    let text = codes "when " ++ (condition ++ (codes " then " ++ (parse_arg v ++ codes " "))) in
    row_cases keys condition es (if in_array k keys then cases else add_case k text cases)

-- The loop over the rows, with the ids so far; an empty key value ends the call.
batch_rows :
    List String
    → String
    → List Row
    → String
    → List (String × String)
    → Option (String × List (String × String))
unfolding row_cases key_condition
batch_rows keys key [] ids cases = some (ids, cases)
batch_rows keys key (row ∷ rows) ids cases =
    let value = parse_arg (item row key) in
    let next_ids = ids ++ ((if length ids == 0 then [] else codes ",") ++ value) in
    let rest =
      batch_rows keys key rows next_ids (row_cases keys (key_condition keys row) row cases) in
    if length value == 0 then none else rest

-- What is set of the columns, in the order of the range.
set_cases : List String → List (String × String) → String → String
set_cases inc [] s = s
set_cases inc ((k, v) ∷ cases) s =
    let comma = if length s == 0 then [] else codes ", " in
    set_cases inc cases (
      s
      ++ (comma
          ++ (if in_array k inc
              then k ++ (codes "=" ++ (k ++ (codes "+" ++ (v ++ codes "end"))))
              else k ++ (codes "=" ++ (v ++ codes "end")))))

with_inc : Option (List String) → Sqler → Sqler
with_inc none s = s
with_inc (some inc) s = record s { inc_fields = inc }

batch_text :
    Sqler
    → String
    → (List (String × String) → List (String × String))
    → Option (String × List (String × String))
    → String
unfolding set_cases
batch_text s key order none = []
batch_text s key order (some (ids, cases)) =
    codes "update "
    ++ (s.table
        ++ (codes " set "
            ++ (set_cases s.inc_fields (order cases) []
                ++ (codes " where " ++ (key ++ (codes " in (" ++ (ids ++ codes ")")))))))

-- `UpdateBatch`; `order` is the order in which the range meets the columns. With no key it panics.
pub update_batch :
    (List (String × String) → List (String × String))
    → Sqler
    → List Row
    → List String
    → Option (List String)
    → Sqler × Option String
unfolding with_inc batch_text batch_rows
update_batch order s rows [] inc = (with_inc inc s, none)
update_batch order s rows (key ∷ keys) inc =
    let t = with_inc inc s in
    (t, some (batch_text t key order (batch_rows (key ∷ keys) key rows [] [])))

-- A field of a struct: its name, the tags "sqler" and "db", and its value.
pub record Field : Type 0 where
  pub name : String
  pub sqler_tag : String
  pub db_tag : String
  pub value : Arg

put_entry : String → Arg → Row → Row
put_entry k v [] = (k, v) ∷ []
put_entry k v ((j, w) ∷ es) =
    let rest = put_entry k v es in if j =s k then (j, v) ∷ es else (j, w) ∷ rest

field_name : Field → String
unfolding split
field_name f = named (split b',' f.db_tag)
  where
    named : List String → String
    named ((c ∷ s) ∷ ss) = c ∷ s
    named _ = f.name

pub struct2map : List Field → Row → Row
unfolding put_entry field_name
struct2map [] entries = entries
struct2map (f ∷ fs) entries = struct2map fs (
    if f.sqler_tag =s codes "-" || f.sqler_tag =s codes "skips"
    then entries
    else put_entry (field_name f) f.value entries)
