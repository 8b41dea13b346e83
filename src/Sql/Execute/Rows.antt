-- ===== src/Sql/Execute/Rows.antt =====
-- The rows that the statements of socket/mysql/sqler.go insert, and the rows that they delete.
use rocommon.Prelude.{
  suc, List, [], ◌∷◌, ◌++◌, some, ◌≡◌, refl, ap, ◌∙◌, append-nil, map, length, All, replicate,
}
use rocommon.Text.{String, codes, join, in_array, ◌=s◌}
use rocommon.Sql.{Sqler, rows_data}
use rocommon.Sql.Where.Connectives.{IsIgnored, parse_where-nil, parse_where-All-IsIgnored}
use rocommon.Sql.Execute.{
  row_keys, row_values, build_data, execut_parts, build_execut, insert, delete, Row, translated,
}

row_keys-nil : (es : Row) → row_keys es [] ≡ []
unfolding row_keys in_array
row_keys-nil [] = refl
row_keys-nil ((k, v) ∷ es) = row_keys-nil es

map-row_values : (rs : List Row) → map (row_values []) rs ≡ replicate (length rs) (codes "()")
unfolding row_values join
map-row_values [] = refl
map-row_values (r ∷ rs) = ap (λ q. codes "()" ∷ q) (map-row_values rs)

-- The text of an insert of rows without a condition, with these keys.
inserted : Sqler → List Row → List String → String
inserted s rs fields =
    codes "insert "
    ++ (s.ignore
        ++ (codes "into "
            ++ (s.table
                ++ (codes " ("
                    ++ (join (map (translated s.translate) fields) (codes ",")
                        ++ (codes ") values " ++ join (map (row_values fields) rs) (codes ",")))))))

-- An insert of several rows names no column and no value, whatever the rows hold.
pub insert_rows :
    (s : Sqler) (r : Row) (rs : List Row)
    → s.wheres ≡ []
    → (insert s (rows_data (r ∷ rs))).1
      ≡ some (
          codes "insert "
          ++ (s.ignore
              ++ (codes "into "
                  ++ (s.table
                      ++ (codes " () values "
                          ++ join (replicate (suc (length rs)) (codes "()")) (codes ","))))))
unfolding insert build_execut execut_parts build_data ◌=s◌ join inserted
insert_rows s r rs h =
    rw (h, parse_where-nil)
      (ap (λ f. some (inserted s (r ∷ rs) f)) (row_keys-nil r)
        ∙ ap (λ vs. some (no_column (join vs (codes ",")))) (map-row_values (r ∷ rs)))
  where
    no_column : String → String
    no_column vals =
        codes "insert "
        ++ (s.ignore ++ (codes "into " ++ (s.table ++ (codes " () values " ++ vals))))

-- A delete all of whose calls of Where have no argument or more than three deletes every row.
pub delete-IsIgnored :
    (s : Sqler)
    → All (λ w. IsIgnored (w.1)) s.wheres
    → (delete s).1 ≡ some (codes "delete from " ++ s.table)
unfolding delete
delete-IsIgnored s h = rw (parse_where-All-IsIgnored s.wheres h) (append-nil_at s)
  where
    append-nil_at :
        (s : Sqler)
        → some (codes "delete from " ++ (s.table ++ [])) ≡ some (codes "delete from " ++ s.table)
    append-nil_at s = ap (λ q. some (codes "delete from " ++ q)) (append-nil s.table)
