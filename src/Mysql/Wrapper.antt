-- ===== src/Mysql/Wrapper.antt =====
-- socket/mysql/wrapper.go, and `Query` of mysqlpool.go: reading the rows of a result. A result is the
-- list of its rows, each the values that `Scan` gives or its error; `Next` closes it at its end.
pub mod Closed
mod Tests
use rocommon.Prelude.{
  ℕ, List, [], ◌∷◌, ◌++◌, Bool, true, false, not, Option, none, some, if◌then◌else◌, ◌≡◌,
}
use rocommon.Text.{String, ◌=s◌}
use rocommon.Mysql.{DbError, driver_not_ready, Answer, gave, failed, SqlResult}

-- sql.Rows: the rows to come, the row that `Next` went to, and whether it was closed.
pub record Rows : Type 0 where
  pub coming : List (Answer (List String))
  pub current : Option (Answer (List String))
  pub closed : Bool

pub record Wrapper : Type 0 where
  pub has_drv : Bool
  pub row : Option Rows
  pub query : String
  pub err : Option DbError

-- `NewWrapper`
pub new_wrapper : Bool → Wrapper
new_wrapper has_drv = record { has_drv = has_drv; row = none; query = []; err = none }

-- What `drv.Query` gives: rows, or an error with no rows.
row_of : Answer Rows → Option Rows
row_of (gave r) = some r
row_of (failed e) = none

error_of {ℓ} : {A : Type ℓ} → Answer A → Option DbError
error_of (gave r) = none
error_of (failed e) = some e

-- `Query`, whose driver answers `answer`.
unfoldable pub wrapper_query : String → Answer Rows → Wrapper → Wrapper
unfolding row_of error_of
wrapper_query query answer a =
    if not a.has_drv
    then record a { err = some driver_not_ready }
    else record a { query = query; row = row_of answer; err = error_of answer }

-- `Execute`
unfoldable pub wrapper_execute : String → Answer SqlResult → Wrapper → Wrapper
unfolding error_of
wrapper_execute query answer a =
    if not a.has_drv
    then record a { err = some driver_not_ready }
    else record a { query = query; err = error_of answer }

-- Rows after `Close`, or after the `Next` that found no more.
abbrev pub closed_rows : Rows
closed_rows = record { coming = []; current = none; closed = true }

-- The loop of `Each`, over the rows to come; the callback says whether to go on, and may set the
-- wrapper's error by its calls of `Scan`. After the loop the rows are closed, and not when an error
-- leaves it.
unfoldable pub each_row :
    (Answer (List String) → Option DbError → Bool × Option DbError)
    → List (Answer (List String))
    → Wrapper
    → Wrapper
each_row cb [] a = record a { row = some closed_rows }
each_row cb (r ∷ rs) a =
    let (more, err) = cb r a.err in
    let rest = each_row cb rs (record a { err = err }) in
    let closed = record a { row = some closed_rows; err = err } in
    let left = record a {
      row = some (record { coming = rs; current = some r; closed = false });
      err = err;
    } in
    if not more then closed else elim err [ none ↦ rest | some e ↦ left ]

-- `Each`. None: without an error and without rows the loop would follow a nil pointer.
unfoldable pub each :
    (Answer (List String) → Option DbError → Bool × Option DbError) → Wrapper → Option Wrapper
unfolding each_row
each cb a = elim a.err [
  | some e ↦ some a
  | none ↦
      if not a.has_drv
      then some (record a { err = some driver_not_ready })
      else elim a.row [ none ↦ none | some r ↦ some (each_row cb r.coming a) ]
]

-- The copy of one row into a map from the columns, the later of two of a name last.
unfoldable pub row_record :
    List String → List String → List (String × String) → List (String × String)
row_record [] values m = m
row_record (c ∷ columns) [] m = m
row_record (c ∷ columns) (v ∷ values) m = row_record columns values ((c, v) ∷ m)

-- The loop of `MysqlPool.Query`: a row that cannot be scanned ends it, and its error is not returned.
unfoldable pub query_rows :
    List String → List (Answer (List String)) → List (List (String × String))
unfolding row_record
query_rows columns [] = []
query_rows columns (gave values ∷ rows) = row_record columns values [] ∷ query_rows columns rows
query_rows columns (failed e ∷ rows) = []

-- `MysqlPool.Query`, by what the driver answers to the query and to `Columns`.
unfoldable pub pool_query :
    Answer (List (Answer (List String)))
    → Answer (List String)
    → Answer (List (List (String × String)))
unfolding query_rows
pool_query (failed e) columns = failed e
pool_query (gave rows) (failed e) = failed e
pool_query (gave rows) (gave columns) = gave (query_rows columns rows)
