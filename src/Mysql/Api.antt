-- ===== src/Mysql/Api.antt =====
-- socket/mysql/sql_api.go and sql_api_slave.go: the calls on the pool. `GetConn` gives the pool's one
-- handle and `UnGetConn` does nothing. What a query puts into its destination is part of the state
-- that the driver leaves.
pub mod Batches
mod Tests
use rocommon.Prelude.{
  ℕ, zero, suc, ◌+◌, List, [], ◌∷◌, Option, none, some, ltb, leb, if◌then◌else◌, length, take, drop,
  ◌++◌, ◌≡◌,
}
use rocommon.Text.{String, ℤ, join, codes, itoa}
use rocommon.Sql.{Sqler, str, one}
use rocommon.Sql.Query.{set_limit, set_offset, set_parts, select}
use rocommon.Mysql.{DbError, no_rows, with_sql, in_exec, Answer, gave, failed, SqlResult, Driver}

-- `if nil != err && ErrNoRows != err`: an error is printed with its statement.
unfoldable pub query_error : String → Option DbError → Option DbError
query_error sqlstr none = none
query_error sqlstr (some DbError.no_rows) = some no_rows
query_error sqlstr (some e) = some (with_sql e sqlstr)

module _ {D : Type 0} (get : String → D → Option DbError × D) where
  -- `SqlSelect`, `SqlGet` and `SqlGetInt64`, and the same on the slave, by what the handle's `Select`
  -- or `Get` does.
  unfoldable pub sql_get : String → D → Option DbError × D
  unfolding query_error
  sql_get sqlstr d = let (r, e) = get sqlstr d in (query_error sqlstr r, e)

module _ {D : Type 0} (select_db get_db : String → D → Option DbError × D) where
  -- The total is asked for unless the page failed with more than that there is no row.
  unfoldable pub total_after : Option DbError → (D → Option DbError × D) → D → Option DbError × D
  total_after (some (with_sql e s)) next d = (some (with_sql e s), d)
  total_after r next d = next d

  -- The two statements of a page and of its total, issued one after the other.
  unfoldable pub page_and_total : String → String → D → Option DbError × D
  unfolding total_after sql_get
  page_and_total page total d =
      let (r, e) = sql_get select_db page d in total_after r (sql_get get_db total) e

  -- The texts of `SqlSelectCount20`, of the builder and of the copy made before its limit is set. None is
  -- a panic of the builder.
  unfoldable pub count_texts : Sqler → String → String → ℤ → ℤ → Option String × Option String
  count_texts sqler sel sel_cnt offset count =
      let page =
        select (set_parts (set_offset offset ∷ set_limit count ∷ []) sqler) (one (str sel) ∷ []) in
      let total = select sqler (one (str sel_cnt) ∷ []) in (page.1, total.1)

  issue : Option String × Option String → D → Option (Option DbError × D)
  unfolding page_and_total
  issue (some page, some total) d = some (page_and_total page total d)
  issue _ d = none

  -- `SqlSelectCount20`
  unfoldable pub sql_select_count20 :
      Sqler → String → String → ℤ → ℤ → D → Option (Option DbError × D)
  unfolding count_texts issue
  sql_select_count20 sqler sel sel_cnt offset count d =
      issue (count_texts sqler sel sel_cnt offset count) d

  -- `SqlSelectCount2`
  unfoldable pub sql_select_count2 : Sqler → String → ℤ → ℤ → D → Option (Option DbError × D)
  unfolding sql_select_count20
  sql_select_count2 sqler sel offset count d =
      sql_select_count20 sqler sel (codes "COUNT(*) AS total") offset count d

  -- `SqlSelectCount`, and `SlaveSqlSelectCount` on the slave's handle.
  unfoldable pub sql_select_count : Sqler → ℤ → ℤ → D → Option (Option DbError × D)
  unfolding sql_select_count2
  sql_select_count sqler offset count d = sql_select_count2 sqler (codes "*") offset count d

-- The texts of `SqlSelectCount3`, of what Sprintf makes of the format and what is selected.
unfoldable pub count3_texts : (String → String) → String → ℤ → ℤ → String × String
count3_texts format sel offset count = (
  format sel ++ (codes " LIMIT " ++ (itoa count ++ (codes " OFFSET " ++ itoa offset))),
  format (codes "COUNT(*) AS total"),
)

module _ {D : Type 0} (select_db get_db : String → D → Option DbError × D) where
  -- `SqlSelectCount3`
  unfoldable pub sql_select_count3 : (String → String) → String → ℤ → ℤ → D → Option DbError × D
  unfolding page_and_total count3_texts
  sql_select_count3 format sel offset count d =
      let (page, total) = count3_texts format sel offset count in
      page_and_total select_db get_db page total d

-- The slave's calls: `SlaveSqlSelect` and `SlaveSqlGet`, and `SlaveSqlSelectCount`, on its own handle.
unfoldable pub slave_sql_get :
    {D : Type 0} → (String → D → Option DbError × D) → String → D → Option DbError × D
unfolding query_error
slave_sql_get get sqlstr d = let (r, e) = get sqlstr d in (query_error sqlstr r, e)

unfoldable pub slave_sql_select_count :
    {D : Type 0}
    → (String → D → Option DbError × D)
    → (String → D → Option DbError × D)
    → Sqler
    → ℤ
    → ℤ
    → D
    → Option (Option DbError × D)
unfolding count_texts issue
slave_sql_select_count select_db get_db sqler offset count d =
    issue select_db get_db
      (count_texts select_db get_db sqler (codes "*") (codes "COUNT(*) AS total") offset count) d

module _ {D : Type 0} (drv : Driver D) where
  exec_error : String → Answer SqlResult × D → Option DbError × D
  exec_error sqlstr (gave res, d) = (none, d)
  exec_error sqlstr (failed e, d) = (some (with_sql e sqlstr), d)

  -- `SqlExec`
  unfoldable pub sql_exec : String → D → Option DbError × D
  unfolding exec_error
  sql_exec sqlstr d = exec_error sqlstr (drv.exec_db sqlstr d)

  -- A failed round of the loop returns.
  unfoldable pub or_next :
      Option DbError × D → (D → Option (Option DbError × D)) → Option (Option DbError × D)
  or_next (none, d) next = next d
  or_next (some e, d) next = some (some (in_exec e), d)

  -- The loop of `SqlValuesInsertBatch`, where `format` is what Sprintf makes of the joined values. None: the
  -- rounds do not suffice.
  unfoldable pub insert_loop :
      ℕ → (String → String) → List String → ℕ → ℕ → D → Option (Option DbError × D)
  unfolding or_next sql_exec
  insert_loop zero format sqlarr size pos d = none
  insert_loop (suc n) format sqlarr size pos d =
      let arr =
        if leb (length sqlarr) (pos + size) then drop pos sqlarr else take size (drop pos sqlarr) in
      let rest : D → Option (Option DbError × D) =
        λ e. insert_loop n format sqlarr size (pos + size) e in
      let last : D → Option (Option DbError × D) = λ e. some (none, e) in
      or_next (sql_exec (format (join arr (codes ","))) d)
        (if leb (length sqlarr) (pos + size) then last else rest)

  -- `SqlValuesInsertBatch`: batches of 100 at least.
  unfoldable pub sql_values_insert_batch :
      ℕ → (String → String) → List String → ℕ → D → Option (Option DbError × D)
  unfolding insert_loop
  sql_values_insert_batch n format sqlarr size d =
      insert_loop n format sqlarr (if ltb size 100 then 100 else size) 0 d
