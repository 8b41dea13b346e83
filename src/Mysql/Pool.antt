-- ===== src/Mysql/Pool.antt =====
-- socket/mysql/mysqlpool.go, with the transactions of sql_api_tx.go, sqlx_api_tx.go and mysql_xorm.go. A
-- pointer to an error is the error that it points to; `none` is nil.
pub mod Atomic
mod Tests
use rocommon.Prelude.{
  false, true, Bool, ℕ, List, [], ◌∷◌, Option, none, some, ◌==◌, if◌then◌else◌, ◌≡◌,
}
use rocommon.Text.{String}
use rocommon.Mysql.{
  DbError, with_sql, in_commit, in_rollback, Answer, gave, failed, SqlResult, Driver,
}

-- What follows the number of rows in `ExpandSqlResult`, and the last id.
last_id_of : ℕ → Answer ℕ → ℕ × ℕ × Option DbError
last_id_of af (failed e) = (0, 0, some e)
last_id_of af (gave lid) = (af, lid, none)

-- `ExpandSqlResult`: affected rows, last id, error. With no row affected the id is not asked for.
unfoldable pub expand_sql_result : SqlResult → ℕ × ℕ × Option DbError
unfolding last_id_of
expand_sql_result res = elim res.rows_affected [
  | failed e ↦ (0, 0, some e)
  | gave af ↦ if af == 0 then (0, 0, none) else last_id_of af res.last_insert_id
]

module _ {D : Type 0} (drv : Driver D) where
  -- `EndTx`
  unfoldable pub end_tx : Option DbError → D → Option DbError × D
  end_tx none d = drv.commit d
  end_tx (some e) d = drv.rollback d

  answer_of : Answer SqlResult × D → (ℕ × ℕ × Option DbError) × D
  unfolding expand_sql_result
  answer_of (gave res, d) = (expand_sql_result res, d)
  answer_of (failed e, d) = ((0, 0, some e), d)

  -- `TxExec`: nothing is executed once there is an error.
  unfoldable pub tx_exec : String → Option DbError → D → (ℕ × ℕ × Option DbError) × D
  unfolding answer_of
  tx_exec sqlstr none d = answer_of (drv.exec_tx sqlstr d)
  tx_exec sqlstr (some e) d = ((0, 0, some e), d)

  -- `SingleExec`
  unfoldable pub single_exec : String → D → (ℕ × ℕ × Option DbError) × D
  unfolding answer_of
  single_exec sqlstr d = answer_of (drv.exec_db sqlstr d)

  -- One round of the loop of `BatchExec`: on an error Rollback, whose own error is dropped.
  unfoldable pub batch_next : Answer SqlResult × D → (D → Option DbError × D) → Option DbError × D
  batch_next (gave res, d) next = next d
  batch_next (failed e, d) next = (some e, (drv.rollback d).1)

  -- The loop, and the Commit after it, whose error is dropped too.
  unfoldable pub batch_loop : List String → D → Option DbError × D
  unfolding batch_next
  batch_loop [] d = (none, (drv.commit d).1)
  batch_loop (s ∷ sqls) d = batch_next (drv.exec_tx s d) (λ e. batch_loop sqls e)

  unfoldable pub batch_begun : List String → Option DbError × D → Option DbError × D
  batch_begun sqls (none, d) = batch_loop sqls d
  batch_begun sqls (some e, d) = (some e, d)

  -- `BatchExec`
  unfoldable pub batch_exec : List String → D → Option DbError × D
  unfolding batch_begun
  batch_exec sqls d = batch_begun sqls (drv.begin_tx d)

  unfoldable pub committed : Option DbError × D → Option DbError × D
  committed (none, d) = (none, d)
  committed (some e, d) = (some (in_commit e), d)

  unfoldable pub rolled_back : DbError → Option DbError × D → Option DbError × D
  rolled_back perr (none, d) = (some perr, d)
  rolled_back perr (some e, d) = (some (in_rollback e perr), d)

  -- `SqlTxProc`: what the error pointed to becomes.
  unfoldable pub sql_tx_proc : Option DbError → D → Option DbError × D
  unfolding committed rolled_back
  sql_tx_proc none d = committed (drv.commit d)
  sql_tx_proc (some perr) d = rolled_back perr (drv.rollback d)

  unfoldable pub executed : String → Answer SqlResult × D → Option DbError × D
  executed sqlstr (gave res, d) = (none, d)
  executed sqlstr (failed e, d) = (some (with_sql e sqlstr), d)

  -- `SqlTxExec`
  unfoldable pub sql_tx_exec : String → D → Option DbError × D
  unfolding executed
  sql_tx_exec sqlstr d = executed sqlstr (drv.exec_tx sqlstr d)

  -- `CloseSqlxTx`, which returns early on an error.
  unfoldable pub close_sqlx_tx : Option DbError → D → Option DbError × D
  unfolding rolled_back committed
  close_sqlx_tx (some e) d = rolled_back e (drv.rollback d)
  close_sqlx_tx none d = committed (drv.commit d)

  -- `EndXormTx`, on the session of xorm.
  unfoldable pub end_xorm_tx : Option DbError → D → Option DbError × D
  unfolding rolled_back committed
  end_xorm_tx none d = committed (drv.commit d)
  end_xorm_tx (some e) d = rolled_back e (drv.rollback d)

-- `SqlxTxGet`: whether there is a row, and the error.
unfoldable pub sqlx_tx_get : Option DbError → Bool × Option DbError
sqlx_tx_get none = (true, none)
sqlx_tx_get (some DbError.no_rows) = (false, none)
sqlx_tx_get (some e) = (false, some e)
