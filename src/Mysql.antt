-- ===== src/Mysql.antt =====
-- The database access of socket/mysql: the pool and its transactions (mysqlpool.go, sql_api_tx.go,
-- sqlx_api_tx.go, mysql_xorm.go), the calls on the pool (sql_api.go, sql_api_slave.go), and the wrapper
-- of a driver (wrapper.go). The driver is a parameter: a state, and what each call gives and leaves.
pub mod Pool
pub mod Api
pub mod Wrapper
pub mod Connector
use rocommon.Prelude.{true, false, ℕ, List, Option, none, some, Bool, ◌≡◌}
use rocommon.Text.{String}

-- sql.ErrNoRows, an error of the driver, ErrDriverNotReady, and the errors that the package makes of
-- others (`util.NewError`), each with what it prints besides them.
pub data DbError : Type 0 where
  no_rows driver_not_ready : DbError
  driver : ℕ → DbError
  with_sql : DbError → String → DbError
  in_exec : DbError → DbError
  in_commit : DbError → DbError
  in_rollback : DbError → DbError → DbError

-- A value or an error.
pub data Answer {ℓ} (A : Type ℓ) : Type ℓ where
  gave : A → Answer A
  failed : DbError → Answer A

-- sql.Result: the two int64 as their 64 bits.
pub record SqlResult : Type 0 where
  pub rows_affected : Answer ℕ
  pub last_insert_id : Answer ℕ

-- The calls of the driver on a connection of state `D`, one transaction at a time. `none` is success.
pub record Driver (D : Type 0) : Type 0 where
  pub begin_tx : D → Option DbError × D
  pub exec_tx : String → D → Answer SqlResult × D
  pub commit : D → Option DbError × D
  pub rollback : D → Option DbError × D
  pub exec_db : String → D → Answer SqlResult × D

-- `IsSqlErr`
pub is_sql_err : Option DbError → Bool
is_sql_err none = false
is_sql_err (some DbError.no_rows) = false
is_sql_err (some e) = true
