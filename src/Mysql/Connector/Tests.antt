-- ===== src/Mysql/Connector/Tests.antt =====
-- A connector of socket/mysql/connector.go that gets its handle at the second attempt.
use rocommon.Prelude.{true, none, some}
use rocommon.Mysql.Connector.{MysqlConnector}

abbrev waiting : MysqlConnector
waiting = record { db = none; reconnects = true; pool = some 1 }
