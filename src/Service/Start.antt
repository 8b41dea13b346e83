-- ===== src/Service/Start.antt =====
-- The start of a service, of service/init.go: the choice of its configuration and the connections that
-- `Init` makes. The YAML of the file and what each connection answers are given.
pub mod Naming
mod Tests
use rocommon.Prelude.{
  ℕ, List, [], ◌∷◌, ◌++◌, Bool, true, false, not, ◌&&◌, Option, none, some, if◌then◌else◌, ◌≡◌,
}
use rocommon.Prelude.Outcome.{Outcome, ok, panic, ◌>>=◌}
use rocommon.Text.{String, codes, split, itoa, pos, ◌=s◌}
use rocommon.Mysql.Connector.{Attempt, MysqlConnector, start_mysql, is_ready}

-- ConfigServerNode, of service/yamlconfig.go: what `Init` reads of it.
pub record Config : Type 0 where
  pub node_name : String
  pub zone : ℕ
  pub type : ℕ
  pub id : ℕ
  pub etcd_addr : String
  pub cross_etcd_addr : String
  pub redis_addr : List String
  pub mysql_addr : String
  pub elastic_url : String

abbrev pub last_of : List String → String
last_of [] = []
last_of (s ∷ []) = s
last_of (s ∷ t ∷ ss) = last_of (t ∷ ss)

abbrev pub first_of : List String → String
first_of [] = []
first_of (s ∷ ss) = s

-- The name of the server, which stands before the first "_" of the file's name when none is given.
unfoldable pub server_name_of : String → String → String
unfolding split
server_name_of config_path [] = first_of (split 95 (last_of (split 47 config_path)))
server_name_of config_path (c ∷ cs) = c ∷ cs

-- The first configuration of that name; none ends the process.
unfoldable pub find_config : String → List Config → Outcome Config
unfolding ◌=s◌
find_config name [] = panic
find_config name (c ∷ cs) =
    let rest = find_config name cs in if c.node_name =s name then ok c else rest

named_config : String → List Config → Outcome Config
unfolding find_config
named_config [] configs = panic
named_config (c ∷ cs) configs = find_config (c ∷ cs) configs

-- `initServerConfig`, of the configurations in the file. A path that is empty leaves the one there is.
unfoldable pub init_server_config : String → String → List Config → Config → Outcome Config
unfolding server_name_of named_config
init_server_config [] server_name configs old = ok old
init_server_config (c ∷ cs) server_name configs old =
    named_config (server_name_of (c ∷ cs) server_name) configs

-- `GetLocalServiceID`
unfoldable pub get_local_service_id : String → Config → String
unfolding itoa
get_local_service_id service_name c =
    service_name
    ++ (codes "#"
        ++ (itoa (pos c.zone)
            ++ (codes "@" ++ (itoa (pos c.type) ++ (codes "@" ++ itoa (pos c.id))))))

-- What the connections answer: etcd by its address, the ping of redis, an attempt of each of the two
-- database connectors, and elasticsearch.
pub record Answers : Type 0 where
  pub discovery_made : String → Bool
  pub redis_pings : Bool
  pub mysql_attempt : Attempt
  pub orm_attempt : Attempt
  pub elastic_made : Bool

-- The package's variables after `Init`.
pub record Connected : Type 0 where
  pub etcd_discovery : Bool
  pub cross_etcd_discovery : Bool
  pub redis_connector : Bool
  pub mysql_connector : Bool
  pub mysql_orm_connector : Bool
  pub elastic_connector : Bool

abbrev pub not_connected : Connected
not_connected = record {
  etcd_discovery = false;
  cross_etcd_discovery = false;
  redis_connector = false;
  mysql_connector = false;
  mysql_orm_connector = false;
  elastic_connector = false;
}

-- A text that is not empty.
abbrev pub is_set : String → Bool
is_set [] = false
is_set (c ∷ s) = true

abbrev pub any_set : List String → Bool
any_set [] = false
any_set (s ∷ ss) = true

-- One connection: what is not to be made stays as it was, and a failure is a panic.
unfoldable pub connected_if : Bool → Bool → Bool → Outcome Bool
connected_if old false answer = ok old
connected_if old true true = ok true
connected_if old true false = panic

ready_after : Option (MysqlConnector × List Attempt) → Bool
ready_after none = false
ready_after (some (c, later)) = is_ready c

-- A database connector of which `Start` makes one attempt, since no time to connect again is set.
unfoldable pub ready_once : Attempt → Bool
unfolding ready_after start_mysql
ready_once t =
    ready_after (start_mysql (t ∷ []) (record { db = none; reconnects = false; pool = none }))

-- `Init`, after the configuration and the log, on the variables that there are. The two etcds are left as
-- they are when they are there; what else is configured is made again.
unfoldable pub init_service : Connected → Config → Answers → Outcome Connected
unfolding connected_if ready_once ◌=s◌
init_service v c a = do
  etcd ←
      connected_if v.etcd_discovery (not v.etcd_discovery && is_set c.etcd_addr)
        (a.discovery_made c.etcd_addr)
  cross ←
      connected_if v.cross_etcd_discovery
        (not v.cross_etcd_discovery
          && is_set c.cross_etcd_addr
          && not (c.cross_etcd_addr =s c.etcd_addr))
        (a.discovery_made c.cross_etcd_addr)
  redis ← connected_if v.redis_connector (any_set c.redis_addr) a.redis_pings
  mysql ← connected_if v.mysql_connector (is_set c.mysql_addr) (ready_once a.mysql_attempt)
  orm ← connected_if v.mysql_orm_connector (is_set c.mysql_addr) (ready_once a.orm_attempt)
  ok (record {
    etcd_discovery = etcd;
    cross_etcd_discovery = cross;
    redis_connector = redis;
    mysql_connector = mysql;
    mysql_orm_connector = orm;
    elastic_connector = if is_set c.elastic_url then a.elastic_made else v.elastic_connector;
  })

-- The stops of `WaitExitSignal`, of the two database connectors that are there.
unfoldable pub wait_exit_signal : Connected → List String
wait_exit_signal c =
    (if c.mysql_connector then codes "mysqlConnector" ∷ [] else [])
    ++ (if c.mysql_orm_connector then codes "MysqlOrmConnector" ∷ [] else [])
