-- ===== src/Service/Start/Tests.antt =====
-- The start of service/init.go at concrete configurations.
use rocommon.Prelude.{[], ◌∷◌, ◌++◌, true, false, ◌≡◌, refl}
use rocommon.Prelude.Outcome.{ok}
use rocommon.Text.{codes, split, cons_head, ◌=s◌}
use rocommon.Mysql.Connector.{Attempt, start_mysql}
use rocommon.Service.Start.{
  Config, Answers, Connected, not_connected, server_name_of, init_service, connected_if, ready_once,
}

abbrev game : Config
game = record {
  node_name = codes "game1";
  zone = 1;
  type = 2;
  id = 3;
  etcd_addr = codes "e";
  cross_etcd_addr = codes "e";
  redis_addr = [];
  mysql_addr = codes "m";
  elastic_url = codes "x";
}

abbrev answers : Answers
answers = record {
  discovery_made = λ addr. true;
  redis_pings = false;
  mysql_attempt = Attempt.opened 1;
  orm_attempt = Attempt.opened 2;
  elastic_made = false;
}

abbrev game_connected : Connected
game_connected = record not_connected {
  etcd_discovery = true;
  mysql_connector = true;
  mysql_orm_connector = true;
}

game_started : init_service not_connected game answers ≡ ok game_connected
unfolding init_service connected_if ready_once ◌=s◌ start_mysql
game_started = refl

-- A second Init keeps the etcd that is there, whatever its address answers now.
etcd_kept :
    init_service game_connected game (record answers { discovery_made = λ addr. false })
    ≡ ok game_connected
unfolding init_service connected_if ready_once ◌=s◌ start_mysql
etcd_kept = refl

named_by_path :
    server_name_of (codes "etc" ++ 47 ∷ (codes "game1" ++ 95 ∷ codes "config.yaml")) []
    ≡ codes "game1"
unfolding server_name_of split cons_head
named_by_path = refl
