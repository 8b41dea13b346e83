-- ===== src/Service/Discovery.antt =====
-- service/etcdreg.go and service/multinode.go: the nodes that a service is connected to, and what
-- DiscoveryService does on the keys that etcd holds and on the events that its watch gives. A value is
-- read by `unmarshal` (encoding/json); a node is made by `node_creator`, which the caller gives.
pub mod Latest
mod Tests
use rocommon.Prelude.{
  ℕ, List, [], ◌∷◌, ◌++◌, Option, none, some, Bool, true, false, if◌then◌else◌, ◌==◌,
}
use rocommon.Text.{String, ◌=s◌}

-- Of ETCDServiceDesc, its id, the host that the node connects to, and the time of its registration.
pub record Desc : Type 0 where
  pub id : String
  pub host : String
  pub reg_time : ℕ

-- A node, with the description that its context holds under "sid".
pub record Node : Type 0 where
  pub desc : Desc
  pub handle : ℕ

-- `netServerNode`.
abbrev pub MultiNode : Type 0
MultiNode = List (String × Node)

pub get_node : MultiNode → String → Option Node
get_node [] service_id = none
get_node ((k, node) ∷ ns) service_id = if k =s service_id then some node else get_node ns service_id

pub remove_node : MultiNode → String → MultiNode
remove_node [] service_id = []
remove_node ((k, node) ∷ ns) service_id =
    let rest = remove_node ns service_id in if k =s service_id then rest else (k, node) ∷ rest

pub add_node : MultiNode → Desc → Node → MultiNode
unfolding remove_node
add_node ns desc node = (desc.id, node) ∷ remove_node ns desc.id

-- An event of the watch: a value that was put, or a key that was deleted.
pub data WatchEvent : Type 0 where
  put_event delete_event : String → WatchEvent

module _ (unmarshal : String → Option Desc) (node_creator : MultiNode → Desc → MultiNode) where
  -- A key that etcd holds at the start: a node of the same id is stopped first.
  replace_node : Option Node → MultiNode → Desc → MultiNode × List Node
  unfolding remove_node
  replace_node none ns sd = (node_creator ns sd, [])
  replace_node (some pre_node) ns sd = (node_creator (remove_node ns sd.id) sd, pre_node ∷ [])

  found_value : MultiNode → Option Desc → MultiNode × List Node
  unfolding replace_node get_node
  found_value ns none = (ns, [])
  found_value ns (some sd) = replace_node (get_node ns sd.id) ns sd

  -- A value that is put: in debug mode, and at the same time of registration, the node stays.
  put_node : Bool → Option Node → MultiNode → Desc → MultiNode × List Node
  unfolding replace_node
  put_node debug_mode none ns sd = replace_node none ns sd
  put_node debug_mode (some pre_node) ns sd =
      if debug_mode
      then (ns, [])
      else if pre_node.desc.reg_time == sd.reg_time
      then (ns, [])
      else replace_node (some pre_node) ns sd

  put_value : Bool → MultiNode → Option Desc → MultiNode × List Node
  unfolding put_node get_node
  put_value debug_mode ns none = (ns, [])
  put_value debug_mode ns (some sd) = put_node debug_mode (get_node ns sd.id) ns sd

  -- One event of the watch; a deleted key leaves its node to the reconnection.
  pub watch_event : Bool → MultiNode → WatchEvent → MultiNode × List Node
  unfolding put_value
  watch_event debug_mode ns (put_event value) = put_value debug_mode ns (unmarshal value)
  watch_event debug_mode ns (delete_event key) = (ns, [])

  pub found_values : MultiNode → List String → MultiNode × List Node
  unfolding found_value
  found_values ns [] = (ns, [])
  found_values ns (value ∷ values) =
      let (ns1, stopped) = found_value ns (unmarshal value) in
      let (ns2, stopped2) = found_values ns1 values in (ns2, stopped ++ stopped2)

  pub watch_events : Bool → MultiNode → List WatchEvent → MultiNode × List Node
  unfolding watch_event
  watch_events debug_mode ns [] = (ns, [])
  watch_events debug_mode ns (ev ∷ evs) =
      let (ns1, stopped) = watch_event debug_mode ns ev in
      let (ns2, stopped2) = watch_events debug_mode ns1 evs in (ns2, stopped ++ stopped2)

  -- `DiscoveryService`, up to the events so far: the nodes, and those that were stopped.
  pub discovery_service : Bool → List String → List WatchEvent → MultiNode × List Node
  unfolding found_values watch_events
  discovery_service debug_mode values evs =
      let (ns, stopped) = found_values [] values in
      let (ns2, stopped2) = watch_events debug_mode ns evs in (ns2, stopped ++ stopped2)
