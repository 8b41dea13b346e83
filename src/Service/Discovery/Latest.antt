-- ===== src/Service/Discovery/Latest.antt =====
-- Which registration DiscoveryService of service/etcdreg.go is connected to.
use rocommon.Prelude.{
  List, [], ◌∷◌, Option, none, some, false, ◌≡◌, inl, inr, refl, ap, ◌∙◌, if◌then◌else◌, ◌==◌,
  Bool-cases,
}
use rocommon.Text.{String, ◌=s◌}
use rocommon.Text.Equal.{=s_eq}
use rocommon.Service.Discovery.{
  Desc, Node, MultiNode, get_node, remove_node, WatchEvent, put_event, delete_event,
}

-- What is used of a caller's function: the node that it makes stands under the id of the description, with
-- this description, and the other nodes stay.
pub record IsCreator (node_creator : MultiNode → Desc → MultiNode) : Type 0 where
  pub adds :
      (ns : MultiNode) (sd : Desc)
      → (node : Node) × (get_node (node_creator ns sd) sd.id ≡ some node) × (node.desc ≡ sd)
  pub keeps :
      (ns : MultiNode) (sd : Desc) (id : String)
      → (sd.id =s id) ≡ false
      → get_node (node_creator ns sd) id ≡ get_node ns id

abbrev pub desc_of : Option Node → Option Desc
desc_of none = none
desc_of (some node) = some node.desc

abbrev pub desc_at : MultiNode → String → Option Desc
desc_at ns id = desc_of (get_node ns id)

-- The registration under an id after one more was found at the start: it is the new one.
abbrev pub next_found : String → Option Desc → Option Desc → Option Desc
next_found id old none = old
next_found id old (some sd) = if sd.id =s id then some sd else old

-- The same after one more was put: one of the same time of registration as the one before is taken for it.
abbrev pub newer : Option Desc → Desc → Option Desc
newer none sd = some sd
newer (some old) sd = if old.reg_time == sd.reg_time then some old else some sd

abbrev pub next_put : String → Option Desc → Option Desc → Option Desc
next_put id old none = old
next_put id old (some sd) = if sd.id =s id then newer old sd else old

pub get_node-remove_node :
    (ns : MultiNode) (k id : String)
    → (k =s id) ≡ false
    → get_node (remove_node ns k) id ≡ get_node ns id
unfolding get_node remove_node
get_node-remove_node [] k id e = refl
get_node-remove_node ((j, node) ∷ ns) k id e = elim (Bool-cases (j =s k)) [
  | inl b ↦
      let same : (j =s id) ≡ false = ap (λ x. x =s id) (=s_eq j k b) ∙ e in
      rw (b, same) (get_node-remove_node ns k id e)
  | inr b ↦ rw b (ap (λ o. if j =s id then some node else o) (get_node-remove_node ns k id e))
]

module _ (unmarshal : String → Option Desc) where
  -- The last registration under an id among the values that etcd held, and among those put.
  abbrev pub last_found : String → Option Desc → List String → Option Desc
  last_found id old [] = old
  last_found id old (value ∷ values) = last_found id (next_found id old (unmarshal value)) values

  abbrev pub last_put : String → Option Desc → List WatchEvent → Option Desc
  last_put id old [] = old
  last_put id old (put_event value ∷ evs) = last_put id (next_put id old (unmarshal value)) evs
  last_put id old (delete_event key ∷ evs) = last_put id old evs
