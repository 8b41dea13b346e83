-- ===== src/Socket/NodeReg.antt =====
-- socket/nodereg.go and the properties and context data of socket/nodeproperty.go. A
-- creator is the node that it makes; what a node holds besides its properties is of the type `N`.
pub mod Made
pub mod Context
mod Tests
use rocommon.Prelude.{
  ℕ, List, [], ◌∷◌, Option, none, some, if◌then◌else◌, ◌≡◌, refl, Bool, true, false,
}
use rocommon.Prelude.Outcome.{Outcome, ◌>>=◌}
use rocommon.Text.{String, ◌=s◌}

-- NetServerNodeProperty, less the numbers of its service, with the queue as a number.
pub record NodeProperty : Type 0 where
  pub name : String
  pub addr : String
  pub queue : Option ℕ

-- rocommon.ServerNode
pub record ServerNode (N : Type 0) : Type 0 where
  pub type_of_name : String
  pub property : NodeProperty
  pub others : N

module _ {N : Type 0} where
  -- `serverNodeByName[name]`
  unfoldable pub node_by_name : List (String × ServerNode N) → String → Option (ServerNode N)
  unfolding ◌=s◌
  node_by_name [] name = none
  node_by_name ((k, f) ∷ fs) name =
      let rest = node_by_name fs name in if k =s name then some f else rest

  register_new :
      Option (ServerNode N)
      → ServerNode N
      → List (String × ServerNode N)
      → Outcome (List (String × ServerNode N))
  register_new none f reg = Outcome.ok ((f.type_of_name, f) ∷ reg)
  register_new (some g) f reg = Outcome.panic

  -- `RegisterServerNode`; a name that is taken ends the process.
  unfoldable pub register_server_node :
      ServerNode N → List (String × ServerNode N) → Outcome (List (String × ServerNode N))
  unfolding register_new
  register_server_node f reg = register_new (node_by_name reg f.type_of_name) f reg

  with_property : Option (ServerNode N) → NodeProperty → Outcome (ServerNode N)
  with_property none p = Outcome.panic
  with_property (some f) p = Outcome.ok (record f { property = p })

  -- `NewServerNode`
  unfoldable pub new_server_node :
      List (String × ServerNode N) → String → String → String → Option ℕ → Outcome (ServerNode N)
  unfolding with_property
  new_server_node reg server_type server_name addr que =
      with_property (node_by_name reg server_type)
        (record { name = server_name; addr = addr; queue = que })

  -- The registrations of the packages, in the order of their `init`.
  unfoldable pub register_nodes :
      List (ServerNode N) → List (String × ServerNode N) → Outcome (List (String × ServerNode N))
  unfolding register_server_node
  register_nodes [] reg = Outcome.ok reg
  register_nodes (f ∷ fs) reg = register_server_node f reg >>= λ r. register_nodes fs r
