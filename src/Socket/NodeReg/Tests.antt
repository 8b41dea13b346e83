-- ===== src/Socket/NodeReg/Tests.antt =====
-- Creators of socket/nodereg.go and context data of socket/nodeproperty.go at concrete values.
use rocommon.Prelude.{[], ◌∷◌, none, some, true, ◌≡◌, ◌≢◌, refl, All}
use rocommon.Prelude.Outcome.{ok, panic}
use rocommon.Text.{String, ◌=s◌}
use rocommon.Socket.NodeReg.{
  NodeProperty, ServerNode, node_by_name, register_server_node, register_nodes, new_server_node,
}
use rocommon.Socket.NodeReg.Made.{register_nodes-new_server_node}
use rocommon.Socket.NodeReg.Context.{
  Target, text, to_string, raw_context_data, set_context_data, raw_context_data-set_context_data,
}

abbrev blank : NodeProperty
blank = record { name = []; addr = []; queue = none }

abbrev acceptor : ServerNode String
acceptor = record { type_of_name = 1 ∷ 2 ∷ []; property = blank; others = 7 ∷ [] }

abbrev connector : ServerNode String
connector = record { type_of_name = 1 ∷ 3 ∷ []; property = blank; others = 8 ∷ [] }

abbrev named : NodeProperty
named = record { name = 5 ∷ []; addr = 6 ∷ []; queue = some 0 }

both_registered :
    register_nodes (acceptor ∷ connector ∷ []) []
    ≡ ok ((1 ∷ 3 ∷ [], connector) ∷ (1 ∷ 2 ∷ [], acceptor) ∷ [])
unfolding register_nodes register_server_node node_by_name ◌=s◌
both_registered = refl

register_nodes-new_server_node_example :
    All
      (λ f.
        new_server_node
          ((1 ∷ 3 ∷ [], connector) ∷ (1 ∷ 2 ∷ [], acceptor) ∷ [])
          f.type_of_name
          (5 ∷ [])
          (6 ∷ [])
          (some 0)
        ≡ ok (record f { property = named }))
      (acceptor ∷ connector ∷ [])
register_nodes-new_server_node_example =
    register_nodes-new_server_node (acceptor ∷ connector ∷ [])
      ((1 ∷ 3 ∷ [], connector) ∷ (1 ∷ 2 ∷ [], acceptor) ∷ []) (5 ∷ []) (6 ∷ []) (some 0)
      both_registered

registered_twice : register_nodes (acceptor ∷ acceptor ∷ []) [] ≡ panic
unfolding register_nodes register_server_node node_by_name ◌=s◌
registered_twice = refl

raw_context_data-set_context_data_example :
    ((s : String)
      → text (4 ∷ []) ≡ text s
      → raw_context_data (1 ∷ []) (to_string []) (set_context_data (1 ∷ []) (text (4 ∷ [])) [])
        ≡ ok (true, to_string s))
    × (((s : String) → text (4 ∷ []) ≢ text s)
        → raw_context_data (1 ∷ []) (to_string []) (set_context_data (1 ∷ []) (text (4 ∷ [])) [])
          ≡ panic)
    × ((k : String) (t : Target)
        → 1 ∷ [] ≢ k
        → raw_context_data k t (set_context_data (1 ∷ []) (text (4 ∷ [])) [])
          ≡ raw_context_data k t [])
raw_context_data-set_context_data_example =
    raw_context_data-set_context_data (1 ∷ []) (text (4 ∷ [])) [] []
