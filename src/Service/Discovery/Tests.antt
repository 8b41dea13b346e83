-- ===== src/Service/Discovery/Tests.antt =====
-- DiscoveryService of service/etcdreg.go on a short history.
use rocommon.Prelude.{List, [], ◌∷◌, Option, none, some, ◌≡◌, refl}
use rocommon.Text.{String, codes, ◌=s◌}
use rocommon.Service.Discovery.{
  Desc, Node, MultiNode, add_node, WatchEvent, put_event, delete_event,
}
use rocommon.Service.Discovery.Latest.{last_put, last_found}

-- A value of two bytes is a registration of the node "g" at that host and time.
abbrev of_bytes : String → Option Desc
of_bytes (h ∷ t ∷ []) = some (record { id = codes "g"; host = h ∷ []; reg_time = t })
of_bytes s = none

abbrev made : Desc → Node
made sd = record { desc = sd; handle = 0 }

abbrev adder : MultiNode → Desc → MultiNode
adder ns sd = add_node ns sd (made sd)

-- The third put is of the time that the second had.
abbrev history : List WatchEvent
history =
    put_event (1 ∷ 5 ∷ [])
    ∷ put_event (2 ∷ 8 ∷ [])
    ∷ delete_event (codes "g")
    ∷ put_event (3 ∷ 8 ∷ [])
    ∷ put_event (4 ∷ [])
    ∷ []

history_last :
    last_put of_bytes (codes "g") (last_found of_bytes (codes "g") none ((1 ∷ 5 ∷ []) ∷ [])) history
    ≡ some (record { id = codes "g"; host = 2 ∷ []; reg_time = 8 })
unfolding ◌=s◌
history_last = refl
