-- ===== src/Service/ServiceId/Tests.antt =====
-- Runs of the service ids of service/etcddesc.go.
use rocommon.Prelude.{◌≡◌, [], ◌∷◌, none, some, refl, arith}
use rocommon.Text.{pos, negsuc, itoa, digits_from, read_digits, split}
use rocommon.Service.ServiceId.{
  pos, negsuc, NodeProp, gen_service_id, parse_service_id, digits_from, itoa, str2_num, parse_parts,
  parse_fields, split, unsigned, in_range, read_digits,
}
use rocommon.Service.ServiceId.Fields.{parse_service_id-gen_service_id}

-- The node "g" of zone 10, type 2 and index 3.
abbrev g_node : NodeProp
g_node = record { name = 103 ∷ []; zone = pos 10; server_type = pos 2; index = pos 3 }

gen_service_id_run : gen_service_id g_node ≡ 103 ∷ 35 ∷ 49 ∷ 48 ∷ 64 ∷ 50 ∷ 64 ∷ 51 ∷ []
unfolding gen_service_id itoa digits_from
gen_service_id_run = refl

-- "x" and "g#1@+2" are no ids, and a '-' is read.
parse_service_id_run :
    (parse_service_id (120 ∷ []) ≡ none)
    × (parse_service_id (103 ∷ 35 ∷ 49 ∷ 64 ∷ 43 ∷ 50 ∷ []) ≡ none)
    × (parse_service_id (103 ∷ 35 ∷ 45 ∷ 49 ∷ 64 ∷ 43 ∷ 50 ∷ 64 ∷ 51 ∷ [])
        ≡ some (pos 2, negsuc 0, pos 3))
unfolding parse_service_id parse_parts parse_fields split str2_num unsigned in_range read_digits
parse_service_id_run = (refl, refl, refl)

parse_service_id-gen_service_id_example :
    parse_service_id (gen_service_id g_node) ≡ some (pos 2, pos 10, pos 3)
parse_service_id-gen_service_id_example =
    parse_service_id-gen_service_id g_node (λ e. omega arith, tt)
      (omega arith, omega arith, omega arith)
