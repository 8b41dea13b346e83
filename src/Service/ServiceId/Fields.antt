-- ===== src/Service/ServiceId/Fields.antt =====
-- The fields of a service id of service/etcddesc.go, and the keys that a discovery watches.
use rocommon.Prelude.{
  ◌⊎◌, inl, inr, ◌*◌, ℕ, ◌+◌, [], ◌∷◌, ◌++◌, some, ◌≡◌, ◌≢◌, refl, arith, ap, ◌∙◌, ◌<◌, sym,
  append_assoc, append-nil,
}
use rocommon.Service.ServiceId.{
  NodeProp, gen_service_id, parse_service_id, parse_parts, parse_fields,
  gen_discovery_service_prefix, gen_service_prefix, gen_service, is_positive, server_dir,
  second_part,
}
use rocommon.Text.{String, ℤ, pos, itoa, split}
use rocommon.Text.Split.{Free, split-Free, split_at}
use rocommon.Service.ServiceId.Ints.{Fits, str2_num-itoa}
use rocommon.Text.Digits.{All-mono, All-append, IntChar, itoa-IntChar, itoa_extended}

itoa-Free : (sep : ℕ) → (sep < 45 ⊎ (57 < sep ⊎ (sep ≡ 47))) → (z : ℤ) → Free sep (itoa z)
itoa-Free sep h z =
    All-mono IntChar (λ c. c ≢ sep) (λ c b e. ground (arith, b.2)) (itoa z) (itoa-IntChar z)

itoa-Free_at : (z : ℤ) → Free 64 (itoa z)
itoa-Free_at = itoa-Free 64 (inr (inl (omega arith)))

fields-Free :
    (sep : ℕ)
    → (sep < 45 ⊎ (57 < sep ⊎ (sep ≡ 47)))
    → sep ≢ 64
    → (z t i : ℤ) → Free sep (itoa z ++ 64 ∷ (itoa t ++ 64 ∷ itoa i))
fields-Free sep h k z t i =
    let others =
      All-append (λ c. c ≢ sep) (itoa t) (64 ∷ itoa i) (itoa-Free sep h t)
        (λ e. k (sym e), itoa-Free sep h i) in
    All-append (λ c. c ≢ sep) (itoa z) (64 ∷ (itoa t ++ 64 ∷ itoa i)) (itoa-Free sep h z)
      (λ e. k (sym e), others)

split-fields :
    (z t i : ℤ) → split 64 (itoa z ++ 64 ∷ (itoa t ++ 64 ∷ itoa i)) ≡ itoa z ∷ itoa t ∷ itoa i ∷ []
split-fields z t i =
    split_at 64 (itoa z) (itoa t ++ 64 ∷ itoa i) (itoa-Free_at z)
    ∙ ap (λ q. itoa z ∷ q) (split_at 64 (itoa t) (itoa i) (itoa-Free_at t))
    ∙ ap (λ q. itoa z ∷ itoa t ∷ q) (split-Free 64 (itoa i) (itoa-Free_at i))

parse_fields-itoa :
    (z t i : ℤ)
    → Fits z
    → Fits t
    → Fits i
    → parse_fields (itoa z ∷ itoa t ∷ itoa i ∷ []) ≡ some (t, z, i)
unfolding parse_fields
parse_fields-itoa z t i hz ht hi = rw (str2_num-itoa z hz, str2_num-itoa t ht, str2_num-itoa i hi)

-- The ints of a node's properties are of 32 bits.
abbrev pub IntsFit : NodeProp → Type 0
IntsFit prop = Fits prop.zone × Fits prop.server_type × Fits prop.index

-- ParseServiceID reads back the server type, the zone and the index of the node whose id GenServiceID
-- made, for ints of 32 bits and a name without '#'.
pub parse_service_id-gen_service_id :
    (prop : NodeProp)
    → Free 35 prop.name
    → IntsFit prop
    → parse_service_id (gen_service_id prop) ≡ some (prop.server_type, prop.zone, prop.index)
unfolding parse_service_id gen_service_id parse_parts
parse_service_id-gen_service_id prop h (hz, ht, hi) =
    let fields = itoa prop.zone ++ 64 ∷ (itoa prop.server_type ++ 64 ∷ itoa prop.index) in
    let rest_Free =
      fields-Free 35 (inl (omega arith)) (λ e. omega arith) prop.zone prop.server_type prop.index in
    ap parse_parts
      (split_at 35 prop.name fields h ∙ ap (λ q. prop.name ∷ q) (split-Free 35 fields rest_Free))
    ∙ ap parse_fields (split-fields prop.zone prop.server_type prop.index)
    ∙ parse_fields-itoa prop.zone prop.server_type prop.index hz ht hi

server_dir-Free : Free 47 (115 ∷ 101 ∷ 114 ∷ 118 ∷ 101 ∷ 114 ∷ [])
server_dir-Free = (
  λ e. omega arith,
  (
    λ e. omega arith,
    (λ e. omega arith, (λ e. omega arith, (λ e. omega arith, (λ e. omega arith, tt)))),
  ),
)

-- GenService takes the service id back from the key under which the service is registered, for a name
-- without '/'.
pub gen_service-gen_service_prefix :
    (prop : NodeProp) (zone : ℤ)
    → Free 47 prop.name
    → gen_service (gen_service_prefix (gen_service_id prop) zone) ≡ gen_service_id prop
unfolding gen_service gen_service_prefix gen_service_id second_part
gen_service-gen_service_prefix prop zone h =
    let fields = itoa prop.zone ++ 64 ∷ (itoa prop.server_type ++ 64 ∷ itoa prop.index) in
    let id_Free : Free 47 (prop.name ++ 35 ∷ fields) =
      All-append (λ c. c ≢ 47) prop.name (35 ∷ fields) h
        (
          (λ e. omega arith),
          fields-Free 47 (inr (inr refl)) (λ e. omega arith) prop.zone prop.server_type prop.index,
        ) in
    ap second_part (
      split_at 47 (115 ∷ 101 ∷ 114 ∷ 118 ∷ 101 ∷ 114 ∷ []) (prop.name ++ 35 ∷ fields)
        server_dir-Free
      ∙ ap (λ q. (115 ∷ 101 ∷ 114 ∷ 118 ∷ 101 ∷ 114 ∷ []) ∷ q)
          (split-Free 47 (prop.name ++ 35 ∷ fields) id_Free))

watched_key :
    (name others : String) (zone : ℤ) (z : ℕ) (more : String)
    → 0 < z
    → itoa zone ≡ itoa (pos z) ++ more
    → gen_service_prefix (name ++ 35 ∷ (itoa zone ++ others)) zone
      ≡ gen_discovery_service_prefix name (pos z) ++ (more ++ others)
unfolding gen_discovery_service_prefix gen_service_prefix is_positive
watched_key name others zone z more h e =
    ap (λ q. server_dir ++ q)
      (ap (λ q. name ++ 35 ∷ (q ++ others)) e
        ∙ ap (λ q. name ++ 35 ∷ q) (append_assoc (itoa (pos z)) more others)
        ∙ sym (append_assoc name (35 ∷ itoa (pos z)) (more ++ others)))
    ∙ ground arith

-- A discovery with a positive zone watches the keys of the services of that name and zone, and also the
-- keys of those of the zones with one digit more: zone 1's prefix is one of zone 10's keys as well.
pub gen_discovery_service_prefix-key :
    (prop : NodeProp) (z d : ℕ) (any_zone : ℤ)
    → 0 < z
    → d < 10
    → (prop.zone ≡ pos z) ⊎ (prop.zone ≡ pos (10 * z + d))
    → (rest : String) × (gen_service_prefix (gen_service_id prop) any_zone
        ≡ gen_discovery_service_prefix prop.name (pos z) ++ rest)
unfolding gen_discovery_service_prefix gen_service_prefix gen_service_id
gen_discovery_service_prefix-key prop z d any_zone h k (inl e) =
    let others = 64 ∷ (itoa prop.server_type ++ 64 ∷ itoa prop.index) in
    (
      others,
      watched_key prop.name others prop.zone z [] h (ap itoa e ∙ sym (append-nil (itoa (pos z)))),
    )
gen_discovery_service_prefix-key prop z d any_zone h k (inr e) =
    let others = 64 ∷ (itoa prop.server_type ++ 64 ∷ itoa prop.index) in
    (
      (48 + d) ∷ others,
      watched_key prop.name others prop.zone z ((48 + d) ∷ []) h
          (ap itoa e ∙ itoa_extended z d h k),
    )
