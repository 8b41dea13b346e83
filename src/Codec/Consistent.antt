-- ===== src/Codec/Consistent.antt =====
-- The three maps of codec.go stay one registry.
use rocommon.Prelude.{
  ◌⊎◌, inl, inr, ℕ, ◌≡◌, ◌≢◌, true, List, [], ◌∷◌, Option, none, some, arith, ap,
}
use mathlib.Core.Path.{subst}
use rocommon.Prelude.Outcome.{ok, panic}
use rocommon.Codec.{
  GoType, named, pointer, type_eq, type_name, strip_pointer, MessageInfo, Registry, lookup_by,
  id_eq, empty, message_info_by_id, message_info_by_msg, register_message_info, register_all,
}

pub type_eq→eq : (s t : GoType) → type_eq s t ≡ true → s ≡ t
unfolding type_eq
type_eq→eq (named p n) (named q m) h = ground arith
type_eq→eq (pointer s) (pointer t) h = ap pointer (type_eq→eq s t h)
type_eq→eq (named p n) (pointer t) h = cc
type_eq→eq (pointer s) (named q m) h = cc

pub type_eq_refl : (t : GoType) → type_eq t t ≡ true
unfolding type_eq
type_eq_refl (named p n) = ground arith
type_eq_refl (pointer t) = type_eq_refl t

module _ {C : Type 0} where
  abbrev pub by_id : Registry C → ℕ → Option (MessageInfo C)
  by_id r k = lookup_by id_eq k r.message_by_id

  abbrev pub by_type : Registry C → GoType → Option (MessageInfo C)
  by_type r t = lookup_by type_eq t r.message_by_type

  abbrev pub by_name : Registry C → ℕ → Option (MessageInfo C)
  by_name r n = lookup_by id_eq n r.message_by_name

  -- An entry of one map stands in the two others, under its own id, type and name.
  pub record IsConsistent (r : Registry C) : Type 0 where
    pub id_entry :
        (k : ℕ) (i : MessageInfo C)
        → by_id r k ≡ some i
        → (i.id ≡ k)
          × (k ≢ 0)
          × (by_type r i.type ≡ some i)
          × (by_name r (type_name i.type) ≡ some i)
    pub type_entry :
        (t : GoType) (i : MessageInfo C)
        → by_type r t ≡ some i
        → (i.type ≡ t) × (by_id r i.id ≡ some i)
    pub name_entry :
        (n : ℕ) (i : MessageInfo C)
        → by_name r n ≡ some i
        → (type_name i.type ≡ n) × (by_id r i.id ≡ some i)

  -- A registration succeeds exactly on a nonzero id with id, type and name all new.
  pub record IsFresh (r : Registry C) (i : MessageInfo C) : Type 0 where
    pub id_nonzero : i.id ≢ 0
    pub id_new : by_id r i.id ≡ none
    pub type_new : by_type r i.type ≡ none
    pub name_new : by_name r (type_name i.type) ≡ none

  abbrev pub stripped : MessageInfo C → MessageInfo C
  stripped i = record i { type = strip_pointer i.type }

  abbrev pub extended : Registry C → MessageInfo C → Registry C
  extended r i = record {
    message_by_id = (i.id, i) ∷ r.message_by_id;
    message_by_type = (i.type, i) ∷ r.message_by_type;
    message_by_name = (type_name i.type, i) ∷ r.message_by_name;
  }

  module _ (r : Registry C) (i : MessageInfo C) (c : IsConsistent r) (f : IsFresh r i) where
    new_id_entry :
        (k : ℕ) (j : MessageInfo C)
        → by_id (extended r i) k ≡ some j
        → (j.id ≡ k)
          × (k ≢ 0)
          × (by_type (extended r i) j.type ≡ some j)
          × (by_name (extended r i) (type_name j.type) ≡ some j)
    unfolding lookup_by
    new_id_entry k j h = ground (
      arith,
      type_eq_refl i.type,
      type_eq→eq i.type j.type,
      c.id_entry k j,
      f.type_new,
      f.name_new,
      f.id_nonzero,
    )

    new_type_entry :
        (t : GoType) (j : MessageInfo C)
        → by_type (extended r i) t ≡ some j
        → (j.type ≡ t) × (by_id (extended r i) j.id ≡ some j)
    unfolding lookup_by
    new_type_entry t j h = ground (arith, type_eq→eq i.type t, c.type_entry t j, f.id_new)

    new_name_entry :
        (n : ℕ) (j : MessageInfo C)
        → by_name (extended r i) n ≡ some j
        → (type_name j.type ≡ n) × (by_id (extended r i) j.id ≡ some j)
    unfolding lookup_by
    new_name_entry n j h = ground (arith, c.name_entry n j, f.id_new)

    extended-IsConsistent : IsConsistent (extended r i)
    extended-IsConsistent = record {
      id_entry = new_id_entry;
      type_entry = new_type_entry;
      name_entry = new_name_entry;
    }

  empty-IsConsistent : IsConsistent (empty {C = C})
  unfolding empty lookup_by
  empty-IsConsistent = record {
    id_entry = λ k i h. cc;
    type_entry = λ t i h. cc;
    name_entry = λ n i h. cc;
  }

  -- A registration succeeds exactly where the id is not 0 and id, type and name are all new, the
  -- type with one pointer stripped; it then adds the entry to all three maps, and else it panics.
  pub register_message_info_cases :
      (r : Registry C) (i : MessageInfo C)
      → (IsFresh r (stripped i) × (register_message_info r i ≡ ok (extended r (stripped i))))
        ⊎ ((¬ IsFresh r (stripped i)) × (register_message_info r i ≡ panic))
  unfolding register_message_info
  register_message_info_cases r i = ground arith

  register_all-keeps :
      (r s : Registry C) (infos : List (MessageInfo C))
      → IsConsistent r
      → register_all r infos ≡ ok s
      → IsConsistent s
  unfolding register_all
  register_all-keeps r s [] c h = subst IsConsistent (cc) c
  register_all-keeps r s (i ∷ infos) c h = elim (register_message_info_cases r i) [
    | inl (f, e) ↦
        register_all-keeps (extended r (stripped i)) s infos
          (extended-IsConsistent r (stripped i) c f) (rw (e, register_all) at h)
    | inr (_, e) ↦ ground arith
  ]

  -- After any registrations that do not panic the three maps are one registry: an entry of one map
  -- stands in the two others, under its own id, type and name.
  pub register_all-IsConsistent :
      (s : Registry C) (infos : List (MessageInfo C))
      → register_all empty infos ≡ ok s
      → IsConsistent s
  register_all-IsConsistent s infos h = register_all-keeps empty s infos empty-IsConsistent h

  -- After such registrations the entry found for a message's type, or for a pointer to it, is the
  -- entry found for its id, and it is of that type.
  pub message_info_by_msg-by_id :
      (s : Registry C) (infos : List (MessageInfo C)) (t : GoType) (i : MessageInfo C)
      → register_all empty infos ≡ ok s
      → message_info_by_msg s t ≡ some i
      → (message_info_by_id s i.id ≡ some i) × (i.type ≡ strip_pointer t)
  unfolding message_info_by_msg message_info_by_id
  message_info_by_msg-by_id s infos t i h e =
      let (a, b) = (register_all-IsConsistent s infos h).type_entry (strip_pointer t) i e in (b, a)
