-- ===== src/Codec.antt =====
-- codec.go: the registry of message types. `reflect.Type` is a named type or a pointer to a type;
-- a type's name and package are numbers, since the code only compares them. The codec interface is
-- a parameter `C`: the registry stores a codec and never calls it.
pub mod Consistent
pub mod Form
mod Tests
use rocommon.Prelude.{
  ℕ, Bool, true, false, List, [], ◌∷◌, Option, none, some, ◌==◌, ◌&&◌, if◌then◌else◌, ◌≡◌,
}
use rocommon.Prelude.Outcome.{Outcome, ok, panic, ◌>>=◌}

pub data GoType : Type 0 where
  named : ℕ → ℕ → GoType
  pointer : GoType → GoType

-- `==` on `reflect.Type`.
unfoldable pub type_eq : GoType → GoType → Bool
type_eq (named p n) (named q m) = p == q && n == m
type_eq (pointer s) (pointer t) = type_eq s t
type_eq (named p n) (pointer t) = false
type_eq (pointer s) (named q m) = false

-- `Type.Name()`: only a named type has one; 0 stands for the empty string.
unfoldable pub type_name : GoType → ℕ
type_name (named p n) = n
type_name (pointer t) = 0

-- `Elem()` where `Kind()` is `Ptr`.
unfoldable pub strip_pointer : GoType → GoType
strip_pointer (named p n) = named p n
strip_pointer (pointer t) = t

pub record MessageInfo (C : Type 0) : Type 0 where
  pub codec : C
  pub type : GoType
  pub id : ℕ
  pub confirm_msg_id : ℕ

-- A Go map as the list of its entries, the latest first.
unfoldable pub lookup_by : {K V : Type 0} → (K → K → Bool) → K → List (K × V) → Option V
lookup_by eq k [] = none
lookup_by eq k ((j, v) ∷ m) = if eq j k then some v else lookup_by eq k m

abbrev pub id_eq : ℕ → ℕ → Bool
id_eq a b = a == b

-- The three package variables.
pub record Registry (C : Type 0) : Type 0 where
  pub message_by_id : List (ℕ × MessageInfo C)
  pub message_by_type : List (GoType × MessageInfo C)
  pub message_by_name : List (ℕ × MessageInfo C)

unfoldable pub empty : {C : Type 0} → Registry C
empty = record { message_by_id = []; message_by_type = []; message_by_name = [] }

module _ {C : Type 0} where
  unfoldable pub message_info_by_id : Registry C → ℕ → Option (MessageInfo C)
  message_info_by_id r id = lookup_by id_eq id r.message_by_id

  -- `MessageInfoByMsg`, at the dynamic type of the message.
  unfoldable pub message_info_by_msg : Registry C → GoType → Option (MessageInfo C)
  message_info_by_msg r t = lookup_by type_eq (strip_pointer t) r.message_by_type

  pub message_info_by_name : Registry C → ℕ → Option (MessageInfo C)
  message_info_by_name r n = lookup_by id_eq n r.message_by_name

  -- The three inserts, in order; each is guarded by a panic.
  register_name : Registry C → MessageInfo C → Outcome (Registry C)
  register_name r info = elim (lookup_by id_eq (type_name info.type) r.message_by_name) [
    | some _ ↦ panic
    | none ↦ ok (record r { message_by_name = (type_name info.type, info) ∷ r.message_by_name })
  ]

  register_type : Registry C → MessageInfo C → Outcome (Registry C)
  unfolding register_name
  register_type r info = elim (lookup_by type_eq info.type r.message_by_type) [
    | some _ ↦ panic
    | none ↦
        register_name (record r { message_by_type = (info.type, info) ∷ r.message_by_type }) info
  ]

  register_id : Registry C → MessageInfo C → Outcome (Registry C)
  unfolding register_type
  register_id r info =
      if info.id == 0 then panic else elim (lookup_by id_eq info.id r.message_by_id) [
        | some _ ↦ panic
        | none ↦ register_type (record r { message_by_id = (info.id, info) ∷ r.message_by_id }) info
      ]

  unfoldable pub register_message_info : Registry C → MessageInfo C → Outcome (Registry C)
  unfolding register_id
  register_message_info r info = register_id r (record info { type = strip_pointer info.type })

  -- The calls that the packages' `init` functions make.
  unfoldable pub register_all : Registry C → List (MessageInfo C) → Outcome (Registry C)
  register_all r [] = ok r
  register_all r (info ∷ infos) = register_message_info r info >>= λ s. register_all s infos
