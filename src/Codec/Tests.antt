-- ===== src/Codec/Tests.antt =====
-- Runs of the registry of codec.go, and its theorems at two message types.
use rocommon.Prelude.{ℕ, ◌≡◌, refl, [], ◌∷◌, some}
use rocommon.Prelude.Outcome.{ok, panic}
use rocommon.Codec.{
  named, pointer, strip_pointer, MessageInfo, Registry, lookup_by, type_eq, type_name, empty,
  message_info_by_msg, register_message_info, register_all,
}
use rocommon.Codec.Consistent.{IsConsistent, register_all-IsConsistent}

abbrev login : MessageInfo ℕ
login = record { codec = 0; type = pointer (named 1 7); id = 1006; confirm_msg_id = 0 }

abbrev ping : MessageInfo ℕ
ping = record { codec = 0; type = named 1 8; id = 1001; confirm_msg_id = 0 }

abbrev login_entry : MessageInfo ℕ
login_entry = record login { type = named 1 7 }

abbrev both : Registry ℕ
both = record {
  message_by_id = (1001, ping) ∷ (1006, login_entry) ∷ [];
  message_by_type = (named 1 8, ping) ∷ (named 1 7, login_entry) ∷ [];
  message_by_name = (8, ping) ∷ (7, login_entry) ∷ [];
}

both_run : register_all empty (login ∷ ping ∷ []) ≡ ok both
unfolding register_all register_message_info empty lookup_by type_eq type_name strip_pointer
both_run = refl

twice_run : register_all empty (login ∷ login ∷ []) ≡ panic
unfolding register_all register_message_info empty lookup_by type_eq type_name strip_pointer
twice_run = refl

register_all-IsConsistent_example : IsConsistent both
register_all-IsConsistent_example = register_all-IsConsistent both (login ∷ ping ∷ []) both_run

found : message_info_by_msg both (pointer (named 1 8)) ≡ some ping
unfolding message_info_by_msg lookup_by type_eq strip_pointer
found = refl
