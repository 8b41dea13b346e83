-- ===== src/Codec/Form/Tests.antt =====
-- Forms of two fields.
use mathlib.Core.List.{Permᴰ}
use rocommon.Prelude.{[], ◌∷◌, List, All, true, some, ◌≡◌, refl, arith}
use rocommon.Prelude.Outcome.{ok, panic}
use rocommon.Text.{String, codes, pos, itoa, join, ◌=s◌}
use rocommon.Codec.Form.{
  FormField, text, int, struct, pointer, form_marshal, form2_url_values, field_text, value2string,
  form_unmarshal,
}
use rocommon.Codec.Form.RoundTrip.{IsBytesPair, read_form}
use rocommon.Codec.Form.Fields.{field_pairs, form_marshal-read_form}

abbrev name_and_age : List FormField
name_and_age =
    record { name = codes "Name"; is_exported = true; value = text (codes "a&b =") }
    ∷ record { name = codes "Age"; is_exported = true; value = int (pos 7) }
    ∷ []

name_and_age_pairs :
    field_pairs name_and_age ≡ ok ((codes "Name", codes "a&b =") ∷ (codes "Age", codes "7") ∷ [])
unfolding field_pairs field_text value2string itoa
name_and_age_pairs = refl

name_and_age_bytes : All IsBytesPair ((codes "Name", codes "a&b =") ∷ (codes "Age", codes "7") ∷ [])
unfolding IsBytesPair
name_and_age_bytes = ground arith

form_marshal-read_form_example :
    (out : String) × (qs : List (String × String)) × (form_marshal (struct name_and_age) ≡ ok out)
    × (read_form out ≡ some qs)
    × Permᴰ qs ((codes "Name", codes "a&b =") ∷ (codes "Age", codes "7") ∷ [])
form_marshal-read_form_example =
    form_marshal-read_form name_and_age
      ((codes "Name", codes "a&b =") ∷ (codes "Age", codes "7") ∷ []) name_and_age_pairs
      name_and_age_bytes

sorted_and_escaped : form_marshal (struct name_and_age) ≡ ok (codes "Age=7&Name=a%26b+%3D")
unfolding form_marshal join ◌=s◌ itoa
sorted_and_escaped = refl

pointer_panics : form_marshal (pointer name_and_age) ≡ panic
unfolding form_marshal form2_url_values
pointer_panics = refl

body_in_first_field :
    form_unmarshal (some (codes "" ∷ codes "b" ∷ [])) (some (codes "x=1"))
    ≡ ok (true, some (codes "x=1" ∷ codes "b" ∷ []))
unfolding form_unmarshal
body_in_first_field = refl
