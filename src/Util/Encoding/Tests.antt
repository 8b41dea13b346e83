-- ===== src/Util/Encoding/Tests.antt =====
-- Encodings of util/utils.go at concrete values.
use rocommon.Prelude.{ℕ, [], ◌∷◌, ◌<◌, true, false, ◌≡◌, refl, arith}
use rocommon.Text.{codes, split, cons_head, trim, trim_left, trim_right, ◌=s◌}
use rocommon.Util.Encoding.{
  sized, unsized, int_to_bytes, bytes_to_int, hex_encode, ensure_hex_decode, get_tag_options,
  tag_parts,
}
use rocommon.Util.Encoding.RoundTrip.{bytes_to_int-int_to_bytes, ensure_hex_decode-hex_encode}

bytes_to_int-int_to_bytes_example :
    (bytes_to_int (int_to_bytes (sized 8 258)) ≡ 258)
    × ((w k : ℕ) → w < 8 → bytes_to_int (int_to_bytes (sized w k)) ≡ 0)
    × (bytes_to_int (int_to_bytes unsized) ≡ 0)
bytes_to_int-int_to_bytes_example = bytes_to_int-int_to_bytes 258 (omega arith)

ensure_hex_decode-hex_encode_example :
    ensure_hex_decode (hex_encode (0 ∷ 171 ∷ 255 ∷ [])) ≡ 0 ∷ 171 ∷ 255 ∷ []
ensure_hex_decode-hex_encode_example =
    ensure_hex_decode-hex_encode (0 ∷ 171 ∷ 255 ∷ [])
      (omega arith, (omega arith, (omega arith, tt)))

tags :
    get_tag_options (codes "id , omitempty")
    ≡ record { skip = false; tag_name = codes "id"; omitempty = true; omitzero = false }
unfolding get_tag_options tag_parts split cons_head trim trim_left trim_right ◌=s◌
tags = refl
