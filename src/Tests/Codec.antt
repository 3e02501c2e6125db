-- ===== src/Tests/Codec.antt =====
-- The codec on small values.
use libproc.Prelude.{
  ℕ, ◌+◌, ◌%◌, ◌<◌, ◌≤◌, ◌≡◌, refl, true, some, List, [], ◌∷◌, ◌++◌, length, arith,
}
use libproc.Prelude.Int.{pos}
use libproc.Xdr.{
  htonl, Encoded, decoded, padding_of, decode_uint32, encode_string_array, decode_string_array,
}
use libproc.Xdr.Array.{array_encoder, array_decoder, uint32_encoder}
use libproc.Xdr.Array.Laws.{array_decoder-array_encoder, all_bytes}
use libproc.Xdr.Array.Codecs.{uint32_codec}
use libproc.Xdr.Struct.{FieldDefinition, struct_encoder, struct_decoder, uint32_field}
use libproc.Xdr.Struct.Laws.{
  AreFields, AreApart, AllFit, SameFields, fields_bytes, uint32_is_field,
  struct_decoder-struct_encoder,
}
use libproc.Xdr.Bytes.{decode_string_array-encode_string_array}

abbrev word : List ℕ
word = 104 ∷ 101 ∷ 108 ∷ 108 ∷ 111 ∷ []

room : 4 + (length word + padding_of (length word)) ≤ 12
unfolding padding_of
room = omega arith

decode_string_array-encode_string_array_example :
    (r : Encoded) × (encode_string_array (some word) true 12 ≡ some r)
    × (r.res ≡ pos 0)
    × (length r.out ≡ r.used)
    × (r.used % 4 ≡ 0)
    × (decode_string_array (r.out ++ word) 12 ≡ some (decoded word r.used))
decode_string_array-encode_string_array_example =
    decode_string_array-encode_string_array word 12 (omega arith) room word

less : length word + padding_of (length word) < 9
unfolding padding_of
less = omega arith

abbrev numbers : List ℕ
numbers = 7 ∷ 0xffffffff ∷ 0 ∷ []

twelve : length (all_bytes uint32_codec numbers) ≤ 12
unfolding uint32_codec htonl
twelve = omega arith

array_decoder-array_encoder_example :
    (r : Encoded) × (array_encoder uint32_encoder numbers true 12 ≡ some r)
    × (r.res ≡ pos 0)
    × (length r.out ≡ r.used)
    × (array_decoder decode_uint32 3 (r.out ++ word) 12 ≡ some (decoded numbers r.used))
array_decoder-array_encoder_example =
    array_decoder-array_encoder uint32_codec numbers 12 word
      (omega arith, (omega arith, (omega arith, tt))) twelve (omega arith)

-- A structure of two numbers.
abbrev Point : Type 0
Point = ℕ × ℕ

abbrev fields : List (FieldDefinition Point)
fields = uint32_field (λ p. p.0) (λ n p. (n, p.1)) ∷ uint32_field (λ p. p.1) (λ n p. (p.0, n)) ∷ []

abbrev point : Point
point = (3, 70000)

abbrev point_fields : AreFields fields
point_fields = (
  uint32_is_field (λ p. p.0) (λ n p. (n, p.1)) (λ n p. refl),
  (uint32_is_field (λ p. p.1) (λ n p. (p.0, n)) (λ n p. refl), tt),
)

eight : length (fields_bytes fields point_fields point) ≤ 8
unfolding uint32_is_field htonl
eight = omega arith

point_fields-AreApart : AreApart fields point_fields
unfolding uint32_is_field
point_fields-AreApart = (((λ n p. refl), tt), (tt, tt))

point-AllFit : AllFit fields point_fields point
unfolding uint32_is_field
point-AllFit = (omega arith, (omega arith, tt))

struct_decoder-struct_encoder_example :
    (r : Encoded) × (d : Point) × (struct_encoder fields point true 8 ≡ some r)
    × (r.res ≡ pos 0)
    × (length r.out ≡ r.used)
    × (struct_decoder fields (r.out ++ word) 8 (0, 0) ≡ some (decoded d r.used))
    × SameFields fields point_fields d point
struct_decoder-struct_encoder_example =
    struct_decoder-struct_encoder fields point_fields point 8 word (0, 0) point_fields-AreApart
      point-AllFit eight (omega arith)
