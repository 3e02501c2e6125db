-- ===== src/Xdr/Struct.antt =====
-- xdr.c: XDR_struct_encoder and XDR_struct_decoder, with the definition's fields as a list.
pub mod Laws
use libproc.Prelude.{
  ℕ, ◌+◌, Bool, true, false, not, ◌&&◌, Option, none, some, List, [], ◌∷◌, ◌++◌, drop,
  if◌then◌else◌,
}
use libproc.Prelude.Int.{ℤ, pos, negsuc, ltb_ℤ}
use libproc.Xdr.{Encoded, Decoded, failed, decoded, encode_uint32, decode_uint32}
use libproc.Xdr.Array.{left}

-- struct XDR_FieldDefinition, for structures of type `S`: what its encoder does with the field of a
-- structure, and what its decoder stores into the field.
pub record FieldDefinition (S : Type 0) : Type 0 where
  pub encoder : S → Bool → ℕ → Option Encoded
  pub decoder : List ℕ → ℕ → S → Option (Decoded S)

module _ {S : Type 0} where
  -- The loop of XDR_struct_encoder. Once a field has failed, the others are asked for their sizes.
  unfoldable pub encode_fields :
      List (FieldDefinition S) → S → Bool → ℕ → ℤ → ℕ → List ℕ → Option Encoded
  encode_fields [] src has_dst max res used out =
      some (record { res = res; used = used; out = out })
  encode_fields (field ∷ fields) src has_dst max res used out =
      let live = has_dst && not (ltb_ℤ res (pos 0)) in
      elim (field.encoder src live (if live then left max used else max)) [
        | none ↦ none
        | some r ↦
            encode_fields fields src has_dst max (if live then r.res else res) (used + r.used)
              (out ++ r.out)
      ]

  unfoldable pub struct_encoder : List (FieldDefinition S) → S → Bool → ℕ → Option Encoded
  unfolding encode_fields
  struct_encoder fields src has_dst max = encode_fields fields src has_dst max (pos 0) 0 []

  -- The loop of XDR_struct_decoder, on the structure `dst`.
  unfoldable pub decode_fields : List (FieldDefinition S) → List ℕ → ℕ → ℕ → S → Option (Decoded S)
  decode_fields [] src max used dst = some (decoded dst used)
  decode_fields (field ∷ fields) src max used dst = elim (field.decoder src (left max used) dst) [
    | none ↦ none
    | some (failed e) ↦ some (failed (negsuc 0))
    | some (decoded dst' len) ↦ decode_fields fields (drop len src) max (used + len) dst'
  ]

  unfoldable pub struct_decoder : List (FieldDefinition S) → List ℕ → ℕ → S → Option (Decoded S)
  unfolding decode_fields
  struct_decoder fields src max dst = decode_fields fields src max 0 dst

abbrev pub stored : {S : Type 0} → (ℕ → S → S) → S → Option (Decoded ℕ) → Option (Decoded S)
stored put dst none = none
stored put dst (some (failed e)) = some (failed e)
stored put dst (some (decoded n len)) = some (decoded (put n dst) len)

-- A field of xdr_uint32_functions: XDR_encode_uint32 and XDR_decode_uint32.
abbrev pub uint32_field : {S : Type 0} → (S → ℕ) → (ℕ → S → S) → FieldDefinition S
uint32_field get put = record {
  encoder = λ src has_dst max. some (encode_uint32 (some (get src)) has_dst max);
  decoder = λ src max dst. stored put dst (decode_uint32 src max);
}
