-- ===== src/Xdr/Array.antt =====
-- xdr.c: XDR_array_encoder and XDR_array_decoder, for any encoder and decoder of the elements, a length
-- that is not negative, a destination for the decoder, and a malloc that succeeds.
pub mod Laws
pub mod Codecs
pub mod Numbers
use libproc.Prelude.{
  ℕ, zero, suc, ◌+◌, ◌-◌, ◌%◌, ◌^◌, Bool, true, false, not, ◌&&◌, Option, none, some, List, [], ◌∷◌,
  ◌++◌, drop, if◌then◌else◌,
}
use libproc.Prelude.Int.{ℤ, pos, ltb_ℤ}
use libproc.Xdr.{encode_uint32, encode_string_array, Encoded, Decoded, failed, decoded}

-- `max - len` in size_t, for a `max` and a `len` below 2 ^ 64.
unfoldable pub left : ℕ → ℕ → ℕ
left max len = (max + 2 ^ 64 - len) % 2 ^ 64

module _ {A : Type 0} where
  -- The loop of XDR_array_encoder: `has_dst`, `res` and `enc_len` are its variables, and `out` is what
  -- has been written.
  unfoldable pub encode_rest :
      (A → Bool → ℕ → Option Encoded) → List A → Bool → ℕ → ℤ → ℕ → List ℕ → Option Encoded
  encode_rest enc [] has_dst max res enc_len out =
      some (record { res = res; used = enc_len; out = out })
  encode_rest enc (a ∷ xs) has_dst max res enc_len out = elim (enc a has_dst (left max enc_len)) [
    | none ↦ none
    | some r ↦
        let res' = if has_dst then r.res else res in
        encode_rest enc xs (has_dst && not (ltb_ℤ res' (pos 0))) max res' (enc_len + r.used)
          (out ++ r.out)
  ]

  unfoldable pub array_encoder :
      (A → Bool → ℕ → Option Encoded) → List A → Bool → ℕ → Option Encoded
  unfolding encode_rest
  array_encoder enc xs has_dst max = encode_rest enc xs has_dst max (pos 0) 0 []

  -- The loop of XDR_array_decoder: `count` elements are left, and `src` is where it reads next.
  unfoldable pub decode_rest :
      (List ℕ → ℕ → Option (Decoded A)) → ℕ → List ℕ → ℕ → ℕ → List A → Option (Decoded (List A))
  decode_rest dec zero src max dec_len buff = some (decoded buff dec_len)
  decode_rest dec (suc count) src max dec_len buff = elim (dec src (left max dec_len)) [
    | none ↦ none
    | some (failed e) ↦ some (failed e)
    | some (decoded a used) ↦
        decode_rest dec count (drop used src) max (dec_len + used) (buff ++ a ∷ [])
  ]

  unfoldable pub array_decoder :
      (List ℕ → ℕ → Option (Decoded A)) → ℕ → List ℕ → ℕ → Option (Decoded (List A))
  unfolding decode_rest
  array_decoder dec len src max = decode_rest dec len src max 0 []

-- XDR_encode_uint32 and XDR_encode_string_array, as encoders of an element.
abbrev pub uint32_encoder : ℕ → Bool → ℕ → Option Encoded
uint32_encoder n has_dst max = some (encode_uint32 (some n) has_dst max)

abbrev pub string_encoder : List ℕ → Bool → ℕ → Option Encoded
string_encoder s has_dst max = encode_string_array (some s) has_dst max
