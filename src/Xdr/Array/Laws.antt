-- ===== src/Xdr/Array/Laws.antt =====
-- XDR_array_encoder with XDR_array_decoder (xdr.c), for elements that have laws of their own.
use libproc.Prelude.{
  ℕ, suc, ◌+◌, ◌-◌, ◌^◌, ◌<◌, ◌≤◌, ◌≡◌, refl, Bool, true, Option, some, List, [], ◌∷◌, ◌++◌, length,
  arith, ap, ◌∙◌, length-append, append_assoc, append-nil, drop-append,
}
use libproc.Prelude.Int.{pos}
use libproc.Xdr.{Encoded, Decoded, decoded}
use libproc.Xdr.Array.{left, encode_rest, array_encoder, decode_rest, array_decoder}

-- What an array asks of its elements' encoder and decoder, for the values that `Fits` holds of.
pub record IsCodec {A : Type 0} (enc : A → Bool → ℕ → Option Encoded)
    (dec : List ℕ → ℕ → Option (Decoded A)) (Fits : A → Type 0) : Type 0 where
  pub bytes : A → List ℕ
  pub encodes :
      (a : A) (max : ℕ)
      → Fits a
      → length (bytes a) ≤ max
      → enc a true max ≡ some (record { res = pos 0; used = length (bytes a); out = bytes a })
  pub decodes :
      (a : A) (max : ℕ) (rest : List ℕ)
      → Fits a
      → length (bytes a) ≤ max
      → dec (bytes a ++ rest) max ≡ some (decoded a (length (bytes a)))

abbrev pub AllFit : {A : Type 0} → (A → Type 0) → List A → Type 0
AllFit Fits [] = Unit
AllFit Fits (a ∷ xs) = Fits a × AllFit Fits xs

pub left_exact : (max len : ℕ) → len ≤ max → max < 2 ^ 64 → left max len ≡ max - len
unfolding left
left_exact max len le h = omega arith

module _ {A : Type 0} {enc : A → Bool → ℕ → Option Encoded} {dec : List ℕ → ℕ → Option (Decoded A)}
    {Fits : A → Type 0} (codec : IsCodec enc dec Fits) where
  -- The elements' bytes, one after the other.
  abbrev pub all_bytes : List A → List ℕ
  all_bytes [] = []
  all_bytes (a ∷ xs) = codec.bytes a ++ all_bytes xs

  encode_rest_lem :
      (xs : List A) (max enc_len : ℕ) (out : List ℕ)
      → AllFit Fits xs
      → enc_len + length (all_bytes xs) ≤ max
      → max < 2 ^ 64
      → encode_rest enc xs true max (pos 0) enc_len out
        ≡ some (record {
          res = pos 0;
          used = enc_len + length (all_bytes xs);
          out = out ++ all_bytes xs;
        })
  unfolding encode_rest
  encode_rest_lem [] max enc_len out fit le h = ground (arith, append-nil out)
  encode_rest_lem (a ∷ xs) max enc_len out fit le h =
      let size = length-append (codec.bytes a) (all_bytes xs) in
      rw
        (
          left_exact max enc_len (omega arith) h,
          codec.encodes a (max - enc_len) fit.0 (omega (arith, size)),
          encode_rest,
        )
        (encode_rest_lem xs max (enc_len + length (codec.bytes a)) (out ++ codec.bytes a) fit.1
            (omega (arith, size)) h
          ∙ ground (arith, append_assoc out (codec.bytes a) (all_bytes xs), size))

  decode_rest_lem :
      (xs : List A) (max dec_len : ℕ) (rest : List ℕ) (buff : List A)
      → AllFit Fits xs
      → dec_len + length (all_bytes xs) ≤ max
      → max < 2 ^ 64
      → decode_rest dec (length xs) (all_bytes xs ++ rest) max dec_len buff
        ≡ some (decoded (buff ++ xs) (dec_len + length (all_bytes xs)))
  unfolding decode_rest
  decode_rest_lem [] max dec_len rest buff fit le h = ground (arith, append-nil buff)
  decode_rest_lem (a ∷ xs) max dec_len rest buff fit le h =
      let size = length-append (codec.bytes a) (all_bytes xs) in
      ap (λ src. decode_rest dec (suc (length xs)) src max dec_len buff)
        (append_assoc (codec.bytes a) (all_bytes xs) rest)
      ∙ rw
          (
            left_exact max dec_len (omega arith) h,
            codec.decodes a (max - dec_len) (all_bytes xs ++ rest) fit.0 (omega (arith, size)),
            decode_rest,
            drop-append (codec.bytes a) (all_bytes xs ++ rest),
          )
          (decode_rest_lem xs max (dec_len + length (codec.bytes a)) rest (buff ++ a ∷ []) fit.1
              (omega (arith, size)) h
            ∙ ground (arith, append_assoc buff (a ∷ []) xs, size))

  -- For elements whose encoder and decoder are inverse to each other within any bound, and whose
  -- bytes together are within a bound below 2 ^ 64, XDR_array_encoder succeeds and writes as many
  -- bytes as it reports, and XDR_array_decoder, given the number of elements, reads the elements
  -- back from them, whatever follows, and reports the same number of bytes.
  pub array_decoder-array_encoder :
      (xs : List A) (max : ℕ) (rest : List ℕ)
      → AllFit Fits xs
      → length (all_bytes xs) ≤ max
      → max < 2 ^ 64
      → (r : Encoded) × (array_encoder enc xs true max ≡ some r)
        × (r.res ≡ pos 0)
        × (length r.out ≡ r.used)
        × (array_decoder dec (length xs) (r.out ++ rest) max ≡ some (decoded xs r.used))
  unfolding array_encoder array_decoder
  array_decoder-array_encoder xs max rest fit le h = (
    record { res = pos 0; used = length (all_bytes xs); out = all_bytes xs },
    encode_rest_lem xs max 0 [] fit (omega arith) h
        ∙ ap (λ u. some (record { res = pos 0; used = u; out = all_bytes xs })) (omega arith),
    refl,
    refl,
    decode_rest_lem xs max 0 rest [] fit (omega arith) h
        ∙ ap (λ u. some (decoded xs u)) (omega arith),
  )
