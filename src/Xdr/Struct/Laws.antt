-- ===== src/Xdr/Struct/Laws.antt =====
-- XDR_struct_encoder with XDR_struct_decoder (xdr.c), for fields that have laws of their own.
use libproc.Prelude.{
  ℕ, ◌+◌, ◌-◌, ◌^◌, ◌<◌, ◌≤◌, ◌≡◌, refl, true, some, List, [], ◌∷◌, ◌++◌, length, arith, ap, ◌∙◌,
  length-append, append_assoc, append-nil, drop-append,
}
use libproc.Prelude.Int.{pos}
use libproc.Xdr.{Encoded, decoded, htonl}
use libproc.Xdr.RoundTrip.{encode_uint32_wide, decode-htonl}
use libproc.Xdr.Array.Laws.{left_exact}
use libproc.Xdr.Struct.{
  FieldDefinition, uint32_field, stored, encode_fields, struct_encoder, decode_fields,
  struct_decoder,
}

-- A field: its value in a structure, how a value is stored, its bytes, and which values have them. The
-- encoder writes the value's bytes, and the decoder stores the value of the bytes that it reads.
pub record IsField {S : Type 0} (field : FieldDefinition S) : Type 1 where
  pub Value : Type 0
  pub get : S → Value
  pub put : Value → S → S
  pub Fits : Value → Type 0
  pub bytes : Value → List ℕ
  pub get-put : (v : Value) (s : S) → get (put v s) ≡ v
  pub encodes :
      (src : S) (max : ℕ)
      → Fits (get src)
      → length (bytes (get src)) ≤ max
      → field.encoder src true max
        ≡ some (record { res = pos 0; used = length (bytes (get src)); out = bytes (get src) })
  pub decodes :
      (v : Value) (max : ℕ) (rest : List ℕ) (dst : S)
      → Fits v
      → length (bytes v) ≤ max
      → field.decoder (bytes v ++ rest) max dst ≡ some (decoded (put v dst) (length (bytes v)))

module _ {S : Type 0} where
  abbrev pub AreFields : List (FieldDefinition S) → Type 1
  AreFields [] = Unit {1}
  AreFields (field ∷ fields) = IsField field × AreFields fields

  -- Storing one of these fields leaves a value as it is.
  abbrev pub Leaves :
      {V : Type 0} (get : S → V) (fields : List (FieldDefinition S)) → AreFields fields → Type 0
  Leaves get [] h = Unit {0}
  Leaves get (field ∷ fields) h =
      ((v : h.0.Value) (s : S) → get (h.0.put v s) ≡ get s) × Leaves get fields h.1

  -- No field is overwritten by one that follows it.
  abbrev pub AreApart : (fields : List (FieldDefinition S)) → AreFields fields → Type 0
  AreApart [] h = Unit {0}
  AreApart (field ∷ fields) h = Leaves h.0.get fields h.1 × AreApart fields h.1

  abbrev pub AllFit : (fields : List (FieldDefinition S)) → AreFields fields → S → Type 0
  AllFit [] h src = Unit {0}
  AllFit (field ∷ fields) h src = h.0.Fits (h.0.get src) × AllFit fields h.1 src

  -- Two structures have the same value in every field.
  abbrev pub SameFields : (fields : List (FieldDefinition S)) → AreFields fields → S → S → Type 0
  SameFields [] h s t = Unit {0}
  SameFields (field ∷ fields) h s t = (h.0.get s ≡ h.0.get t) × SameFields fields h.1 s t

  abbrev pub fields_bytes : (fields : List (FieldDefinition S)) → AreFields fields → S → List ℕ
  fields_bytes [] h src = []
  fields_bytes (field ∷ fields) h src = h.0.bytes (h.0.get src) ++ fields_bytes fields h.1 src

  -- The structure with the values of `src` stored one after the other.
  abbrev copied : (fields : List (FieldDefinition S)) → AreFields fields → S → S → S
  copied [] h src dst = dst
  copied (field ∷ fields) h src dst = copied fields h.1 src (h.0.put (h.0.get src) dst)

  Leaves-copied :
      {V : Type 0} (get : S → V) (fields : List (FieldDefinition S)) (h : AreFields fields)
      (src dst : S)
      → Leaves get fields h
      → get (copied fields h src dst) ≡ get dst
  Leaves-copied get [] h src dst l = refl
  Leaves-copied get (field ∷ fields) h src dst l =
      Leaves-copied get fields h.1 src (h.0.put (h.0.get src) dst) l.1 ∙ l.0 (h.0.get src) dst

  copied-SameFields :
      (fields : List (FieldDefinition S)) (h : AreFields fields) (src dst : S)
      → AreApart fields h
      → SameFields fields h (copied fields h src dst) src
  copied-SameFields [] h src dst a = tt
  copied-SameFields (field ∷ fields) h src dst a =
      let dst' = h.0.put (h.0.get src) dst in
      (
        Leaves-copied h.0.get fields h.1 src dst' a.0 ∙ h.0.get-put (h.0.get src) dst,
        copied-SameFields fields h.1 src dst' a.1,
      )

  encode_fields_lem :
      (fields : List (FieldDefinition S)) (h : AreFields fields) (src : S) (max used : ℕ)
      (out : List ℕ)
      → AllFit fields h src
      → used + length (fields_bytes fields h src) ≤ max
      → max < 2 ^ 64
      → encode_fields fields src true max (pos 0) used out
        ≡ some (record {
          res = pos 0;
          used = used + length (fields_bytes fields h src);
          out = out ++ fields_bytes fields h src;
        })
  unfolding encode_fields
  encode_fields_lem [] h src max used out fit le small = ground (arith, append-nil out)
  encode_fields_lem (field ∷ fields) h src max used out fit le small =
      let own = h.0.bytes (h.0.get src) in
      let size = length-append own (fields_bytes fields h.1 src) in
      rw
        (
          left_exact max used (omega arith) small,
          h.0.encodes src (max - used) (fit.0) (omega (arith, size)),
          encode_fields,
        )
        (encode_fields_lem fields h.1 src max (used + length own) (out ++ own) (fit.1)
            (omega (arith, size)) small
          ∙ ground (arith, append_assoc out own (fields_bytes fields h.1 src), size))

  decode_fields_lem :
      (fields : List (FieldDefinition S)) (h : AreFields fields) (src : S) (max used : ℕ)
      (rest : List ℕ) (dst : S)
      → AllFit fields h src
      → used + length (fields_bytes fields h src) ≤ max
      → max < 2 ^ 64
      → decode_fields fields (fields_bytes fields h src ++ rest) max used dst
        ≡ some (decoded (copied fields h src dst) (used + length (fields_bytes fields h src)))
  unfolding decode_fields
  decode_fields_lem [] h src max used rest dst fit le small = ground arith
  decode_fields_lem (field ∷ fields) h src max used rest dst fit le small =
      let own = h.0.bytes (h.0.get src) in
      let others = fields_bytes fields h.1 src in
      let size = length-append own others in
      ap (λ from. decode_fields (field ∷ fields) from max used dst) (append_assoc own others rest)
      ∙ rw
          (
            left_exact max used (omega arith) small,
            h.0.decodes (h.0.get src) (max - used) (others ++ rest) dst (fit.0)
                (omega (arith, size)),
            decode_fields,
            drop-append own (others ++ rest),
          )
          (decode_fields_lem fields h.1 src max (used + length own) rest (h.0.put (h.0.get src) dst)
              (fit.1) (omega (arith, size)) small
            ∙ ground (arith, size))

  -- For fields whose encoders write the bytes of the field's value and whose decoders store the
  -- value of the bytes they read, where no field is overwritten by one that follows it, and for a
  -- structure whose values have bytes, together within a bound below 2 ^ 64: XDR_struct_encoder
  -- succeeds and writes as many bytes as it reports, and XDR_struct_decoder, whatever follows
  -- those bytes and whatever structure it fills, succeeds, reports the same number of bytes, and
  -- leaves a structure with the same value in every field as the one that was encoded.
  pub struct_decoder-struct_encoder :
      (fields : List (FieldDefinition S)) (h : AreFields fields) (src : S) (max : ℕ) (rest : List ℕ)
      (dst : S)
      → AreApart fields h
      → AllFit fields h src
      → length (fields_bytes fields h src) ≤ max
      → max < 2 ^ 64
      → (r : Encoded) × (d : S) × (struct_encoder fields src true max ≡ some r)
        × (r.res ≡ pos 0)
        × (length r.out ≡ r.used)
        × (struct_decoder fields (r.out ++ rest) max dst ≡ some (decoded d r.used))
        × SameFields fields h d src
  unfolding struct_encoder struct_decoder
  struct_decoder-struct_encoder fields h src max rest dst apart fit le small =
      let text = fields_bytes fields h src in
      (
        record { res = pos 0; used = length text; out = text },
        copied fields h src dst,
        encode_fields_lem fields h src max 0 [] fit (omega arith) small
            ∙ ap (λ u. some (record { res = pos 0; used = u; out = text })) (omega arith),
        refl,
        refl,
        decode_fields_lem fields h src max 0 rest dst fit (omega arith) small
            ∙ ap (λ u. some (decoded (copied fields h src dst) u)) (omega arith),
        copied-SameFields fields h src dst apart,
      )

unfoldable pub uint32_is_field :
    {S : Type 0} (get : S → ℕ) (put : ℕ → S → S)
    → ((n : ℕ) (s : S) → get (put n s) ≡ n)
    → IsField (uint32_field get put)
unfolding htonl
uint32_is_field get put law = record {
  Value = ℕ;
  get = get;
  put = put;
  Fits = λ n. n < 2 ^ 32;
  bytes = htonl;
  get-put = law;
  encodes = λ src max h le. ap some (encode_uint32_wide (get src) max le);
  decodes = λ n max rest dst h le. ap (stored put dst) (decode-htonl n max rest h le);
}
