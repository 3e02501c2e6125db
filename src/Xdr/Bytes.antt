-- ===== src/Xdr/Bytes.antt =====
-- Strings and byte arrays (xdr.c), which are padded to four bytes.
use libproc.Prelude.{
  ℕ, ◌+◌, ◌%◌, ◌^◌, ◌<◌, ◌≤◌, ◌≡◌, refl, true, false, none, some, List, ◌++◌, length, take,
  replicate, ltb, leb, ◌==◌, arith, ap, ◌∙◌, length-append, append_assoc, take-append, take-length,
  length-replicate, ◌↔◌,
}
use libproc.Prelude.Int.{pos, negsuc}
use libproc.Xdr.{
  Encoded, failed, decoded, htonl, padding_of, encode_uint32, text, encode_string_array,
  decode_string_array, string_body, encode_byte_array, decode_byte_array,
}
use libproc.Xdr.RoundTrip.{decode-htonl, encode_uint32_wide}

padding_of-aligned : (n : ℕ) → (n + padding_of n) % 4 ≡ 0
unfolding padding_of
padding_of-aligned n = omega arith

padding_of-lt : (n : ℕ) → padding_of n < 4
unfolding padding_of
padding_of-lt n = omega arith

-- The bytes of a string or an array as they are sent.
abbrev pub padded : List ℕ → List ℕ
padded s = s ++ replicate (padding_of (length s)) 0

pub length-padded : (s : List ℕ) → length (padded s) ≡ length s + padding_of (length s)
length-padded s = rw (
  length-append s (replicate (padding_of (length s)) 0),
  length-replicate {A = ℕ} (padding_of (length s)) 0,
)

module _ (s : List ℕ) (max : ℕ) (short : length s + 4 ≤ 2 ^ 32) where
  small : length s % 2 ^ 32 ≡ length s
  small = omega arith

  total : (length s + padding_of (length s)) % 2 ^ 32 ≡ length s + padding_of (length s)
  total = omega (arith, padding_of-lt (length s))

  module _ (fits : 4 + (length s + padding_of (length s)) ≤ max) where
    wide : ltb max (4 + (length s + padding_of (length s))) ≡ false
    wide = ground arith

    word : ltb max 4 ≡ false
    word = ground arith

    pub encode_string_array_fits :
        encode_string_array (some s) true max
        ≡ some (record {
          res = pos 0;
          used = 4 + (length s + padding_of (length s));
          out = htonl (length s) ++ padded s;
        })
    unfolding encode_string_array text htonl
    encode_string_array_fits =
        rw (small, total, encode_uint32_wide (length s) max (omega arith), take-length s)
          (rw (word, wide) refl)

    readable : (rest : List ℕ) → ltb (length (padded s ++ rest)) (length s) ≡ false
    readable rest = ground (arith, length-append (padded s) rest, length-padded s)

    counted : ((length s + 1) % 2 ^ 32 == 0) ≡ false
    counted = ground arith

    wide' : ltb max (4 + length s + padding_of (length s)) ≡ false
    wide' = ground arith

    string_body-padded :
        (rest : List ℕ)
        → string_body (htonl (length s) ++ padded s ++ rest) max (some (decoded (length s) 4))
          ≡ some (decoded s (4 + (length s + padding_of (length s))))
    unfolding string_body htonl
    string_body-padded rest =
        rw (wide', counted, readable rest, total)
          (ap (λ r. some (decoded r (4 + (length s + padding_of (length s)))))
            (ap (take (length s)) (append_assoc s _ rest) ∙ take-append s _))

    pub decode_string_array-padded :
        (rest : List ℕ)
        → decode_string_array ((htonl (length s) ++ padded s) ++ rest) max
          ≡ some (decoded s (4 + (length s + padding_of (length s))))
    unfolding decode_string_array htonl
    decode_string_array-padded rest =
        ap (string_body _ max)
          (decode-htonl (length s) max (padded s ++ rest) (omega arith) (omega arith))
        ∙ string_body-padded rest

    -- For a string of at most 2 ^ 32 - 4 bytes with room for its length word, its bytes and its
    -- padding, XDR_encode_string_array succeeds, writes as many bytes as it reports, a multiple of
    -- four, and XDR_decode_string_array reads the string back from them, whatever follows, and
    -- reports the same number of bytes.
    pub decode_string_array-encode_string_array :
        (rest : List ℕ)
        → (r : Encoded) × (encode_string_array (some s) true max ≡ some r)
          × (r.res ≡ pos 0)
          × (length r.out ≡ r.used)
          × (r.used % 4 ≡ 0)
          × (decode_string_array (r.out ++ rest) max ≡ some (decoded s r.used))
    unfolding decode_string_array htonl
    decode_string_array-encode_string_array rest = (
      record {
        res = pos 0;
        used = 4 + (length s + padding_of (length s));
        out = htonl (length s) ++ padded s;
      },
      encode_string_array_fits,
      refl,
      omega (arith, length-padded s),
      omega (arith, padding_of-aligned (length s)),
      decode_string_array-padded rest,
    )

-- For a string that is not empty and has at most 2 ^ 32 - 4 bytes, XDR_encode_string_array with a
-- NULL destination writes through it exactly when the padded string and its length word are within
-- the bound.
pub encode_string_array_null_faults :
    (s : List ℕ) (max : ℕ)
    → length s + 4 ≤ 2 ^ 32
    → 0 < length s
    → (encode_string_array (some s) false max ≡ none)
      ↔ (4 + (length s + padding_of (length s)) ≤ max)
unfolding encode_string_array encode_uint32 text
encode_string_array_null_faults s max short filled =
    rw (small s max short, total s max short) (λ h. ground arith, λ h. ground arith)

module _ (s : List ℕ) where
  -- For a byte array whose padded size is below the bound, XDR_encode_byte_array succeeds, writes
  -- as many bytes as it reports, a multiple of four, and XDR_decode_byte_array, given the length,
  -- reads the array back from them, whatever follows.
  pub byte_array_room :
      (max : ℕ) (rest : List ℕ)
      → length s + padding_of (length s) < max
      → let r = encode_byte_array (some s) true (length s) max in
        (r.res ≡ pos 0)
        × (length r.out ≡ r.used)
        × (r.used % 4 ≡ 0)
        × (decode_byte_array (r.out ++ rest) (length s) max ≡ some (decoded s r.used))
  unfolding encode_byte_array decode_byte_array
  byte_array_room max rest room =
      let fits : leb max (length s + padding_of (length s)) ≡ false = ground arith in
      let there : ltb (length (padded s ++ rest)) (length s) ≡ false =
        ground (arith, length-append (padded s) rest, length-padded s) in
      rw (fits, take-length s)
        (
          refl,
          length-padded s,
          padding_of-aligned (length s),
          rw there (
              ap (λ r. some (decoded r (length s + padding_of (length s))))
                (ap (take (length s)) (append_assoc s _ rest) ∙ take-append s _)),
        )

  -- A byte array whose padded size is exactly the bound is refused by XDR_encode_byte_array, and
  -- XDR_decode_byte_array refuses its bytes at that bound, though they are no more than the bound.
  pub byte_array_exact :
      (rest : List ℕ)
      → let total = length s + padding_of (length s) in
        ((encode_byte_array (some s) true (length s) total).res ≡ negsuc 0)
        × (decode_byte_array (padded s ++ rest) (length s) total ≡ some (failed (negsuc 0)))
        × (length (padded s) ≡ total)
  unfolding encode_byte_array decode_byte_array
  byte_array_exact rest =
      let full : leb (length s + padding_of (length s)) (length s + padding_of (length s)) ≡ true =
        ground arith in
      rw full (refl, refl, length-padded s)
