-- ===== src/Xdr/Signed.antt =====
-- xdr.c: signed integers, which go over the wire as the words of their two's complement.
use libproc.Prelude.{
  ℕ, ◌+◌, ◌-◌, ◌^◌, ◌<◌, ◌≤◌, ◌≡◌, Bool, true, Option, none, some, List, ◌++◌, length, ltb,
  if◌then◌else◌, arith, ap, ◌∙◌,
}
use mathlib.Core.Option
use libproc.Prelude.Int.{ℤ, pos, negsuc}
use libproc.Xdr.{
  Encoded, Decoded, failed, decoded, encode_uint32, decode_uint32, encode_uint64, decode_uint64,
}
use libproc.Xdr.RoundTrip.{decode_uint32-encode_uint32, decode_uint64-encode_uint64}

-- The word of a number in the type's range, where the type has `m` values, and the number of a word.
unfoldable pub to_word : ℕ → ℤ → ℕ
to_word m (pos n) = n
to_word m (negsuc n) = m - 1 - n

unfoldable pub of_word : ℕ → ℕ → ℤ
of_word half u = if ltb u half then pos u else negsuc (half + half - 1 - u)

unfoldable pub signed : ℕ → Option (Decoded ℕ) → Option (Decoded ℤ)
unfolding of_word
signed half none = none
signed half (some (failed e)) = some (failed e)
signed half (some (decoded u len)) = some (decoded (of_word half u) len)

-- XDR_encode_int32
unfoldable pub encode_int32 : Option ℤ → Bool → ℕ → Encoded
unfolding to_word encode_uint32
encode_int32 src has_dst max = encode_uint32 (Option.map (to_word (2 ^ 32)) src) has_dst max

-- XDR_decode_int32
unfoldable pub decode_int32 : List ℕ → ℕ → Option (Decoded ℤ)
unfolding signed decode_uint32
decode_int32 src max = signed (2 ^ 31) (decode_uint32 src max)

-- XDR_encode_int64: the high word is shifted arithmetically, so both words are those of the two's
-- complement.
unfoldable pub encode_int64 : Option ℤ → Bool → ℕ → Encoded
unfolding to_word encode_uint64
encode_int64 src has_dst max = encode_uint64 (Option.map (to_word (2 ^ 64)) src) has_dst max

-- XDR_decode_int64: the sign of the high word is the sign of the number.
unfoldable pub decode_int64 : List ℕ → ℕ → Option (Decoded ℤ)
unfolding signed decode_uint64
decode_int64 src max = signed (2 ^ 63) (decode_uint64 src max)

-- The range of a type with `half` negative numbers.
abbrev pub InRange : ℕ → ℤ → Type 0
InRange half (pos n) = n < half
InRange half (negsuc n) = n < half

pub of_word-to_word :
    (half : ℕ) (z : ℤ) → InRange half z → of_word half (to_word (half + half) z) ≡ z
unfolding of_word to_word
of_word-to_word half (pos n) h = ground arith
of_word-to_word half (negsuc n) h = ground arith

pub to_word-lt : (half : ℕ) (z : ℤ) → InRange half z → to_word (half + half) z < half + half
unfolding to_word
to_word-lt half (pos n) h = omega arith
to_word-lt half (negsuc n) h = omega arith

-- For a number in the range of int32_t and room for four bytes, XDR_encode_int32 succeeds, writes
-- the four bytes that it reports, and XDR_decode_int32 reads the number back from them, whatever
-- follows.
pub decode_int32-encode_int32 :
    (z : ℤ) (max : ℕ) (rest : List ℕ)
    → InRange (2 ^ 31) z
    → 4 ≤ max
    → let r = encode_int32 (some z) true max in
      (r.res ≡ pos 0)
      × (length r.out ≡ r.used)
      × (decode_int32 (r.out ++ rest) max ≡ some (decoded z r.used))
unfolding encode_int32 decode_int32 signed
decode_int32-encode_int32 z max rest h le =
    let (res, len, run) =
      decode_uint32-encode_uint32 (to_word (2 ^ 32) z) max rest (to_word-lt (2 ^ 31) z h) le in
    (
      res,
      len,
      ap (signed (2 ^ 31)) run
          ∙ ap (λ y. some (decoded y (encode_int32 (some z) true max).used))
              (of_word-to_word (2 ^ 31) z h),
    )

pub decode_int64-encode_int64 :
    (z : ℤ) (max : ℕ) (rest : List ℕ)
    → InRange (2 ^ 63) z
    → 8 ≤ max
    → let r = encode_int64 (some z) true max in
      (r.res ≡ pos 0)
      × (length r.out ≡ r.used)
      × (decode_int64 (r.out ++ rest) max ≡ some (decoded z r.used))
unfolding encode_int64 decode_int64 signed
decode_int64-encode_int64 z max rest h le =
    let (res, len, run) =
      decode_uint64-encode_uint64 (to_word (2 ^ 64) z) max rest (to_word-lt (2 ^ 63) z h) le in
    (
      res,
      len,
      ap (signed (2 ^ 63)) run
          ∙ ap (λ y. some (decoded y (encode_int64 (some z) true max).used))
              (of_word-to_word (2 ^ 63) z h),
    )
