-- ===== src/Xdr.antt =====
-- xdr.c: the encoders and decoders of unsigned integers, byte arrays and strings.
-- A buffer is the list of the bytes from the pointer on. `max` is the caller's bound. A decoder that
-- reads past the end of its buffer is `none`; an encoder returns what it writes from `dst` on.
pub mod RoundTrip
pub mod Array
pub mod Signed
pub mod Struct
pub mod Bytes
use libproc.Prelude.{
  ℕ, ◌+◌, ◌-◌, ◌*◌, ◌/◌, ◌%◌, ◌^◌, Bool, true, false, Option, none, some, List, [], ◌∷◌, ◌++◌,
  length, take, drop, replicate, ltb, leb, if◌then◌else◌, not, ◌&&◌, ◌||◌, ◌==◌,
}
use libproc.Prelude.Int.{ℤ, pos, negsuc}

-- The result of an encoder, `*used`, and the bytes written.
pub record Encoded : Type 0 where
  pub res : ℤ
  pub used : ℕ
  pub out : List ℕ

-- A negative result, which leaves `*dst` alone, or the value and `*inc`.
pub data Decoded (A : Type 0) : Type 0 where
  failed : ℤ → Decoded A
  decoded : A → ℕ → Decoded A

-- The bytes of a `uint32_t` in network order, and back.
unfoldable pub htonl : ℕ → List ℕ
htonl n = n / 16777216 % 256 ∷ n / 65536 % 256 ∷ n / 256 % 256 ∷ n % 256 ∷ []

unfoldable pub ntohl : List ℕ → Option (ℕ × List ℕ)
ntohl (a ∷ b ∷ c ∷ d ∷ rest) = some (a * 16777216 + b * 65536 + c * 256 + d, rest)
ntohl (a ∷ b ∷ c ∷ []) = none
ntohl (a ∷ b ∷ []) = none
ntohl (a ∷ []) = none
ntohl [] = none

-- `(4 - (len % 4)) % 4`
unfoldable pub padding_of : ℕ → ℕ
padding_of len = (4 - len % 4) % 4

-- XDR_encode_uint32; `has_dst` says whether `dst` is not NULL.
unfoldable pub encode_uint32 : Option ℕ → Bool → ℕ → Encoded
encode_uint32 src false max = record { res = pos 0; used = 4; out = [] }
encode_uint32 none true max = record { res = negsuc 0; used = 4; out = [] }
encode_uint32 (some n) true max =
    if ltb max 4
    then record { res = negsuc 1; used = 4; out = [] }
    else record { res = pos 0; used = 4; out = htonl n }

-- XDR_decode_uint32
unfoldable pub decode_uint32 : List ℕ → ℕ → Option (Decoded ℕ)
decode_uint32 src max =
    if ltb max 4
    then some (failed (negsuc 0))
    else elim (ntohl src) [ none ↦ none | some (n, rest) ↦ some (decoded n 4) ]

-- XDR_encode_uint64
unfoldable pub encode_uint64 : Option ℕ → Bool → ℕ → Encoded
encode_uint64 src false max = record { res = pos 0; used = 8; out = [] }
encode_uint64 none true max = record { res = negsuc 0; used = 8; out = [] }
encode_uint64 (some n) true max =
    if ltb max 8 then record { res = negsuc 0; used = 8; out = [] } else record {
      res = pos 0;
      used = 8;
      out =
          (encode_uint32 (some (n / 2 ^ 32)) true max).out
          ++ (encode_uint32 (some (n % 2 ^ 32)) true (max - 4)).out;
    }

low_word : ℕ → Option (Decoded ℕ) → Option (Decoded ℕ)
low_word hi none = none
low_word hi (some (failed e)) = some (failed (negsuc 0))
low_word hi (some (decoded low used)) = some (decoded (hi * 2 ^ 32 + low) 8)

high_word : List ℕ → ℕ → Option (Decoded ℕ) → Option (Decoded ℕ)
unfolding decode_uint32 low_word
high_word src max none = none
high_word src max (some (failed e)) = some (failed (negsuc 0))
high_word src max (some (decoded hi used)) =
    low_word hi (decode_uint32 (drop used src) (max - used))

-- XDR_decode_uint64. The low word is below 2 ^ 32, so `res | low` is a sum.
unfoldable pub decode_uint64 : List ℕ → ℕ → Option (Decoded ℕ)
unfolding high_word decode_uint32
decode_uint64 src max =
    if ltb max 8 then some (failed (negsuc 0)) else high_word src max (decode_uint32 src max)

-- The bytes of a string, without its NUL; `none` is NULL.
unfoldable pub text : Option (List ℕ) → List ℕ
text none = []
text (some s) = s

-- XDR_encode_string_array. `none` is a write through a NULL `dst`.
unfoldable pub encode_string_array : Option (List ℕ) → Bool → ℕ → Option Encoded
unfolding text
encode_string_array src has_dst max =
    let str_len = length (text src) % 2 ^ 32 in
    let padding = padding_of str_len in
    let word = encode_uint32 (some str_len) has_dst max in
    let used = word.used + (str_len + padding) % 2 ^ 32 in
    if has_dst && ltb max 4
    then some (record word { used = used })
    else if ltb max used
    then some (record { res = negsuc 1; used = used; out = word.out })
    else if not has_dst && ltb 0 (str_len + padding)
    then none
    else some (record {
      res = pos 0;
      used = used;
      out = word.out ++ take str_len (text src) ++ replicate padding 0;
    })

string_body : List ℕ → ℕ → Option (Decoded ℕ) → Option (Decoded (List ℕ))
string_body src max none = none
string_body src max (some (failed e)) = some (failed (negsuc 0))
string_body src max (some (decoded str_len used)) =
    let padding = padding_of str_len in
    if ltb max (used + str_len + padding)
    then some (failed (negsuc 0))
    else if (str_len + 1) % 2 ^ 32 == 0 || ltb (length (drop used src)) str_len
    then none
    else some (decoded (take str_len (drop used src)) (used + (str_len + padding) % 2 ^ 32))

-- XDR_decode_string_array, where malloc succeeds. A length of 2 ^ 32 - 1 makes it allocate nothing,
-- which is a fault too.
unfoldable pub decode_string_array : List ℕ → ℕ → Option (Decoded (List ℕ))
unfolding string_body decode_uint32
decode_string_array src max = string_body src max (decode_uint32 src max)

-- XDR_encode_byte_array, for a length that is not negative.
unfoldable pub encode_byte_array : Option (List ℕ) → Bool → ℕ → ℕ → Encoded
encode_byte_array src false byte_len max = record {
  res = negsuc 0;
  used = byte_len + padding_of byte_len;
  out = [];
}
encode_byte_array none true byte_len max = record {
  res = negsuc 0;
  used = byte_len + padding_of byte_len;
  out = [];
}
encode_byte_array (some bytes) true byte_len max =
    let padding = padding_of byte_len in
    if leb max (byte_len + padding)
    then record { res = negsuc 0; used = byte_len + padding; out = [] }
    else record {
      res = pos 0;
      used = byte_len + padding;
      out = take byte_len bytes ++ replicate padding 0;
    }

-- XDR_decode_byte_array, for a length that is not negative, where malloc succeeds.
unfoldable pub decode_byte_array : List ℕ → ℕ → ℕ → Option (Decoded (List ℕ))
decode_byte_array src byte_len max =
    let padding = padding_of byte_len in
    if leb max (byte_len + padding)
    then some (failed (negsuc 0))
    else if ltb (length src) byte_len
    then none
    else some (decoded (take byte_len src) (byte_len + padding))

-- XDR_encodebf_uint32 and XDR_decodebf_uint32 of a field of `max` bits, for fewer than 31 bits.
unfoldable pub encodebf_uint32 : ℕ → ℕ → ℕ
encodebf_uint32 src max = src % 2 ^ max

unfoldable pub decodebf_uint32 : ℕ → ℕ → ℕ
decodebf_uint32 src max = src % 2 ^ max
