-- ===== src/Xdr/Array/Numbers.antt =====
-- xdr.c: the arrays of integers, XDR_encode_uint32_array and its kin. The elements are those that the
-- length, `*(int32_t*)len`, counts; where the pointer `len` is NULL there are none to be sent.
use libproc.Prelude.{
  ℕ, ◌*◌, ◌/◌, ◌%◌, ◌^◌, ◌<◌, ◌≤◌, ◌≡◌, refl, Bool, true, Option, none, some, List, [], ◌∷◌, ◌++◌,
  length, arith, ap, length-append,
}
use mathlib.Core.Path.{subst}
use libproc.Prelude.Int.{ℤ, pos}
use libproc.Xdr.{Encoded, Decoded, decoded, htonl, decode_uint32, encode_uint64, decode_uint64}
use libproc.Xdr.RoundTrip.{encode_uint64_wide}
use libproc.Xdr.Signed.{
  encode_int32, decode_int32, encode_int64, decode_int64, InRange, decode_int64-encode_int64,
  to_word,
}
use libproc.Xdr.Array.{array_encoder, array_decoder, uint32_encoder}
use libproc.Xdr.Array.Laws.{IsCodec, AllFit, all_bytes, array_decoder-array_encoder}

module _ {A : Type 0} where
  unfoldable pub encode_array :
      (A → Bool → ℕ → Option Encoded) → Option (List A) → Bool → ℕ → Option Encoded
  unfolding array_encoder
  encode_array enc none has_dst max = some (record { res = pos 0; used = 0; out = [] })
  encode_array enc (some xs) has_dst max = array_encoder enc xs has_dst max

  -- With a NULL `len` the destination is left alone; it is shown as empty.
  unfoldable pub decode_array :
      (List ℕ → ℕ → Option (Decoded A)) → Option ℕ → List ℕ → ℕ → Option (Decoded (List A))
  unfolding array_decoder
  decode_array dec none src max = some (decoded [] 0)
  decode_array dec (some len) src max = array_decoder dec len src max

abbrev pub int32_encoder : ℤ → Bool → ℕ → Option Encoded
int32_encoder z has_dst max = some (encode_int32 (some z) has_dst max)

abbrev pub int64_encoder : ℤ → Bool → ℕ → Option Encoded
int64_encoder z has_dst max = some (encode_int64 (some z) has_dst max)

abbrev pub uint64_encoder : ℕ → Bool → ℕ → Option Encoded
uint64_encoder n has_dst max = some (encode_uint64 (some n) has_dst max)

unfoldable pub encode_uint32_array : Option (List ℕ) → Bool → ℕ → Option Encoded
unfolding encode_array
encode_uint32_array src has_dst max = encode_array uint32_encoder src has_dst max

unfoldable pub encode_int32_array : Option (List ℤ) → Bool → ℕ → Option Encoded
unfolding encode_array
encode_int32_array src has_dst max = encode_array int32_encoder src has_dst max

unfoldable pub encode_uint64_array : Option (List ℕ) → Bool → ℕ → Option Encoded
unfolding encode_array
encode_uint64_array src has_dst max = encode_array uint64_encoder src has_dst max

unfoldable pub encode_int64_array : Option (List ℤ) → Bool → ℕ → Option Encoded
unfolding encode_array
encode_int64_array src has_dst max = encode_array int64_encoder src has_dst max

unfoldable pub decode_uint32_array : Option ℕ → List ℕ → ℕ → Option (Decoded (List ℕ))
unfolding decode_array
decode_uint32_array len src max = decode_array decode_uint32 len src max

unfoldable pub decode_int32_array : Option ℕ → List ℕ → ℕ → Option (Decoded (List ℤ))
unfolding decode_array
decode_int32_array len src max = decode_array decode_int32 len src max

unfoldable pub decode_uint64_array : Option ℕ → List ℕ → ℕ → Option (Decoded (List ℕ))
unfolding decode_array
decode_uint64_array len src max = decode_array decode_uint64 len src max

unfoldable pub decode_int64_array : Option ℕ → List ℕ → ℕ → Option (Decoded (List ℤ))
unfolding decode_array
decode_int64_array len src max = decode_array decode_int64 len src max

int64_bytes : ℤ → List ℕ
int64_bytes z = htonl (to_word (2 ^ 64) z / 2 ^ 32) ++ htonl (to_word (2 ^ 64) z % 2 ^ 32)

int64_wide :
    (z : ℤ) (max : ℕ)
    → 8 ≤ max
    → encode_int64 (some z) true max ≡ record { res = pos 0; used = 8; out = int64_bytes z }
unfolding encode_int64 int64_bytes
int64_wide z max le = encode_uint64_wide (to_word (2 ^ 64) z) max le

length-int64 : (z : ℤ) → length (int64_bytes z) ≡ 8
unfolding int64_bytes htonl
length-int64 z = refl

int64_codec : IsCodec int64_encoder decode_int64 (InRange (2 ^ 63))
int64_codec = record {
  bytes = int64_bytes;
  encodes = λ z max h le.
      rw (length-int64 z) (ap some (int64_wide z max (omega (arith, length-int64 z))));
  decodes = λ z max rest h le.
      let room : 8 ≤ max = omega (arith, length-int64 z) in
      rw (length-int64 z) (
        subst (λ r. decode_int64 (r.out ++ rest) max ≡ some (decoded z r.used))
          (int64_wide z max room) (decode_int64-encode_int64 z max rest h room).2);
}

all_bytes-int64 : (xs : List ℤ) → length (all_bytes int64_codec xs) ≡ 8 * length xs
unfolding int64_codec
all_bytes-int64 [] = refl
all_bytes-int64 (z ∷ xs) = omega (
  arith,
  length-append (int64_bytes z) (all_bytes int64_codec xs),
  length-int64 z,
  all_bytes-int64 xs,
)

-- For numbers in the range of int64_t with room for eight bytes each within a bound below 2 ^ 64,
-- XDR_encode_int64_array succeeds and writes as many bytes as it reports, and
-- XDR_decode_int64_array, given the number of elements, reads the numbers back from them, whatever
-- follows, and reports the same number of bytes.
pub decode_int64_array-encode_int64_array :
    (xs : List ℤ) (max : ℕ) (rest : List ℕ)
    → AllFit (InRange (2 ^ 63)) xs
    → 8 * length xs ≤ max
    → max < 2 ^ 64
    → (r : Encoded) × (encode_int64_array (some xs) true max ≡ some r)
      × (r.res ≡ pos 0)
      × (length r.out ≡ r.used)
      × (decode_int64_array (some (length xs)) (r.out ++ rest) max ≡ some (decoded xs r.used))
unfolding encode_int64_array decode_int64_array
decode_int64_array-encode_int64_array xs max rest fit le small =
    array_decoder-array_encoder int64_codec xs max rest fit (omega (arith, all_bytes-int64 xs))
      small
