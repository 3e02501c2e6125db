-- ===== src/Xdr/Array/Codecs.antt =====
-- The elements that arrays are made of (xdr.c).
use libproc.Prelude.{ℕ, ◌+◌, ◌^◌, ◌<◌, ◌≤◌, ◌≡◌, some, List, ◌++◌, length, arith, ap}
use libproc.Xdr.{htonl, padding_of, decode_uint32, decode_string_array}
use libproc.Xdr.RoundTrip.{encode_uint32_wide, decode-htonl}
use libproc.Xdr.Bytes.{padded, length-padded, encode_string_array_fits, decode_string_array-padded}
use libproc.Xdr.Array.{uint32_encoder, string_encoder}
use libproc.Xdr.Array.Laws.{IsCodec}

unfoldable pub uint32_codec : IsCodec uint32_encoder decode_uint32 (λ n. n < 2 ^ 32)
unfolding htonl
uint32_codec = record {
  bytes = htonl;
  encodes = λ n max h le. ap some (encode_uint32_wide n max le);
  decodes = λ n max rest h le. decode-htonl n max rest h le;
}

pub length-string :
    (s : List ℕ) → length (htonl (length s) ++ padded s) ≡ 4 + (length s + padding_of (length s))
unfolding htonl
length-string s = omega (arith, length-padded s)

unfoldable pub string_codec :
    IsCodec string_encoder decode_string_array (λ s. length s + 4 ≤ 2 ^ 32)
unfolding htonl
string_codec = record {
  bytes = λ s. htonl (length s) ++ padded s;
  encodes = λ s max h le.
      rw (length-string s) (encode_string_array_fits s max h (omega (arith, length-string s)));
  decodes = λ s max rest h le.
      rw (length-string s)
        (decode_string_array-padded s max h (omega (arith, length-string s)) rest);
}
