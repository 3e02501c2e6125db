-- ===== src/Xdr/RoundTrip.antt =====
-- XDR_encode_uint32 and XDR_encode_uint64 with their decoders (xdr.c).
use libproc.Prelude.{
  ℕ, ◌+◌, ◌-◌, ◌*◌, ◌/◌, ◌%◌, ◌^◌, ◌<◌, ◌≤◌, ◌≡◌, refl, true, false, some, List, ◌++◌, length, ltb,
  arith, ap, ◌∙◌,
}
use libproc.Prelude.Int.{pos}
use libproc.Xdr.{
  decoded, htonl, ntohl, encode_uint32, decode_uint32, encode_uint64, decode_uint64, low_word,
  high_word,
}

ntohl-htonl : (n : ℕ) (rest : List ℕ) → n < 2 ^ 32 → ntohl (htonl n ++ rest) ≡ some (n, rest)
unfolding ntohl htonl
ntohl-htonl n rest h = ap (λ m. some (m, rest)) (omega arith)

pub decode-htonl :
    (n max : ℕ) (rest : List ℕ)
    → n < 2 ^ 32
    → 4 ≤ max
    → decode_uint32 (htonl n ++ rest) max ≡ some (decoded n 4)
unfolding decode_uint32
decode-htonl n max rest h le = ground (arith, ntohl-htonl n rest h)

pub encode_uint32_wide :
    (n max : ℕ)
    → 4 ≤ max
    → encode_uint32 (some n) true max ≡ record { res = pos 0; used = 4; out = htonl n }
unfolding encode_uint32
encode_uint32_wide n max le = ground arith

-- For a number below 2 ^ 32 and room for four bytes, XDR_encode_uint32 succeeds, writes the four
-- bytes that it reports, and XDR_decode_uint32 reads the number back from them, whatever follows.
pub decode_uint32-encode_uint32 :
    (n max : ℕ) (rest : List ℕ)
    → n < 2 ^ 32
    → 4 ≤ max
    → let r = encode_uint32 (some n) true max in
      (r.res ≡ pos 0)
      × (length r.out ≡ r.used)
      × (decode_uint32 (r.out ++ rest) max ≡ some (decoded n r.used))
unfolding htonl
decode_uint32-encode_uint32 n max rest h le =
    rw (encode_uint32_wide n max le) (refl, refl, decode-htonl n max rest h le)

pub encode_uint64_wide :
    (n max : ℕ)
    → 8 ≤ max
    → encode_uint64 (some n) true max
      ≡ record { res = pos 0; used = 8; out = htonl (n / 2 ^ 32) ++ htonl (n % 2 ^ 32) }
unfolding encode_uint64
encode_uint64_wide n max le =
    ground (arith, encode_uint32_wide (n / 2 ^ 32) max, encode_uint32_wide (n % 2 ^ 32) (max - 4))

decode_uint64-htonl :
    (a b max : ℕ) (rest : List ℕ)
    → a < 2 ^ 32
    → b < 2 ^ 32
    → 8 ≤ max
    → decode_uint64 (htonl a ++ htonl b ++ rest) max ≡ some (decoded (a * 2 ^ 32 + b) 8)
unfolding decode_uint64 htonl
decode_uint64-htonl a b max rest ha hb le = rw (wide) (
    rw (decode-htonl a max (htonl b ++ rest) ha (omega arith), high_word)
      (rw (decode-htonl b (max - 4) rest hb (omega arith), low_word)))
  where
    wide : ltb max 8 ≡ false
    wide = ground arith

-- For a number below 2 ^ 64 and room for eight bytes, XDR_encode_uint64 succeeds, writes the eight
-- bytes that it reports, and XDR_decode_uint64 reads the number back from them, whatever follows.
pub decode_uint64-encode_uint64 :
    (n max : ℕ) (rest : List ℕ)
    → n < 2 ^ 64
    → 8 ≤ max
    → let r = encode_uint64 (some n) true max in
      (r.res ≡ pos 0)
      × (length r.out ≡ r.used)
      × (decode_uint64 (r.out ++ rest) max ≡ some (decoded n r.used))
unfolding htonl
decode_uint64-encode_uint64 n max rest h le = rw (encode_uint64_wide n max le) (
  refl,
  refl,
  decode_uint64-htonl (n / 2 ^ 32) (n % 2 ^ 32) max rest (omega arith) (omega arith) le
      ∙ ap (λ m. some (decoded m 8)) (omega arith),
)
