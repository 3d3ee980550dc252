-- ===== src/Coding/Fixed.antt =====
-- Round trips and bounds of the fixed-width integers of util/coding.h.
use leveldb_chinese_annotate.Prelude.{
  ℕ, ◌+◌, ◌*◌, ◌/◌, ◌%◌, ◌^◌, ◌<◌, ◌≡◌, refl, ap, ◌∙◌, arith, ◌++◌, ◌∷◌, [], length, All,
}
use leveldb_chinese_annotate.Prelude.Bits.{bit_or-shifted}
use leveldb_chinese_annotate.Coding.{
  Bytes, IsByte, IsU32, IsU64, encode_fixed32, encode_fixed64, decode_fixed32, decode_fixed64,
}

pub length-encode_fixed32 : (v : ℕ) → length (encode_fixed32 v) ≡ 4
unfolding encode_fixed32
length-encode_fixed32 v = refl

pub length-encode_fixed64 : (v : ℕ) → length (encode_fixed64 v) ≡ 8
unfolding encode_fixed64
length-encode_fixed64 v = refl

pub encode_fixed32-IsByte : (v : ℕ) → All IsByte (encode_fixed32 v)
unfolding encode_fixed32
encode_fixed32-IsByte v = omega arith

pub encode_fixed64-IsByte : (v : ℕ) → All IsByte (encode_fixed64 v)
unfolding encode_fixed64
encode_fixed64-IsByte v = omega arith

-- The bytes at the front of a buffer as one number, least significant byte first.
pub decode_fixed32_sum :
    (a b c d : ℕ) (rest : Bytes)
    → a < 256
    → b < 256
    → c < 256
    → decode_fixed32 (a ∷ b ∷ c ∷ d ∷ rest) ≡ a + b * 2 ^ 8 + c * 2 ^ 16 + d * 2 ^ 24
unfolding decode_fixed32
decode_fixed32_sum a b c d rest ha hb hc =
    let e1 = bit_or-shifted 8 a b (omega arith) in
    let e2 = bit_or-shifted 16 (a + b * 2 ^ 8) c (omega arith) in
    let e3 = bit_or-shifted 24 (a + b * 2 ^ 8 + c * 2 ^ 16) d (omega arith) in rw (e1, e2, e3)

pub decode_fixed64_sum :
    (a b c d e f g h : ℕ) (rest : Bytes)
    → a < 256
    → b < 256
    → c < 256
    → d < 256
    → e < 256
    → f < 256
    → g < 256
    → decode_fixed64 (a ∷ b ∷ c ∷ d ∷ e ∷ f ∷ g ∷ h ∷ rest)
      ≡ a + b * 2 ^ 8 + c * 2 ^ 16 + d * 2 ^ 24 + e * 2 ^ 32 + f * 2 ^ 40 + g * 2 ^ 48 + h * 2 ^ 56
unfolding decode_fixed64
decode_fixed64_sum a b c d e f g h rest ha hb hc hd he hf hg =
    let s2 = a + b * 2 ^ 8 in
    let s3 = s2 + c * 2 ^ 16 in
    let s4 = s3 + d * 2 ^ 24 in
    let s5 = s4 + e * 2 ^ 32 in
    let s6 = s5 + f * 2 ^ 40 in
    let s7 = s6 + g * 2 ^ 48 in
    let e1 = bit_or-shifted 8 a b (omega arith) in
    let e2 = bit_or-shifted 16 s2 c (omega arith) in
    let e3 = bit_or-shifted 24 s3 d (omega arith) in
    let e4 = bit_or-shifted 32 s4 e (omega arith) in
    let e5 = bit_or-shifted 40 s5 f (omega arith) in
    let e6 = bit_or-shifted 48 s6 g (omega arith) in
    let e7 = bit_or-shifted 56 s7 h (omega arith) in rw (e1, e2, e3, e4, e5, e6, e7)

-- A uint32 is read back from the bytes written for it, whatever follows them in the buffer.
pub decode-encode_fixed32 :
    (v : ℕ) (rest : Bytes) → IsU32 v → decode_fixed32 (encode_fixed32 v ++ rest) ≡ v
unfolding encode_fixed32
decode-encode_fixed32 v rest h =
    decode_fixed32_sum (v % 256) (v / 2 ^ 8 % 256) (v / 2 ^ 16 % 256) (v / 2 ^ 24 % 256) rest
      (omega arith) (omega arith) (omega arith)
    ∙ omega arith

-- A uint64 is read back from the bytes written for it, whatever follows them in the buffer.
pub decode-encode_fixed64 :
    (v : ℕ) (rest : Bytes) → IsU64 v → decode_fixed64 (encode_fixed64 v ++ rest) ≡ v
unfolding encode_fixed64
decode-encode_fixed64 v rest h =
    decode_fixed64_sum (v % 256) (v / 2 ^ 8 % 256) (v / 2 ^ 16 % 256) (v / 2 ^ 24 % 256)
      (v / 2 ^ 32 % 256) (v / 2 ^ 40 % 256) (v / 2 ^ 48 % 256) (v / 2 ^ 56 % 256) rest (omega arith)
      (omega arith) (omega arith) (omega arith) (omega arith) (omega arith) (omega arith)
    ∙ omega arith

pub decode-encode_fixed64_self : (v : ℕ) → IsU64 v → decode_fixed64 (encode_fixed64 v) ≡ v
unfolding encode_fixed64
decode-encode_fixed64_self v h = decode-encode_fixed64 v [] h

pub decode-encode_fixed32_self : (v : ℕ) → IsU32 v → decode_fixed32 (encode_fixed32 v) ≡ v
unfolding encode_fixed32
decode-encode_fixed32_self v h = decode-encode_fixed32 v [] h

encode_sum :
    (a b c d e f g h : ℕ)
    → All IsByte (a ∷ b ∷ c ∷ d ∷ e ∷ f ∷ g ∷ h ∷ [])
    → encode_fixed64 (
        a + b * 2 ^ 8 + c * 2 ^ 16 + d * 2 ^ 24 + e * 2 ^ 32 + f * 2 ^ 40 + g * 2 ^ 48 + h * 2 ^ 56)
      ≡ a ∷ b ∷ c ∷ d ∷ e ∷ f ∷ g ∷ h ∷ []
unfolding encode_fixed64
encode_sum a b c d e f g h p = ground arith

-- Eight bytes that are read as a number are written again as they were.
pub encode-decode_fixed64 :
    (s : Bytes) → All IsByte s → length s ≡ 8 → encode_fixed64 (decode_fixed64 s) ≡ s
encode-decode_fixed64 (a ∷ b ∷ c ∷ d ∷ e ∷ f ∷ g ∷ h ∷ []) p l =
    ap encode_fixed64 (
      decode_fixed64_sum a b c d e f g h [] p.0 p.1.0 p.1.1.0 p.1.1.1.0 p.1.1.1.1.0 p.1.1.1.1.1.0
        p.1.1.1.1.1.1.0)
    ∙ encode_sum a b c d e f g h p
encode-decode_fixed64 s p l = absurd (omega arith)

pub decode_fixed64-IsU64 : (s : Bytes) → All IsByte s → length s ≡ 8 → IsU64 (decode_fixed64 s)
decode_fixed64-IsU64 (a ∷ b ∷ c ∷ d ∷ e ∷ f ∷ g ∷ h ∷ []) p l =
    rw
      (decode_fixed64_sum a b c d e f g h [] p.0 p.1.0 p.1.1.0 p.1.1.1.0 p.1.1.1.1.0 p.1.1.1.1.1.0
        p.1.1.1.1.1.1.0)
      (omega arith)
decode_fixed64-IsU64 s p l = absurd (omega arith)
