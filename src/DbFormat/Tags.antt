-- ===== src/DbFormat/Tags.antt =====
-- The tag of an internal key as arithmetic.
use leveldb_chinese_annotate.Prelude.{
  ℕ, ◌+◌, ◌-◌, ◌*◌, ◌/◌, ◌%◌, ◌^◌, ◌≤◌, ◌<◌, ◌≡◌, refl, ap, arith, bit_or, ◌++◌, length,
  length-append, take-append, drop-append,
}
use leveldb_chinese_annotate.Prelude.Bits.{bit_or_step, bit_or-zero}
use leveldb_chinese_annotate.Coding.{Bytes, IsU64, encode_fixed64}
use leveldb_chinese_annotate.Coding.Fixed.{length-encode_fixed64, decode-encode_fixed64_self}
use leveldb_chinese_annotate.DbFormat.{
  ValueType, type_code, max_sequence_number, pack_sequence_and_type, extract_user_key, tag,
}

shifted_or : (q t : ℕ) → t < 2 → bit_or (q * 2 ^ 8) t ≡ q * 2 ^ 8 + t
shifted_or q t h = omega (
  arith,
  bit_or_step (q * 2 ^ 8) t,
  bit_or-zero (q * 128),
  ap (λ (x : ℕ). bit_or x (t / 2)) half,
  ap (λ (x : ℕ). bit_or (q * 128) x) small,
)
  where
    half : q * 2 ^ 8 / 2 ≡ q * 128
    half = omega arith

    small : t / 2 ≡ 0
    small = omega arith

pub type_code-lt : (t : ValueType) → type_code t < 2
type_code-lt ValueType.type_deletion = omega arith
type_code-lt ValueType.type_value = omega arith

-- PackSequenceAndType of a sequence number that the program can reach.
pub pack_sequence_and_type_lem :
    (seq : ℕ) (t : ValueType)
    → seq ≤ max_sequence_number
    → pack_sequence_and_type seq t ≡ seq * 256 + type_code t
unfolding pack_sequence_and_type
pack_sequence_and_type_lem seq ValueType.type_deletion h =
    let e : seq * 2 ^ 8 % 2 ^ 64 ≡ seq * 2 ^ 8 = omega arith in
    rw e (shifted_or seq 0 (omega arith))
pack_sequence_and_type_lem seq ValueType.type_value h =
    let e : seq * 2 ^ 8 % 2 ^ 64 ≡ seq * 2 ^ 8 = omega arith in
    rw e (shifted_or seq 1 (omega arith))

pub pack-IsU64 :
    (seq : ℕ) (t : ValueType) → seq ≤ max_sequence_number → IsU64 (pack_sequence_and_type seq t)
pack-IsU64 seq ValueType.type_deletion h =
    omega (arith, pack_sequence_and_type_lem seq ValueType.type_deletion h)
pack-IsU64 seq ValueType.type_value h =
    omega (arith, pack_sequence_and_type_lem seq ValueType.type_value h)

-- A user key with eight bytes behind it comes apart at the seam.
pub extract_user_key-append : (u : Bytes) (n : ℕ) → extract_user_key (u ++ encode_fixed64 n) ≡ u
unfolding extract_user_key
extract_user_key-append u n =
    let e : length (u ++ encode_fixed64 n) - 8 ≡ length u =
      omega (arith, length-append u (encode_fixed64 n), length-encode_fixed64 n) in
    rw e (take-append (length u) u (encode_fixed64 n) refl)

pub tag-append : (u : Bytes) (n : ℕ) → IsU64 n → tag (u ++ encode_fixed64 n) ≡ n
unfolding tag
tag-append u n h =
    let e : length (u ++ encode_fixed64 n) - 8 ≡ length u =
      omega (arith, length-append u (encode_fixed64 n), length-encode_fixed64 n) in
    rw (e, drop-append (length u) u (encode_fixed64 n) refl) (decode-encode_fixed64_self n h)
