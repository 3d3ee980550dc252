-- ===== src/DbFormat/Keys.antt =====
-- ParseInternalKey and AppendInternalKey are inverse, and what a LookupKey holds.
use leveldb_chinese_annotate.Prelude.{
  ℕ, ◌+◌, ◌-◌, ◌*◌, ◌/◌, ◌%◌, ◌^◌, ◌≤◌, ◌<◌, ◌≡◌, refl, ap, ◌∙◌, arith, ◌++◌, [], some, length,
  length-append, length-drop, take, drop, take-append, drop-append, take-append-drop, All, All-drop,
}
use leveldb_chinese_annotate.Coding.{
  Bytes, IsByte, IsU64, encode_fixed64, put_fixed64, encode_varint32,
}
use leveldb_chinese_annotate.Coding.Fixed.{
  length-encode_fixed64, encode-decode_fixed64, decode_fixed64-IsU64,
}
use leveldb_chinese_annotate.Coding.Slices.{prefixed}
use leveldb_chinese_annotate.DbFormat.{
  ValueType, type_code, value_type, value_type_for_seek, max_sequence_number, ParsedInternalKey,
  pack_sequence_and_type, append_internal_key, extract_user_key, tag, parse_internal_key,
  internal_key, internal_key_encoding_length, lookup_key, memtable_key, lookup_internal_key,
  lookup_user_key,
}
use leveldb_chinese_annotate.DbFormat.Tags.{
  pack_sequence_and_type_lem, pack-IsU64, type_code-lt, tag-append, extract_user_key-append,
}
use native.Mathlib.Nat.{mod-eq_of_lt}

parse_step :
    (ikey : Bytes) (num : ℕ) (u : Bytes) (t : ValueType)
    → 8 ≤ length ikey
    → tag ikey ≡ num
    → extract_user_key ikey ≡ u
    → value_type (num % 256) ≡ some t
    → parse_internal_key ikey ≡ some (record { user_key = u; sequence = num / 2 ^ 8; type = t })
unfolding parse_internal_key extract_user_key
parse_step ikey num u t l e1 e2 e3 = ground arith

value_type-code : (t : ValueType) (s : ℕ) → value_type ((s * 256 + type_code t) % 256) ≡ some t
value_type-code t s =
    let e : (s * 256 + type_code t) % 256 ≡ type_code t = omega (arith, type_code-lt t) in
    rw e (code t)
  where
    code : (t : ValueType) → value_type (type_code t) ≡ some t
    code ValueType.type_deletion = refl
    code ValueType.type_value = refl

-- ParseInternalKey reads back the user key, the sequence number (at most kMaxSequenceNumber) and
-- the type that AppendInternalKey wrote.
pub parse-append_internal_key :
    (k : ParsedInternalKey)
    → k.sequence ≤ max_sequence_number
    → parse_internal_key (append_internal_key [] k) ≡ some k
parse-append_internal_key k h =
    let n = pack_sequence_and_type k.sequence k.type in
    let l : 8 ≤ length (k.user_key ++ encode_fixed64 n) =
      omega (arith, length-append k.user_key (encode_fixed64 n), length-encode_fixed64 n) in
    let packed : n ≡ k.sequence * 256 + type_code k.type =
      pack_sequence_and_type_lem k.sequence k.type h in
    let sequence_of : n / 2 ^ 8 ≡ k.sequence = omega (arith, packed, type_code-lt k.type) in
    unfold append_internal_key put_fixed64 in
    parse_step (k.user_key ++ encode_fixed64 n) n k.user_key k.type l
      (tag-append k.user_key n (pack-IsU64 k.sequence k.type h))
      (extract_user_key-append k.user_key n) (rw packed (value_type-code k.type k.sequence))
    ∙ ap (λ s. some (record { user_key = k.user_key; sequence = s; type = k.type })) sequence_of

pub length-append_internal_key :
    (k : ParsedInternalKey) → length (append_internal_key [] k) ≡ internal_key_encoding_length k
unfolding append_internal_key internal_key_encoding_length put_fixed64
length-append_internal_key k = omega (
  arith,
  length-append k.user_key (encode_fixed64 (pack_sequence_and_type k.sequence k.type)),
  length-encode_fixed64 (pack_sequence_and_type k.sequence k.type),
)

value_type_inv : (c : ℕ) (t : ValueType) → value_type c ≡ some t → c ≡ type_code t
value_type_inv c ValueType.type_deletion e = ground arith
value_type_inv c ValueType.type_value e = ground arith

parse_facts :
    (ikey : Bytes) (k : ParsedInternalKey)
    → parse_internal_key ikey ≡ some k
    → (8 ≤ length ikey)
      × (k.user_key ≡ take (length ikey - 8) ikey)
      × (k.sequence ≡ tag ikey / 2 ^ 8)
      × (tag ikey % 256 ≡ type_code k.type)
unfolding parse_internal_key
parse_facts ikey k e = ground (arith, value_type_inv (tag ikey % 256) k.type)

-- Whatever bytes ParseInternalKey accepts, the parsed key has a sequence number of at most
-- kMaxSequenceNumber, and AppendInternalKey writes the same bytes again.
pub append-parse_internal_key :
    (ikey : Bytes) (k : ParsedInternalKey)
    → All IsByte ikey
    → parse_internal_key ikey ≡ some k
    → (k.sequence ≤ max_sequence_number) × (append_internal_key [] k ≡ ikey)
append-parse_internal_key ikey k hb e =
    let f = parse_facts ikey k e in
    let last = drop (length ikey - 8) ikey in
    let l : length last ≡ 8 = omega (arith, length-drop (length ikey - 8) ikey, f.0) in
    let small : IsU64 (tag ikey) =
      unfold tag in decode_fixed64-IsU64 last (All-drop IsByte (length ikey - 8) ikey hb) l in
    let short : k.sequence ≤ max_sequence_number = omega (arith, f.2, small) in
    let packed : pack_sequence_and_type k.sequence k.type ≡ tag ikey =
      omega (arith, pack_sequence_and_type_lem k.sequence k.type short, f.2, f.3) in
    let again : encode_fixed64 (tag ikey) ≡ last =
      unfold tag in encode-decode_fixed64 last (All-drop IsByte (length ikey - 8) ikey hb) l in
    (
      short,
      unfold append_internal_key put_fixed64 in
          rw (packed, again, f.1) (take-append-drop (length ikey - 8) ikey),
    )

-- A lookup key holds the length-prefixed internal key of the user key, the sequence number and the
-- type that sorts first; its three views are the whole, the internal key and the user key. The
-- user key is short enough for the length, which is a uint32.
pub lookup_key_views :
    (u : Bytes) (s : ℕ)
    → length u + 8 < 2 ^ 32
    → (lookup_internal_key (lookup_key u s) ≡ internal_key u s value_type_for_seek)
      × (lookup_user_key (lookup_key u s) ≡ u)
      × (memtable_key (lookup_key u s) ≡ prefixed (internal_key u s value_type_for_seek))
unfolding lookup_internal_key lookup_user_key memtable_key lookup_key internal_key put_fixed64
lookup_key_views u s h =
    let enc = encode_fixed64 (pack_sequence_and_type s value_type_for_seek) in
    let front = encode_varint32 ((length u + 8) % 2 ^ 32) in
    let len : length (u ++ enc) ≡ length u + 8 = omega (
      arith,
      length-append u enc,
      length-encode_fixed64 (pack_sequence_and_type s value_type_for_seek),
    ) in
    let rest : length (front ++ (u ++ enc)) - length front - 8 ≡ length u =
      omega (arith, length-append front (u ++ enc), len) in
    let cut = drop-append (length front) front (u ++ enc) refl in
    (
      cut,
      rw (rest, cut) (take-append (length u) u enc refl),
      rw (len, mod-eq_of_lt {n = length u + 8} {m = 2 ^ 32} h),
    )
