-- ===== src/DbFormat.antt =====
-- db/dbformat.h and db/dbformat.cc: internal keys (a user key with a sequence number and a type
-- behind it), the comparator that orders them, and the keys that lookups use.
pub mod Tags
pub mod Keys
pub mod Order
pub mod Separator
mod Tests
use leveldb_chinese_annotate.Prelude.{
  ℕ, ◌+◌, ◌-◌, ◌*◌, ◌/◌, ◌%◌, ◌^◌, ◌≡◌, Bool, true, false, ◌&&◌, bit_or, Ordering, [], ◌++◌, Option,
  none, some, ltb, ◌==◌, if◌then◌else◌, length, take, drop,
}
use leveldb_chinese_annotate.Coding.{
  Bytes, put_fixed64, encode_fixed64, decode_fixed64, encode_varint32,
}
use leveldb_chinese_annotate.Slice.{is_eq}
use leveldb_chinese_annotate.Comparator.{Comparator}

pub data ValueType : Type 0 where
  type_deletion type_value : ValueType

abbrev pub type_code : ValueType → ℕ
type_code ValueType.type_deletion = 0
type_code ValueType.type_value = 1

abbrev pub value_type_for_seek : ValueType
value_type_for_seek = ValueType.type_value

abbrev pub max_sequence_number : ℕ
max_sequence_number = 2 ^ 56 - 1

pub record ParsedInternalKey : Type 0 where
  pub user_key : Bytes
  pub sequence : ℕ
  pub type : ValueType

unfoldable pub internal_key_encoding_length : ParsedInternalKey → ℕ
internal_key_encoding_length key = length key.user_key + 8

-- `(seq << 8) | t` in a uint64.
unfoldable pub pack_sequence_and_type : ℕ → ValueType → ℕ
pack_sequence_and_type seq t = bit_or (seq * 2 ^ 8 % 2 ^ 64) (type_code t)

unfoldable pub append_internal_key : Bytes → ParsedInternalKey → Bytes
append_internal_key result key =
    put_fixed64 (result ++ key.user_key) (pack_sequence_and_type key.sequence key.type)

unfoldable pub extract_user_key : Bytes → Bytes
extract_user_key internal_key = take (length internal_key - 8) internal_key

-- The last eight bytes of an internal key, as a number.
unfoldable pub tag : Bytes → ℕ
tag internal_key = decode_fixed64 (drop (length internal_key - 8) internal_key)

-- `static_cast<ValueType>(c)`, with the test `c <= kTypeValue` of the same function.
abbrev pub value_type : ℕ → Option ValueType
value_type c =
    if c == 0
    then some ValueType.type_deletion
    else if c == 1
    then some ValueType.type_value
    else none

-- `none` is the answer `false`, on which `*result` is not to be read.
unfoldable pub parse_internal_key : Bytes → Option ParsedInternalKey
unfolding tag
parse_internal_key internal_key =
    let n = length internal_key in
    let num = tag internal_key in
    if ltb n 8 then none else elim (value_type (num % 256)) [
      | none ↦ none
      | some t ↦
          some (record { user_key = take (n - 8) internal_key; sequence = num / 2 ^ 8; type = t })
    ]

abbrev pub is_lt : Ordering → Bool
is_lt Ordering.lt = true
is_lt _ = false

-- InternalKeyComparator, over the user's comparator.
module _ (user_comparator : Comparator) where
  unfoldable pub internal_compare : Bytes → Bytes → Ordering
  unfolding extract_user_key tag
  internal_compare akey bkey =
      elim (user_comparator.cmp (extract_user_key akey) (extract_user_key bkey)) [
        | Ordering.lt ↦ Ordering.lt
        | Ordering.gt ↦ Ordering.gt
        | Ordering.eq ↦
            if ltb (tag bkey) (tag akey)
            then Ordering.lt
            else if ltb (tag akey) (tag bkey)
            then Ordering.gt
            else Ordering.eq
      ]

  unfoldable pub find_shortest_separator : Bytes → Bytes → Bytes
  unfolding extract_user_key
  find_shortest_separator start limit =
      let user_start = extract_user_key start in
      let tmp = user_comparator.find_shortest_separator user_start (extract_user_key limit) in
      if ltb (length tmp) (length user_start) && is_lt (user_comparator.cmp user_start tmp)
      then put_fixed64 tmp (pack_sequence_and_type max_sequence_number value_type_for_seek)
      else start

  unfoldable pub find_short_successor : Bytes → Bytes
  unfolding extract_user_key
  find_short_successor key =
      let user_key = extract_user_key key in
      let tmp = user_comparator.find_short_successor user_key in
      if ltb (length tmp) (length user_key) && is_lt (user_comparator.cmp user_key tmp)
      then put_fixed64 tmp (pack_sequence_and_type max_sequence_number value_type_for_seek)
      else key

-- The class InternalKey wraps the string; an empty one is invalid.
unfoldable pub internal_key : Bytes → ℕ → ValueType → Bytes
unfolding append_internal_key
internal_key user_key s t =
    append_internal_key [] (record { user_key = user_key; sequence = s; type = t })

-- InternalKey::DecodeFrom: the new contents, and whether they are not empty.
unfoldable pub decode_from : Bytes → Bytes × Bool
decode_from s = (s, if length s == 0 then false else true)

-- The array of a LookupKey, with where `kstart_` points in it.
pub record LookupKey : Type 0 where
  pub space : Bytes
  pub kstart : ℕ

unfoldable pub lookup_key : Bytes → ℕ → LookupKey
lookup_key user_key s =
    let usize = length user_key in
    let front = encode_varint32 ((usize + 8) % 2 ^ 32) in
    record {
      space = front ++ (user_key ++ encode_fixed64 (pack_sequence_and_type s value_type_for_seek));
      kstart = length front;
    }

unfoldable pub memtable_key : LookupKey → Bytes
memtable_key k = k.space

unfoldable pub lookup_internal_key : LookupKey → Bytes
lookup_internal_key k = drop k.kstart k.space

unfoldable pub lookup_user_key : LookupKey → Bytes
lookup_user_key k = take (length k.space - k.kstart - 8) (drop k.kstart k.space)
