-- ===== src/DbFormat/Tests.antt =====
-- Concrete internal keys of db/dbformat.cc, and the theorems at concrete inputs.
use leveldb_chinese_annotate.Prelude.{◌≡◌, ◌≢◌, refl, arith, [], ◌∷◌, none, some, Ordering}
use leveldb_chinese_annotate.Coding.{Bytes, decode_fixed64}
use leveldb_chinese_annotate.Slice.{slice_compare}
use leveldb_chinese_annotate.Slice.Order.{IsLawful}
use leveldb_chinese_annotate.Comparator.Bytewise.Range.{bytewise_comparator}
use leveldb_chinese_annotate.DbFormat.{
  ValueType, ParsedInternalKey, append_internal_key, parse_internal_key, internal_compare,
  extract_user_key, find_shortest_separator, find_short_successor,
}
use leveldb_chinese_annotate.DbFormat.Keys.{parse-append_internal_key}
use leveldb_chinese_annotate.DbFormat.Order.{
  key_order, internal_compare-append, internal_compare-IsLawful,
}
use leveldb_chinese_annotate.DbFormat.Separator.{
  separator_range, successor_range, bytewise_separator_range,
}

abbrev older : ParsedInternalKey
older = record { user_key = 97 ∷ []; sequence = 3; type = ValueType.type_value }

abbrev newer : ParsedInternalKey
newer = record { user_key = 97 ∷ []; sequence = 5; type = ValueType.type_deletion }

-- "ab" at 3, written out.
abbrev ab_key : Bytes
ab_key = 97 ∷ 98 ∷ 1 ∷ 3 ∷ 0 ∷ 0 ∷ 0 ∷ 0 ∷ 0 ∷ 0 ∷ []

ab_parsed :
    parse_internal_key ab_key
    ≡ some (record { user_key = 97 ∷ 98 ∷ []; sequence = 3; type = ValueType.type_value })
unfolding parse_internal_key decode_fixed64
ab_parsed = refl

short_key : parse_internal_key (1 ∷ 2 ∷ 3 ∷ []) ≡ none
unfolding parse_internal_key
short_key = refl

parse-append_internal_key_example : parse_internal_key (append_internal_key [] newer) ≡ some newer
parse-append_internal_key_example = parse-append_internal_key newer (omega arith)

internal_compare-append_example :
    internal_compare bytewise_comparator
      (append_internal_key [] newer)
      (append_internal_key [] older)
    ≡ key_order bytewise_comparator newer older
internal_compare-append_example =
    internal_compare-append bytewise_comparator newer older (omega arith) (omega arith)

-- The newer entry of a user key comes first.
newer_first : key_order bytewise_comparator newer older ≡ Ordering.lt
unfolding key_order bytewise_comparator slice_compare
newer_first = refl

internal_compare-IsLawful_example : IsLawful (internal_compare bytewise_comparator)
internal_compare-IsLawful_example = internal_compare-IsLawful bytewise_comparator

-- "abc" at 3 and "ad" at 3.
abbrev start_key : Bytes
start_key = 97 ∷ 98 ∷ 99 ∷ 1 ∷ 3 ∷ 0 ∷ 0 ∷ 0 ∷ 0 ∷ 0 ∷ 0 ∷ []

abbrev limit_key : Bytes
limit_key = 97 ∷ 100 ∷ 1 ∷ 3 ∷ 0 ∷ 0 ∷ 0 ∷ 0 ∷ 0 ∷ 0 ∷ []

keys_in_order : internal_compare bytewise_comparator start_key limit_key ≡ Ordering.lt
unfolding internal_compare bytewise_comparator slice_compare
keys_in_order = refl

users_in_order :
    bytewise_comparator.cmp (extract_user_key start_key) (extract_user_key limit_key) ≡ Ordering.lt
unfolding extract_user_key bytewise_comparator slice_compare
users_in_order = refl

bytewise_separator_range_example :
    (internal_compare bytewise_comparator start_key
        (find_shortest_separator bytewise_comparator start_key limit_key)
      ≢ Ordering.gt)
    × (internal_compare bytewise_comparator
          (find_shortest_separator bytewise_comparator start_key limit_key)
          limit_key
        ≡ Ordering.lt)
bytewise_separator_range_example = bytewise_separator_range start_key limit_key keys_in_order

separator_range_example :
    (internal_compare bytewise_comparator start_key
        (find_shortest_separator bytewise_comparator start_key limit_key)
      ≢ Ordering.gt)
    × (internal_compare bytewise_comparator
          (find_shortest_separator bytewise_comparator start_key limit_key)
          limit_key
        ≡ Ordering.lt)
separator_range_example = separator_range bytewise_comparator start_key limit_key users_in_order

successor_range_example :
    internal_compare bytewise_comparator start_key
      (find_short_successor bytewise_comparator start_key)
    ≢ Ordering.gt
successor_range_example = successor_range bytewise_comparator start_key
