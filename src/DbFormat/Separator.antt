-- ===== src/DbFormat/Separator.antt =====
-- The shortened keys of InternalKeyComparator stay in range: the two asserts in
-- FindShortestSeparator and the one in FindShortSuccessor hold.
use leveldb_chinese_annotate.Prelude.{◌≡◌, ◌≢◌, ◌⊎◌, inl, inr, arith, Ordering, ◌++◌}
use leveldb_chinese_annotate.Coding.{Bytes, encode_fixed64, put_fixed64}
use leveldb_chinese_annotate.Slice.{slice_compare}
use leveldb_chinese_annotate.Slice.Order.{slice_compare-IsLawful}
use leveldb_chinese_annotate.Comparator.Bytewise
use leveldb_chinese_annotate.Comparator.{Comparator}
use leveldb_chinese_annotate.Comparator.Bytewise.Range.{bytewise_comparator, separator_cases}
use leveldb_chinese_annotate.DbFormat.{
  max_sequence_number, value_type_for_seek, pack_sequence_and_type, extract_user_key,
  internal_compare, find_shortest_separator, find_short_successor,
}
use leveldb_chinese_annotate.DbFormat.Tags.{extract_user_key-append}
use leveldb_chinese_annotate.DbFormat.Order.{internal_compare-IsLawful}

-- A shortened user key with the earliest possible tag.
abbrev long_key : Bytes → Bytes
long_key u = u ++ encode_fixed64 (pack_sequence_and_type max_sequence_number value_type_for_seek)

extract-long_key : (u : Bytes) → extract_user_key (long_key u) ≡ u
extract-long_key u = extract_user_key-append u _

module _ (c : Comparator) where
  open c use {cmp, lawful}

  -- Keys whose user keys are in order are in order.
  pub internal_lt :
      (a b : Bytes)
      → cmp (extract_user_key a) (extract_user_key b) ≡ Ordering.lt
      → internal_compare c a b ≡ Ordering.lt
  unfolding internal_compare
  internal_lt a b h = ground arith

  internal_lt_long :
      (a u : Bytes)
      → cmp (extract_user_key a) u ≡ Ordering.lt
      → internal_compare c a (long_key u) ≡ Ordering.lt
  internal_lt_long a u h = internal_lt a (long_key u) (rw (extract-long_key u) h)

  -- FindShortestSeparator under a user comparator that keeps its contract, on two keys whose user
  -- keys are in order: the answer is in [start, limit).
  pub separator_range :
      (start limit : Bytes)
      → cmp (extract_user_key start) (extract_user_key limit) ≡ Ordering.lt
      → (internal_compare c start (find_shortest_separator c start limit) ≢ Ordering.gt)
        × (internal_compare c (find_shortest_separator c start limit) limit ≡ Ordering.lt)
  unfolding find_shortest_separator put_fixed64
  separator_range start limit h =
      let us = extract_user_key start in
      let ul = extract_user_key limit in
      let tmp = c.find_shortest_separator us ul in
      let below = internal_lt_long start tmp in
      let above : internal_compare c (long_key tmp) limit ≡ Ordering.lt =
        internal_lt (long_key tmp) limit (rw (extract-long_key tmp) (c.separator_lt us ul h)) in
      ground (
        arith,
        below,
        above,
        internal_lt start limit h,
        (internal_compare-IsLawful c).cmp_refl start,
      )

  -- FindShortSuccessor answers a key that is not below the given one.
  pub successor_range :
      (key : Bytes) → internal_compare c key (find_short_successor c key) ≢ Ordering.gt
  unfolding find_short_successor put_fixed64
  successor_range key =
      let tmp = c.find_short_successor (extract_user_key key) in
      ground (arith, internal_lt_long key tmp, (internal_compare-IsLawful c).cmp_refl key)

-- Under equal user keys FindShortestSeparator over the bytewise comparator changes nothing.
same_user_key :
    (start limit : Bytes)
    → slice_compare (extract_user_key start) (extract_user_key limit) ≡ Ordering.eq
    → find_shortest_separator bytewise_comparator start limit ≡ start
unfolding find_shortest_separator bytewise_comparator
same_user_key start limit e =
    let us = extract_user_key start in
    let ul = extract_user_key limit in
    let tmp = Bytewise.find_shortest_separator us ul in
    ground (arith, separator_cases us ul, slice_compare-IsLawful.lt_trans us tmp ul)

user_keys :
    (start limit : Bytes)
    → internal_compare bytewise_comparator start limit ≡ Ordering.lt
    → (slice_compare (extract_user_key start) (extract_user_key limit) ≡ Ordering.lt)
      ⊎ (slice_compare (extract_user_key start) (extract_user_key limit) ≡ Ordering.eq)
unfolding internal_compare bytewise_comparator
user_keys start limit h = ground arith

-- Over the bytewise comparator no more is needed than the order of the two internal keys: the
-- answer of FindShortestSeparator is in [start, limit) whenever start < limit.
pub bytewise_separator_range :
    (start limit : Bytes)
    → internal_compare bytewise_comparator start limit ≡ Ordering.lt
    → (internal_compare bytewise_comparator start
          (find_shortest_separator bytewise_comparator start limit)
        ≢ Ordering.gt)
      × (internal_compare bytewise_comparator
            (find_shortest_separator bytewise_comparator start limit)
            limit
          ≡ Ordering.lt)
bytewise_separator_range start limit h = elim (user_keys start limit h) [
  | inl l ↦ separator_range bytewise_comparator start limit (unfold bytewise_comparator in l)
  | inr e ↦ rw (same_user_key start limit e) (unchanged, h)
]
  where
    unchanged : internal_compare bytewise_comparator start start ≢ Ordering.gt
    unchanged g = ground (arith, (internal_compare-IsLawful bytewise_comparator).cmp_refl start)
