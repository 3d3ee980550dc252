-- ===== src/Comparator/Bytewise/Range.antt =====
-- The separator and the successor of util/comparator.cc stay in the range that comparator.h asks
-- for, and BytewiseComparatorImpl is a Comparator.
use leveldb_chinese_annotate.Prelude.{
  ℕ, zero, suc, ◌+◌, ◌%◌, ◌≤◌, ◌<◌, ◌≡◌, ◌≢◌, refl, arith, Ordering, [], ◌∷◌, length, take, set,
  All, min, ◌⊎◌, length-take, length-set,
}
use leveldb_chinese_annotate.Coding.{Bytes, IsByte, byte_at}
use leveldb_chinese_annotate.Slice.{slice_compare}
use leveldb_chinese_annotate.Slice.Order.{lex, slice_compare-lex, slice_compare-IsLawful}
use leveldb_chinese_annotate.Comparator.{Comparator, shared_prefix}
use leveldb_chinese_annotate.Comparator.Bytewise.{find_shortest_separator, find_short_successor}

pub shared_prefix-le : (n : ℕ) (a b : Bytes) → shared_prefix n a b ≤ n
unfolding shared_prefix
shared_prefix-le zero a b = omega arith
shared_prefix-le (suc n) [] b = omega arith
shared_prefix-le (suc n) (x ∷ a) [] = omega arith
shared_prefix-le (suc n) (x ∷ a) (y ∷ b) = ground (arith, shared_prefix-le n a b)

-- `a` cut behind its byte `d`, that byte raised by one.
abbrev bumped : Bytes → ℕ → Bytes
bumped a d = take (d + 1) (set a d ((byte_at a d + 1) % 256))

bumped_cons : (x : ℕ) (a : Bytes) (d : ℕ) → bumped (x ∷ a) (suc d) ≡ x ∷ bumped a d
bumped_cons x a d = ground arith

bumped_between :
    (n : ℕ) (a b : Bytes) (d : ℕ)
    → shared_prefix n a b ≡ d
    → d < n
    → n ≤ length a
    → n ≤ length b
    → byte_at a d < 255
    → byte_at a d + 1 < byte_at b d
    → (lex a (bumped a d) ≡ Ordering.lt) × (lex (bumped a d) b ≡ Ordering.lt)
unfolding shared_prefix
bumped_between zero a b d e h la lb hd hb = absurd (omega arith)
bumped_between (suc n) [] b d e h la lb hd hb = absurd (omega arith)
bumped_between (suc n) (x ∷ a) [] d e h la lb hd hb = absurd (omega arith)
bumped_between (suc n) (x ∷ a) (y ∷ b) zero e h la lb hd hb = ground arith
bumped_between (suc n) (x ∷ a) (y ∷ b) (suc d) e h la lb hd hb =
    ground (arith, bumped_cons x a d, bumped_between n a b d)

-- FindShortestSeparator either leaves `start` alone, or answers a string strictly between its
-- arguments; it asks for no order of the two.
pub separator_cases :
    (start limit : Bytes)
    → (find_shortest_separator start limit ≡ start)
      ⊎ ((slice_compare start (find_shortest_separator start limit) ≡ Ordering.lt)
          × (slice_compare (find_shortest_separator start limit) limit ≡ Ordering.lt))
unfolding find_shortest_separator
separator_cases start limit =
    let n = min (length start) (length limit) in
    let d = shared_prefix n start limit in
    ground (
      arith,
      bumped_between n start limit d refl,
      slice_compare-lex start (bumped start d),
      slice_compare-lex (bumped start d) limit,
    )

-- The answer of FindShortestSeparator is no longer than `start`.
pub length-separator :
    (start limit : Bytes) → length (find_shortest_separator start limit) ≤ length start
unfolding find_shortest_separator
length-separator start limit =
    let n = min (length start) (length limit) in
    let d = shared_prefix n start limit in
    ground (
      arith,
      length-take (d + 1) (set start d ((byte_at start d + 1) % 256)),
      length-set start d ((byte_at start d + 1) % 256),
    )

successor-ge : (key : Bytes) → All IsByte key → lex key (find_short_successor key) ≢ Ordering.gt
unfolding find_short_successor
successor-ge [] h = λ e. cc
successor-ge (b ∷ key) h = ground (arith, successor-ge key h.1)

pub separator-ge :
    (start limit : Bytes)
    → slice_compare start limit ≡ Ordering.lt
    → slice_compare start (find_shortest_separator start limit) ≢ Ordering.gt
separator-ge start limit h e =
    ground (arith, separator_cases start limit, slice_compare-IsLawful.cmp_refl start)

pub separator-lt :
    (start limit : Bytes)
    → slice_compare start limit ≡ Ordering.lt
    → slice_compare (find_shortest_separator start limit) limit ≡ Ordering.lt
separator-lt start limit h = ground (arith, separator_cases start limit)

-- The answer of FindShortSuccessor on a string of bytes is not less than the string.
pub slice_successor-ge :
    (key : Bytes) → All IsByte key → slice_compare key (find_short_successor key) ≢ Ordering.gt
slice_successor-ge key h =
    rw (slice_compare-lex key (find_short_successor key)) (successor-ge key h)

-- BytewiseComparatorImpl keeps what comparator.h asks of a Comparator.
unfoldable pub bytewise_comparator : Comparator
bytewise_comparator = record {
  cmp = slice_compare;
  find_shortest_separator = find_shortest_separator;
  find_short_successor = find_short_successor;
  lawful = slice_compare-IsLawful;
  separator_ge = separator-ge;
  separator_lt = separator-lt;
  successor_ge = slice_successor-ge;
}
