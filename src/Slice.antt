-- ===== src/Slice.antt =====
-- include/leveldb/slice.h: a view on a string of bytes, as the list of its bytes, and its
-- comparisons. `memcmp` is the C library's: it compares unsigned bytes from the left, and only the
-- sign of its answer is used, so an `int` compared with 0 is an Ordering here.
pub mod Order
mod Tests
use leveldb_chinese_annotate.Prelude.{
  ℕ, zero, suc, ◌≡◌, Bool, true, false, ◌&&◌, compare, Ordering, List, [], ◌∷◌, ltb, leb, ◌==◌,
  if◌then◌else◌, length, take, drop,
}
use leveldb_chinese_annotate.Coding.{Bytes}

-- The first `n` bytes, both arguments having as many.
unfoldable pub memcmp : Bytes → Bytes → ℕ → Ordering
memcmp a b zero = Ordering.eq
memcmp [] b (suc n) = Ordering.eq
memcmp (x ∷ a) [] (suc n) = Ordering.eq
memcmp (x ∷ a) (y ∷ b) (suc n) = elim (compare x y) [
  | Ordering.lt ↦ Ordering.lt
  | Ordering.eq ↦ memcmp a b n
  | Ordering.gt ↦ Ordering.gt
]

abbrev pub is_eq : Ordering → Bool
is_eq Ordering.eq = true
is_eq _ = false

unfoldable pub slice_compare : Bytes → Bytes → Ordering
unfolding memcmp
slice_compare a b =
    let min_len = if ltb (length a) (length b) then length a else length b in
    elim (memcmp a b min_len) [
      | Ordering.eq ↦
          if ltb (length a) (length b)
          then Ordering.lt
          else if ltb (length b) (length a)
          then Ordering.gt
          else Ordering.eq
      | Ordering.lt ↦ Ordering.lt
      | Ordering.gt ↦ Ordering.gt
    ]

unfoldable pub slice_eq : Bytes → Bytes → Bool
unfolding memcmp
slice_eq x y = length x == length y && is_eq (memcmp x y (length x))

unfoldable pub starts_with : Bytes → Bytes → Bool
unfolding memcmp
starts_with a x = leb (length x) (length a) && is_eq (memcmp a x (length x))

unfoldable pub remove_prefix : ℕ → Bytes → Bytes
remove_prefix n s = drop n s
