-- ===== src/Comparator.antt =====
-- include/leveldb/comparator.h and util/comparator.cc: the interface that the rest of the program
-- takes, and BytewiseComparatorImpl.
pub mod Bytewise
mod Tests
use leveldb_chinese_annotate.Prelude.{
  ℕ, zero, suc, ◌≡◌, ◌≢◌, Ordering, [], ◌∷◌, ◌==◌, if◌then◌else◌, All,
}
use leveldb_chinese_annotate.Coding.{Bytes, IsByte}
use leveldb_chinese_annotate.Slice.Order.{IsLawful}

-- The virtual methods, with what comparator.h documents of them.
pub record Comparator : Type 0 where
  pub cmp : Bytes → Bytes → Ordering
  pub find_shortest_separator : Bytes → Bytes → Bytes
  pub find_short_successor : Bytes → Bytes
  pub lawful : IsLawful cmp
  -- If start < limit, the separator is in [start, limit).
  pub separator_ge :
      (start limit : Bytes)
      → cmp start limit ≡ Ordering.lt
      → cmp start (find_shortest_separator start limit) ≢ Ordering.gt
  pub separator_lt :
      (start limit : Bytes)
      → cmp start limit ≡ Ordering.lt
      → cmp (find_shortest_separator start limit) limit ≡ Ordering.lt
  -- The successor of a string of bytes is not below it.
  pub successor_ge :
      (key : Bytes) → All IsByte key → cmp key (find_short_successor key) ≢ Ordering.gt

-- The loop that counts equal bytes from the front, at most `n` of them; BlockBuilder::Add has it
-- too. The lists are what stands from the current index on.
unfoldable pub shared_prefix : ℕ → Bytes → Bytes → ℕ
shared_prefix zero a b = 0
shared_prefix (suc n) [] b = 0
shared_prefix (suc n) (x ∷ a) [] = 0
shared_prefix (suc n) (x ∷ a) (y ∷ b) =
    let rest = shared_prefix n a b in if x == y then suc rest else 0
