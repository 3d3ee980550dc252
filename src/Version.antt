-- ===== src/Version.antt =====
-- db/version_set.{h,cc}: which files of a level a key or a range of keys meets. A file is its
-- metadata; an InternalKey is its string; a null pointer to a key is `none`. An `int` that counts
-- files or levels is a number.
pub mod Find
pub mod Overlap
pub mod Inputs
pub mod Boundary
pub mod Levels
pub mod Compaction
pub mod Running
pub mod Builder
mod Tests
use leveldb_chinese_annotate.Prelude.{
  ℕ, zero, suc, ◌+◌, ◌/◌, ◌%◌, ◌^◌, Bool, true, false, not, ◌||◌, Ordering, List, [], ◌∷◌, Option,
  none, some, ltb, if◌then◌else◌, length, get_elem?,
}
use leveldb_chinese_annotate.Coding.{Bytes}
use leveldb_chinese_annotate.Comparator.{Comparator}
use leveldb_chinese_annotate.DbFormat.{
  extract_user_key, internal_compare, internal_key, max_sequence_number, value_type_for_seek, is_lt,
}
use leveldb_chinese_annotate.VersionEdit.{FileMetaData}

abbrev pub is_gt : Ordering → Bool
is_gt Ordering.gt = true
is_gt _ = false

-- `files[i]->largest`; the callers' indices are in range.
unfoldable pub largest_at : List FileMetaData → ℕ → Bytes
largest_at [] i = []
largest_at (f ∷ files) zero = f.largest
largest_at (f ∷ files) (suc i) = largest_at files i

module _ (c : Comparator) where
  -- The loop of FindFile. Each round makes the range shorter, so the number of files is fuel enough.
  unfoldable pub find_loop : ℕ → List FileMetaData → Bytes → ℕ → ℕ → ℕ
  find_loop zero files key left right = right
  find_loop (suc fuel) files key left right =
      let mid = ((left + right) % 2 ^ 32) / 2 in
      let upper = find_loop fuel files key (mid + 1) right in
      let lower = find_loop fuel files key left mid in
      if ltb left right
      then (if is_lt (internal_compare c (largest_at files mid) key) then upper else lower)
      else right

  unfoldable pub find_file : List FileMetaData → Bytes → ℕ
  find_file files key = find_loop (length files) files key 0 (length files % 2 ^ 32)

  unfoldable pub after_file : Option Bytes → FileMetaData → Bool
  after_file none f = false
  after_file (some user_key) f = is_gt (c.cmp user_key (extract_user_key f.largest))

  unfoldable pub before_file : Option Bytes → FileMetaData → Bool
  before_file none f = false
  before_file (some user_key) f = is_lt (c.cmp user_key (extract_user_key f.smallest))

  -- The check against all files.
  unfoldable pub some_file_meets : List FileMetaData → Option Bytes → Option Bytes → Bool
  some_file_meets [] smallest largest = false
  some_file_meets (f ∷ files) smallest largest =
      let rest = some_file_meets files smallest largest in
      if after_file smallest f || before_file largest f then rest else true

  -- Where the binary search begins to look at files.
  unfoldable pub first_candidate : List FileMetaData → Option Bytes → ℕ
  first_candidate files none = 0
  first_candidate files (some user_key) =
      find_file files (internal_key user_key max_sequence_number value_type_for_seek)

  unfoldable pub some_file_overlaps_range :
      Bool → List FileMetaData → Option Bytes → Option Bytes → Bool
  some_file_overlaps_range false files smallest largest = some_file_meets files smallest largest
  some_file_overlaps_range true files smallest largest =
      elim (get_elem? files (first_candidate files smallest)) [
        | none ↦ false
        | some f ↦ not (before_file largest f)
      ]
