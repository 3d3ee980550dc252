-- ===== src/Version/Boundary.antt =====
-- AddBoundaryInputs of db/version_set.cc and what it calls: a compaction takes, with a file that ends
-- in a user key, the files of its level that begin with older entries of that key.
pub mod Next
pub mod Least
pub mod Largest
pub mod Whole
use leveldb_chinese_annotate.Prelude.{
  ℕ, zero, suc, Bool, true, false, ◌&&◌, List, [], ◌∷◌, ◌++◌, Option, none, some, if◌then◌else◌,
  length,
}
use leveldb_chinese_annotate.Coding.{Bytes}
use leveldb_chinese_annotate.Comparator.{Comparator}
use leveldb_chinese_annotate.DbFormat.{extract_user_key, internal_compare, is_lt}
use leveldb_chinese_annotate.Slice.{is_eq}
use leveldb_chinese_annotate.VersionEdit.{FileMetaData}
use leveldb_chinese_annotate.Version.{is_gt}

module _ (c : Comparator) where
  -- The loop of FindLargestKey.
  unfoldable pub largest_from : Bytes → List FileMetaData → Bytes
  largest_from key [] = key
  largest_from key (f ∷ files) =
      largest_from (if is_gt (internal_compare c f.largest key) then f.largest else key) files

  -- `none` is the answer `false`.
  unfoldable pub find_largest_key : List FileMetaData → Option Bytes
  find_largest_key [] = none
  find_largest_key (f ∷ files) = some (largest_from f.largest files)

  -- The file begins above the key, with the same user key.
  unfoldable pub is_boundary : Bytes → FileMetaData → Bool
  is_boundary key f =
      is_gt (internal_compare c f.smallest key)
      && is_eq (c.cmp (extract_user_key f.smallest) (extract_user_key key))

  abbrev pub replaces : Option FileMetaData → FileMetaData → Bool
  replaces none f = true
  replaces (some b) f = is_lt (internal_compare c f.smallest b.smallest)

  -- The loop of FindSmallestBoundaryFile over the files that are left.
  unfoldable pub smallest_boundary :
      Option FileMetaData → List FileMetaData → Bytes → Option FileMetaData
  smallest_boundary found [] key = found
  smallest_boundary found (f ∷ files) key =
      let kept = smallest_boundary found files key in
      let taken = smallest_boundary (some f) files key in
      if is_boundary key f && replaces found f then taken else kept

  unfoldable pub find_smallest_boundary_file : List FileMetaData → Bytes → Option FileMetaData
  find_smallest_boundary_file files key = smallest_boundary none files key

  unfoldable pub add_boundary_loop :
      ℕ → List FileMetaData → List FileMetaData → Bytes → Option (List FileMetaData)
  add_boundary_loop zero level_files compaction_files largest_key = none
  add_boundary_loop (suc fuel) level_files compaction_files largest_key =
      elim (find_smallest_boundary_file level_files largest_key) [
        | none ↦ some compaction_files
        | some b ↦ add_boundary_loop fuel level_files (compaction_files ++ (b ∷ [])) b.largest
      ]

  -- Every round moves the largest key past the start of a file of the level.
  unfoldable pub add_boundary_inputs :
      List FileMetaData → List FileMetaData → Option (List FileMetaData)
  add_boundary_inputs level_files compaction_files = elim (find_largest_key compaction_files) [
    | none ↦ some compaction_files
    | some largest_key ↦
        add_boundary_loop (suc (length level_files)) level_files compaction_files largest_key
  ]
