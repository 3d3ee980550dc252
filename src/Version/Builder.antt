-- ===== src/Version/Builder.antt =====
-- VersionSet::Builder of db/version_set.cc: edits are gathered, and a new version is saved from the
-- files of the base version and those of the edits. The reference counts of the files are left out.
pub mod Sets
pub mod Live
use leveldb_chinese_annotate.Prelude.{
  ℕ, zero, suc, ◌/◌, ◌%◌, ◌^◌, Bool, true, false, ◌||◌, Ordering, List, [], ◌∷◌, ◌++◌, ltb, leb,
  ◌==◌, if◌then◌else◌,
}
use leveldb_chinese_annotate.Coding.{Bytes}
use leveldb_chinese_annotate.Comparator.{Comparator}
use leveldb_chinese_annotate.DbFormat.{internal_compare}
use leveldb_chinese_annotate.VersionEdit.{FileMetaData, VersionEdit}
use leveldb_chinese_annotate.Version.Compaction.{update}

-- `compact_pointer` is that of the version set, `base` the files of the base version.
pub record Builder : Type 0 where
  pub compact_pointer : ℕ → Bytes
  pub base : ℕ → List FileMetaData
  pub deleted : ℕ → List ℕ
  pub added : ℕ → List FileMetaData

unfoldable pub new_builder : (ℕ → Bytes) → (ℕ → List FileMetaData) → Builder
new_builder compact_pointer base = record {
  compact_pointer = compact_pointer;
  base = base;
  deleted = λ l. [];
  added = λ l. [];
}

-- A `std::set` of numbers of which only `count` is read is the list of its elements.
abbrev pub has : ℕ → List ℕ → Bool
has n [] = false
has n (m ∷ ms) = m == n || has n ms

abbrev pub set_add : ℕ → List ℕ → List ℕ
set_add n ms = if has n ms then ms else n ∷ ms

abbrev pub set_erase : ℕ → List ℕ → List ℕ
set_erase n [] = []
set_erase n (m ∷ ms) = let rest = set_erase n ms in if m == n then rest else m ∷ rest

-- The seeks after which a new file is compacted, as an int.
unfoldable pub seeks_of : ℕ → ℕ
seeks_of file_size =
    let seeks = file_size / 16384 % 2 ^ 32 in
    if ltb seeks 100 || leb (2 ^ 31) seeks then 100 else seeks

unfoldable pub apply_pointers : List (ℕ × Bytes) → Builder → Builder
apply_pointers [] b = b
apply_pointers ((level, key) ∷ pointers) b =
    apply_pointers pointers (record b { compact_pointer = update b.compact_pointer level key })

unfoldable pub apply_deleted : List (ℕ × ℕ) → Builder → Builder
apply_deleted [] b = b
apply_deleted ((level, number) ∷ files) b =
    apply_deleted files
      (record b { deleted = update b.deleted level (set_add number (b.deleted level)) })

-- The files of the new version so far, with one more.
unfoldable pub maybe_add_file : List ℕ → List FileMetaData → FileMetaData → List FileMetaData
maybe_add_file deleted files f = if has f.number deleted then files else files ++ (f ∷ [])

unfoldable pub add_rest : List ℕ → List FileMetaData → List FileMetaData → List FileMetaData
add_rest deleted files [] = files
add_rest deleted files (f ∷ base) = add_rest deleted (maybe_add_file deleted files f) base

module _ (c : Comparator) where
  -- BySmallestKey.
  unfoldable pub by_smallest_key : FileMetaData → FileMetaData → Bool
  by_smallest_key f1 f2 = elim (internal_compare c f1.smallest f2.smallest) [
    | Ordering.lt ↦ true
    | Ordering.gt ↦ false
    | Ordering.eq ↦ ltb f1.number f2.number
  ]

  -- `std::set::insert`: a file that is neither less nor greater than one of the set stays out.
  unfoldable pub file_set_insert : FileMetaData → List FileMetaData → List FileMetaData
  file_set_insert f [] = f ∷ []
  file_set_insert f (g ∷ files) =
      let rest = file_set_insert f files in
      if by_smallest_key f g
      then f ∷ (g ∷ files)
      else if by_smallest_key g f
      then g ∷ rest
      else g ∷ files

  unfoldable pub apply_new : List (ℕ × FileMetaData) → Builder → Builder
  apply_new [] b = b
  apply_new ((level, meta) ∷ files) b =
      let f = record meta { refs = 1; allowed_seeks = seeks_of meta.file_size } in
      apply_new files (record b {
        deleted = update b.deleted level (set_erase f.number (b.deleted level));
        added = update b.added level (file_set_insert f (b.added level));
      })

  unfoldable pub apply : Builder → VersionEdit → Builder
  apply b edit =
      apply_new edit.new_files
        (apply_deleted edit.deleted_files (apply_pointers edit.compact_pointers b))

  -- The base files up to `std::upper_bound` of an added file: the new files, and the base files left.
  -- The scan from the front finds the same place as `std::upper_bound`, which needs base files that
  -- are sorted.
  unfoldable pub add_smaller :
      List ℕ
      → FileMetaData
      → List FileMetaData
      → List FileMetaData
      → List FileMetaData × List FileMetaData
  add_smaller deleted f files [] = (files, [])
  add_smaller deleted f files (g ∷ base) =
      let rest = add_smaller deleted f (maybe_add_file deleted files g) base in
      if by_smallest_key f g then (files, g ∷ base) else rest

  unfoldable pub save_loop :
      List ℕ → List FileMetaData → List FileMetaData → List FileMetaData → List FileMetaData
  save_loop deleted files base [] = add_rest deleted files base
  save_loop deleted files base (f ∷ added) =
      let smaller = add_smaller deleted f files base in
      save_loop deleted (maybe_add_file deleted smaller.0 f) smaller.1 added

  -- SaveTo, for each level.
  unfoldable pub save_to : Builder → ℕ → List FileMetaData
  save_to b level = save_loop (b.deleted level) [] (b.base level) (b.added level)
