-- ===== src/Version/Running.antt =====
-- A running Compaction of db/version_set.cc: IsTrivialMove, AddInputDeletions, IsBaseLevelForKey,
-- ShouldStopBefore.
pub mod Base
use leveldb_chinese_annotate.Prelude.{
  ℕ, zero, suc, ◌+◌, ◌-◌, ◌*◌, ◌%◌, ◌^◌, Bool, true, false, not, ◌&&◌, ◌||◌, List, [], ◌∷◌, ◌++◌,
  Option, none, some, ltb, leb, ◌==◌, if◌then◌else◌, length, drop, get_or,
}
use leveldb_chinese_annotate.Coding.{Bytes}
use leveldb_chinese_annotate.Comparator.{Comparator}
use leveldb_chinese_annotate.DbFormat.{extract_user_key, internal_compare, is_lt}
use leveldb_chinese_annotate.VersionEdit.{
  FileMetaData, VersionEdit, clear, num_levels, remove_file, set_compact_pointer,
}
use leveldb_chinese_annotate.Version.{is_gt}
use leveldb_chinese_annotate.Version.Inputs.{get_overlapping_inputs}
use leveldb_chinese_annotate.Version.Boundary.{add_boundary_inputs}
use leveldb_chinese_annotate.Version.Levels.{
  Version, lt64, total_file_size, max_grand_parent_overlap_bytes,
}
use leveldb_chinese_annotate.Version.Compaction.{Compaction, update}

unfoldable pub is_trivial_move : ℕ → Compaction → Bool
is_trivial_move target k =
    length k.inputs0 == 1
    && length k.inputs1 == 0
    && not (lt64 (max_grand_parent_overlap_bytes target) (total_file_size k.grandparents))

abbrev remove_all : ℕ → List FileMetaData → VersionEdit → VersionEdit
remove_all level [] edit = edit
remove_all level (f ∷ files) edit = remove_all level files (remove_file edit level f.number)

unfoldable pub add_input_deletions : Compaction → VersionEdit → VersionEdit
add_input_deletions k edit = remove_all (k.level + 1) k.inputs1 (remove_all k.level k.inputs0 edit)

module _ (c : Comparator) where
  -- The inner loop of IsBaseLevelForKey over the files from the pointer on: whether the key falls
  -- in the range of a file, and the pointer.
  unfoldable pub move_pointer : Bytes → List FileMetaData → ℕ → Bool × ℕ
  move_pointer user_key [] pointer = (false, pointer)
  move_pointer user_key (f ∷ files) pointer =
      let rest = move_pointer user_key files (pointer + 1) in
      if is_gt (c.cmp user_key (extract_user_key f.largest))
      then rest
      else (not (is_lt (c.cmp user_key (extract_user_key f.smallest))), pointer)

  -- The loop over the levels that are left, from `level` on.
  unfoldable pub base_level_loop : ℕ → ℕ → Bytes → Compaction → Bool × Compaction
  base_level_loop zero level user_key k = (true, k)
  base_level_loop (suc left) level user_key k =
      let pointer = k.level_ptrs level in
      let moved = move_pointer user_key (drop pointer (k.input_version.files level)) pointer in
      let k1 = record k { level_ptrs = update k.level_ptrs level moved.1 } in
      let rest = base_level_loop left (level + 1) user_key k1 in
      if moved.0 then (false, k1) else rest

  unfoldable pub is_base_level_for_key : Compaction → Bytes → Bool × Compaction
  is_base_level_for_key k user_key =
      base_level_loop (num_levels - (k.level + 2)) (k.level + 2) user_key k

  -- The loop of ShouldStopBefore over the grandparents from the index on.
  unfoldable pub pass_grandparents : Bytes → List FileMetaData → Compaction → Compaction
  pass_grandparents internal_key [] k = k
  pass_grandparents internal_key (f ∷ files) k =
      let bytes =
        if k.seen_key then (k.overlapped_bytes + f.file_size) % 2 ^ 64 else k.overlapped_bytes in
      let rest =
        pass_grandparents internal_key files
          (record k { overlapped_bytes = bytes; grandparent_index = k.grandparent_index + 1 }) in
      if is_gt (internal_compare c internal_key f.largest) then rest else k

  unfoldable pub should_stop_before : ℕ → Compaction → Bytes → Bool × Compaction
  should_stop_before target k internal_key =
      let k1 = pass_grandparents internal_key (drop k.grandparent_index k.grandparents) k in
      let k2 = record k1 { seen_key = true } in
      if lt64 (max_grand_parent_overlap_bytes target) k2.overlapped_bytes
      then (true, record k2 { overlapped_bytes = 0 })
      else (false, k2)
