-- ===== src/Version/Levels.antt =====
-- Version of db/version_set.h, OverlapInLevel and PickLevelForMemTableOutput of db/version_set.cc.
pub mod Placement
use leveldb_chinese_annotate.Prelude.{
  ℕ, zero, suc, ◌+◌, ◌*◌, ◌%◌, ◌^◌, Bool, true, false, List, [], ◌∷◌, Option, none, some, ltb,
  if◌then◌else◌,
}
use leveldb_chinese_annotate.Coding.{Bytes}
use leveldb_chinese_annotate.Comparator.{Comparator}
use leveldb_chinese_annotate.DbFormat.{
  ValueType, internal_key, max_sequence_number, value_type_for_seek,
}
use leveldb_chinese_annotate.VersionEdit.{FileMetaData, num_levels}
use leveldb_chinese_annotate.Version.{some_file_overlaps_range}
use leveldb_chinese_annotate.Version.Inputs.{get_overlapping_inputs}

-- An array over the levels is a function of the level. The file to compact stands with its level;
-- `is_full` is `compaction_score_ >= 1`.
pub record Version : Type 0 where
  pub files : ℕ → List FileMetaData
  pub file_to_compact : Option (ℕ × FileMetaData)
  pub is_full : Bool
  pub compaction_level : ℕ

-- The order of int64 on the remainders of 2^64 that stand for them.
abbrev pub lt64 : ℕ → ℕ → Bool
lt64 a b = ltb ((a + 2 ^ 63) % 2 ^ 64) ((b + 2 ^ 63) % 2 ^ 64)

unfoldable pub total_file_size : List FileMetaData → ℕ
total_file_size [] = 0
total_file_size (f ∷ files) = (f.file_size + total_file_size files) % 2 ^ 64

-- `target` is `options->max_file_size`.
unfoldable pub max_grand_parent_overlap_bytes : ℕ → ℕ
max_grand_parent_overlap_bytes target = 10 * target % 2 ^ 64

-- `config::kMaxMemCompactLevel`
abbrev pub max_mem_compact_level : ℕ
max_mem_compact_level = 2

module _ (c : Comparator) where
  unfoldable pub overlap_in_level : Version → ℕ → Option Bytes → Option Bytes → Bool
  overlap_in_level v level smallest largest =
      some_file_overlaps_range c (ltb 0 level) (v.files level) smallest largest

  -- Whether the files that a new table overlaps in a level are too many bytes; `none` is for lack of
  -- fuel below.
  unfoldable pub overlaps_too_much : ℕ → Version → ℕ → Bytes → Bytes → Option Bool
  overlaps_too_much target v level start limit =
      if ltb level num_levels
      then elim (get_overlapping_inputs c level (v.files level) (some start) (some limit)) [
        | none ↦ none
        | some overlaps ↦
            some (lt64 (max_grand_parent_overlap_bytes target) (total_file_size overlaps))
      ]
      else some false

  -- The loop, with the levels left up to kMaxMemCompactLevel.
  unfoldable pub pick_level_loop : ℕ → ℕ → Version → Bytes → Bytes → ℕ → Option ℕ
  pick_level_loop zero target v smallest largest level = some level
  pick_level_loop (suc left) target v smallest largest level =
      let start = internal_key smallest max_sequence_number value_type_for_seek in
      let limit = internal_key largest 0 ValueType.type_deletion in
      let next = pick_level_loop left target v smallest largest (level + 1) in
      if overlap_in_level v (level + 1) (some smallest) (some largest)
      then some level
      else elim (overlaps_too_much target v (level + 2) start limit) [
        | none ↦ none
        | some true ↦ some level
        | some false ↦ next
      ]

  unfoldable pub pick_level_for_mem_table_output : ℕ → Version → Bytes → Bytes → Option ℕ
  pick_level_for_mem_table_output target v smallest largest =
      if overlap_in_level v 0 (some smallest) (some largest)
      then some 0
      else pick_level_loop max_mem_compact_level target v smallest largest 0
