-- ===== src/Version/Tests.antt =====
-- Three files of a level, the second of which goes on with the last user key of the first; the
-- theorems at them.
use leveldb_chinese_annotate.Prelude.{
  zero, suc, ℕ, ◌+◌, ◌-◌, ◌≤◌, ◌≡◌, ◌≢◌, refl, arith, true, false, not, Ordering, List, [], ◌∷◌,
  none, some, All, ◌==◌,
}
use leveldb_chinese_annotate.Coding.{Bytes, decode_fixed64}
use leveldb_chinese_annotate.Slice.{slice_compare}
use leveldb_chinese_annotate.Comparator.{Comparator}
use leveldb_chinese_annotate.Comparator.Bytewise.Range.{bytewise_comparator}
use leveldb_chinese_annotate.DbFormat.{extract_user_key, internal_compare, tag}
use leveldb_chinese_annotate.VersionEdit.{
  FileMetaData, file_meta_data, VersionEdit, clear, num_levels, add_file, remove_file,
}
use leveldb_chinese_annotate.Version.{find_file, some_file_overlaps_range}
use leveldb_chinese_annotate.Version.Find.{scan, find_file-scan}
use leveldb_chinese_annotate.Version.Overlap.{
  IsDisjoint, IsDisjoint-IsAscending, some_file_overlaps_range-all,
}
use leveldb_chinese_annotate.Version.Inputs.{user_bound, get_overlapping_inputs}
use leveldb_chinese_annotate.Version.Inputs.Closed.{IsClosed, get_overlapping_inputs-IsClosed}
use leveldb_chinese_annotate.Version.Boundary.{add_boundary_inputs}
use leveldb_chinese_annotate.Version.Boundary.Next.{IsOrdered, IsAmong}
use leveldb_chinese_annotate.Version.Boundary.Whole.{IsWhole, add_boundary_inputs-IsWhole}
use leveldb_chinese_annotate.Version.Levels.{
  Version, max_mem_compact_level, pick_level_for_mem_table_output,
}
use leveldb_chinese_annotate.Version.Levels.Placement.{pick_level_for_mem_table_output-clear}
use leveldb_chinese_annotate.Version.Compaction.{Compaction, setup_other_inputs}
use leveldb_chinese_annotate.Version.Compaction.Parents.{setup_other_inputs-HasAll}
use leveldb_chinese_annotate.Version.Inputs.Bounds.{meets}
use leveldb_chinese_annotate.Version.Running.{is_base_level_for_key}
use leveldb_chinese_annotate.Version.Running.Base.{
  some_level_meets, IsPassed, is_base_level_for_key-all,
}
use leveldb_chinese_annotate.Version.Builder.{new_builder, save_to}
use leveldb_chinese_annotate.Version.Builder.Sets.{has_file, all_edited}
use leveldb_chinese_annotate.Version.Builder.Live.{apply_all, save_to-edits}

-- The internal key of a user key of one byte, with a sequence number below 256 and a value.
abbrev key_of : ℕ → ℕ → Bytes
key_of u s = u ∷ 1 ∷ s ∷ 0 ∷ 0 ∷ 0 ∷ 0 ∷ 0 ∷ 0 ∷ []

abbrev bytewise : Comparator
bytewise = bytewise_comparator

abbrev first_file : FileMetaData
first_file = file_meta_data 1 100 (key_of 97 9) (key_of 99 3)

abbrev second_file : FileMetaData
second_file = file_meta_data 2 100 (key_of 99 2) (key_of 101 1)

abbrev third_file : FileMetaData
third_file = file_meta_data 3 100 (key_of 103 8) (key_of 105 8)

abbrev level_files : List FileMetaData
level_files = first_file ∷ second_file ∷ third_file ∷ []

IsOrdered-files : All (IsOrdered bytewise) level_files
unfolding internal_compare bytewise_comparator slice_compare
IsOrdered-files = (λ e. cc, (λ e. cc, (λ e. cc, tt)))

IsDisjoint-files : IsDisjoint bytewise level_files
unfolding internal_compare bytewise_comparator slice_compare tag decode_fixed64
IsDisjoint-files = (
  record { ordered = IsOrdered-files.0; tagged = omega arith },
  (refl, (refl, tt)),
  (
    record { ordered = IsOrdered-files.1.0; tagged = omega arith },
    (refl, tt),
    (record { ordered = IsOrdered-files.1.1.0; tagged = omega arith }, tt, tt),
  ),
)

find_file-scan_example :
    find_file bytewise level_files (key_of 100 4) ≡ scan bytewise level_files (key_of 100 4)
find_file-scan_example =
    find_file-scan bytewise level_files (key_of 100 4)
      (IsDisjoint-IsAscending bytewise level_files IsDisjoint-files) (omega arith)

some_file_overlaps_range-all_example :
    some_file_overlaps_range bytewise true level_files (some (102 ∷ [])) (some (104 ∷ []))
    ≡ some_file_overlaps_range bytewise false level_files (some (102 ∷ [])) (some (104 ∷ []))
some_file_overlaps_range-all_example =
    some_file_overlaps_range-all bytewise level_files (some (102 ∷ [])) (some (104 ∷ []))
      IsDisjoint-files (omega arith)

get_overlapping_inputs-IsClosed_example :
    (xs : List FileMetaData) × (get_overlapping_inputs bytewise 0 level_files
        (some (key_of 100 4))
        none
      ≡ some xs)
    × IsClosed bytewise (0 == 0) (user_bound (some (key_of 100 4))) (user_bound none) level_files xs
get_overlapping_inputs-IsClosed_example =
    get_overlapping_inputs-IsClosed bytewise 0 level_files (some (key_of 100 4)) none

add_boundary_inputs-IsWhole_example :
    (ys : List FileMetaData) × (first_key largest_key : Bytes) × (add_boundary_inputs bytewise
        level_files
        (first_file ∷ [])
      ≡ some ys)
    × IsWhole bytewise level_files (first_file ∷ []) ys first_key largest_key
add_boundary_inputs-IsWhole_example =
    add_boundary_inputs-IsWhole bytewise level_files first_file [] IsOrdered-files

-- The same files stand in each level.
abbrev test_version : Version
test_version = record {
  files = λ l. level_files;
  file_to_compact = none;
  is_full = true;
  compaction_level = 2;
}

abbrev test_compaction : Compaction
test_compaction = record {
  level = 2;
  max_output_file_size = 1000;
  input_version = test_version;
  edit = clear;
  inputs0 = first_file ∷ [];
  inputs1 = [];
  grandparents = [];
  grandparent_index = 0;
  seen_key = false;
  overlapped_bytes = 0;
  level_ptrs = λ l. 0;
}

pick_level_for_mem_table_output-clear_example :
    (level : ℕ) × (pick_level_for_mem_table_output bytewise 1000 test_version (106 ∷ []) (107 ∷ [])
      ≡ some level)
    × (level ≤ max_mem_compact_level)
    × (level ≢ 0
        → (l : ℕ) (f : FileMetaData) → l ≤ level
        → IsAmong bytewise f level_files
        → meets bytewise (some (106 ∷ [])) (some (107 ∷ [])) f ≡ false)
pick_level_for_mem_table_output-clear_example =
    pick_level_for_mem_table_output-clear bytewise 1000 test_version (106 ∷ []) (107 ∷ [])
      (λ l h. IsDisjoint-files) (λ l. omega arith)

first_file_of_level :
    (g : FileMetaData) → IsAmong bytewise g (first_file ∷ []) → IsAmong bytewise g level_files
first_file_of_level g (zero, e) = (0, e)
first_file_of_level g (suc i, e) = absurd (ground arith)

setup_other_inputs-HasAll_example :
    (k' : Compaction) × (pointers : ℕ → Bytes) × (setup_other_inputs bytewise 1000 test_version
        (λ l. [])
        test_compaction
      ≡ some (k', pointers))
    × (k'.level ≡ 2)
    × ((g : FileMetaData) → IsAmong bytewise g (first_file ∷ []) → IsAmong bytewise g k'.inputs0)
    × ((f g1 g2 : FileMetaData)
        → IsAmong bytewise f level_files
        → IsAmong bytewise g1 k'.inputs0
        → IsAmong bytewise g2 k'.inputs0
        → bytewise.cmp (extract_user_key g1.smallest) (extract_user_key f.largest) ≢ Ordering.gt
        → bytewise.cmp (extract_user_key f.smallest) (extract_user_key g2.largest) ≢ Ordering.gt
        → IsAmong bytewise f k'.inputs1)
setup_other_inputs-HasAll_example =
    setup_other_inputs-HasAll bytewise 1000 test_version (λ l. []) test_compaction
      (λ l. IsOrdered-files) first_file_of_level

nothing-IsPassed : IsPassed bytewise (100 ∷ []) test_compaction
unfolding IsPassed
nothing-IsPassed l = tt

is_base_level_for_key-all_example :
    ((is_base_level_for_key bytewise test_compaction (100 ∷ [])).0
      ≡ not (some_level_meets bytewise (num_levels - (2 + 2)) (2 + 2) test_version (100 ∷ [])))
    × ((key' : Bytes)
        → bytewise.cmp (100 ∷ []) key' ≢ Ordering.gt
        → IsPassed bytewise key' (is_base_level_for_key bytewise test_compaction (100 ∷ [])).1)
is_base_level_for_key-all_example =
    is_base_level_for_key-all bytewise test_compaction (100 ∷ []) (λ l h. IsDisjoint-files)
      nothing-IsPassed

-- Two edits: the first moves the first file a level down, the second brings one with its number back.
abbrev moving : VersionEdit
moving = add_file (remove_file clear 1 1) 2 1 100 (key_of 97 9) (key_of 99 3)

abbrev back : VersionEdit
back = add_file clear 1 1 200 (key_of 97 9) (key_of 98 3)

save_to-edits_example :
    has_file 1 (
      save_to bytewise
        (apply_all bytewise (new_builder (λ l. []) (λ l. level_files)) (moving ∷ back ∷ []))
        1)
    ≡ all_edited (moving ∷ back ∷ []) (λ l m. has_file m level_files) 1 1
save_to-edits_example = save_to-edits bytewise (λ l. []) (λ l. level_files) (moving ∷ back ∷ []) 1 1
