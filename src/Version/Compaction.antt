-- ===== src/Version/Compaction.antt =====
-- Compaction of db/version_set.{h,cc}, and how VersionSet picks its inputs: PickCompaction,
-- CompactRange, SetupOtherInputs.
pub mod Ranges
pub mod Members
pub mod Parents
use leveldb_chinese_annotate.Prelude.{
  ℕ, zero, suc, ◌+◌, ◌-◌, ◌*◌, ◌%◌, ◌^◌, Bool, true, false, not, ◌&&◌, ◌||◌, List, [], ◌∷◌, ◌++◌,
  Option, none, some, ltb, leb, ◌==◌, if◌then◌else◌, length, drop, get_or,
}
use leveldb_chinese_annotate.Coding.{Bytes}
use leveldb_chinese_annotate.Comparator.{Comparator}
use leveldb_chinese_annotate.DbFormat.{extract_user_key, internal_compare, is_lt}
use leveldb_chinese_annotate.VersionEdit.{
  FileMetaData, VersionEdit, clear, num_levels, remove_file, set_compact_pointer,
}
use leveldb_chinese_annotate.Version.{is_gt}
use leveldb_chinese_annotate.Version.Inputs.{get_overlapping_inputs}
use leveldb_chinese_annotate.Version.Boundary.{add_boundary_inputs}
use leveldb_chinese_annotate.Version.Levels.{
  Version, lt64, total_file_size, max_grand_parent_overlap_bytes,
}

-- Lack of fuel goes through.
infixl 5 ◌>>=◌
abbrev pub ◌>>=◌ : {A B : Type 0} → Option A → (A → Option B) → Option B
◌>>=◌ none k = none
◌>>=◌ (some a) k = k a

pub record Compaction : Type 0 where
  pub level : ℕ
  pub max_output_file_size : ℕ
  pub input_version : Version
  pub edit : VersionEdit
  pub inputs0 : List FileMetaData
  pub inputs1 : List FileMetaData
  pub grandparents : List FileMetaData
  pub grandparent_index : ℕ
  pub seen_key : Bool
  pub overlapped_bytes : ℕ
  pub level_ptrs : ℕ → ℕ

-- The constructor, with the version that PickCompaction and CompactRange set next, and their inputs.
unfoldable pub new_compaction : ℕ → ℕ → Version → List FileMetaData → Compaction
new_compaction target level v inputs = record {
  level = level;
  max_output_file_size = target;
  input_version = v;
  edit = clear;
  inputs0 = inputs;
  inputs1 = [];
  grandparents = [];
  grandparent_index = 0;
  seen_key = false;
  overlapped_bytes = 0;
  level_ptrs = λ l. 0;
}

unfoldable pub expanded_compaction_byte_size_limit : ℕ → ℕ
expanded_compaction_byte_size_limit target = 25 * target % 2 ^ 64

abbrev pub update {ℓ} : {A : Type ℓ} → (ℕ → A) → ℕ → A → ℕ → A
update m i a j = if j == i then a else m j

module _ (c : Comparator) where
  -- The loop of GetRange behind the first file.
  unfoldable pub range_from : Bytes × Bytes → List FileMetaData → Bytes × Bytes
  range_from r [] = r
  range_from (smallest, largest) (f ∷ files) =
      range_from
        (
          (if is_lt (internal_compare c f.smallest smallest) then f.smallest else smallest),
          (if is_gt (internal_compare c f.largest largest) then f.largest else largest),
        )
        files

  -- The smallest and the largest key of the files; for no files, both are cleared.
  unfoldable pub get_range : List FileMetaData → Bytes × Bytes
  get_range [] = ([], [])
  get_range (f ∷ files) = range_from (f.smallest, f.largest) files

  unfoldable pub get_range2 : List FileMetaData → List FileMetaData → Bytes × Bytes
  get_range2 inputs1 inputs2 = get_range (inputs1 ++ inputs2)

  -- The files of a level that meet a range of keys, with their boundary files: the two calls that
  -- SetupOtherInputs makes, one after the other, three times.
  unfoldable pub inputs_at : Version → ℕ → Bytes × Bytes → Option (List FileMetaData)
  inputs_at v level (start, limit) = do
    inputs ← get_overlapping_inputs c level (v.files level) (some start) (some limit)
    add_boundary_inputs c (v.files level) inputs

  -- What SetupOtherInputs tries where there are files of level + 1: more inputs of the level, if that
  -- brings in no more files of level + 1.
  unfoldable pub expand_inputs :
      ℕ
      → Version
      → ℕ
      → List FileMetaData
      → List FileMetaData
      → Option (List FileMetaData × List FileMetaData)
  expand_inputs target v level inputs0 inputs1 = do
    expanded0 ← inputs_at v level (get_range2 inputs0 inputs1)
    expanded1 ← inputs_at v (level + 1) (get_range expanded0)
    some (
        if ltb (length inputs0) (length expanded0)
          && lt64 ((total_file_size inputs1 + total_file_size expanded0) % 2 ^ 64)
              (expanded_compaction_byte_size_limit target)
          && (length expanded1 == length inputs1)
        then (expanded0, expanded1)
        else (inputs0, inputs1))

  -- The files of level + 2 that the compaction overlaps.
  unfoldable pub grandparents_of : Version → ℕ → Bytes × Bytes → Option (List FileMetaData)
  grandparents_of v level (start, limit) =
      if ltb (level + 2) num_levels
      then get_overlapping_inputs c (level + 2) (v.files (level + 2)) (some start) (some limit)
      else some []

  -- The compaction with its inputs, and `compact_pointer_`.
  unfoldable pub setup_other_inputs :
      ℕ → Version → (ℕ → Bytes) → Compaction → Option (Compaction × (ℕ → Bytes))
  setup_other_inputs target v compact_pointer k = do
    inputs0 ← add_boundary_inputs c (v.files k.level) k.inputs0
    inputs1 ← inputs_at v (k.level + 1) (get_range inputs0)
    chosen ←
        (if length inputs1 == 0
          then some (inputs0, inputs1)
          else expand_inputs target v k.level inputs0 inputs1)
    grandparents ← grandparents_of v k.level (get_range2 chosen.0 chosen.1)
    some (
      record k {
        inputs0 = chosen.0;
        inputs1 = chosen.1;
        grandparents = grandparents;
        edit = set_compact_pointer k.edit k.level (get_range chosen.0).1;
      },
      update compact_pointer k.level (get_range chosen.0).1,
    )

  -- The first file behind the compaction pointer.
  unfoldable pub file_behind : Bytes → List FileMetaData → Option FileMetaData
  file_behind pointer [] = none
  file_behind pointer (f ∷ files) =
      let rest = file_behind pointer files in
      if length pointer == 0 || is_gt (internal_compare c f.largest pointer) then some f else rest

  -- The input of a size compaction; a level that is too large has a file.
  unfoldable pub size_input : Bytes → List FileMetaData → List FileMetaData
  size_input pointer files = elim (file_behind pointer files) [
    | some f ↦ f ∷ []
    | none ↦ elim files [ [] ↦ [] | f ∷ rest ↦ f ∷ [] ]
  ]

  -- Files of level 0 bring in those that overlap them.
  unfoldable pub start_inputs : Version → ℕ → List FileMetaData → Option (List FileMetaData)
  start_inputs v level inputs =
      if level == 0
      then get_overlapping_inputs c 0 (v.files 0) (some (get_range inputs).0)
          (some (get_range inputs).1)
      else some inputs

  -- What PickCompaction does with the level and the file that it has picked.
  unfoldable pub compact_from :
      ℕ → Version → (ℕ → Bytes) → ℕ → List FileMetaData → Option (Compaction × (ℕ → Bytes))
  compact_from target v compact_pointer level picked = do
    inputs ← start_inputs v level picked
    setup_other_inputs target v compact_pointer (new_compaction target level v inputs)

  abbrev compacting : Option (Compaction × (ℕ → Bytes)) → Option (Option Compaction × (ℕ → Bytes))
  compacting none = none
  compacting (some (k, pointers)) = some (some k, pointers)

  -- The inner `none` is the null pointer. Where there is no compaction the pointers stay.
  unfoldable pub pick_compaction :
      ℕ → Version → (ℕ → Bytes) → Option (Option Compaction × (ℕ → Bytes))
  pick_compaction target v compact_pointer =
      let picked = size_input (compact_pointer v.compaction_level) (v.files v.compaction_level) in
      if v.is_full
      then compacting (compact_from target v compact_pointer v.compaction_level picked)
      else elim v.file_to_compact [
        | none ↦ some (none, compact_pointer)
        | some (level, f) ↦ compacting (compact_from target v compact_pointer level (f ∷ []))
      ]

  -- The loop of CompactRange that cuts the inputs where they reach the limit.
  unfoldable pub cut_inputs : ℕ → ℕ → List FileMetaData → List FileMetaData
  cut_inputs limit total [] = []
  cut_inputs limit total (f ∷ files) =
      let sum = (total + f.file_size) % 2 ^ 64 in
      let rest = cut_inputs limit sum files in if leb limit sum then f ∷ [] else f ∷ rest

  unfoldable pub compact_range :
      ℕ
      → Version
      → (ℕ → Bytes)
      → ℕ
      → Option Bytes
      → Option Bytes
      → Option (Option Compaction × (ℕ → Bytes))
  compact_range target v compact_pointer level begin end = do
    inputs ← get_overlapping_inputs c level (v.files level) begin end
    (if length inputs == 0
        then some (none, compact_pointer)
        else compacting (
            setup_other_inputs target v compact_pointer (
              new_compaction target level v
                (if ltb 0 level then cut_inputs target 0 inputs else inputs))))
