-- ===== src/Version/Inputs.antt =====
-- Version::GetOverlappingInputs of db/version_set.cc: the files of a level that meet a range of user
-- keys. At level 0 a file that sticks out of the range widens it, and the search begins again.
pub mod Bounds
pub mod Widening
pub mod OnePass
pub mod Closed
use leveldb_chinese_annotate.Prelude.{
  ℕ, zero, suc, ◌+◌, ◌*◌, Bool, true, false, ◌&&◌, List, [], ◌∷◌, ◌++◌, Option, none, some, ◌==◌,
  if◌then◌else◌, length,
}
use leveldb_chinese_annotate.Coding.{Bytes}
use leveldb_chinese_annotate.Comparator.{Comparator}
use leveldb_chinese_annotate.DbFormat.{extract_user_key, is_lt}
use leveldb_chinese_annotate.VersionEdit.{FileMetaData}
use leveldb_chinese_annotate.Version.{is_gt}

-- How a pass over the files ends: with the inputs, or with a wider range, from which it restarts.
pub data Pass : Type 0 where
  finished : List FileMetaData → Pass
  widened : Option Bytes → Option Bytes → Pass

abbrev pub user_bound : Option Bytes → Option Bytes
user_bound none = none
user_bound (some key) = some (extract_user_key key)

module _ (c : Comparator) where
  -- The file is completely before the range.
  unfoldable pub is_before : Option Bytes → FileMetaData → Bool
  is_before none f = false
  is_before (some user_begin) f = is_lt (c.cmp (extract_user_key f.largest) user_begin)

  -- The file is completely after the range.
  unfoldable pub is_after : Option Bytes → FileMetaData → Bool
  is_after none f = false
  is_after (some user_end) f = is_gt (c.cmp (extract_user_key f.smallest) user_end)

  unfoldable pub starts_before : Option Bytes → FileMetaData → Bool
  starts_before none f = false
  starts_before (some user_begin) f = is_lt (c.cmp (extract_user_key f.smallest) user_begin)

  unfoldable pub ends_after : Option Bytes → FileMetaData → Bool
  ends_after none f = false
  ends_after (some user_end) f = is_gt (c.cmp (extract_user_key f.largest) user_end)

  -- The loop over the files that are left; the flag is `level == 0`.
  unfoldable pub inputs_pass :
      Bool → Option Bytes → Option Bytes → List FileMetaData → List FileMetaData → Pass
  inputs_pass level0 begin end inputs [] = Pass.finished inputs
  inputs_pass level0 begin end inputs (f ∷ files) =
      let skipped = inputs_pass level0 begin end inputs files in
      let taken = inputs_pass level0 begin end (inputs ++ (f ∷ [])) files in
      if is_before begin f
      then skipped
      else if is_after end f
      then skipped
      else if level0 && starts_before begin f
      then Pass.widened (some (extract_user_key f.smallest)) end
      else if level0 && ends_after end f
      then Pass.widened begin (some (extract_user_key f.largest))
      else taken

  unfoldable pub inputs_loop :
      ℕ → Bool → Option Bytes → Option Bytes → List FileMetaData → Option (List FileMetaData)
  inputs_loop zero level0 begin end files = none
  inputs_loop (suc fuel) level0 begin end files = elim (inputs_pass level0 begin end [] files) [
    | Pass.finished inputs ↦ some inputs
    | Pass.widened b e ↦ inputs_loop fuel level0 b e files
  ]

  -- Each widening takes a file's start or limit into the range: twice the number of files bounds
  -- the restarts. The files are those of the level, the bounds internal keys.
  unfoldable pub get_overlapping_inputs :
      ℕ → List FileMetaData → Option Bytes → Option Bytes → Option (List FileMetaData)
  get_overlapping_inputs level files begin end =
      inputs_loop (suc (2 * length files)) (level == 0) (user_bound begin) (user_bound end) files
