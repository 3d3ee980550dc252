-- ===== src/VersionEdit/Tests.antt =====
-- A concrete edit of db/version_edit.cc, and the theorems at concrete inputs.
use leveldb_chinese_annotate.Prelude.{◌≡◌, refl, arith, [], ◌∷◌, none, some}
use leveldb_chinese_annotate.Coding.{Bytes}
use leveldb_chinese_annotate.Status.{ok}
use leveldb_chinese_annotate.VersionEdit.{VersionEdit, file_meta_data}
use leveldb_chinese_annotate.VersionEdit.Encode.{encode_to}
use leveldb_chinese_annotate.VersionEdit.Decode.{decode_edit}
use leveldb_chinese_annotate.VersionEdit.RoundTrip.{IsValid, decode_edit-encode_to}

abbrev small_key : Bytes
small_key = 97 ∷ 1 ∷ 3 ∷ 0 ∷ 0 ∷ 0 ∷ 0 ∷ 0 ∷ 0 ∷ []

abbrev large_key : Bytes
large_key = 99 ∷ 1 ∷ 3 ∷ 0 ∷ 0 ∷ 0 ∷ 0 ∷ 0 ∷ 0 ∷ []

abbrev sample : VersionEdit
sample = record {
  comparator = some (108 ∷ 118 ∷ []);
  log_number = some 12;
  prev_log_number = none;
  next_file_number = some 300;
  last_sequence = some 70_000;
  compact_pointers = (1, large_key) ∷ [];
  deleted_files = (1, 4) ∷ (1, 9) ∷ (2, 3) ∷ [];
  new_files = (2, file_meta_data 11 4096 small_key large_key) ∷ [];
}

sample-IsValid : IsValid sample
sample-IsValid = record {
  comparator = omega arith;
  log_number = omega arith;
  prev_log_number = tt;
  next_file_number = omega arith;
  last_sequence = omega arith;
  compact_pointers = omega arith;
  deleted_files = omega arith;
  new_files = omega arith;
  ascending = ((refl, (refl, tt)), ((refl, tt), (tt, tt)));
  fresh = omega arith;
}

decode_edit-encode_to_example : decode_edit (encode_to sample []) ≡ some (ok, sample)
decode_edit-encode_to_example = decode_edit-encode_to sample sample-IsValid
