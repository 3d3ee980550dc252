-- ===== src/VersionEdit/Encode.antt =====
-- VersionEdit::EncodeTo in db/version_edit.cc.
use leveldb_chinese_annotate.Prelude.{ℕ, List, [], ◌∷◌, Option, none, some}
use leveldb_chinese_annotate.Coding.{Bytes, put_varint32, put_varint64, put_length_prefixed_slice}
use leveldb_chinese_annotate.VersionEdit.{FileMetaData, VersionEdit}

-- The numbers of `enum Tag`.
pub data Tag : Type 0 where
  k_comparator k_log_number k_next_file_number k_last_sequence k_compact_pointer : Tag
  k_deleted_file k_new_file k_prev_log_number : Tag

abbrev pub tag_number : Tag → ℕ
tag_number Tag.k_comparator = 1
tag_number Tag.k_log_number = 2
tag_number Tag.k_next_file_number = 3
tag_number Tag.k_last_sequence = 4
tag_number Tag.k_compact_pointer = 5
tag_number Tag.k_deleted_file = 6
tag_number Tag.k_new_file = 7
tag_number Tag.k_prev_log_number = 9

unfoldable pub encode_comparator : Bytes → Option Bytes → Bytes
encode_comparator dst none = dst
encode_comparator dst (some name) =
    put_length_prefixed_slice (put_varint32 dst (tag_number Tag.k_comparator)) name

-- The four `if (has_…)` blocks for numbers.
unfoldable pub encode_number : Tag → Bytes → Option ℕ → Bytes
encode_number tag dst none = dst
encode_number tag dst (some n) = put_varint64 (put_varint32 dst (tag_number tag)) n

unfoldable pub encode_compact_pointers : Bytes → List (ℕ × Bytes) → Bytes
encode_compact_pointers dst [] = dst
encode_compact_pointers dst ((level, key) ∷ rest) =
    encode_compact_pointers
      (put_length_prefixed_slice
        (put_varint32 (put_varint32 dst (tag_number Tag.k_compact_pointer)) level) key)
      rest

unfoldable pub encode_deleted_files : Bytes → List (ℕ × ℕ) → Bytes
encode_deleted_files dst [] = dst
encode_deleted_files dst ((level, number) ∷ rest) =
    encode_deleted_files
      (put_varint64 (put_varint32 (put_varint32 dst (tag_number Tag.k_deleted_file)) level) number)
      rest

unfoldable pub encode_new_files : Bytes → List (ℕ × FileMetaData) → Bytes
encode_new_files dst [] = dst
encode_new_files dst ((level, f) ∷ rest) =
    encode_new_files
      (put_length_prefixed_slice
        (put_length_prefixed_slice
          (put_varint64
            (put_varint64 (put_varint32 (put_varint32 dst (tag_number Tag.k_new_file)) level)
              f.number)
            f.file_size)
          f.smallest)
        f.largest)
      rest

unfoldable pub encode_to : VersionEdit → Bytes → Bytes
unfolding encode_comparator encode_number encode_compact_pointers encode_deleted_files
    encode_new_files
encode_to e dst =
    let d1 = encode_comparator dst e.comparator in
    let d2 = encode_number Tag.k_log_number d1 e.log_number in
    let d3 = encode_number Tag.k_prev_log_number d2 e.prev_log_number in
    let d4 = encode_number Tag.k_next_file_number d3 e.next_file_number in
    let d5 = encode_number Tag.k_last_sequence d4 e.last_sequence in
    encode_new_files
      (encode_deleted_files (encode_compact_pointers d5 e.compact_pointers) e.deleted_files)
      e.new_files
