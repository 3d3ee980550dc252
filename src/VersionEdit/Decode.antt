-- ===== src/VersionEdit/Decode.antt =====
-- VersionEdit::DecodeFrom in db/version_edit.cc, with GetInternalKey and GetLevel.
use Prim.Native.String.{String}
use leveldb_chinese_annotate.Prelude.{
  ℕ, zero, suc, [], ◌∷◌, ◌++◌, Option, none, some, ltb, ◌==◌, if◌then◌else◌, length,
}
use leveldb_chinese_annotate.Coding.{Bytes, get_varint32, get_varint64, get_length_prefixed_slice}
use leveldb_chinese_annotate.Status.{Status, ok, corruption}
use leveldb_chinese_annotate.DbFormat.{decode_from}
use leveldb_chinese_annotate.VersionEdit.{
  num_levels, FileMetaData, file_meta_data, VersionEdit, clear, set_insert,
}

unfoldable pub get_internal_key : Bytes → Option (Bytes × Bytes)
unfolding decode_from
get_internal_key input = elim (get_length_prefixed_slice input) [
  | none ↦ none
  | some (str, rest) ↦
      let (key, valid) = decode_from str in if valid then some (key, rest) else none
]

unfoldable pub get_level : Bytes → Option (ℕ × Bytes)
get_level input = elim (get_varint32 input) [
  | none ↦ none
  | some (v, rest) ↦ if ltb v num_levels then some (v, rest) else none
]

-- A step of the loop, or its end: the message and the edit so far.
pub data Parsed : Type 0 where
  more : VersionEdit → Bytes → Parsed
  bad : String → VersionEdit → Parsed

-- A number field: `GetVarint64(&input, &field)`.
abbrev pub number_field : String → VersionEdit → (ℕ → VersionEdit) → Bytes → Parsed
number_field msg e assign input = elim (get_varint64 input) [
  | none ↦ Parsed.bad msg e
  | some (n, rest) ↦ Parsed.more (assign n) rest
]

unfoldable pub decode_comparator : VersionEdit → Bytes → Parsed
decode_comparator e input = elim (get_length_prefixed_slice input) [
  | none ↦ Parsed.bad "comparator name" e
  | some (str, rest) ↦ Parsed.more (record e { comparator = some str }) rest
]

unfoldable pub decode_compact_pointer : VersionEdit → Bytes → Parsed
decode_compact_pointer e input = elim (get_level input) [
  | none ↦ Parsed.bad "compaction pointer" e
  | some (level, i1) ↦ elim (get_internal_key i1) [
    | none ↦ Parsed.bad "compaction pointer" e
    | some (key, rest) ↦
        Parsed.more (record e { compact_pointers = e.compact_pointers ++ ((level, key) ∷ []) }) rest
  ]
]

unfoldable pub decode_deleted_file : VersionEdit → Bytes → Parsed
decode_deleted_file e input = elim (get_level input) [
  | none ↦ Parsed.bad "deleted file" e
  | some (level, i1) ↦ elim (get_varint64 i1) [
    | none ↦ Parsed.bad "deleted file" e
    | some (number, rest) ↦
        Parsed.more (record e { deleted_files = set_insert (level, number) e.deleted_files }) rest
  ]
]

-- The `&&` chain: `none` where one of the five reads fails.
unfoldable pub read_new_file : Bytes → Option (ℕ × FileMetaData × Bytes)
read_new_file input = elim (get_level input) [
  | none ↦ none
  | some (level, i1) ↦ elim (get_varint64 i1) [
    | none ↦ none
    | some (number, i2) ↦ elim (get_varint64 i2) [
      | none ↦ none
      | some (file_size, i3) ↦ elim (get_internal_key i3) [
        | none ↦ none
        | some (smallest, i4) ↦ elim (get_internal_key i4) [
          | none ↦ none
          | some (largest, rest) ↦
              some (level, file_meta_data number file_size smallest largest, rest)
        ]
      ]
    ]
  ]
]

unfoldable pub decode_new_file : VersionEdit → Bytes → Parsed
decode_new_file e input = elim (read_new_file input) [
  | none ↦ Parsed.bad "new-file entry" e
  | some (level, f, rest) ↦
      Parsed.more (record e { new_files = e.new_files ++ ((level, f) ∷ []) }) rest
]

-- The `switch` on the tag.
unfoldable pub decode_field : ℕ → VersionEdit → Bytes → Parsed
decode_field tag e input =
    if tag == 1
    then decode_comparator e input
    else if tag == 2
    then number_field "log number" e (λ n. record e { log_number = some n }) input
    else if tag == 9
    then number_field "previous log number" e (λ n. record e { prev_log_number = some n }) input
    else if tag == 3
    then number_field "next file number" e (λ n. record e { next_file_number = some n }) input
    else if tag == 4
    then number_field "last sequence number" e (λ n. record e { last_sequence = some n }) input
    else if tag == 5
    then decode_compact_pointer e input
    else if tag == 6
    then decode_deleted_file e input
    else if tag == 7
    then decode_new_file e input
    else Parsed.bad "unknown tag" e

-- The `while` loop with what follows it; `none` is lack of fuel. Each round takes a byte at least.
unfoldable pub decode_loop : ℕ → VersionEdit → Bytes → Option (Status × VersionEdit)
decode_loop zero e input = none
decode_loop (suc fuel) e input = elim (get_varint32 input) [
  | none ↦
      if length input == 0 then some (ok, e) else some (corruption "VersionEdit" "invalid tag", e)
  | some (tag, i1) ↦ elim (decode_field tag e i1) [
    | Parsed.bad msg e' ↦ some (corruption "VersionEdit" msg, e')
    | Parsed.more e' rest ↦ decode_loop fuel e' rest
  ]
]

-- VersionEdit::DecodeFrom: the status and the edit that it leaves.
unfoldable pub decode_edit : Bytes → Option (Status × VersionEdit)
decode_edit src = decode_loop (suc (length src)) clear src
