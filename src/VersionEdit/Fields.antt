-- ===== src/VersionEdit/Fields.antt =====
-- The entries of an encoded edit one by one: their bytes, and one round of the decoder on each.
use leveldb_chinese_annotate.Prelude.{ℕ, ◌<◌, ◌≡◌, arith, List, [], ◌∷◌, ◌++◌, some, length}
use leveldb_chinese_annotate.Coding.{Bytes, IsU64, encode_varint32, encode_varint64}
use leveldb_chinese_annotate.Coding.Varint.{get_varint32-encode, get_varint64-encode}
use leveldb_chinese_annotate.Coding.Slices.{IsShort, prefixed, get_length_prefixed_slice-prefixed}
use leveldb_chinese_annotate.VersionEdit.{num_levels, file_meta_data, VersionEdit, set_insert}
use leveldb_chinese_annotate.VersionEdit.Encode.{Tag, tag_number}
use leveldb_chinese_annotate.VersionEdit.Decode.{
  Parsed, get_internal_key, get_level, decode_comparator, decode_compact_pointer,
  decode_deleted_file, read_new_file, decode_new_file, decode_field,
}

pub data Field : Type 0 where
  comparator_field : Bytes → Field
  log_number_field prev_log_number_field next_file_field last_sequence_field : ℕ → Field
  compact_pointer_field : ℕ → Bytes → Field
  deleted_file_field : ℕ → ℕ → Field
  new_file_field : ℕ → ℕ → ℕ → Bytes → Bytes → Field

-- What the encoder asks of the parts: integers in their ranges, levels below kNumLevels, keys that
-- are not empty, strings that fit their length.
abbrev pub IsKey : Bytes → Type 0
IsKey key = (0 < length key) × IsShort key

abbrev pub IsValidField : Field → Type 0
IsValidField (Field.comparator_field name) = IsShort name
IsValidField (Field.log_number_field n) = IsU64 n
IsValidField (Field.prev_log_number_field n) = IsU64 n
IsValidField (Field.next_file_field n) = IsU64 n
IsValidField (Field.last_sequence_field n) = IsU64 n
IsValidField (Field.compact_pointer_field level key) = (level < num_levels) × IsKey key
IsValidField (Field.deleted_file_field level n) = (level < num_levels) × IsU64 n
IsValidField (Field.new_file_field level n size smallest largest) =
    (level < num_levels) × IsU64 n × IsU64 size × IsKey smallest × IsKey largest

abbrev pub field_tag : Field → Tag
field_tag (Field.comparator_field name) = Tag.k_comparator
field_tag (Field.log_number_field n) = Tag.k_log_number
field_tag (Field.prev_log_number_field n) = Tag.k_prev_log_number
field_tag (Field.next_file_field n) = Tag.k_next_file_number
field_tag (Field.last_sequence_field n) = Tag.k_last_sequence
field_tag (Field.compact_pointer_field level key) = Tag.k_compact_pointer
field_tag (Field.deleted_file_field level n) = Tag.k_deleted_file
field_tag (Field.new_file_field level n size smallest largest) = Tag.k_new_file

-- What stands behind the tag, in front of `rest`.
abbrev pub field_body : Field → Bytes → Bytes
field_body (Field.comparator_field name) rest = prefixed name ++ rest
field_body (Field.log_number_field n) rest = encode_varint64 n ++ rest
field_body (Field.prev_log_number_field n) rest = encode_varint64 n ++ rest
field_body (Field.next_file_field n) rest = encode_varint64 n ++ rest
field_body (Field.last_sequence_field n) rest = encode_varint64 n ++ rest
field_body (Field.compact_pointer_field level key) rest =
    encode_varint32 level ++ (prefixed key ++ rest)
field_body (Field.deleted_file_field level n) rest =
    encode_varint32 level ++ (encode_varint64 n ++ rest)
field_body (Field.new_file_field level n size smallest largest) rest =
    encode_varint32 level
    ++ (encode_varint64 n
        ++ (encode_varint64 size ++ (prefixed smallest ++ (prefixed largest ++ rest))))

-- The bytes of fields, in order, in front of `rest`.
abbrev pub onto : List Field → Bytes → Bytes
onto [] rest = rest
onto (f ∷ fs) rest = encode_varint32 (tag_number (field_tag f)) ++ field_body f (onto fs rest)

-- What the decoder does with a field.
abbrev pub apply_field : VersionEdit → Field → VersionEdit
apply_field e (Field.comparator_field name) = record e { comparator = some name }
apply_field e (Field.log_number_field n) = record e { log_number = some n }
apply_field e (Field.prev_log_number_field n) = record e { prev_log_number = some n }
apply_field e (Field.next_file_field n) = record e { next_file_number = some n }
apply_field e (Field.last_sequence_field n) = record e { last_sequence = some n }
apply_field e (Field.compact_pointer_field level key) = record e {
  compact_pointers = e.compact_pointers ++ ((level, key) ∷ []);
}
apply_field e (Field.deleted_file_field level n) = record e {
  deleted_files = set_insert (level, n) e.deleted_files;
}
apply_field e (Field.new_file_field level n size smallest largest) = record e {
  new_files = e.new_files ++ ((level, file_meta_data n size smallest largest) ∷ []);
}

pub get_level-encode :
    (level : ℕ) (rest : Bytes)
    → level < num_levels
    → get_level (encode_varint32 level ++ rest) ≡ some (level, rest)
unfolding get_level
get_level-encode level rest h = ground (arith, get_varint32-encode level rest (omega arith))

pub get_internal_key-prefixed :
    (key rest : Bytes) → IsKey key → get_internal_key (prefixed key ++ rest) ≡ some (key, rest)
unfolding get_internal_key
get_internal_key-prefixed key rest h =
    ground (arith, get_length_prefixed_slice-prefixed key rest h.1)

read_new_file-encode :
    (level n size : ℕ) (smallest largest rest : Bytes)
    → IsValidField (Field.new_file_field level n size smallest largest)
    → read_new_file (field_body (Field.new_file_field level n size smallest largest) rest)
      ≡ some (level, file_meta_data n size smallest largest, rest)
unfolding read_new_file
read_new_file-encode level n size smallest largest rest h =
    let i5 = prefixed largest ++ rest in
    let i4 = prefixed smallest ++ i5 in
    let i3 = encode_varint64 size ++ i4 in
    let i2 = encode_varint64 n ++ i3 in
    ground (
      arith,
      get_level-encode level i2 h.0,
      get_varint64-encode n i3 h.1,
      get_varint64-encode size i4 h.2,
      get_internal_key-prefixed smallest i5 h.3,
      get_internal_key-prefixed largest rest h.4,
    )

-- The decoder reads one field and goes on behind it.
pub decode_field-body :
    (f : Field) (e : VersionEdit) (rest : Bytes)
    → IsValidField f
    → decode_field (tag_number (field_tag f)) e (field_body f rest)
      ≡ Parsed.more (apply_field e f) rest
unfolding decode_field decode_comparator decode_compact_pointer decode_deleted_file decode_new_file
decode_field-body (Field.comparator_field name) e rest h =
    ground (arith, get_length_prefixed_slice-prefixed name rest h)
decode_field-body (Field.log_number_field n) e rest h = ground (arith, get_varint64-encode n rest h)
decode_field-body (Field.prev_log_number_field n) e rest h =
    ground (arith, get_varint64-encode n rest h)
decode_field-body (Field.next_file_field n) e rest h = ground (arith, get_varint64-encode n rest h)
decode_field-body (Field.last_sequence_field n) e rest h =
    ground (arith, get_varint64-encode n rest h)
decode_field-body (Field.compact_pointer_field level key) e rest h = ground (
  arith,
  get_level-encode level (prefixed key ++ rest) h.0,
  get_internal_key-prefixed key rest h.1,
)
decode_field-body (Field.deleted_file_field level n) e rest h =
    ground (
      arith,
      get_level-encode level (encode_varint64 n ++ rest) h.0,
      get_varint64-encode n rest h.1,
    )
decode_field-body (Field.new_file_field level n size smallest largest) e rest h =
    ground (arith, read_new_file-encode level n size smallest largest rest h)
