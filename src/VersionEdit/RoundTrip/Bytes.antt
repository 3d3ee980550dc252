-- ===== src/VersionEdit/RoundTrip/Bytes.antt =====
-- EncodeTo of db/version_edit.cc as the bytes of a list of fields.
use leveldb_chinese_annotate.Prelude.{
  ℕ, ◌^◌, ◌≡◌, refl, sym, ap, ◌∙◌, List, [], ◌∷◌, ◌++◌, Option, none, some, All, append_assoc,
  append-nil,
}
use leveldb_chinese_annotate.Coding.{
  Bytes, put_varint32, put_varint64, encode_varint32, encode_varint64, put_length_prefixed_slice,
}
use leveldb_chinese_annotate.Coding.Slices.{prefixed, put_length_prefixed_slice_lem}
use leveldb_chinese_annotate.VersionEdit.{FileMetaData, VersionEdit}
use leveldb_chinese_annotate.VersionEdit.Files.{IsAscending}
use leveldb_chinese_annotate.VersionEdit.Encode.{
  Tag, tag_number, encode_comparator, encode_number, encode_compact_pointers, encode_deleted_files,
  encode_new_files, encode_to,
}
use leveldb_chinese_annotate.VersionEdit.Fields.{Field, IsValidField, field_tag, field_body, onto}

abbrev pub comparator_fields : Option Bytes → List Field
comparator_fields none = []
comparator_fields (some name) = Field.comparator_field name ∷ []

abbrev pub number_fields : (ℕ → Field) → Option ℕ → List Field
number_fields make none = []
number_fields make (some n) = make n ∷ []

abbrev pub pointer_fields : List (ℕ × Bytes) → List Field
pointer_fields [] = []
pointer_fields ((level, key) ∷ ps) = Field.compact_pointer_field level key ∷ pointer_fields ps

abbrev pub deleted_fields : List (ℕ × ℕ) → List Field
deleted_fields [] = []
deleted_fields ((level, n) ∷ ps) = Field.deleted_file_field level n ∷ deleted_fields ps

abbrev pub new_fields : List (ℕ × FileMetaData) → List Field
new_fields [] = []
new_fields ((level, f) ∷ ps) =
    Field.new_file_field level f.number f.file_size f.smallest f.largest ∷ new_fields ps

abbrev pub fields : VersionEdit → List Field
fields e =
    comparator_fields e.comparator
    ++ (number_fields Field.log_number_field e.log_number
        ++ (number_fields Field.prev_log_number_field e.prev_log_number
            ++ (number_fields Field.next_file_field e.next_file_number
                ++ (number_fields Field.last_sequence_field e.last_sequence
                    ++ (pointer_fields e.compact_pointers
                        ++ (deleted_fields e.deleted_files ++ new_fields e.new_files))))))

-- A file as AddFile makes it.
abbrev pub IsFresh : ℕ × FileMetaData → Type 0
IsFresh p = (p.1.refs ≡ 0) × (p.1.allowed_seeks ≡ 2 ^ 30)

pub onto-append :
    (fs gs : List Field) (rest : Bytes) → onto (fs ++ gs) rest ≡ onto fs (onto gs rest)
onto-append [] gs rest = refl
onto-append (f ∷ fs) gs rest =
    ap (λ t. encode_varint32 (tag_number (field_tag f)) ++ field_body f t) (onto-append fs gs rest)

comparator_onto :
    (dst : Bytes) (o : Option Bytes) (rest : Bytes)
    → All IsValidField (comparator_fields o)
    → encode_comparator dst o ++ rest ≡ dst ++ onto (comparator_fields o) rest
unfolding encode_comparator put_varint32
comparator_onto dst none rest h = refl
comparator_onto dst (some name) rest h =
    rw (put_length_prefixed_slice_lem (dst ++ encode_varint32 1) name h.0) (simp append_assoc)

log_number_onto :
    (dst : Bytes) (o : Option ℕ) (rest : Bytes)
    → encode_number Tag.k_log_number dst o ++ rest
      ≡ dst ++ onto (number_fields Field.log_number_field o) rest
unfolding encode_number put_varint32 put_varint64
log_number_onto dst none rest = refl
log_number_onto dst (some n) rest = simp append_assoc

prev_log_number_onto :
    (dst : Bytes) (o : Option ℕ) (rest : Bytes)
    → encode_number Tag.k_prev_log_number dst o ++ rest
      ≡ dst ++ onto (number_fields Field.prev_log_number_field o) rest
unfolding encode_number put_varint32 put_varint64
prev_log_number_onto dst none rest = refl
prev_log_number_onto dst (some n) rest = simp append_assoc

next_file_onto :
    (dst : Bytes) (o : Option ℕ) (rest : Bytes)
    → encode_number Tag.k_next_file_number dst o ++ rest
      ≡ dst ++ onto (number_fields Field.next_file_field o) rest
unfolding encode_number put_varint32 put_varint64
next_file_onto dst none rest = refl
next_file_onto dst (some n) rest = simp append_assoc

last_sequence_onto :
    (dst : Bytes) (o : Option ℕ) (rest : Bytes)
    → encode_number Tag.k_last_sequence dst o ++ rest
      ≡ dst ++ onto (number_fields Field.last_sequence_field o) rest
unfolding encode_number put_varint32 put_varint64
last_sequence_onto dst none rest = refl
last_sequence_onto dst (some n) rest = simp append_assoc

pointers_onto :
    (dst : Bytes) (ps : List (ℕ × Bytes)) (rest : Bytes)
    → All IsValidField (pointer_fields ps)
    → encode_compact_pointers dst ps ++ rest ≡ dst ++ onto (pointer_fields ps) rest
unfolding encode_compact_pointers put_varint32
pointers_onto dst [] rest h = refl
pointers_onto dst ((level, key) ∷ ps) rest h =
    let front = (dst ++ encode_varint32 5) ++ encode_varint32 level in
    pointers_onto (put_length_prefixed_slice front key) ps rest h.1
    ∙ rw (put_length_prefixed_slice_lem front key h.0.1.1) (simp append_assoc)

deleted_onto :
    (dst : Bytes) (ps : List (ℕ × ℕ)) (rest : Bytes)
    → encode_deleted_files dst ps ++ rest ≡ dst ++ onto (deleted_fields ps) rest
unfolding encode_deleted_files put_varint32 put_varint64
deleted_onto dst [] rest = refl
deleted_onto dst ((level, n) ∷ ps) rest =
    deleted_onto (((dst ++ encode_varint32 6) ++ encode_varint32 level) ++ encode_varint64 n) ps
      rest
    ∙ simp append_assoc

new_onto :
    (dst : Bytes) (ps : List (ℕ × FileMetaData)) (rest : Bytes)
    → All IsValidField (new_fields ps)
    → encode_new_files dst ps ++ rest ≡ dst ++ onto (new_fields ps) rest
unfolding encode_new_files put_varint32 put_varint64
new_onto dst [] rest h = refl
new_onto dst ((level, f) ∷ ps) rest h =
    let front =
      (((dst ++ encode_varint32 7) ++ encode_varint32 level) ++ encode_varint64 f.number)
      ++ encode_varint64 f.file_size in
    new_onto (put_length_prefixed_slice (put_length_prefixed_slice front f.smallest) f.largest) ps
      rest h.1
    ∙ rw
        (
          put_length_prefixed_slice_lem front f.smallest h.0.3.1,
          put_length_prefixed_slice_lem (front ++ prefixed f.smallest) f.largest h.0.4.1,
        )
        (simp append_assoc)

-- What EncodeTo can write: every part fits its encoding. The deleted files are a set, and the new
-- files are as AddFile makes them.
pub record IsValid (e : VersionEdit) : Type 0 where
  pub comparator : All IsValidField (comparator_fields e.comparator)
  pub log_number : All IsValidField (number_fields Field.log_number_field e.log_number)
  pub prev_log_number :
      All IsValidField (number_fields Field.prev_log_number_field e.prev_log_number)
  pub next_file_number : All IsValidField (number_fields Field.next_file_field e.next_file_number)
  pub last_sequence : All IsValidField (number_fields Field.last_sequence_field e.last_sequence)
  pub compact_pointers : All IsValidField (pointer_fields e.compact_pointers)
  pub deleted_files : All IsValidField (deleted_fields e.deleted_files)
  pub new_files : All IsValidField (new_fields e.new_files)
  pub ascending : IsAscending e.deleted_files
  pub fresh : All IsFresh e.new_files

pub encode_to-onto :
    (e : VersionEdit) (dst : Bytes) → IsValid e → encode_to e dst ≡ dst ++ onto (fields e) []
unfolding encode_to
encode_to-onto e dst v =
    let d1 = encode_comparator dst e.comparator in
    let d2 = encode_number Tag.k_log_number d1 e.log_number in
    let d3 = encode_number Tag.k_prev_log_number d2 e.prev_log_number in
    let d4 = encode_number Tag.k_next_file_number d3 e.next_file_number in
    let d5 = encode_number Tag.k_last_sequence d4 e.last_sequence in
    let d6 = encode_compact_pointers d5 e.compact_pointers in
    let d7 = encode_deleted_files d6 e.deleted_files in
    let r8 = onto (new_fields e.new_files) [] in
    let r7 = onto (deleted_fields e.deleted_files) r8 in
    let r6 = onto (pointer_fields e.compact_pointers) r7 in
    let r5 = onto (number_fields Field.last_sequence_field e.last_sequence) r6 in
    let r4 = onto (number_fields Field.next_file_field e.next_file_number) r5 in
    let r3 = onto (number_fields Field.prev_log_number_field e.prev_log_number) r4 in
    let r2 = onto (number_fields Field.log_number_field e.log_number) r3 in
    sym (append-nil (encode_new_files d7 e.new_files))
    ∙ new_onto d7 e.new_files [] v.new_files
    ∙ deleted_onto d6 e.deleted_files r8
    ∙ pointers_onto d5 e.compact_pointers r7 v.compact_pointers
    ∙ last_sequence_onto d4 e.last_sequence r6
    ∙ next_file_onto d3 e.next_file_number r5
    ∙ prev_log_number_onto d2 e.prev_log_number r4
    ∙ log_number_onto d1 e.log_number r3
    ∙ comparator_onto dst e.comparator r2 v.comparator
    ∙ sym (simp onto-append)
