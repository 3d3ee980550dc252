-- ===== src/VersionEdit/RoundTrip/Apply.antt =====
-- DecodeFrom of db/version_edit.cc on the bytes of a list of fields, and what the fields of an edit
-- rebuild.
use leveldb_chinese_annotate.Prelude.{
  ℕ, zero, suc, ◌^◌, ◌≤◌, ◌<◌, ◌≡◌, refl, ap, ◌∙◌, arith, List, [], ◌∷◌, ◌++◌, Option, none, some,
  All, append_assoc, append-nil, length, length-append, Ordering, All-append,
}
use leveldb_chinese_annotate.Coding.{Bytes, encode_varint32, get_varint32}
use leveldb_chinese_annotate.Coding.Varint.{get_varint32-encode}
use leveldb_chinese_annotate.Coding.Bounds.{encode_varint32_shape, get_varint32-nil}
use leveldb_chinese_annotate.Status.{ok}
use leveldb_chinese_annotate.VersionEdit.{
  FileMetaData, file_meta_data, VersionEdit, clear, pair_compare,
}
use leveldb_chinese_annotate.VersionEdit.Files.{IsAscending, IsAbove, set_insert_last}
use leveldb_chinese_annotate.VersionEdit.Encode.{Tag, tag_number, encode_to}
use leveldb_chinese_annotate.VersionEdit.Decode.{Parsed, decode_field, decode_loop, decode_edit}
use leveldb_chinese_annotate.VersionEdit.Fields.{
  Field, IsValidField, field_tag, field_body, onto, apply_field, decode_field-body,
}
use leveldb_chinese_annotate.VersionEdit.RoundTrip.Bytes.{
  comparator_fields, number_fields, pointer_fields, deleted_fields, new_fields, fields, IsFresh,
  IsValid, encode_to-onto,
}

abbrev pub apply_fields : VersionEdit → List Field → VersionEdit
apply_fields e [] = e
apply_fields e (f ∷ fs) = apply_fields (apply_field e f) fs

apply_fields-append :
    (e : VersionEdit) (fs gs : List Field)
    → apply_fields e (fs ++ gs) ≡ apply_fields (apply_fields e fs) gs
apply_fields-append e [] gs = refl
apply_fields-append e (f ∷ fs) gs = apply_fields-append (apply_field e f) fs gs

tag_number-lt : (t : Tag) → tag_number t < 10
tag_number-lt t = ground arith

loop_round :
    (fuel tag : ℕ) (e e' : VersionEdit) (input i1 rest : Bytes)
    → get_varint32 input ≡ some (tag, i1)
    → decode_field tag e i1 ≡ Parsed.more e' rest
    → decode_loop (suc fuel) e input ≡ decode_loop fuel e' rest
unfolding decode_loop
loop_round fuel tag e e' input i1 rest h k = ground arith

end_of_input : (fuel : ℕ) (e : VersionEdit) → decode_loop (suc fuel) e [] ≡ some (ok, e)
unfolding decode_loop
end_of_input fuel e = ground (arith, get_varint32-nil)

decode_loop-onto :
    (fs : List Field) (fuel : ℕ) (e : VersionEdit)
    → length fs < fuel
    → All IsValidField fs
    → decode_loop fuel e (onto fs []) ≡ some (ok, apply_fields e fs)
decode_loop-onto [] zero e hf h = absurd (omega arith)
decode_loop-onto [] (suc fuel) e hf h = end_of_input fuel e
decode_loop-onto (f ∷ fs) zero e hf h = absurd (omega arith)
decode_loop-onto (f ∷ fs) (suc fuel) e hf h =
    loop_round fuel (tag_number (field_tag f)) e (apply_field e f) _ (field_body f (onto fs []))
      (onto fs [])
      (get_varint32-encode _ (field_body f (onto fs []))
        (omega (arith, tag_number-lt (field_tag f))))
      (decode_field-body f e (onto fs []) h.0)
    ∙ decode_loop-onto fs fuel (apply_field e f) (omega arith) h.1

length-body : (f : Field) (rest : Bytes) → length rest ≤ length (field_body f rest)
length-body (Field.comparator_field name) rest = omega (arith, length-append {0})
length-body (Field.log_number_field n) rest = omega (arith, length-append {0})
length-body (Field.prev_log_number_field n) rest = omega (arith, length-append {0})
length-body (Field.next_file_field n) rest = omega (arith, length-append {0})
length-body (Field.last_sequence_field n) rest = omega (arith, length-append {0})
length-body (Field.compact_pointer_field level key) rest = omega (arith, length-append {0})
length-body (Field.deleted_file_field level n) rest = omega (arith, length-append {0})
length-body (Field.new_file_field level n size smallest largest) rest =
    omega (arith, length-append {0})

length-onto : (fs : List Field) → length fs ≤ length (onto fs [])
length-onto [] = omega arith
length-onto (f ∷ fs) = omega (
  arith,
  length-append (encode_varint32 (tag_number (field_tag f))) (field_body f (onto fs [])),
  length-body f (onto fs []),
  (encode_varint32_shape (tag_number (field_tag f)) (omega (arith, tag_number-lt (field_tag f)))).1,
  length-onto fs,
)

apply_pointers :
    (e : VersionEdit) (ps : List (ℕ × Bytes))
    → apply_fields e (pointer_fields ps) ≡ record e { compact_pointers = e.compact_pointers ++ ps }
apply_pointers e [] = rw (append-nil e.compact_pointers)
apply_pointers e ((level, key) ∷ ps) =
    apply_pointers (apply_field e (Field.compact_pointer_field level key)) ps
    ∙ rw (append_assoc e.compact_pointers ((level, key) ∷ []) ps)

-- `q` is above the elements of `ps`, for each `q` of the list.
abbrev AreAbove : List (ℕ × ℕ) → List (ℕ × ℕ) → Type 0
AreAbove qs ps = All (λ q. IsAbove q ps) qs

AreAbove-step :
    (p : ℕ × ℕ) (ps qs : List (ℕ × ℕ))
    → AreAbove qs ps
    → All (λ q. pair_compare q p ≡ Ordering.gt) qs
    → AreAbove qs (ps ++ (p ∷ []))
AreAbove-step p ps [] h k = tt
AreAbove-step p ps (q ∷ qs) h k =
    (All-append _ ps (p ∷ []) h.0 (k.0, tt), AreAbove-step p ps qs h.1 k.1)

apply_deleted :
    (e : VersionEdit) (ps : List (ℕ × ℕ))
    → IsAscending ps
    → AreAbove ps e.deleted_files
    → apply_fields e (deleted_fields ps) ≡ record e { deleted_files = e.deleted_files ++ ps }
apply_deleted e [] a h = rw (append-nil e.deleted_files)
apply_deleted e ((level, n) ∷ ps) a h =
    apply_deleted (apply_field e (Field.deleted_file_field level n)) ps a.1 (
      rw (set_insert_last (level, n) e.deleted_files h.0)
        (AreAbove-step (level, n) e.deleted_files ps h.1 a.0))
    ∙ rw (
      set_insert_last (level, n) e.deleted_files h.0,
      append_assoc e.deleted_files ((level, n) ∷ []) ps,
    )

fresh_file :
    (f : FileMetaData)
    → (f.refs ≡ 0) × (f.allowed_seeks ≡ 2 ^ 30)
    → file_meta_data f.number f.file_size f.smallest f.largest ≡ f
fresh_file f h = ground arith

apply_new :
    (e : VersionEdit) (ps : List (ℕ × FileMetaData))
    → All IsFresh ps
    → apply_fields e (new_fields ps) ≡ record e { new_files = e.new_files ++ ps }
apply_new e [] h = rw (append-nil e.new_files)
apply_new e ((level, f) ∷ ps) h =
    apply_new (apply_field e (Field.new_file_field level f.number f.file_size f.smallest f.largest))
      ps h.1
    ∙ rw (fresh_file f h.0, append_assoc e.new_files ((level, f) ∷ []) ps)

-- An edit with the five single fields only.
abbrev scalars : Option Bytes → Option ℕ → Option ℕ → Option ℕ → Option ℕ → VersionEdit
scalars c l p n q = record clear {
  comparator = c;
  log_number = l;
  prev_log_number = p;
  next_file_number = n;
  last_sequence = q;
}

apply_comparator :
    (c : Option Bytes) (fs : List Field)
    → apply_fields clear (comparator_fields c ++ fs)
      ≡ apply_fields (scalars c none none none none) fs
apply_comparator none fs = refl
apply_comparator (some name) fs = refl

apply_log_number :
    (c : Option Bytes) (l : Option ℕ) (fs : List Field)
    → apply_fields (scalars c none none none none) (number_fields Field.log_number_field l ++ fs)
      ≡ apply_fields (scalars c l none none none) fs
apply_log_number c none fs = refl
apply_log_number c (some n) fs = refl

apply_prev_log_number :
    (c : Option Bytes) (l p : Option ℕ) (fs : List Field)
    → apply_fields (scalars c l none none none) (number_fields Field.prev_log_number_field p ++ fs)
      ≡ apply_fields (scalars c l p none none) fs
apply_prev_log_number c l none fs = refl
apply_prev_log_number c l (some n) fs = refl

apply_next_file :
    (c : Option Bytes) (l p n : Option ℕ) (fs : List Field)
    → apply_fields (scalars c l p none none) (number_fields Field.next_file_field n ++ fs)
      ≡ apply_fields (scalars c l p n none) fs
apply_next_file c l p none fs = refl
apply_next_file c l p (some n) fs = refl

apply_last_sequence :
    (c : Option Bytes) (l p n q : Option ℕ) (fs : List Field)
    → apply_fields (scalars c l p n none) (number_fields Field.last_sequence_field q ++ fs)
      ≡ apply_fields (scalars c l p n q) fs
apply_last_sequence c l p n none fs = refl
apply_last_sequence c l p n (some x) fs = refl

AreAbove-nil : (qs : List (ℕ × ℕ)) → AreAbove qs []
AreAbove-nil [] = tt
AreAbove-nil (q ∷ qs) = (tt, AreAbove-nil qs)

-- The fields of a valid edit rebuild it.
apply_fields-fields : (e : VersionEdit) → IsValid e → apply_fields clear (fields e) ≡ e
apply_fields-fields e v =
    let base =
      scalars e.comparator e.log_number e.prev_log_number e.next_file_number e.last_sequence in
    let with_pointers = record base { compact_pointers = e.compact_pointers } in
    let with_deleted = record with_pointers { deleted_files = e.deleted_files } in
    apply_comparator e.comparator _
    ∙ apply_log_number e.comparator e.log_number _
    ∙ apply_prev_log_number e.comparator e.log_number e.prev_log_number _
    ∙ apply_next_file e.comparator e.log_number e.prev_log_number e.next_file_number _
    ∙ apply_last_sequence e.comparator e.log_number e.prev_log_number e.next_file_number
        e.last_sequence _
    ∙ apply_fields-append base (pointer_fields e.compact_pointers)
        (deleted_fields e.deleted_files ++ new_fields e.new_files)
    ∙ ap (λ r. apply_fields r (deleted_fields e.deleted_files ++ new_fields e.new_files))
        (apply_pointers base e.compact_pointers)
    ∙ apply_fields-append with_pointers (deleted_fields e.deleted_files) (new_fields e.new_files)
    ∙ ap (λ r. apply_fields r (new_fields e.new_files))
        (apply_deleted with_pointers e.deleted_files v.ascending (AreAbove-nil e.deleted_files))
    ∙ apply_new with_deleted e.new_files v.fresh

fields-valid : (e : VersionEdit) → IsValid e → All IsValidField (fields e)
fields-valid e v = All-append IsValidField _ _ v.comparator (
    All-append IsValidField _ _ v.log_number (
      All-append IsValidField _ _ v.prev_log_number (
        All-append IsValidField _ _ v.next_file_number (
          All-append IsValidField _ _ v.last_sequence (
            All-append IsValidField _ _ v.compact_pointers
              (All-append IsValidField _ _ v.deleted_files v.new_files))))))

-- DecodeFrom on what EncodeTo wrote into an empty string answers ok and leaves the same edit, for
-- every edit that the encoding can hold.
pub decode_edit-encode_to :
    (e : VersionEdit) → IsValid e → decode_edit (encode_to e []) ≡ some (ok, e)
unfolding decode_edit
decode_edit-encode_to e v = rw (encode_to-onto e [] v) (
    decode_loop-onto (fields e) (suc (length (onto (fields e) []))) clear
      (omega (arith, length-onto (fields e))) (fields-valid e v)
    ∙ ap (λ r. some (ok, r)) (apply_fields-fields e v))
