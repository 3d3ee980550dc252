-- ===== src/Log/Reader/Assemble.antt =====
-- Reader::ReadRecord of db/log_reader.cc: logical records from physical ones.
use Prim.Native.String.{String}
use leveldb_chinese_annotate.Prelude.{
  ℕ, zero, suc, ◌+◌, Bool, true, false, ◌&&◌, [], ◌++◌, Option, none, some, ltb, ◌==◌,
  if◌then◌else◌, length,
}
use leveldb_chinese_annotate.Coding.{Bytes}
use leveldb_chinese_annotate.Log.{
  full_type, first_type, middle_type, last_type, eof_type, bad_record, header_size,
}
use leveldb_chinese_annotate.Log.Crc.{Crc}
use leveldb_chinese_annotate.Log.Reader.{
  SequentialFile, Reader, minus64, report_corruption, read_physical_record, skip_to_initial_block,
}

-- The locals of ReadRecord and the reader.
pub record Assembly {ℓ} (R : Type ℓ) : Type ℓ where
  pub reader : Reader R
  pub scratch : Bytes
  pub in_fragmented_record : Bool
  pub prospective_record_offset : ℕ

-- What one physical record does: the loop goes on, ReadRecord answers a record, or it answers false.
pub data Step {ℓ} (R : Type ℓ) : Type ℓ where
  more : Assembly R → Step R
  found : Bytes → Reader R → Step R
  finished : Reader R → Step R

module _ {ℓ} {R : Type ℓ} where
  -- Where the physical record that has just been read begins.
  abbrev pub record_offset : Reader R → Bytes → ℕ
  record_offset r fragment =
      minus64 (minus64 (minus64 r.end_of_buffer_offset (length r.buffer)) header_size)
        (length fragment)

  abbrev report_partial : Assembly R → String → Reader R
  report_partial a reason =
      if a.in_fragmented_record && ltb 0 (length a.scratch)
      then report_corruption a.reader (length a.scratch) reason
      else a.reader

  -- The `switch` over the type; `offset` is where the physical record begins. The message on an
  -- unknown type is kept without the number at its end.
  unfoldable pub assemble : Assembly R → ℕ → Bytes → ℕ → Step R
  assemble a t fragment offset =
      if t == full_type
      then Step.found fragment (record (report_partial a "partial record without end(1)") {
        last_record_offset = offset;
      })
      else if t == first_type
      then Step.more (record a {
        reader = report_partial a "partial record without end(2)";
        scratch = fragment;
        in_fragmented_record = true;
        prospective_record_offset = offset;
      })
      else if t == middle_type
      then Step.more (
          if a.in_fragmented_record
          then record a { scratch = a.scratch ++ fragment }
          else record a {
            reader =
                report_corruption a.reader (length fragment)
                  "missing start of fragmented record(1)";
          })
      else if t == last_type
      then if a.in_fragmented_record
        then Step.found (a.scratch ++ fragment)
            (record a.reader { last_record_offset = a.prospective_record_offset })
        else Step.more (record a {
          reader =
              report_corruption a.reader (length fragment) "missing start of fragmented record(2)";
        })
      else if t == eof_type
      then Step.finished a.reader
      else if t == bad_record
      then Step.more (
          if a.in_fragmented_record
          then record a {
            reader = report_corruption a.reader (length a.scratch) "error in middle of record";
            scratch = [];
            in_fragmented_record = false;
          }
          else a)
      else Step.more (record a {
        reader =
            report_corruption a.reader
              (length fragment + (if a.in_fragmented_record then length a.scratch else 0))
              "unknown record type";
        scratch = [];
        in_fragmented_record = false;
      })

  -- After a jump into the file the tail of a fragmented record is skipped.
  unfoldable pub resync : Assembly R → ℕ → Bytes → ℕ → Step R
  resync a t fragment offset =
      if a.reader.resyncing && t == middle_type
      then Step.more a
      else if a.reader.resyncing && t == last_type
      then Step.more (record a { reader = record a.reader { resyncing = false } })
      else assemble (record a { reader = record a.reader { resyncing = false } }) t fragment offset

module _ {ℓ} {R : Type ℓ} (crc : Crc) (file : SequentialFile R) where
  -- `while (true)`; `fragment` keeps its value from round to round. `none` is lack of fuel.
  unfoldable pub read_record_loop : ℕ → Assembly R → Bytes → Option (Option Bytes × Reader R)
  read_record_loop zero a fragment = none
  read_record_loop (suc fuel) a fragment = elim (read_physical_record crc file a.reader fragment) [
    | none ↦ none
    | some (t, fragment1, r) ↦
        elim (resync (record a { reader = r }) t fragment1 (record_offset r fragment1)) [
          | more a1 ↦ read_record_loop fuel a1 fragment1
          | found bytes r1 ↦ some (some bytes, r1)
          | finished r1 ↦ some (none, r1)
        ]
  ]

  -- The record, or `none` where the source answers false.
  unfoldable pub read_record : ℕ → Reader R → Option (Option Bytes × Reader R)
  read_record fuel r =
      let start = λ (r1 : Reader R).
        read_record_loop fuel
          record {
            reader = r1;
            scratch = [];
            in_fragmented_record = false;
            prospective_record_offset = 0;
          }
          [] in
      if ltb r.last_record_offset r.initial_offset
      then (let (skipped, r1) = skip_to_initial_block crc file r in
          if skipped then start r1 else some (none, r1))
      else start r
