-- ===== src/WriteBatch.antt =====
-- include/leveldb/write_batch.h, db/write_batch_internal.h and db/write_batch.cc: a batch is a
-- string `rep_` of a sequence number (8 bytes), a count (4 bytes) and records. The handler that
-- Iterate calls is a pair of functions on a state of its own.
pub mod Header
pub mod Records
pub mod Iteration
pub mod Building
pub mod Insertion
mod Tests
use Prim.Native.String.{String}
use leveldb_chinese_annotate.Prelude.{
  ℕ, zero, suc, ◌+◌, ◌%◌, ◌^◌, true, false, [], ◌∷◌, ◌++◌, Option, none, some, ltb, ◌==◌,
  if◌then◌else◌, length, take, drop, replicate,
}
use leveldb_chinese_annotate.Coding.{
  Bytes, encode_fixed32, encode_fixed64, decode_fixed32, decode_fixed64, put_length_prefixed_slice,
  get_length_prefixed_slice,
}
use leveldb_chinese_annotate.Status.{Status, ok, corruption}
use leveldb_chinese_annotate.DbFormat.{ValueType}

-- `kHeader`
abbrev pub header : ℕ
header = 12

-- The batch that Clear leaves: `rep_.resize(kHeader)` fills with zero bytes.
unfoldable pub clear : Bytes
clear = replicate header 0

unfoldable pub count : Bytes → ℕ
count rep = decode_fixed32 (drop 8 rep)

-- EncodeFixed32 over the four bytes at offset 8; an int is passed as a uint32. Count and the `n` of
-- the callers are ints, of which Put, Delete and Append must not leave the range below 2^31.
unfoldable pub set_count : Bytes → ℕ → Bytes
set_count rep n = take 8 rep ++ (encode_fixed32 (n % 2 ^ 32) ++ drop 12 rep)

unfoldable pub sequence : Bytes → ℕ
sequence rep = decode_fixed64 rep

unfoldable pub set_sequence : Bytes → ℕ → Bytes
set_sequence rep seq = encode_fixed64 seq ++ drop 8 rep

unfoldable pub put : Bytes → Bytes → Bytes → Bytes
put rep key value =
    put_length_prefixed_slice
      (put_length_prefixed_slice (set_count rep (count rep + 1) ++ (1 ∷ [])) key) value

unfoldable pub delete : Bytes → Bytes → Bytes
delete rep key = put_length_prefixed_slice (set_count rep (count rep + 1) ++ (0 ∷ [])) key

unfoldable pub append : Bytes → Bytes → Bytes
append dst src = set_count dst (count dst + count src) ++ drop header src

-- WriteBatch::Handler: what its two methods do to the object.
pub record Handler {ℓ} (S : Type ℓ) : Type ℓ where
  pub on_put : Bytes → Bytes → S → S
  pub on_delete : Bytes → S → S

-- The end of Iterate's loop: a status with the handler's state, and the number of records found.
-- The number stands for the int `found` as a remainder of 2^32; from 2^31 records on the source
-- leaves the range of the int.
pub data Outcome {ℓ} (S : Type ℓ) : Type ℓ where
  finished : ℕ → S → Outcome S
  failed : String → S → Outcome S
  stuck : Outcome S

module _ {ℓ} {S : Type ℓ} (handler : Handler S) where
  -- `while (!input.empty())`. Each round takes a byte at least; `stuck` is lack of fuel.
  unfoldable pub iterate_loop : ℕ → ℕ → Bytes → S → Outcome S
  iterate_loop fuel found [] s = Outcome.finished found s
  iterate_loop zero found (tag ∷ input) s = Outcome.stuck
  iterate_loop (suc fuel) found (tag ∷ input) s = elim (tag == 1) [
    | true ↦ elim (get_length_prefixed_slice input) [
      | none ↦ Outcome.failed "bad WriteBatch Put" s
      | some (key, input1) ↦ elim (get_length_prefixed_slice input1) [
        | none ↦ Outcome.failed "bad WriteBatch Put" s
        | some (value, input2) ↦
            iterate_loop fuel ((found + 1) % 2 ^ 32) input2 (handler.on_put key value s)
      ]
    ]
    | false ↦ elim (tag == 0) [
      | true ↦ elim (get_length_prefixed_slice input) [
        | none ↦ Outcome.failed "bad WriteBatch Delete" s
        | some (key, input1) ↦
            iterate_loop fuel ((found + 1) % 2 ^ 32) input1 (handler.on_delete key s)
      ]
      | false ↦ Outcome.failed "unknown WriteBatch tag" s
    ]
  ]

  -- `none` is lack of fuel; the length of the input is enough.
  unfoldable pub iterate : Bytes → S → Option (Status × S)
  iterate rep s =
      if ltb (length rep) header
      then some (corruption "malformed WriteBatch (too small)" "", s)
      else elim (iterate_loop (length rep) 0 (drop header rep) s) [
        | Outcome.finished found t ↦
            if found == count rep
            then some (ok, t)
            else some (corruption "WriteBatch has wrong count" "", t)
        | Outcome.failed msg t ↦ some (corruption msg "", t)
        | Outcome.stuck ↦ none
      ]

-- A memtable as what `MemTable::Add` does to it.
pub record MemTableOps {ℓ} (M : Type ℓ) : Type ℓ where
  pub add : ℕ → ValueType → Bytes → Bytes → M → M

-- MemTableInserter: `sequence_` counts up with each entry added.
module _ {ℓ} {M : Type ℓ} (mem : MemTableOps M) where
  unfoldable pub mem_table_inserter : Handler (ℕ × M)
  mem_table_inserter = record {
    on_put =
        λ key value (seq, m). ((seq + 1) % 2 ^ 64, mem.add seq ValueType.type_value key value m);
    on_delete = λ key (seq, m). ((seq + 1) % 2 ^ 64, mem.add seq ValueType.type_deletion key [] m);
  }

  unfoldable pub insert_into : Bytes → M → Option (Status × M)
  insert_into rep m = elim (iterate mem_table_inserter rep (sequence rep, m)) [
    | none ↦ none
    | some (status, p) ↦ some (status, p.1)
  ]

-- SetContents asserts that the contents hold a header.
unfoldable pub set_contents : Bytes → Bytes
set_contents contents = contents
