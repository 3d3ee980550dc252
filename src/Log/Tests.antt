-- ===== src/Log/Tests.antt =====
-- Runs of the log's reader and writer on concrete files, and the theorems at concrete inputs, for a
-- checksum that adds the bytes up.
use leveldb_chinese_annotate.Prelude.{
  ℕ, ◌+◌, ◌%◌, ◌^◌, ◌≤◌, ◌≡◌, ◌≢◌, refl, arith, true, false, none, some, [], ◌∷◌, ◌++◌,
}
use leveldb_chinese_annotate.Coding.{Bytes, encode_fixed32}
use leveldb_chinese_annotate.Status.{Status}
use leveldb_chinese_annotate.Log.{block_size}
use leveldb_chinese_annotate.Log.Crc.{Crc}
use leveldb_chinese_annotate.Log.Writer.{
  Writer, record_header, new_writer, add_record, add_record_loop, emit_fragment, switch_block,
  emit_physical_record, fragment_type,
}
use leveldb_chinese_annotate.Log.Writer.Bounds.{add_record-returns}
use leveldb_chinese_annotate.Log.Writer.Content.{memory, Records}
use leveldb_chinese_annotate.Log.Writer.Format.{OnDisk, Fragments, add_record-OnDisk}
use leveldb_chinese_annotate.Log.Reader.{Reader, new_reader, read_physical_record}
use leveldb_chinese_annotate.Log.Reader.Sequence.{Written, Reads, Reads-Written}
use leveldb_chinese_annotate.Log.Reader.Stream.{bytes_file}
use leveldb_chinese_annotate.Log.Reader.Frames.{
  read_physical_record-returns, read_physical_record-emitted,
}

abbrev sum : Bytes → ℕ
sum [] = 0
sum (b ∷ bs) = b + sum bs

sum-append : (a b : Bytes) → sum (a ++ b) ≡ sum a + sum b
sum-append [] b = omega arith
sum-append (x ∷ a) b = omega (arith, sum-append a b)

abbrev sum_crc : Crc
sum_crc = record {
  extend = λ c s. (c + sum s) % 2 ^ 32;
  extend-append = λ c a b. omega (arith, sum-append a b);
  extend-IsU32 = λ c s. omega arith;
}

-- A reader with the record of type 1 over 10, 20 in its buffer, and a byte behind it.
abbrev two_byte_reader : Reader Bytes
two_byte_reader = record {
  source = [];
  reporter = true;
  checksum = true;
  buffer = record_header sum_crc 1 (10 ∷ 20 ∷ []) ++ (10 ∷ 20 ∷ []) ++ (7 ∷ []);
  eof = true;
  last_record_offset = 0;
  end_of_buffer_offset = 10;
  initial_offset = 0;
  resyncing = false;
  drops = [];
}

-- Four bytes before the end of a block.
abbrev late_writer : Writer Bytes
late_writer = record { dest = []; block_offset = 32764 }

read_physical_record-returns_example :
    read_physical_record sum_crc bytes_file two_byte_reader [] ≢ none
read_physical_record-returns_example =
    read_physical_record-returns sum_crc bytes_file two_byte_reader []

read_physical_record-emitted_example :
    read_physical_record sum_crc bytes_file two_byte_reader []
    ≡ some (1, 10 ∷ 20 ∷ [], record two_byte_reader { buffer = 7 ∷ [] })
read_physical_record-emitted_example =
    read_physical_record-emitted sum_crc bytes_file two_byte_reader [] 1 (10 ∷ 20 ∷ []) (7 ∷ [])
      (omega arith) (omega arith) (omega arith) refl refl

add_record-returns_example :
    (s : Status) × (w2 : Writer Bytes) × (add_record sum_crc memory late_writer (1 ∷ 2 ∷ [])
      ≡ some (s, w2))
    × (w2.block_offset ≤ block_size)
add_record-returns_example =
    add_record-returns sum_crc memory late_writer (1 ∷ 2 ∷ []) (omega arith)

add_record-OnDisk_example :
    (records : Records) × (out : Bytes) × (w2 : Writer Bytes) × (add_record sum_crc memory
        late_writer
        (1 ∷ 2 ∷ [])
      ≡ some (Status.ok, w2))
    × (w2.dest ≡ [] ++ out)
    × OnDisk sum_crc 32764 records out w2.block_offset
    × Fragments (1 ∷ 2 ∷ []) records
add_record-OnDisk_example = add_record-OnDisk sum_crc late_writer (1 ∷ 2 ∷ []) (omega arith)

-- A log of two records.
abbrev short_log : Writer Bytes
short_log = record {
  dest =
      (record_header sum_crc 1 (1 ∷ 2 ∷ []) ++ (1 ∷ 2 ∷ []))
      ++ (record_header sum_crc 1 (3 ∷ []) ++ (3 ∷ []));
  block_offset = 17;
}

short_log-Written : Written sum_crc (new_writer [] 0) ((1 ∷ 2 ∷ []) ∷ (3 ∷ []) ∷ []) short_log
unfolding new_writer add_record add_record_loop emit_fragment switch_block emit_physical_record
    fragment_type record_header encode_fixed32
short_log-Written =
    Written.one_written (1 ∷ 2 ∷ []) refl
      (Written.one_written (3 ∷ []) refl (Written.none_written short_log))

Reads-Written_example :
    Reads sum_crc 17 (new_reader short_log.dest true true 0) ((1 ∷ 2 ∷ []) ∷ (3 ∷ []) ∷ [])
unfolding record_header encode_fixed32
Reads-Written_example =
    Reads-Written sum_crc 17 ((1 ∷ 2 ∷ []) ∷ (3 ∷ []) ∷ []) short_log true true short_log-Written
      (omega arith)

-- The block is filled with zero bytes, and the record of type 1 begins the next one.
add_record_late :
    add_record sum_crc memory late_writer (1 ∷ 2 ∷ [])
    ≡ some (
      Status.ok,
      record {
        dest = (0 ∷ 0 ∷ 0 ∷ 0 ∷ []) ++ record_header sum_crc 1 (1 ∷ 2 ∷ []) ++ (1 ∷ 2 ∷ []);
        block_offset = 9;
      },
    )
unfolding add_record add_record_loop emit_fragment switch_block emit_physical_record fragment_type
    record_header
add_record_late = refl
