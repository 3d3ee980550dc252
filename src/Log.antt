-- ===== src/Log.antt =====
-- db/log_format.h, db/log_writer.{h,cc}, db/log_reader.{h,cc}: the log of records in blocks of
-- 32 KB. A logical record is one physical record or a run of fragments; a physical record is a
-- header (checksum, length, type) and its payload, and lies in one block.
pub mod Crc
pub mod Writer
pub mod Reader
mod Tests
use leveldb_chinese_annotate.Prelude.{ℕ, ◌+◌}

abbrev pub zero_type : ℕ
zero_type = 0

abbrev pub full_type : ℕ
full_type = 1

abbrev pub first_type : ℕ
first_type = 2

abbrev pub middle_type : ℕ
middle_type = 3

abbrev pub last_type : ℕ
last_type = 4

-- The two values that the reader adds to the record types.
abbrev pub eof_type : ℕ
eof_type = 5

abbrev pub bad_record : ℕ
bad_record = 6

-- `kBlockSize`
abbrev pub block_size : ℕ
block_size = 32768

-- `kHeaderSize`
abbrev pub header_size : ℕ
header_size = 4 + 2 + 1
