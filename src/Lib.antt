-- ===== src/Lib.antt =====
-- A model of parts of LevelDB, a key-value store over sorted tables on disk, in the annotated
-- edition of its C++ sources, with the theorems that make these parts correct.
--
-- A write to the store is a batch of puts and deletes (db/write_batch.cc). The batch is one record of
-- the log (db/log_writer.cc), which recovery reads back (db/log_reader.cc), and its entries go into
-- the memtable under internal keys (db/dbformat.cc), which a user key, a sequence number and a type
-- make up. The metadata of the tables changes by version edits (db/version_edit.cc), each a record of
-- the manifest, a log as well. All of these are written with the integers and strings of
-- util/coding.cc, and ordered by a Comparator (util/comparator.cc).
--
-- The files and the code that they are about:
--   Prelude        names of the libraries, lists, tests and bits that all parts share
--   Coding         util/coding.{h,cc}: EncodeFixed32 is encode_fixed32, PutVarint32 is put_varint32,
--                  GetVarint32 is get_varint32, and so on
--   Slice          include/leveldb/slice.h: Slice::compare is slice_compare, == is slice_eq
--   Comparator     include/leveldb/comparator.h as a record of operations and laws, and
--                  util/comparator.cc, which fills it
--   DbFormat       db/dbformat.{h,cc}: internal keys, InternalKeyComparator, LookupKey
--   Status         include/leveldb/status.h
--   WriteBatch     db/write_batch.cc: batches, Iterate with a handler, insertion into a memtable
--   VersionEdit    db/version_edit.{h,cc}: the record, EncodeTo and DecodeFrom
--   Log            db/log_format.h, db/log_writer.{h,cc}, db/log_reader.{h,cc}, util/crc32c.h:
--                  AddRecord is Log.Writer.add_record, ReadPhysicalRecord is
--                  Log.Reader.read_physical_record, ReadRecord is Log.Reader.Assemble.read_record
--   Block          table/block_builder.{h,cc}, table/block.{h,cc}: Add is add, Finish is finish;
--                  Block::Iter is Block.Iter, with ParseNextKey as parse_next_key, Seek as seek
--   Table          table/format.{h,cc}: BlockHandle and Footer, EncodeTo and DecodeFrom of each;
--                  ReadBlock is Table.Block.read_block, over codecs as interfaces
--   Version        db/version_set.{h,cc}: FindFile, SomeFileOverlapsRange; Version.Inputs
--                  GetOverlappingInputs; Version.Boundary AddBoundaryInputs; Version.Levels
--                  PickLevelForMemTableOutput; Version.Compaction SetupOtherInputs, PickCompaction,
--                  CompactRange; Version.Running the methods of a running Compaction;
--                  Version.Builder VersionSet::Builder with Apply and SaveTo
--   Filter         util/hash.cc, util/bloom.cc: CreateFilter is create_filter, KeyMayMatch is
--                  key_may_match; Filter.Policy the interface of include/leveldb/filter_policy.h;
--                  Filter.Block table/filter_block.{h,cc}
--
-- A byte is a number below 256, a string the list of its bytes, and a buffer that a method changes is
-- an argument and a result. Integers are natural numbers; where the source works in 8, 32 or 64 bits
-- the remainder is written out. An operation that can fail answers an Option or a Status.
--
-- Loops are structural where they can be. Iterate, DecodeFrom and AddRecord run on fuel: each of
-- their rounds takes a byte, but for the first fragment of a record, which can be empty, so the length
-- of the input, two more for AddRecord, is enough. ReadPhysicalRecord runs for two rounds: after a
-- read the buffer holds a header or the file has ended. ReadRecord takes its fuel as an argument. An
-- iterator of a block goes on by three bytes at least, so the offset of the restart array bounds its
-- loops. FindFile halves a range of files. GetOverlappingInputs begins again when a file widens the
-- range, at most twice for each file; AddBoundaryInputs adds each file of a level once at most.
--
-- Interfaces stand for the parts that the modelled ones call: the user's Comparator with the
-- contract of its header, the Add of the memtable, the Append and Flush of a file to write, the Read
-- and Skip of a file to read, the function Extend of util/crc32c.cc with the law that its header
-- states, and the codecs of port/port.h, which fill a buffer of the length that they claim. Not modelled: the memtable and its skip list, the cache, the level scores (floating-point
-- numbers), the reference counts and the recovery of versions, the other iterators, the database
-- object with its threads, the environment, and the debugging output of the modelled parts.
pub mod Prelude
pub mod Coding
pub mod Slice
pub mod Comparator
pub mod DbFormat
pub mod Status
pub mod WriteBatch
pub mod VersionEdit
pub mod Log
pub mod Block
pub mod Table
pub mod Version
pub mod Filter
