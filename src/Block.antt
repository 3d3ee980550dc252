-- ===== src/Block.antt =====
-- table/block_builder.{h,cc} and table/block.{h,cc}: blocks of sorted entries, in which a key drops
-- the prefix that it shares with the key before it, but for a restart point every so many entries.
-- The offsets of the restart points stand at the end of the block.
pub mod Iter
pub mod Entries
pub mod Building
pub mod Walk
pub mod RoundTrip
pub mod Termination
mod Tests
use leveldb_chinese_annotate.Prelude.{
  ℕ, zero, suc, ◌+◌, ◌-◌, ◌*◌, ◌/◌, ◌%◌, ◌^◌, Bool, true, false, List, [], ◌∷◌, ◌++◌, ltb, ◌==◌,
  if◌then◌else◌, length, take, drop, min,
}
use leveldb_chinese_annotate.Coding.{Bytes, put_fixed32, put_varint32, decode_fixed32}
use leveldb_chinese_annotate.Comparator.{shared_prefix}
use leveldb_chinese_annotate.Table.Block.{BlockContents}

-- The restart offsets are kept as uint32.
pub record BlockBuilder : Type 0 where
  pub buffer : Bytes
  pub restarts : List ℕ
  pub counter : ℕ
  pub is_finished : Bool
  pub last_key : Bytes

-- The constructor; the first restart point is at offset 0.
abbrev pub new_builder : BlockBuilder
new_builder = record {
  buffer = [];
  restarts = 0 ∷ [];
  counter = 0;
  is_finished = false;
  last_key = [];
}

unfoldable pub reset : BlockBuilder → BlockBuilder
reset b = record b {
  buffer = [];
  restarts = 0 ∷ [];
  counter = 0;
  is_finished = false;
  last_key = [];
}

unfoldable pub current_size_estimate : BlockBuilder → ℕ
current_size_estimate b = length b.buffer + length b.restarts * 4 + 4

-- The loop of Finish over the restart offsets.
unfoldable pub put_restarts : Bytes → List ℕ → Bytes
put_restarts buffer [] = buffer
put_restarts buffer (r ∷ restarts) = put_restarts (put_fixed32 buffer r) restarts

-- The slice that Finish answers is the buffer.
unfoldable pub finish : BlockBuilder → BlockBuilder
finish b = record b {
  buffer = put_fixed32 (put_restarts b.buffer b.restarts) (length b.restarts % 2 ^ 32);
  is_finished = true;
}

-- The three lengths, the rest of the key and the value.
unfoldable pub put_entry : Bytes → ℕ → Bytes → Bytes → Bytes
put_entry buffer shared key value =
    let non_shared = length key - shared in
    let b1 = put_varint32 buffer (shared % 2 ^ 32) in
    let b2 = put_varint32 b1 (non_shared % 2 ^ 32) in
    let b3 = put_varint32 b2 (length value % 2 ^ 32) in
    b3 ++ (take non_shared (drop shared key) ++ value)

-- `interval` is `options_->block_restart_interval`.
unfoldable pub add : ℕ → BlockBuilder → Bytes → Bytes → BlockBuilder
add interval b key value =
    let compress = ltb b.counter interval in
    let shared =
      if compress then shared_prefix (min (length b.last_key) (length key)) b.last_key key else 0 in
    let non_shared = length key - shared in
    record b {
      buffer = put_entry b.buffer shared key value;
      restarts = if compress then b.restarts else b.restarts ++ ((length b.buffer % 2 ^ 32) ∷ []);
      counter = (if compress then b.counter else 0) + 1;
      last_key = take shared b.last_key ++ take non_shared (drop shared key);
    }

-- A block over its contents; `size` is 0 where the contents cannot be a block.
pub record Block : Type 0 where
  pub block_bytes : Bytes
  pub size : ℕ
  pub restart_offset : ℕ
  pub is_owned : Bool

-- `NumRestarts`, from the last four bytes.
unfoldable pub num_restarts_of : Bytes → ℕ
num_restarts_of contents = decode_fixed32 (drop (length contents - 4) contents)

-- The constructor. The sum is one of uint32, the product of size_t, the offset a uint32 again.
unfoldable pub new_block : BlockContents → Block
new_block contents =
    let n = length contents.bytes in
    let restarts = num_restarts_of contents.bytes in
    let bad : Block = record {
      block_bytes = contents.bytes;
      size = 0;
      restart_offset = 0;
      is_owned = contents.heap_allocated;
    } in
    if ltb n 4
    then bad
    else if ltb ((n - 4) / 4) restarts
    then bad
    else record bad { size = n; restart_offset = (n - ((1 + restarts) % 2 ^ 32) * 4) % 2 ^ 32 }
