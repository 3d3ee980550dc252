-- ===== src/Log/Writer.antt =====
-- db/log_writer.cc over an interface for the file.
pub mod Bounds
pub mod Content
pub mod Format
use leveldb_chinese_annotate.Prelude.{
  ℕ, zero, suc, ◌+◌, ◌-◌, ◌/◌, ◌%◌, ◌^◌, Bool, true, false, ◌&&◌, List, [], ◌∷◌, ◌++◌, Option, none,
  some, ltb, ◌==◌, if◌then◌else◌, length, take, drop, replicate, get_or,
}
use leveldb_chinese_annotate.Coding.{Bytes, encode_fixed32}
use leveldb_chinese_annotate.Status.{Status, is_ok}
use leveldb_chinese_annotate.Log.{
  full_type, first_type, middle_type, last_type, block_size, header_size,
}
use leveldb_chinese_annotate.Log.Crc.{Crc, value, mask}

-- The methods of WritableFile that the writer calls, on a state of the file.
pub record WritableFile {ℓ} (W : Type ℓ) : Type ℓ where
  pub file_append : Bytes → W → Status × W
  pub flush : W → Status × W

pub record Writer {ℓ} (W : Type ℓ) : Type ℓ where
  pub dest : W
  pub block_offset : ℕ

-- The constructor for a file that holds `dest_length` bytes.
unfoldable pub new_writer {ℓ} : {W : Type ℓ} → W → ℕ → Writer W
new_writer dest dest_length = record { dest = dest; block_offset = dest_length % block_size }

-- `type_crc_`: the checksums of the one-byte strings 0 to kMaxRecordType.
abbrev pub type_crc : Crc → List ℕ
type_crc crc =
    value crc (0 ∷ [])
    ∷ value crc (1 ∷ [])
    ∷ value crc (2 ∷ [])
    ∷ value crc (3 ∷ [])
    ∷ value crc (4 ∷ [])
    ∷ []

-- The seven bytes of a header.
unfoldable pub record_header : Crc → ℕ → Bytes → Bytes
record_header crc t payload =
    let n = length payload in
    encode_fixed32 (mask (crc.extend (get_or (type_crc crc) t 0) payload))
    ++ ((n % 256) ∷ (n / 2 ^ 8 % 256) ∷ t ∷ [])

-- The type of a fragment, by whether it is the first and whether it is the last.
unfoldable pub fragment_type : Bool → Bool → ℕ
fragment_type begin end =
    if begin && end
    then full_type
    else if begin
    then first_type
    else if end
    then last_type
    else middle_type

module _ {ℓ} {W : Type ℓ} (crc : Crc) (file : WritableFile W) where
  -- The offset moves on whether or not the file took the bytes.
  unfoldable pub emit_physical_record : Writer W → ℕ → Bytes → Status × Writer W
  emit_physical_record w t payload =
      let (s1, d1) = file.file_append (record_header crc t payload) w.dest in
      let (s2, d2) = file.file_append payload d1 in
      let (s3, d3) = file.flush d2 in
      let offset = w.block_offset + (header_size + length payload) in
      if is_ok s1
      then if is_ok s2
        then (s3, record { dest = d3; block_offset = offset })
        else (s2, record { dest = d2; block_offset = offset })
      else (s1, record { dest = d1; block_offset = offset })

  -- Less than a header left in the block: it is filled with zero bytes, and the next one begins.
  -- The status of that write is not looked at.
  unfoldable pub switch_block : Writer W → Writer W
  switch_block w =
      let leftover = block_size - w.block_offset in
      if ltb leftover header_size
      then record {
        dest =
            if ltb 0 leftover then (file.file_append (replicate leftover 0) w.dest).1 else w.dest;
        block_offset = 0;
      }
      else w

  -- How much of `left` bytes goes into the current block.
  abbrev pub fragment_length : ℕ → ℕ → ℕ
  fragment_length left offset =
      let avail = block_size - offset - header_size in if ltb left avail then left else avail

  -- The body of the loop: the status and the writer after one fragment, and what is left.
  unfoldable pub emit_fragment : Writer W → Bool → Bytes → Status × Writer W × Bytes
  emit_fragment w begin data_left =
      let w1 = switch_block w in
      let n = fragment_length (length data_left) w1.block_offset in
      let t = fragment_type begin (length data_left == n) in
      let (s, w2) = emit_physical_record w1 t (take n data_left) in (s, w2, drop n data_left)

  -- `do … while (s.ok() && left > 0)`; `none` is lack of fuel.
  unfoldable pub add_record_loop : ℕ → Writer W → Bool → Bytes → Option (Status × Writer W)
  add_record_loop zero w begin data_left = none
  add_record_loop (suc fuel) w begin data_left =
      let (s, w2, rest) = emit_fragment w begin data_left in
      let next = add_record_loop fuel w2 false rest in
      if is_ok s && ltb 0 (length rest) then next else some (s, w2)

  -- Only the first fragment can be empty while data is left, so two rounds more than bytes are
  -- enough.
  unfoldable pub add_record : Writer W → Bytes → Option (Status × Writer W)
  add_record w slice = add_record_loop (suc (suc (length slice))) w true slice
