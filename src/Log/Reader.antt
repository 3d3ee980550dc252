-- ===== src/Log/Reader.antt =====
-- db/log_reader.{h,cc} over an interface for the file. A failed read or a corruption goes to the
-- reporter, whose calls are listed in `drops`, the latest last.
pub mod Assemble
pub mod Frames
pub mod Stream
pub mod RoundTrip
pub mod Sequence
use Prim.Native.String.{String}
use leveldb_chinese_annotate.Prelude.{
  ℕ, zero, suc, ◌+◌, ◌-◌, ◌*◌, ◌/◌, ◌%◌, ◌^◌, Bool, true, false, not, ◌&&◌, ◌||◌, List, [], ◌∷◌,
  ◌++◌, Option, none, some, ltb, leb, ◌==◌, if◌then◌else◌, length, take, drop, get_or, bit_or,
}
use leveldb_chinese_annotate.Coding.{Bytes, decode_fixed32}
use leveldb_chinese_annotate.Status.{Status, is_ok}
use leveldb_chinese_annotate.Log.{
  zero_type, full_type, first_type, middle_type, last_type, eof_type, bad_record, block_size,
  header_size,
}
use leveldb_chinese_annotate.Log.Crc.{Crc, value, unmask}

-- The methods of SequentialFile that the reader calls, on a state of the file.
pub record SequentialFile {ℓ} (R : Type ℓ) : Type ℓ where
  pub file_read : ℕ → R → Status × Bytes × R
  pub file_skip : ℕ → R → Status × R

pub record Reader {ℓ} (R : Type ℓ) : Type ℓ where
  pub source : R
  pub reporter : Bool
  pub checksum : Bool
  pub buffer : Bytes
  pub eof : Bool
  pub last_record_offset : ℕ
  pub end_of_buffer_offset : ℕ
  pub initial_offset : ℕ
  pub resyncing : Bool
  pub drops : List (ℕ × Status)

unfoldable pub new_reader {ℓ} : {R : Type ℓ} → R → Bool → Bool → ℕ → Reader R
new_reader source reporter checksum initial_offset = record {
  source = source;
  reporter = reporter;
  checksum = checksum;
  buffer = [];
  eof = false;
  last_record_offset = 0;
  end_of_buffer_offset = 0;
  initial_offset = initial_offset;
  resyncing = ltb 0 initial_offset;
  drops = [];
}

-- Subtraction in a uint64.
abbrev pub minus64 : ℕ → ℕ → ℕ
minus64 a b = (a + 2 ^ 64 - b % 2 ^ 64) % 2 ^ 64

-- A `char` read into an `unsigned int`: the top bit is its sign.
abbrev pub char_to_uint : ℕ → ℕ
char_to_uint c = if ltb c 128 then c else c + 2 ^ 32 - 256

-- The length field of a header.
abbrev pub payload_length : Bytes → ℕ
payload_length header = bit_or (get_or header 4 0) (get_or header 5 0 * 2 ^ 8)

module _ {ℓ} {R : Type ℓ} where
  unfoldable pub report_drop : Reader R → ℕ → Status → Reader R
  report_drop r bytes reason =
      let at = minus64 (minus64 r.end_of_buffer_offset (length r.buffer)) bytes in
      if r.reporter && leb r.initial_offset at
      then record r { drops = r.drops ++ ((bytes, reason) ∷ []) }
      else r

  unfoldable pub report_corruption : Reader R → ℕ → String → Reader R
  report_corruption r bytes reason = report_drop r bytes (Status.corruption reason "")

-- Either the loop goes on with this state, or it returns this type, fragment and state.
pub data Round {ℓ} (R : Type ℓ) : Type ℓ where
  continue : Reader R → Round R
  return : ℕ → Bytes → Reader R → Round R

module _ {ℓ} {R : Type ℓ} (crc : Crc) (file : SequentialFile R) where
  -- Less than a header in the buffer: read the next block.
  unfoldable pub refill : Reader R → Bytes → Round R
  refill r result =
      if r.eof
      then Round.return eof_type result (record r { buffer = [] })
      else let (status, block, source) = file.file_read block_size r.source in
        let offset = (r.end_of_buffer_offset + length block) % 2 ^ 64 in
        let r1 = record r { source = source; buffer = block; end_of_buffer_offset = offset } in
        if is_ok status
        then Round.continue (if ltb (length block) block_size then record r1 { eof = true } else r1)
        else Round.return eof_type result
            (record (report_drop (record r1 { buffer = [] }) block_size status) { eof = true })

  -- The buffer holds a header; `result` is what the fragment held before.
  unfoldable pub parse_record : Reader R → Bytes → Round R
  parse_record r result =
      let header = r.buffer in
      let t = char_to_uint (get_or header 6 0) in
      let n = payload_length header in
      let dropped = record r { buffer = [] } in
      let rest = drop (header_size + n) header in
      let taken = record r { buffer = rest } in
      let start = minus64 (minus64 (minus64 r.end_of_buffer_offset (length rest)) header_size) n in
      if ltb (length header) (header_size + n)
      then if r.eof
        then Round.return eof_type result dropped
        else Round.return bad_record result
            (report_corruption dropped (length header) "bad record length")
      else if t == zero_type && n == 0
      then Round.return bad_record result dropped
      else if r.checksum
          && not (value crc (take (1 + n) (drop 6 header)) == unmask (decode_fixed32 header))
      then Round.return bad_record result
          (report_corruption dropped (length header) "checksum mismatch")
      else if ltb start r.initial_offset
      then Round.return bad_record [] taken
      else Round.return t (take n (drop header_size header)) taken

  -- One round of the loop.
  abbrev pub physical_round : Reader R → Bytes → Round R
  physical_round r result =
      if ltb (length r.buffer) header_size then refill r result else parse_record r result

  -- `none` is lack of fuel.
  unfoldable pub physical_loop : ℕ → Reader R → Bytes → Option (ℕ × Bytes × Reader R)
  physical_loop zero r result = none
  physical_loop (suc fuel) r result = elim (physical_round r result) [
    | continue r1 ↦ physical_loop fuel r1 result
    | return t fragment r1 ↦ some (t, fragment, r1)
  ]

  -- Two rounds are enough: after a read the buffer holds a header or the file has ended.
  unfoldable pub read_physical_record : Reader R → Bytes → Option (ℕ × Bytes × Reader R)
  read_physical_record r result = physical_loop 2 r result

  -- `SkipToInitialBlock`
  unfoldable pub skip_to_initial_block : Reader R → Bool × Reader R
  skip_to_initial_block r =
      let offset_in_block = r.initial_offset % block_size in
      let block = minus64 r.initial_offset offset_in_block in
      let start =
        if ltb (block_size - 6) offset_in_block then (block + block_size) % 2 ^ 64 else block in
      let r1 = record r { end_of_buffer_offset = start } in
      if ltb 0 start
      then (let (status, source) = file.file_skip start r.source in
          let r2 = record r1 { source = source } in
          if is_ok status then (true, r2) else (false, report_drop r2 start status))
      else (true, r1)
