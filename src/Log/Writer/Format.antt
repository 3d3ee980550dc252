-- ===== src/Log/Writer/Format.antt =====
-- What AddRecord of db/log_writer.cc writes, against doc/log_format.md: blocks of 32 KB with records
-- and trailers, a record's checksum, length, type and data, and the types of fragments.
use leveldb_chinese_annotate.Prelude.{
  ℕ, zero, suc, ◌+◌, ◌/◌, ◌%◌, ◌^◌, ◌<◌, ◌≤◌, ◌≡◌, refl, sym, ap, ◌∙◌, arith, true, false, some, [],
  ◌∷◌, ◌++◌, length, All, get_or, replicate,
}
use mathlib.Core.Path.{subst}
use leveldb_chinese_annotate.Coding.{Bytes, encode_fixed32}
use leveldb_chinese_annotate.Status.{Status}
use leveldb_chinese_annotate.Log.Crc.{Crc, value, mask}
use leveldb_chinese_annotate.Log.Writer.{Writer, type_crc, record_header, fragment_type, add_record}
use leveldb_chinese_annotate.Log.Writer.Content.{memory, Records, Layout, Chunks, add_record-Layout}

-- A record: the masked checksum of the type and the data in four bytes, the length in two, the type
-- in one, and the data.
abbrev pub frame : Crc → ℕ → Bytes → Bytes
frame crc t payload =
    encode_fixed32 (mask (value crc (t ∷ payload)))
    ++ ((length payload % 256) ∷ (length payload / 256) ∷ t ∷ [])
    ++ payload

-- `OnDisk crc o records out o'`: `out` holds the records from offset `o` of a block to offset `o'`.
-- A record lies in one block. Six bytes at the end of a block, or fewer, are a trailer of zero bytes.
pub data OnDisk (crc : Crc) : ℕ → Records → Bytes → ℕ → Type 0 where
  nothing : (o : ℕ) → OnDisk crc o [] [] o
  trailer :
      (o z : ℕ) {records : Records} {out : Bytes} {o' : ℕ}
      → o + z ≡ 32768
      → z ≤ 6
      → OnDisk crc 0 records out o'
      → OnDisk crc o records (replicate z 0 ++ out) o'
  whole_record :
      (o t : ℕ) (payload : Bytes) {records : Records} {out : Bytes} {o' : ℕ}
      → o + length (frame crc t payload) ≤ 32768
      → OnDisk crc (o + length (frame crc t payload)) records out o'
      → OnDisk crc o ((t, payload) ∷ records) (frame crc t payload ++ out) o'

-- The fragments behind the first: MIDDLE is 3, LAST is 4.
pub data Later : Bytes → Records → Type 0 where
  last : (d : Bytes) → Later d ((4, d) ∷ [])
  middle :
      (d1 d2 : Bytes) {records : Records} → Later d2 records → Later (d1 ++ d2) ((3, d1) ∷ records)

-- The physical records of a user's record: FULL is 1, FIRST is 2.
pub data Fragments : Bytes → Records → Type 0 where
  full : (d : Bytes) → Fragments d ((1, d) ∷ [])
  first :
      (d1 d2 : Bytes) {records : Records}
      → Later d2 records
      → Fragments (d1 ++ d2) ((2, d1) ∷ records)

Chunks-Later : {d : Bytes} {records : Records} → Chunks false d records → Later d records
unfolding fragment_type
Chunks-Later (Chunks.end_chunk false d) = Later.last d
Chunks-Later (Chunks.next_chunk false d1 d2 c) = Later.middle d1 d2 (Chunks-Later c)

Chunks-Fragments : {d : Bytes} {records : Records} → Chunks true d records → Fragments d records
unfolding fragment_type
Chunks-Fragments (Chunks.end_chunk true d) = Fragments.full d
Chunks-Fragments (Chunks.next_chunk true d1 d2 c) = Fragments.first d1 d2 (Chunks-Later c)

Later-types : {d : Bytes} {records : Records} → Later d records → All (λ r. r.0 ≤ 4) records
Later-types (Later.last d) = (omega arith, tt)
Later-types (Later.middle d1 d2 l) = (omega arith, Later-types l)

Fragments-types : {d : Bytes} {records : Records} → Fragments d records → All (λ r. r.0 ≤ 4) records
Fragments-types (Fragments.full d) = (omega arith, tt)
Fragments-types (Fragments.first d1 d2 l) = (omega arith, Later-types l)

module _ (crc : Crc) where
  type_crc-at : (t : ℕ) → t ≤ 4 → get_or (type_crc crc) t 0 ≡ value crc (t ∷ [])
  type_crc-at zero h = refl
  type_crc-at (suc zero) h = refl
  type_crc-at (suc (suc zero)) h = refl
  type_crc-at (suc (suc (suc zero))) h = refl
  type_crc-at (suc (suc (suc (suc zero)))) h = refl
  type_crc-at (suc (suc (suc (suc (suc t))))) h = absurd (omega (arith, h))

  -- The writer's header, which extends the checksum kept for the type.
  record_header-frame :
      (t : ℕ) (payload : Bytes)
      → t ≤ 4
      → length payload < 2 ^ 16
      → record_header crc t payload ++ payload ≡ frame crc t payload
  unfolding record_header value
  record_header-frame t payload ht hl =
      let n = length payload in
      let sum : crc.extend (get_or (type_crc crc) t 0) payload ≡ value crc (t ∷ payload) =
        ap (λ k. crc.extend k payload) (type_crc-at t ht) ∙ crc.extend-append 0 (t ∷ []) payload in
      let high : n / 2 ^ 8 % 256 ≡ n / 256 = omega (arith, hl) in rw (record_header, sum, high) refl

  length-frame : (t : ℕ) (payload : Bytes) → length (frame crc t payload) ≡ 7 + length payload
  unfolding encode_fixed32
  length-frame t payload = omega arith

  Layout-OnDisk :
      (o : ℕ) {records : Records} {out : Bytes} {o' : ℕ}
      → All (λ r. r.0 ≤ 4) records
      → Layout crc o records out o'
      → OnDisk crc o records out o'
  Layout-OnDisk o h (Layout.nothing _) = OnDisk.nothing o
  Layout-OnDisk o h (Layout.trailer _ z eq small l) =
      OnDisk.trailer o z eq (omega (arith, small)) (Layout-OnDisk 0 h l)
  Layout-OnDisk o {o' = o'} h (Layout.physical _ t payload {records = records} {out = out} fits l) =
      let n = length-frame t payload in
      let e : frame crc t payload ++ out ≡ record_header crc t payload ++ payload ++ out =
        ap (λ (s : Bytes). s ++ out)
          (sym (record_header-frame t payload h.0 (omega (arith, fits)))) in
      subst (λ (s : Bytes). OnDisk crc o ((t, payload) ∷ records) s o') e
        (OnDisk.whole_record o t payload (omega (arith, n, fits)) (
          subst (λ k. OnDisk crc k records out o') (omega (arith, n))
            (Layout-OnDisk (o + (7 + length payload)) h.1 l)))

  -- AddRecord on a file that keeps every byte answers ok, for a writer inside a block. It appends to
  -- the file the records of one record FULL, or of FIRST, any number of MIDDLE and LAST, that carry
  -- the slice piece by piece: each of them with the masked checksum of its type and data, the length
  -- in two bytes and the type, whole in a block of 32 KB, with trailers of six zero bytes or fewer
  -- where a block ends. The writer's offset is where they end.
  pub add_record-OnDisk :
      (w : Writer Bytes) (slice : Bytes)
      → w.block_offset ≤ 32768
      → (records : Records) × (out : Bytes) × (w2 : Writer Bytes) × (add_record crc memory w slice
          ≡ some (Status.ok, w2))
        × (w2.dest ≡ w.dest ++ out)
        × OnDisk crc w.block_offset records out w2.block_offset
        × Fragments slice records
  add_record-OnDisk w slice h =
      let (records, out, w2, e, d, l, c) = add_record-Layout crc w slice h in
      let parts = Chunks-Fragments c in
      (records, out, w2, e, d, Layout-OnDisk w.block_offset (Fragments-types parts) l, parts)
