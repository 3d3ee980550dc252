-- ===== src/Log/Reader/Sequence.antt =====
-- Many records: what AddRecord of db/log_writer.cc wrote one after the other, ReadRecord of
-- db/log_reader.cc reads in the same order.
use mathlib.Core.Path.{subst}
use leveldb_chinese_annotate.Prelude.{
  ℕ, ◌≤◌, ◌≡◌, inl, refl, sym, ap, ◌∙◌, arith, Bool, Option, none, some, List, [], ◌∷◌, ◌++◌,
  length, length-append, append_assoc, append-nil,
}
use leveldb_chinese_annotate.Coding.{Bytes}
use leveldb_chinese_annotate.Status.{Status}
use leveldb_chinese_annotate.Log.{block_size}
use leveldb_chinese_annotate.Log.Crc.{Crc}
use leveldb_chinese_annotate.Log.Writer.{Writer, record_header, new_writer, add_record}
use leveldb_chinese_annotate.Log.Writer.Bounds.{add_record-returns}
use leveldb_chinese_annotate.Log.Writer.Content.{Records, Layout, memory, add_record-Layout}
use leveldb_chinese_annotate.Log.Reader.{Reader, new_reader}
use leveldb_chinese_annotate.Log.Reader.Assemble.{read_record}
use leveldb_chinese_annotate.Log.Reader.Stream.{bytes_file, Position, length-frame}
use leveldb_chinese_annotate.Log.Reader.RoundTrip.{read_record-Chunks}

-- The slices go into the log one after the other, and each AddRecord answers ok.
pub data Written (crc : Crc) : Writer Bytes → List Bytes → Writer Bytes → Type 0 where
  none_written : (w : Writer Bytes) → Written crc w [] w
  one_written :
      {w w1 w2 : Writer Bytes} (slice : Bytes) {slices : List Bytes}
      → add_record crc memory w slice ≡ some (Status.ok, w1)
      → Written crc w1 slices w2
      → Written crc w (slice ∷ slices) w2

-- The reader answers the slices one after the other.
pub data Reads (crc : Crc) (fuel : ℕ) : Reader Bytes → List Bytes → Type 0 where
  none_read : (r : Reader Bytes) → Reads crc fuel r []
  one_read :
      {r r1 : Reader Bytes} (slice : Bytes) {slices : List Bytes}
      → read_record crc bytes_file fuel r ≡ some (some slice, r1)
      → Reads crc fuel r1 slices
      → Reads crc fuel r (slice ∷ slices)

module _ (crc : Crc) where
  -- A layout of trailers only, and then one of records.
  join-Layout :
      {o middle end : ℕ} {front back : Bytes} {records : Records}
      → Layout crc o [] front middle
      → Layout crc middle records back end
      → Layout crc o records (front ++ back) end
  join-Layout (Layout.nothing o) l = l
  join-Layout {end = end} {back = back} {records = records}
        (Layout.trailer o z {out = out} eq small l1) l =
      subst (λ bytes. Layout crc o records bytes end) (sym (append_assoc _ out back))
        (Layout.trailer o z eq small (join-Layout l1 l))

  -- A physical record takes a byte at least.
  Layout-length :
      {o end : ℕ} {out : Bytes} {records : Records}
      → Layout crc o records out end
      → length records ≤ length out
  Layout-length (Layout.nothing o) = omega arith
  Layout-length (Layout.trailer o z {out = out} eq small l) =
      omega (arith, Layout-length l, length-append _ out)
  Layout-length (Layout.physical o t d {out = out} fits l) =
      omega (
        arith,
        Layout-length l,
        length-append (record_header crc t d ++ d) out,
        length-frame crc t d,
      )

  abbrev writer_of : Writer Bytes → Option (Status × Writer Bytes) → Writer Bytes
  writer_of default none = default
  writer_of default (some (s, w)) = w

  -- What a reader in front of the bytes that the writer added reads, when only trailers come before.
  sequence_read :
      (fuel : ℕ) (w w2 : Writer Bytes) (slices : List Bytes)
      → Written crc w slices w2
      → w.block_offset ≤ block_size
      → (added : Bytes) × (w2.dest ≡ w.dest ++ added)
        × ((r : Reader Bytes) (o : ℕ) (out : Bytes)
            → length added ≤ fuel
            → Layout crc o [] out w.block_offset
            → Position r o (out ++ added)
            → Reads crc fuel r slices)
  sequence_read fuel w w2 _ (Written.none_written _) h =
      ([], sym (append-nil w.dest), λ r o out f l p. Reads.none_read r)
  sequence_read fuel w w2 _ (Written.one_written {w1 = w1} slice {slices = slices} e rest) h =
      let (records, out1, wl, el, d, l1, c) = add_record-Layout crc w slice h in
      let (s, wb, eb, bound) = add_record-returns crc memory w slice h in
      let same : wl ≡ w1 = ap (writer_of w1) (sym el ∙ e) in
      let inside : w1.block_offset ≤ block_size =
        subst (λ (v : Writer Bytes). v.block_offset ≤ block_size) (ap (writer_of w1) (sym eb ∙ e))
          bound in
      let wrote : w1.dest ≡ w.dest ++ out1 =
        subst (λ (v : Writer Bytes). v.dest ≡ w.dest ++ out1) same d in
      let laid : Layout crc w.block_offset records out1 w1.block_offset =
        subst (λ (v : Writer Bytes). Layout crc w.block_offset records out1 v.block_offset) same
          l1 in
      let (added, e2, reads) = sequence_read fuel w1 w2 slices rest inside in
      let lengths = length-append out1 added in
      (
        out1 ++ added,
        e2 ∙ ap (λ (front : Bytes). front ++ added) wrote ∙ append_assoc w.dest out1 added,
        λ r o out f l p.
            let joined = join-Layout l laid in
            let ahead : Position r o ((out ++ out1) ++ added) =
              subst (Position r o) (sym (append_assoc out out1 added)) p in
            let (r2, o2, out2, e3, l3, q) =
              read_record-Chunks crc fuel r slice records o (out ++ out1) added w1.block_offset
                (omega (arith, lengths, Layout-length laid)) c joined ahead in
            Reads.one_read slice e3 (reads r2 o2 out2 (omega (arith, lengths)) l3 q),
      )

  -- Slices that AddRecord wrote to a new log, each with the answer ok, are what ReadRecord answers
  -- from the start of the log, one after the other, with the checksums tested or not. The length of
  -- the log is enough fuel.
  pub Reads-Written :
      (fuel : ℕ) (slices : List Bytes) (w2 : Writer Bytes) (reporter checksum : Bool)
      → Written crc (new_writer [] 0) slices w2
      → length w2.dest ≤ fuel
      → Reads crc fuel (new_reader w2.dest reporter checksum 0) slices
  unfolding new_writer new_reader
  Reads-Written fuel slices w2 reporter checksum written f =
      let (added, e, reads) =
        sequence_read fuel (new_writer [] 0) w2 slices written (omega arith) in
      reads (new_reader w2.dest reporter checksum 0) block_size [] (omega (arith, ap length e))
        (Layout.trailer block_size 0 (omega arith) (omega arith) (Layout.nothing 0))
        (refl, refl, inl (refl, e, omega arith))
