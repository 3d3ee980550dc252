-- ===== src/Log/Writer/Content.antt =====
-- What AddRecord of db/log_writer.cc puts into a file that takes every write.
use mathlib.Core.Path.{subst}
use leveldb_chinese_annotate.Prelude.{
  ℕ, zero, suc, ◌+◌, ◌-◌, ◌<◌, ◌≤◌, ◌≡◌, ◌⊎◌, inl, inr, refl, sym, ap, ◌∙◌, arith, Bool, true,
  false, not, if◌then◌else◌, Bool-cases, List, Option, some, [], ◌∷◌, ◌++◌, length, length-take,
  length-drop, take, drop, take-append-drop, ltb, ◌==◌, replicate, append_assoc, append-nil,
}
use leveldb_chinese_annotate.Coding.{Bytes}
use leveldb_chinese_annotate.Status.{Status}
use leveldb_chinese_annotate.Log.{block_size, header_size}
use leveldb_chinese_annotate.Log.Crc.{Crc}
use leveldb_chinese_annotate.Log.Writer.{
  WritableFile, Writer, record_header, fragment_type, emit_physical_record, switch_block,
  fragment_length, emit_fragment, add_record_loop, add_record,
}
use leveldb_chinese_annotate.Log.Writer.Bounds.{
  switch_block-offset, emit_fragment-offset, fragment_length_fits,
}

-- A file that keeps every byte.
abbrev pub memory : WritableFile Bytes
memory = record {
  file_append = λ bytes contents. (Status.ok, contents ++ bytes);
  flush = λ contents. (Status.ok, contents);
}

-- Physical records, their type and their payload.
abbrev pub Records : Type 0
Records = List (ℕ × Bytes)

-- `Layout crc o records out o'`: `out` holds the records, when it begins at offset `o` of a block,
-- and ends at offset `o'`. A record lies in one block; less than a header at its end is zero bytes.
pub data Layout (crc : Crc) : ℕ → Records → Bytes → ℕ → Type 0 where
  nothing : (o : ℕ) → Layout crc o [] [] o
  trailer :
      (o z : ℕ) {records : Records} {out : Bytes} {o' : ℕ}
      → o + z ≡ block_size
      → z < header_size
      → Layout crc 0 records out o'
      → Layout crc o records (replicate z 0 ++ out) o'
  physical :
      (o t : ℕ) (payload : Bytes) {records : Records} {out : Bytes} {o' : ℕ}
      → o + (header_size + length payload) ≤ block_size
      → Layout crc (o + (header_size + length payload)) records out o'
      → Layout crc o ((t, payload) ∷ records) (record_header crc t payload ++ payload ++ out) o'

-- `Chunks begin slice records`: the records carry `slice` piece by piece, with the types of a full
-- record or of a first, middle and last fragment.
pub data Chunks : Bool → Bytes → Records → Type 0 where
  end_chunk : (begin : Bool) (d : Bytes) → Chunks begin d ((fragment_type begin true, d) ∷ [])
  next_chunk :
      (begin : Bool) (d1 d2 : Bytes) {records : Records}
      → Chunks false d2 records
      → Chunks begin (d1 ++ d2) ((fragment_type begin false, d1) ∷ records)

module _ (crc : Crc) where
  -- What a writer has become after writing `out`.
  abbrev After : Writer Bytes → Records → Bytes → Writer Bytes → Type 0
  After w records out w2 =
      (w2.dest ≡ w.dest ++ out) × Layout crc w.block_offset records out w2.block_offset

  switch_block-cases :
      (w : Writer Bytes)
      → w.block_offset ≤ block_size
      → (switch_block crc memory w ≡ w)
        ⊎ ((z : ℕ) × (w.block_offset + z ≡ block_size)
            × (z < header_size)
            × (switch_block crc memory w
                ≡ record { dest = w.dest ++ replicate z 0; block_offset = 0 }))
  unfolding switch_block
  switch_block-cases w h =
      let z = block_size - w.block_offset in
      elim (Bool-cases (ltb z header_size)) [
        | inr room ↦ inl (rw room refl)
        | inl full ↦ inr (
          z,
          omega arith,
          ground arith,
          rw full (ap (λ (d : Bytes). record { dest = d; block_offset = 0 }) (filled w.dest z)),
        )
      ]
    where
      filled :
          (d : Bytes) (z : ℕ) → (if ltb 0 z then d ++ replicate z 0 else d) ≡ d ++ replicate z 0
      filled d zero = sym (append-nil d)
      filled d (suc z) = ground arith

  switch_block-After :
      (w w2 : Writer Bytes) (records : Records) (out : Bytes)
      → w.block_offset ≤ block_size
      → After (switch_block crc memory w) records out w2
      → (out' : Bytes) × After w records out' w2
  switch_block-After w w2 records out h a = elim (switch_block-cases w h) [
    | inl same ↦ (out, subst (λ v. After v records out w2) same a)
    | inr (z, eq, small, e) ↦
        let (d, l) = subst (λ v. After v records out w2) e a in
        (
          replicate z 0 ++ out,
          (d ∙ append_assoc w.dest (replicate z 0) out, Layout.trailer w.block_offset z eq small l),
        )
  ]

  emit_physical_record-After :
      (w w2 : Writer Bytes) (t : ℕ) (payload : Bytes) (records : Records) (out : Bytes)
      → w.block_offset + (header_size + length payload) ≤ block_size
      → After (emit_physical_record crc memory w t payload).1 records out w2
      → After w ((t, payload) ∷ records) (record_header crc t payload ++ payload ++ out) w2
  unfolding emit_physical_record
  emit_physical_record-After w w2 t payload records out h (e, l) =
      let h1 = record_header crc t payload in
      (
        e
            ∙ ap (λ (front : Bytes). front ++ out) (append_assoc w.dest h1 payload)
            ∙ append_assoc w.dest (h1 ++ payload) out,
        Layout.physical w.block_offset t payload h l,
      )

  -- One fragment, then what the writer writes after it.
  emit_fragment-After :
      (w w2 : Writer Bytes) (begin : Bool) (data_left : Bytes) (records : Records) (out : Bytes)
      → w.block_offset ≤ block_size
      → After (emit_fragment crc memory w begin data_left).1 records out w2
      → (t : ℕ) × (d : Bytes) × (out' : Bytes) × (d
            ++ (emit_fragment crc memory w begin data_left).2
          ≡ data_left)
        × (t
            ≡ fragment_type begin
                (not (ltb 0 (length (emit_fragment crc memory w begin data_left).2))))
        × After w ((t, d) ∷ records) out' w2
  unfolding emit_fragment
  emit_fragment-After w w2 begin data_left records out h a =
      let w1 = switch_block crc memory w in
      let left = length data_left in
      let n = fragment_length crc memory left w1.block_offset in
      let t = fragment_type begin (left == n) in
      let d = take n data_left in
      let fit =
        fragment_length_fits crc memory left w1.block_offset
          (switch_block-offset crc memory w h).0 in
      let written =
        emit_physical_record-After w1 w2 t d records out
          (omega (arith, length-take n data_left, fit)) a in
      let (out', after) = switch_block-After w w2 ((t, d) ∷ records) _ h written in
      let last : (left == n) ≡ not (ltb 0 (length (drop n data_left))) =
        ground (arith, length-drop n data_left, fit.0) in
      (t, d, out', take-append-drop n data_left, ap (fragment_type begin) last, after)

  -- What the loop does on `data_left`.
  abbrev Writes : Writer Bytes → Bool → Bytes → Option (Status × Writer Bytes) → Type 0
  Writes w begin data_left answer =
      (records : Records) × (out : Bytes) × (w2 : Writer Bytes) × (answer ≡ some (Status.ok, w2))
      × After w records out w2
      × Chunks begin data_left records

  emit_fragment-ok :
      (w : Writer Bytes) (begin : Bool) (data_left : Bytes)
      → (emit_fragment crc memory w begin data_left).0 ≡ Status.ok
  unfolding emit_fragment emit_physical_record
  emit_fragment-ok w begin data_left = refl

  chunk_more :
      (begin : Bool) (d rest data_left : Bytes) (t : ℕ) (records : Records)
      → d ++ rest ≡ data_left
      → t ≡ fragment_type begin false
      → Chunks false rest records
      → Chunks begin data_left ((t, d) ∷ records)
  chunk_more begin d rest data_left t records e et c =
      subst (λ v. Chunks begin v ((t, d) ∷ records)) e
        (subst (λ u. Chunks begin (d ++ rest) ((u, d) ∷ records)) (sym et)
          (Chunks.next_chunk begin d rest c))

  chunk_end :
      (begin : Bool) (d rest data_left : Bytes) (t : ℕ)
      → d ++ rest ≡ data_left
      → length rest ≡ 0
      → t ≡ fragment_type begin true
      → Chunks begin data_left ((t, d) ∷ [])
  chunk_end begin d (x ∷ rest) data_left t e el et = absurd (omega arith)
  chunk_end begin d [] data_left t e el et =
      subst (λ v. Chunks begin v ((t, d) ∷ [])) (sym (append-nil d) ∙ e)
        (subst (λ u. Chunks begin d ((u, d) ∷ [])) (sym et) (Chunks.end_chunk begin d))

  -- One round, for a loop that writes the rest of the data from the end of a block on.
  add_record_loop_round :
      (fuel : ℕ) (w : Writer Bytes) (begin : Bool) (data_left : Bytes)
      → w.block_offset ≤ block_size
      → let out = emit_fragment crc memory w begin data_left in
        (0 < length out.2
          → Writes out.1 false out.2 (add_record_loop crc memory fuel out.1 false out.2))
        → Writes w begin data_left (add_record_loop crc memory (suc fuel) w begin data_left)
  unfolding add_record_loop
  add_record_loop_round fuel w begin data_left h later =
      let (s, w1, rest) = emit_fragment crc memory w begin data_left in
      let fine = emit_fragment-ok w begin data_left in
      elim (Bool-cases (ltb 0 (length rest))) [
        | inl goes ↦
            let (records, out, w2, e, a, c) = later (ground arith) in
            let (t, d, out', cat, et, after) =
              emit_fragment-After w w2 begin data_left records out h a in
            (
              (t, d) ∷ records,
              out',
              w2,
              rw (fine, goes) e,
              after,
              chunk_more begin d rest data_left t records cat
                  (et ∙ ap (λ (b : Bool). fragment_type begin (not b)) goes) c,
            )
        | inr stops ↦
            let (t, d, out', cat, et, after) =
              emit_fragment-After w w1 begin data_left [] [] h
                (sym (append-nil w1.dest), Layout.nothing w1.block_offset) in
            (
              (t, d) ∷ [],
              out',
              w1,
              rw (fine, stops) refl,
              after,
              chunk_end begin d rest data_left t cat (ground arith)
                  (et ∙ ap (λ (b : Bool). fragment_type begin (not b)) stops),
            )
      ]

  -- From the end of a block on, each round writes at least a byte.
  add_record_loop-Writes :
      (fuel : ℕ) (w : Writer Bytes) (begin : Bool) (data_left : Bytes)
      → w.block_offset ≡ block_size
      → 0 < length data_left
      → length data_left ≤ fuel
      → Writes w begin data_left (add_record_loop crc memory fuel w begin data_left)
  add_record_loop-Writes zero w begin data_left h l f = absurd (omega arith)
  add_record_loop-Writes (suc fuel) w begin data_left h l f =
      let (s, w1, rest) = emit_fragment crc memory w begin data_left in
      let out = emit_fragment-offset crc memory w begin data_left (omega arith) in
      add_record_loop_round fuel w begin data_left (omega arith) (λ some_left.
        add_record_loop-Writes fuel w1 false rest (out.1 some_left) some_left
          (omega (arith, out.3 h l)))

  -- What AddRecord does, in the writer's own terms.
  pub add_record-Layout :
      (w : Writer Bytes) (slice : Bytes)
      → w.block_offset ≤ block_size
      → (records : Records) × (out : Bytes) × (w2 : Writer Bytes) × (add_record crc memory w slice
          ≡ some (Status.ok, w2))
        × (w2.dest ≡ w.dest ++ out)
        × Layout crc w.block_offset records out w2.block_offset
        × Chunks true slice records
  unfolding add_record
  add_record-Layout w slice h =
      let (s, w1, rest) = emit_fragment crc memory w true slice in
      let out = emit_fragment-offset crc memory w true slice h in
      let (records, written, w2, e, (d, l), c) =
        add_record_loop_round (suc (length slice)) w true slice h (λ some_left.
          add_record_loop-Writes (suc (length slice)) w1 false rest (out.1 some_left) some_left
            (omega (arith, out.2))) in
      (records, written, w2, e, d, l, c)
