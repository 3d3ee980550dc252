-- ===== src/Log/Writer/Bounds.antt =====
-- AddRecord of db/log_writer.cc: that it returns, and where it leaves the writer.
use leveldb_chinese_annotate.Prelude.{
  ℕ, zero, suc, ◌+◌, ◌<◌, ◌≤◌, ◌≡◌, inl, inr, refl, ◌∙◌, arith, Bool, true, false, ◌&&◌, Option,
  some, length, length-take, length-drop, Bool-cases, take, drop, ltb, ◌==◌,
}
use leveldb_chinese_annotate.Coding.{Bytes}
use leveldb_chinese_annotate.Status.{Status, is_ok}
use leveldb_chinese_annotate.Log.{block_size, header_size}
use leveldb_chinese_annotate.Log.Crc.{Crc}
use leveldb_chinese_annotate.Log.Writer.{
  WritableFile, Writer, fragment_type, emit_physical_record, switch_block, fragment_length,
  emit_fragment, add_record_loop, add_record,
}

module _ {ℓ} {W : Type ℓ} (crc : Crc) (file : WritableFile W) where
  pub switch_block-offset :
      (w : Writer W)
      → w.block_offset ≤ block_size
      → ((switch_block crc file w).block_offset + header_size ≤ block_size)
        × (w.block_offset ≡ block_size → (switch_block crc file w).block_offset ≡ 0)
  unfolding switch_block
  switch_block-offset w h = ground arith

  emit_physical_record-offset :
      (w : Writer W) (t : ℕ) (payload : Bytes)
      → (emit_physical_record crc file w t payload).1.block_offset
        ≡ w.block_offset + (header_size + length payload)
  unfolding emit_physical_record
  emit_physical_record-offset w t payload = ground arith

  pub fragment_length_fits :
      (left offset : ℕ)
      → offset + header_size ≤ block_size
      → let n = fragment_length crc file left offset in
        (n ≤ left)
        × (offset + (header_size + n) ≤ block_size)
        × (n < left → offset + (header_size + n) ≡ block_size)
  fragment_length_fits left offset h = ground arith

  -- A fragment stays in its block; where data is left behind it, the block is full.
  pub emit_fragment-offset :
      (w : Writer W) (begin : Bool) (data_left : Bytes)
      → w.block_offset ≤ block_size
      → let out = emit_fragment crc file w begin data_left in
        (out.1.block_offset ≤ block_size)
        × (0 < length out.2 → out.1.block_offset ≡ block_size)
        × (length out.2 ≤ length data_left)
        × (w.block_offset ≡ block_size → 0 < length data_left → length out.2 < length data_left)
  unfolding emit_fragment
  emit_fragment-offset w begin data_left h =
      let w1 = switch_block crc file w in
      let left = length data_left in
      let n = fragment_length crc file left w1.block_offset in
      let t = fragment_type begin (left == n) in
      let at = switch_block-offset w h in
      let fit = fragment_length_fits left w1.block_offset at.0 in
      let moved : (emit_physical_record crc file w1 t (take n data_left)).1.block_offset
          ≡ w1.block_offset + (header_size + n) =
        emit_physical_record-offset w1 t (take n data_left)
        ∙ omega (arith, length-take n data_left, fit) in
      let rest = length-drop n data_left in
      (
        omega (arith, moved, fit),
        (λ (some_left : 0 < length (drop n data_left)). moved ∙ fit.2 (omega (arith, rest))),
        omega (arith, rest),
        (λ (full : w.block_offset ≡ block_size) (l : 0 < left).
            ground (arith, at.1 full, fit, rest)),
      )

  -- The loop answers, and the writer stays inside a block.
  abbrev StaysInside : Option (Status × Writer W) → Type ℓ
  StaysInside answer =
      (s : Status) × (w2 : Writer W) × (answer ≡ some (s, w2)) × (w2.block_offset ≤ block_size)

  -- One round, for a loop that returns from the end of a block on.
  add_record_round :
      (fuel : ℕ) (w : Writer W) (begin : Bool) (data_left : Bytes)
      → w.block_offset ≤ block_size
      → ((w2 : Writer W) (rest : Bytes)
          → w2.block_offset ≡ block_size
          → 0 < length rest
          → length rest ≤ length (emit_fragment crc file w begin data_left).2
          → StaysInside (add_record_loop crc file fuel w2 false rest))
      → StaysInside (add_record_loop crc file (suc fuel) w begin data_left)
  unfolding add_record_loop
  add_record_round fuel w begin data_left h later =
      let (s, w2, rest) = emit_fragment crc file w begin data_left in
      let out = emit_fragment-offset w begin data_left h in
      elim (Bool-cases (is_ok s && ltb 0 (length rest))) [
        | inl goes ↦
            let some_left : 0 < length rest = ground arith in
            let (s3, w3, e, o) = later w2 rest (out.1 some_left) some_left (omega arith) in
            (s3, w3, rw goes e, o)
        | inr stops ↦ (s, w2, rw stops refl, out.0)
      ]

  -- From the end of a block on, each round takes at least a byte.
  add_record_loop-StaysInside :
      (fuel : ℕ) (w : Writer W) (begin : Bool) (data_left : Bytes)
      → w.block_offset ≡ block_size
      → 0 < length data_left
      → length data_left ≤ fuel
      → StaysInside (add_record_loop crc file fuel w begin data_left)
  add_record_loop-StaysInside zero w begin data_left h l f = absurd (omega arith)
  add_record_loop-StaysInside (suc fuel) w begin data_left h l f =
      let shorter = (emit_fragment-offset w begin data_left (omega arith)).3 h l in
      add_record_round fuel w begin data_left (omega arith) (λ w2 rest full some_left le.
        add_record_loop-StaysInside fuel w2 false rest full some_left (omega arith))

  -- AddRecord returns, whatever the file answers to the writes, and the writer stays inside a block,
  -- for a writer that is inside a block.
  pub add_record-returns :
      (w : Writer W) (slice : Bytes)
      → w.block_offset ≤ block_size
      → (s : Status) × (w2 : Writer W) × (add_record crc file w slice ≡ some (s, w2))
        × (w2.block_offset ≤ block_size)
  unfolding add_record
  add_record-returns w slice h =
      add_record_round (suc (length slice)) w true slice h (λ w2 rest full some_left le.
        add_record_loop-StaysInside (suc (length slice)) w2 false rest full some_left
          (omega (arith, (emit_fragment-offset w true slice h).2)))
