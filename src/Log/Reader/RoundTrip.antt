-- ===== src/Log/Reader/RoundTrip.antt =====
-- ReadRecord of db/log_reader.cc reads back what AddRecord of db/log_writer.cc wrote.
use leveldb_chinese_annotate.Prelude.{
  ℕ, zero, suc, ◌≤◌, ◌≡◌, refl, sym, ap, ◌∙◌, arith, Bool, true, false, not, Option, some, [], ◌++◌,
  length, ltb, append_assoc,
}
use leveldb_chinese_annotate.Coding.{Bytes}
use leveldb_chinese_annotate.Log.Crc.{Crc}
use leveldb_chinese_annotate.Log.Writer.{fragment_type}
use leveldb_chinese_annotate.Log.Writer.Content.{Records, Layout, Chunks}
use leveldb_chinese_annotate.Log.Reader.{Reader, read_physical_record}
use leveldb_chinese_annotate.Log.Reader.Assemble.{
  Assembly, Step, record_offset, assemble, resync, read_record_loop, read_record,
}
use leveldb_chinese_annotate.Log.Reader.Stream.{bytes_file, Position, read_physical_record-Layout}

module _ (a : Assembly Bytes) (d : Bytes) (offset : ℕ) where
  assemble_full :
      a.in_fragmented_record ≡ false
      → assemble a 1 d offset ≡ Step.found d (record a.reader { last_record_offset = offset })
  unfolding assemble
  assemble_full h = rw h refl

  assemble_first :
      a.in_fragmented_record ≡ false
      → assemble a 2 d offset
        ≡ Step.more (record a {
          scratch = d;
          in_fragmented_record = true;
          prospective_record_offset = offset;
        })
  unfolding assemble
  assemble_first h = rw h refl

  assemble_middle :
      a.in_fragmented_record ≡ true
      → assemble a 3 d offset ≡ Step.more (record a { scratch = a.scratch ++ d })
  unfolding assemble
  assemble_middle h = rw h refl

  assemble_last :
      a.in_fragmented_record ≡ true
      → assemble a 4 d offset
        ≡ Step.found
            (a.scratch ++ d)
            (record a.reader { last_record_offset = a.prospective_record_offset })
  unfolding assemble
  assemble_last h = rw h refl

module _ (crc : Crc) where
  -- The assembly after a physical record has been read.
  abbrev with_reader : Assembly Bytes → Reader Bytes → Assembly Bytes
  with_reader a r = record a { reader = record r { resyncing = false } }

  resync_off :
      (a : Assembly Bytes) (r : Reader Bytes) (t : ℕ) (d : Bytes) (offset : ℕ)
      → r.resyncing ≡ false
      → resync (record a { reader = r }) t d offset ≡ assemble (with_reader a r) t d offset
  unfolding resync
  resync_off a r t d offset h = rw h refl

  round_more :
      (fuel : ℕ) (a a1 : Assembly Bytes) (fragment : Bytes) (t : ℕ) (d : Bytes) (r : Reader Bytes)
      → read_physical_record crc bytes_file a.reader fragment ≡ some (t, d, r)
      → r.resyncing ≡ false
      → assemble (with_reader a r) t d (record_offset r d) ≡ Step.more a1
      → read_record_loop crc bytes_file (suc fuel) a fragment
        ≡ read_record_loop crc bytes_file fuel a1 d
  unfolding read_record_loop
  round_more fuel a a1 fragment t d r e h e2 = cc (e, resync_off a r t d (record_offset r d) h, e2)

  round_found :
      (fuel : ℕ) (a : Assembly Bytes) (fragment : Bytes) (t : ℕ) (d : Bytes) (r : Reader Bytes)
      (bytes : Bytes) (r1 : Reader Bytes)
      → read_physical_record crc bytes_file a.reader fragment ≡ some (t, d, r)
      → r.resyncing ≡ false
      → assemble (with_reader a r) t d (record_offset r d) ≡ Step.found bytes r1
      → read_record_loop crc bytes_file (suc fuel) a fragment ≡ some (some bytes, r1)
  unfolding read_record_loop
  round_found fuel a fragment t d r bytes r1 e h e2 =
      cc (e, resync_off a r t d (record_offset r d) h, e2)

  -- ReadRecord's loop has answered `bytes`, and stands in front of what is left of the layout.
  abbrev Answers : Option (Option Bytes × Reader Bytes) → Bytes → Bytes → ℕ → Type 0
  Answers answer bytes more end =
      (r : Reader Bytes) × (o : ℕ) × (out : Bytes) × (answer ≡ some (some bytes, r))
      × Layout crc o [] out end
      × Position r o (out ++ more)

  -- The fragments are joined behind what the scratch holds already.
  loop_joins :
      (fuel : ℕ) (a : Assembly Bytes) (fragment : Bytes) (begin : Bool) (slice : Bytes)
      (records : Records) (o : ℕ) (out more : Bytes) (end : ℕ)
      → length records ≤ fuel
      → a.in_fragmented_record ≡ not begin
      → (begin ≡ true → a.scratch ≡ [])
      → Chunks begin slice records
      → Layout crc o records out end
      → Position a.reader o (out ++ more)
      → Answers (read_record_loop crc bytes_file fuel a fragment) (a.scratch ++ slice) more end
  unfolding fragment_type
  loop_joins zero a fragment begin slice _ o out more end f hf hs (Chunks.end_chunk _ _) l p =
      absurd (omega arith)
  loop_joins zero a fragment begin slice _ o out more end f hf hs (Chunks.next_chunk _ _ _ c) l p =
      absurd (omega arith)
  loop_joins (suc fuel) a fragment true slice _ o out more end f hf hs (Chunks.end_chunk _ _) l p =
      let (r, o2, out2, e, l2, q) =
        read_physical_record-Layout crc a.reader fragment o 1 slice [] out more end (omega arith)
          (omega arith) l p in
      let joined : slice ≡ a.scratch ++ slice = ap (λ (s : Bytes). s ++ slice) (sym (hs refl)) in
      let r1 = record r { resyncing = false; last_record_offset = record_offset r slice } in
      let found =
        round_found fuel a fragment 1 slice r slice r1 e q.1
          (assemble_full (with_reader a r) slice (record_offset r slice) hf) in
      (r1, o2, out2, found ∙ ap (λ (s : Bytes). some (some s, r1)) joined, l2, (q.0, refl, q.2))
  loop_joins (suc fuel) a fragment false slice _ o out more end f hf hs (Chunks.end_chunk _ _) l p =
      let (r, o2, out2, e, l2, q) =
        read_physical_record-Layout crc a.reader fragment o 4 slice [] out more end (omega arith)
          (omega arith) l p in
      let r1 = record r { resyncing = false; last_record_offset = a.prospective_record_offset } in
      let found =
        round_found fuel a fragment 4 slice r (a.scratch ++ slice) r1 e q.1
          (assemble_last (with_reader a r) slice (record_offset r slice) hf) in
      (r1, o2, out2, found, l2, (q.0, refl, q.2))
  loop_joins (suc fuel) a fragment true slice _ o out more end f hf hs
        (Chunks.next_chunk _ d1 d2 {records = rest} c) l p =
      let (r, o2, out2, e, l2, q) =
        read_physical_record-Layout crc a.reader fragment o 2 d1 rest out more end (omega arith)
          (omega arith) l p in
      let a1 = record (with_reader a r) {
        scratch = d1;
        in_fragmented_record = true;
        prospective_record_offset = record_offset r d1;
      } in
      let goes =
        round_more fuel a a1 fragment 2 d1 r e q.1
          (assemble_first (with_reader a r) d1 (record_offset r d1) hf) in
      let (r3, o3, out3, e3, l3, q3) =
        loop_joins fuel a1 d1 false d2 rest o2 out2 more end (omega arith) refl (λ h. absurd (cc h))
          c l2 (q.0, refl, q.2) in
      let joined : d1 ++ d2 ≡ a.scratch ++ (d1 ++ d2) =
        ap (λ (s : Bytes). s ++ (d1 ++ d2)) (sym (hs refl)) in
      (r3, o3, out3, goes ∙ e3 ∙ ap (λ (s : Bytes). some (some s, r3)) joined, l3, q3)
  loop_joins (suc fuel) a fragment false slice _ o out more end f hf hs
        (Chunks.next_chunk _ d1 d2 {records = rest} c) l p =
      let (r, o2, out2, e, l2, q) =
        read_physical_record-Layout crc a.reader fragment o 3 d1 rest out more end (omega arith)
          (omega arith) l p in
      let a1 = record (with_reader a r) { scratch = a.scratch ++ d1 } in
      let goes =
        round_more fuel a a1 fragment 3 d1 r e q.1
          (assemble_middle (with_reader a r) d1 (record_offset r d1) hf) in
      let (r3, o3, out3, e3, l3, q3) =
        loop_joins fuel a1 d1 false d2 rest o2 out2 more end (omega arith) hf (λ h. absurd (cc h)) c
          l2 (q.0, refl, q.2) in
      let joined = append_assoc a.scratch d1 d2 in
      (r3, o3, out3, goes ∙ e3 ∙ ap (λ (s : Bytes). some (some s, r3)) joined, l3, q3)

  no_skip : (x y : ℕ) → y ≡ 0 → ltb x y ≡ false
  no_skip x y h = ground arith

  -- A reader that stands in front of a layout, whose first records carry a slice, reads the slice.
  pub read_record-Chunks :
      (fuel : ℕ) (r : Reader Bytes) (slice : Bytes) (records : Records) (o : ℕ) (out more : Bytes)
      (end : ℕ)
      → length records ≤ fuel
      → Chunks true slice records
      → Layout crc o records out end
      → Position r o (out ++ more)
      → Answers (read_record crc bytes_file fuel r) slice more end
  unfolding read_record
  read_record-Chunks fuel r slice records o out more end f c l p =
      let start : read_record crc bytes_file fuel r
          ≡ read_record_loop crc bytes_file fuel
              (record {
                reader = r;
                scratch = [];
                in_fragmented_record = false;
                prospective_record_offset = 0;
              })
              [] =
        rw (no_skip r.last_record_offset r.initial_offset p.0) refl in
      let (r2, o2, out2, e, l2, q) =
        loop_joins fuel
          (record {
            reader = r;
            scratch = [];
            in_fragmented_record = false;
            prospective_record_offset = 0;
          })
          [] true slice records o out more end f refl (λ h. refl) c l p in
      (r2, o2, out2, start ∙ e, l2, q)
