-- ===== src/Log/Reader/Stream.antt =====
-- ReadPhysicalRecord of db/log_reader.cc on a file that holds a layout of physical records: block
-- after block, it meets them in their order.
use mathlib.Core.Path.{subst}
use leveldb_chinese_annotate.Prelude.{
  ℕ, zero, suc, ◌+◌, ◌<◌, ◌≤◌, ◌≡◌, ◌⊎◌, inl, inr, refl, ap, ◌∙◌, arith, true, false, Bool-cases,
  some, [], ◌∷◌, ◌++◌, length, length-append, length-take, take, drop, take-append-drop,
  append_assoc, ltb, min, replicate, ◌^◌, ◌%◌,
}
use leveldb_chinese_annotate.Coding.{Bytes}
use leveldb_chinese_annotate.Status.{Status}
use leveldb_chinese_annotate.Log.{block_size, header_size}
use leveldb_chinese_annotate.Log.Crc.{Crc}
use leveldb_chinese_annotate.Log.Writer.{record_header}
use leveldb_chinese_annotate.Log.Writer.Content.{Records, Layout}
use leveldb_chinese_annotate.Log.Reader.{
  SequentialFile, Reader, Round, refill, read_physical_record, physical_round,
}
use leveldb_chinese_annotate.Log.Reader.Frames.{
  read_physical_record-return, physical_round-emitted, read_physical_record-second,
}

-- A file as the bytes that are still to be read.
abbrev pub bytes_file : SequentialFile Bytes
bytes_file = record {
  file_read = λ n f. (Status.ok, take n f, drop n f);
  file_skip = λ n f. (Status.ok, drop n f);
}

-- The reader stands at offset `o` of a block, and `rest` is all that follows there: the buffer goes
-- up to the end of the block, or the file ends before it.
abbrev pub Position : Reader Bytes → ℕ → Bytes → Type 0
Position r o rest =
    (r.initial_offset ≡ 0)
    × (r.resyncing ≡ false)
    × (((r.eof ≡ false) × (r.buffer ++ r.source ≡ rest) × (length r.buffer + o ≡ block_size))
        ⊎ ((r.eof ≡ true) × (r.buffer ≡ rest) × (length r.buffer + o < block_size)))

-- Of two ways to cut a list, the first piece of the shorter begins that of the longer.
split_front :
    (xs ys buf src : Bytes)
    → buf ++ src ≡ xs ++ ys
    → length xs ≤ length buf
    → (mid : Bytes) × (buf ≡ xs ++ mid) × (mid ++ src ≡ ys)
split_front [] ys buf src e h = (buf, refl, e)
split_front (x ∷ xs) ys [] src e h = absurd (omega arith)
split_front (x ∷ xs) ys (b ∷ buf) src e h =
    let (mid, e1, e2) = split_front xs ys buf src (ap (drop 1) e) (omega arith) in
    (mid, cc (e, e1), e2)

module _ (crc : Crc) where
  length-record_header :
      (t : ℕ) (payload : Bytes) → length (record_header crc t payload) ≡ header_size
  unfolding record_header leveldb_chinese_annotate.Coding.encode_fixed32
  length-record_header t payload = refl

  pub length-frame :
      (t : ℕ) (payload : Bytes)
      → length (record_header crc t payload ++ payload) ≡ header_size + length payload
  length-frame t payload =
      length-append (record_header crc t payload) payload
      ∙ ap (λ (n : ℕ). n + length payload) (length-record_header t payload)

  -- A physical record that begins where the reader stands is in the buffer.
  record_in_buffer :
      (r : Reader Bytes) (o t : ℕ) (payload tail : Bytes)
      → o + (header_size + length payload) ≤ block_size
      → Position r o (record_header crc t payload ++ payload ++ tail)
      → (mid : Bytes) × (r.buffer ≡ record_header crc t payload ++ payload ++ mid)
        × Position (record r { buffer = mid }) (o + (header_size + length payload)) tail
  record_in_buffer r o t payload tail h (hi, hr, inr (e, eq, l)) =
      let frame = record_header crc t payload ++ payload in
      let lengths : length r.buffer ≡ length frame + length tail =
        ap length eq ∙ length-append frame tail in
      (tail, eq, (hi, hr, inr (e, refl, omega (arith, lengths, length-frame t payload))))
  record_in_buffer r o t payload tail h (hi, hr, inl (e, eq, l)) =
      let frame = record_header crc t payload ++ payload in
      let (mid, e1, e2) =
        split_front frame tail r.buffer r.source eq (omega (arith, length-frame t payload)) in
      let lengths : length r.buffer ≡ length frame + length mid =
        ap length e1 ∙ length-append frame mid in
      (mid, e1, (hi, hr, inl (e, e2, omega (arith, lengths, length-frame t payload))))

  length-zeros : (z : ℕ) → length {A = ℕ} (replicate z 0) ≡ z
  length-zeros zero = refl
  length-zeros (suc z) = omega (arith, length-zeros z)

  behind_zeros :
      (z : ℕ) (buf src tail : Bytes)
      → buf ++ src ≡ replicate z 0 ++ tail
      → length buf ≡ z
      → src ≡ tail
  behind_zeros z buf src tail eq l =
      let (mid, e1, e2) =
        split_front (replicate z 0) tail buf src eq (omega (arith, length-zeros z)) in
      let lengths : length buf ≡ z + length mid =
        ap length e1
        ∙ length-append (replicate z 0) mid
        ∙ ap (λ (n : ℕ). n + length mid) (length-zeros z) in
      empty mid (omega arith) e2
    where
      empty : (mid : Bytes) → length mid ≡ 0 → mid ++ src ≡ tail → src ≡ tail
      empty [] l e = e
      empty (x ∷ mid) l e = absurd (omega arith)

  short_take :
      (n : ℕ) (src : Bytes)
      → ltb (length (take n src)) n ≡ true
      → (take n src ≡ src) × (length (take n src) < n)
  short_take n src h = let less : length (take n src) < n = ground arith in (all n src less, less)
    where
      all : (n : ℕ) (src : Bytes) → length (take n src) < n → take n src ≡ src
      all zero src less = absurd (omega arith)
      all (suc n) [] less = refl
      all (suc n) (x ∷ src) less = ap (◌∷◌ x) (all n src (omega arith))

  full_take :
      (n : ℕ) (src : Bytes) → ltb (length (take n src)) n ≡ false → length (take n src) + 0 ≡ n
  full_take n src h =
      let most : length (take n src) ≡ min n (length src) = length-take n src in
      let least : n ≤ length (take n src) = ground arith in omega (arith, most, least)

  -- Less than a header in front of the end of the block: the next block is read.
  next_block :
      (r : Reader Bytes) (o z : ℕ) (tail result : Bytes)
      → o + z ≡ block_size
      → z < header_size
      → Position r o (replicate z 0 ++ tail)
      → (r1 : Reader Bytes) × (physical_round crc bytes_file r result ≡ Round.continue r1)
        × Position r1 0 tail
  unfolding refill
  next_block r o z tail result h hz (hi, hr, inr (e, eq, l)) =
      let lengths : length r.buffer ≡ z + length tail =
        ap length eq
        ∙ length-append (replicate z 0) tail
        ∙ ap (λ (n : ℕ). n + length tail) (length-zeros z) in
      absurd (omega (arith, lengths))
  next_block r o z tail result h hz (hi, hr, inl (e, eq, l)) =
      let same = behind_zeros z r.buffer r.source tail eq (omega arith) in
      let block = take block_size r.source in
      let r1 = record r {
        source = drop block_size r.source;
        buffer = block;
        end_of_buffer_offset = (r.end_of_buffer_offset + length block) % 2 ^ 64;
      } in
      let cut = take-append-drop block_size r.source in
      elim (Bool-cases (ltb (length block) block_size)) [
        | inl short ↦
            let (whole, less) = short_take block_size r.source short in
            (
              record r1 { eof = true },
              ground (arith, short),
              (hi, hr, inr (refl, whole ∙ same, omega (arith, less))),
            )
        | inr full ↦ (
          r1,
          ground (arith, full),
          (hi, hr, inl (e, cut ∙ same, full_take block_size r.source full)),
        )
      ]

  -- A physical record where the reader stands is what the next round returns.
  round_here :
      (r : Reader Bytes) (result : Bytes) (o t : ℕ) (d tail more : Bytes)
      → t ≤ 4
      → 1 ≤ t
      → o + (header_size + length d) ≤ block_size
      → Position r o ((record_header crc t d ++ d ++ tail) ++ more)
      → (r2 : Reader Bytes) × (physical_round crc bytes_file r result ≡ Round.return t d r2)
        × Position r2 (o + (header_size + length d)) (tail ++ more)
  round_here r result o t d tail more ht h1 fits p =
      let p' : Position r o (record_header crc t d ++ d ++ (tail ++ more)) =
        subst (Position r o) (append_assoc (record_header crc t d ++ d) tail more) p in
      let (mid, e, q) = record_in_buffer r o t d (tail ++ more) fits p' in
      (
        record r { buffer = mid },
        physical_round-emitted crc bytes_file r result t d mid ht h1 (omega arith) p.0 e,
        q,
      )

  -- What ReadPhysicalRecord has done: it returned this record, and stands in front of the others.
  abbrev Advances : Reader Bytes → Bytes → ℕ → Bytes → Records → Bytes → ℕ → Type 0
  Advances r result t d records more end =
      (r2 : Reader Bytes) × (o : ℕ) × (out : Bytes) × (read_physical_record crc bytes_file r result
        ≡ some (t, d, r2))
      × Layout crc o records out end
      × Position r2 o (out ++ more)

  after_trailer :
      (r r1 : Reader Bytes) (result : Bytes) (o t : ℕ) (d : Bytes) (records : Records)
      (out more : Bytes) (end : ℕ)
      → t ≤ 4
      → 1 ≤ t
      → o ≡ 0
      → physical_round crc bytes_file r result ≡ Round.continue r1
      → Layout crc o ((t, d) ∷ records) out end
      → Position r1 o (out ++ more)
      → Advances r result t d records more end
  after_trailer r r1 result o t d records out more end ht h1 ho e (Layout.trailer _ z eq small l)
        p =
      absurd (omega arith)
  after_trailer r r1 result o t d records out more end ht h1 ho e
        (Layout.physical _ _ _ {out = tail} fits l) p =
      let (r2, e2, q) = round_here r1 result o t d tail more ht h1 fits p in
      (r2, _, tail, read_physical_record-second crc bytes_file r r1 result t d r2 e e2, l, q)

  -- Where a layout of physical records is ahead, ReadPhysicalRecord returns the first of them, and the
  -- others are ahead: over the trailers and from block to block.
  pub read_physical_record-Layout :
      (r : Reader Bytes) (result : Bytes) (o t : ℕ) (d : Bytes) (records : Records)
      (out more : Bytes) (end : ℕ)
      → t ≤ 4
      → 1 ≤ t
      → Layout crc o ((t, d) ∷ records) out end
      → Position r o (out ++ more)
      → Advances r result t d records more end
  read_physical_record-Layout r result o t d records out more end ht h1
        (Layout.trailer _ z {out = tail} eq small l) p =
      let p' : Position r o (replicate z 0 ++ (tail ++ more)) =
        subst (Position r o) (append_assoc (replicate z 0) tail more) p in
      let (r1, e, q) = next_block r o z (tail ++ more) result eq small p' in
      after_trailer r r1 result 0 t d records tail more end ht h1 refl e l q
  read_physical_record-Layout r result o t d records out more end ht h1
        (Layout.physical _ _ _ {out = tail} fits l) p =
      let (r2, e2, q) = round_here r result o t d tail more ht h1 fits p in
      (r2, _, tail, read_physical_record-return crc bytes_file r result t d r2 e2, l, q)
