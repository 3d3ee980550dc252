-- ===== src/Log/Reader/Frames.antt =====
-- ReadPhysicalRecord of db/log_reader.cc: that it returns, and what it makes of the physical
-- records of EmitPhysicalRecord.
use leveldb_chinese_annotate.Prelude.{
  ℕ, zero, suc, ◌+◌, ◌*◌, ◌/◌, ◌%◌, ◌^◌, ◌<◌, ◌≤◌, ◌≡◌, ◌≢◌, ◌⊎◌, inl, inr, get_or, refl, ap, ◌∙◌,
  arith, true, none, some, [], ◌∷◌, ◌++◌, length, length-append, take, drop, take-append,
  drop-append, bit_or,
}
use leveldb_chinese_annotate.Prelude.Bits.{bit_or-shifted}
use leveldb_chinese_annotate.Coding.{Bytes, encode_fixed32, decode_fixed32}
use leveldb_chinese_annotate.Coding.Fixed.{decode-encode_fixed32}
use leveldb_chinese_annotate.Log.{header_size}
use leveldb_chinese_annotate.Log.Crc.{
  Crc, value, mask, unmask, unmask-mask, mask-IsU32, value-IsU32,
}
use leveldb_chinese_annotate.Log.Writer.{record_header, type_crc}
use leveldb_chinese_annotate.Log.Reader.{
  SequentialFile, Reader, Round, refill, parse_record, physical_loop, read_physical_record,
  physical_round,
}

-- What the header stores for the checksum.
abbrev stored : Crc → ℕ → Bytes → ℕ
stored crc t payload = mask (value crc (t ∷ payload))

type_crc_extend :
    (crc : Crc) (t : ℕ) (payload : Bytes)
    → t ≤ 4
    → crc.extend (get_or (type_crc crc) t 0) payload ≡ value crc (t ∷ payload)
unfolding value
type_crc_extend crc zero payload h = crc.extend-append 0 (0 ∷ []) payload
type_crc_extend crc (suc zero) payload h = crc.extend-append 0 (1 ∷ []) payload
type_crc_extend crc (suc (suc zero)) payload h = crc.extend-append 0 (2 ∷ []) payload
type_crc_extend crc (suc (suc (suc zero))) payload h = crc.extend-append 0 (3 ∷ []) payload
type_crc_extend crc (suc (suc (suc (suc zero)))) payload h = crc.extend-append 0 (4 ∷ []) payload
type_crc_extend crc (suc (suc (suc (suc (suc t))))) payload h = absurd (omega arith)

record_header_shape :
    (crc : Crc) (t : ℕ) (payload : Bytes)
    → t ≤ 4
    → record_header crc t payload
      ≡ encode_fixed32 (stored crc t payload)
        ++ ((length payload % 256) ∷ (length payload / 2 ^ 8 % 256) ∷ t ∷ [])
unfolding record_header
record_header_shape crc t payload h = rw (type_crc_extend crc t payload h) refl

length_field : (n : ℕ) → n < 2 ^ 16 → bit_or (n % 256) (n / 2 ^ 8 % 256 * 2 ^ 8) ≡ n
length_field n h = omega (arith, bit_or-shifted 8 (n % 256) (n / 2 ^ 8 % 256) (omega arith))

module _ {ℓ} {R : Type ℓ} (crc : Crc) (file : SequentialFile R) where
  -- After a read the buffer holds a header or the file has ended.
  refill_progress :
      (r r1 : Reader R) (result : Bytes)
      → refill crc file r result ≡ Round.continue r1
      → (r1.eof ≡ true) ⊎ (header_size ≤ length r1.buffer)
  unfolding refill
  refill_progress r r1 result e = ground arith

  refill_ended :
      (r r1 : Reader R) (result : Bytes)
      → r.eof ≡ true
      → refill crc file r result ≢ Round.continue r1
  unfolding refill
  refill_ended r r1 result h e = ground arith

  parse_record_ends :
      (r r1 : Reader R) (result : Bytes) → parse_record crc file r result ≢ Round.continue r1
  unfolding parse_record
  parse_record_ends r r1 result e = ground arith

  -- A second round does not go on.
  second_round :
      (r r1 r2 : Reader R) (result : Bytes)
      → physical_round crc file r result ≡ Round.continue r1
      → physical_round crc file r1 result ≢ Round.continue r2
  second_round r r1 r2 result e e2 = ground (
    arith,
    refill_progress r r1 result,
    refill_ended r1 r2 result,
    parse_record_ends r r1 result,
    parse_record_ends r1 r2 result,
  )

  round_cases :
      (m : Round R)
      → ((r1 : Reader R) × (m ≡ Round.continue r1))
        ⊎ ((t : ℕ) × (fragment : Bytes) × (r1 : Reader R) × (m ≡ Round.return t fragment r1))
  round_cases (Round.continue r1) = inl (r1, refl)
  round_cases (Round.return t fragment r1) = inr (t, fragment, r1, refl)

  -- ReadPhysicalRecord returns, whatever the file answers.
  pub read_physical_record-returns :
      (r : Reader R) (result : Bytes) → read_physical_record crc file r result ≢ none
  unfolding read_physical_record physical_loop
  read_physical_record-returns r result e = elim (round_cases (physical_round crc file r result)) [
    | inr (t, fragment, r1, e1) ↦ cc (e, e1)
    | inl (r1, e1) ↦ elim (round_cases (physical_round crc file r1 result)) [
      | inl (r2, e2) ↦ second_round r r1 r2 result e1 e2
      | inr (t, fragment, r2, e2) ↦ cc (e, e1, e2)
    ]
  ]

  -- A whole record in the buffer, its header byte by byte.
  parse_record-frame :
      (r : Reader R) (result : Bytes) (c0 c1 c2 c3 l0 l1 t : ℕ) (payload rest : Bytes)
      → t ≤ 4
      → 1 ≤ t
      → r.initial_offset ≡ 0
      → r.buffer ≡ c0 ∷ c1 ∷ c2 ∷ c3 ∷ l0 ∷ l1 ∷ t ∷ (payload ++ rest)
      → bit_or l0 (l1 * 2 ^ 8) ≡ length payload
      → unmask (decode_fixed32 (c0 ∷ c1 ∷ c2 ∷ c3 ∷ l0 ∷ l1 ∷ t ∷ (payload ++ rest)))
        ≡ value crc (t ∷ payload)
      → physical_round crc file r result ≡ Round.return t payload (record r { buffer = rest })
  unfolding parse_record
  parse_record-frame r result c0 c1 c2 c3 l0 l1 t payload rest ht h1 hi e hl hc =
      let b = c0 ∷ c1 ∷ c2 ∷ c3 ∷ l0 ∷ l1 ∷ t ∷ (payload ++ rest) in
      let n = length payload in
      let covered : take (1 + n) (t ∷ (payload ++ rest)) ≡ t ∷ payload =
        take-append (1 + n) (t ∷ payload) rest (omega arith) in
      let left : drop (header_size + n) b ≡ rest =
        drop-append (header_size + n) (c0 ∷ c1 ∷ c2 ∷ c3 ∷ l0 ∷ l1 ∷ t ∷ payload) rest
          (omega arith) in
      let fits : header_size + n ≤ length b = omega (arith, length-append payload rest) in
      let read : physical_round crc file (record r { buffer = b }) result
          ≡ Round.return t payload (record r { buffer = rest }) =
        rw (hl, hc, covered, left, hi) (ground (arith, take-append n payload rest refl)) in
      ap (λ (buffer : Bytes). physical_round crc file (record r { buffer = buffer }) result) e
      ∙ read

  pub read_physical_record-return :
      (r : Reader R) (result : Bytes) (t : ℕ) (fragment : Bytes) (r1 : Reader R)
      → physical_round crc file r result ≡ Round.return t fragment r1
      → read_physical_record crc file r result ≡ some (t, fragment, r1)
  unfolding read_physical_record physical_loop
  read_physical_record-return r result t fragment r1 e = cc e

  pub physical_round-emitted :
      (r : Reader R) (result : Bytes) (t : ℕ) (payload rest : Bytes)
      → t ≤ 4
      → 1 ≤ t
      → length payload < 2 ^ 16
      → r.initial_offset ≡ 0
      → r.buffer ≡ record_header crc t payload ++ payload ++ rest
      → physical_round crc file r result ≡ Round.return t payload (record r { buffer = rest })
  unfolding encode_fixed32
  physical_round-emitted r result t payload rest ht h1 hp hi e =
      let m = stored crc t payload in
      let n = length payload in
      let tail = (n % 256) ∷ (n / 2 ^ 8 % 256) ∷ t ∷ (payload ++ rest) in
      let bytes : r.buffer ≡ encode_fixed32 m ++ tail =
        e ∙ ap (λ (h : Bytes). h ++ payload ++ rest) (record_header_shape crc t payload ht) in
      let sum : unmask (decode_fixed32 (encode_fixed32 m ++ tail)) ≡ value crc (t ∷ payload) =
        ap unmask (decode-encode_fixed32 m tail (mask-IsU32 _))
        ∙ unmask-mask (value crc (t ∷ payload)) (value-IsU32 crc (t ∷ payload)) in
      parse_record-frame r result _ _ _ _ (n % 256) (n / 2 ^ 8 % 256) t payload rest ht h1 hi bytes
        (length_field n hp) sum

  -- A round that goes on, and then one that returns.
  pub read_physical_record-second :
      (r r1 : Reader R) (result : Bytes) (t : ℕ) (fragment : Bytes) (r2 : Reader R)
      → physical_round crc file r result ≡ Round.continue r1
      → physical_round crc file r1 result ≡ Round.return t fragment r2
      → read_physical_record crc file r result ≡ some (t, fragment, r2)
  unfolding read_physical_record physical_loop
  read_physical_record-second r r1 result t fragment r2 e e2 = cc (e, e2)

  -- ReadPhysicalRecord reads back the type and the payload that EmitPhysicalRecord wrote, and leaves
  -- what follows them in the buffer, on a reader that starts at the beginning of the file.
  pub read_physical_record-emitted :
      (r : Reader R) (result : Bytes) (t : ℕ) (payload rest : Bytes)
      → t ≤ 4
      → 1 ≤ t
      → length payload < 2 ^ 16
      → r.initial_offset ≡ 0
      → r.buffer ≡ record_header crc t payload ++ payload ++ rest
      → read_physical_record crc file r result ≡ some (t, payload, record r { buffer = rest })
  read_physical_record-emitted r result t payload rest ht h1 hp hi e =
      read_physical_record-return r result t payload _
        (physical_round-emitted r result t payload rest ht h1 hp hi e)
