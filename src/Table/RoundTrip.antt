-- ===== src/Table/RoundTrip.antt =====
-- The handles and footers that table/format.cc writes are read back.
use leveldb_chinese_annotate.Prelude.{
  ℕ, zero, suc, ◌-◌, ◌*◌, ◌≤◌, ◌≡◌, refl, ap, ◌∙◌, arith, [], ◌∷◌, ◌++◌, some, false, ltb, length,
  length-append, take, drop, drop-append, replicate, append_assoc,
}
use leveldb_chinese_annotate.Coding.{
  Bytes, IsU64, encode_varint64, encode_fixed32, put_varint64, put_fixed32, get_varint64,
  decode_fixed32,
}
use leveldb_chinese_annotate.Coding.Varint.{get_varint64-encode}
use leveldb_chinese_annotate.Coding.Bounds.{encode_varint64_shape}
use leveldb_chinese_annotate.Status.{Status}
use leveldb_chinese_annotate.Table.{
  BlockHandle, Footer, encode_handle, decode_handle, resize, encode_footer, decode_footer,
  footer_magic, max_encoded_length, encoded_length, table_magic_number,
}

-- Both fields fit a uint64.
abbrev pub IsHandle : BlockHandle → Type 0
IsHandle h = IsU64 h.offset × IsU64 h.size

-- What EncodeTo appends for a handle.
abbrev handle_bytes : BlockHandle → Bytes
handle_bytes h = encode_varint64 h.offset ++ encode_varint64 h.size

encode_handle-bytes : (h : BlockHandle) (dst : Bytes) → encode_handle h dst ≡ dst ++ handle_bytes h
unfolding encode_handle put_varint64
encode_handle-bytes h dst = append_assoc dst (encode_varint64 h.offset) (encode_varint64 h.size)

length-handle_bytes : (h : BlockHandle) → IsHandle h → length (handle_bytes h) ≤ max_encoded_length
length-handle_bytes h (ho, hs) = omega (
  arith,
  length-append (encode_varint64 h.offset) (encode_varint64 h.size),
  (encode_varint64_shape h.offset ho).2,
  (encode_varint64_shape h.size hs).2,
)

decode_handle-bytes :
    (old h : BlockHandle) (rest : Bytes)
    → IsHandle h
    → decode_handle old (handle_bytes h ++ rest) ≡ (Status.ok, h, rest)
unfolding decode_handle
decode_handle-bytes old h rest (ho, hs) =
    let e1 : get_varint64 (handle_bytes h ++ rest)
        ≡ some (h.offset, encode_varint64 h.size ++ rest) =
      ap get_varint64 (append_assoc (encode_varint64 h.offset) (encode_varint64 h.size) rest)
      ∙ get_varint64-encode h.offset (encode_varint64 h.size ++ rest) ho in
    cc (e1, get_varint64-encode h.size rest hs)

-- BlockHandle::DecodeFrom reads back the handle that EncodeTo wrote, with fields in a uint64, takes at
-- most kMaxEncodedLength bytes, and leaves what follows them.
pub decode_handle-encode :
    (old h : BlockHandle) (rest : Bytes)
    → IsHandle h
    → (decode_handle old (encode_handle h [] ++ rest) ≡ (Status.ok, h, rest))
      × (length (encode_handle h []) ≤ max_encoded_length)
decode_handle-encode old h rest hh =
    rw (encode_handle-bytes h []) (decode_handle-bytes old h rest hh, length-handle_bytes h hh)

take_all : (n : ℕ) (s : Bytes) → length s ≤ n → take n s ≡ s
take_all zero [] h = refl
take_all (suc n) [] h = refl
take_all zero (b ∷ s) h = absurd (omega arith)
take_all (suc n) (b ∷ s) h = ap (◌∷◌ b) (take_all n s (omega arith))

length-zeros : (z : ℕ) → length {A = ℕ} (replicate z 0) ≡ z
length-zeros zero = refl
length-zeros (suc z) = omega (arith, length-zeros z)

-- The handles and the zero bytes up to the magic number.
abbrev front : Footer → Bytes
front f =
    resize (2 * max_encoded_length) (handle_bytes f.metaindex_handle ++ handle_bytes f.index_handle)

abbrev magic_bytes : Bytes
magic_bytes = encode_fixed32 0x8b80fb57 ++ encode_fixed32 0xdb477524

resize_pads : (n : ℕ) (s : Bytes) → length s ≤ n → resize n s ≡ s ++ replicate (n - length s) 0
unfolding resize
resize_pads n s h = ap (λ (front : Bytes). front ++ replicate (n - length s) 0) (take_all n s h)

length-resize : (n : ℕ) (s : Bytes) → length s ≤ n → length (resize n s) ≡ n
unfolding resize
length-resize n s h =
    rw (take_all n s h)
      (omega (arith, length-append s (replicate (n - length s) 0), length-zeros (n - length s)))

encode_footer-bytes : (f : Footer) → encode_footer f [] ≡ front f ++ magic_bytes
unfolding encode_footer put_fixed32
encode_footer-bytes f =
    rw
      (
        encode_handle-bytes f.metaindex_handle [],
        encode_handle-bytes f.index_handle (handle_bytes f.metaindex_handle),
      )
      (append_assoc (front f) (encode_fixed32 0x8b80fb57) (encode_fixed32 0xdb477524))

magic_found :
    (s rest : Bytes)
    → length s ≡ 40
    → footer_magic (s ++ (magic_bytes ++ rest)) ≡ table_magic_number
unfolding footer_magic encode_fixed32 decode_fixed32
magic_found s rest h = rw (drop-append 40 s (magic_bytes ++ rest) h) refl

front_splits :
    (f : Footer) (tail : Bytes)
    → IsHandle f.metaindex_handle
    → IsHandle f.index_handle
    → (pad : Bytes) × (length (front f) ≡ 40)
      × (front f ++ tail
          ≡ handle_bytes f.metaindex_handle ++ (handle_bytes f.index_handle ++ (pad ++ tail)))
front_splits f tail hm hi =
    let m = handle_bytes f.metaindex_handle in
    let i = handle_bytes f.index_handle in
    let fits : length (m ++ i) ≤ 40 = omega (
      arith,
      length-append m i,
      length-handle_bytes f.metaindex_handle hm,
      length-handle_bytes f.index_handle hi,
    ) in
    let pad : Bytes = replicate (40 - length (m ++ i)) 0 in
    let whole : front f ≡ (m ++ i) ++ pad = resize_pads 40 (m ++ i) fits in
    (
      pad,
      length-resize 40 (m ++ i) fits,
      ap (λ (s : Bytes). s ++ tail) whole
          ∙ append_assoc (m ++ i) pad tail
          ∙ append_assoc m i (pad ++ tail),
    )

decode_footer_parts :
    (old : Footer) (input input1 input2 : Bytes) (m i : BlockHandle)
    → ltb (length input) encoded_length ≡ false
    → footer_magic input ≡ table_magic_number
    → decode_handle old.metaindex_handle input ≡ (Status.ok, m, input1)
    → decode_handle old.index_handle input1 ≡ (Status.ok, i, input2)
    → decode_footer old input
      ≡ (Status.ok, record { metaindex_handle = m; index_handle = i }, drop encoded_length input)
unfolding decode_footer
decode_footer_parts old input input1 input2 m i long magic e1 e2 = rw (long, magic, e1, e2) refl

-- Footer::DecodeFrom reads back the footer that EncodeTo wrote into an empty string, with handles of
-- uint64 fields: it finds the magic number behind the padding, and leaves what follows the footer. The
-- footer takes kEncodedLength bytes.
pub decode_footer-encode :
    (old f : Footer) (rest : Bytes)
    → IsHandle f.metaindex_handle
    → IsHandle f.index_handle
    → (decode_footer old (encode_footer f [] ++ rest) ≡ (Status.ok, f, rest))
      × (length (encode_footer f []) ≡ encoded_length)
decode_footer-encode old f rest hm hi =
    let (pad, l, e) = front_splits f (magic_bytes ++ rest) hm hi in
    let lm = length-append (front f) magic_bytes in
    let size : length (front f ++ magic_bytes) ≡ 48 =
      lm ∙ unfold encode_fixed32 in omega (arith, l) in
    let input = (front f ++ magic_bytes) ++ rest in
    let split : input
        ≡ handle_bytes f.metaindex_handle
          ++ (handle_bytes f.index_handle ++ (pad ++ (magic_bytes ++ rest))) =
      append_assoc (front f) magic_bytes rest ∙ e in
    let magic : footer_magic input ≡ table_magic_number =
      ap footer_magic (append_assoc (front f) magic_bytes rest) ∙ magic_found (front f) rest l in
    let input1 = handle_bytes f.index_handle ++ (pad ++ (magic_bytes ++ rest)) in
    let first : decode_handle old.metaindex_handle input ≡ (Status.ok, f.metaindex_handle, input1) =
      ap (decode_handle old.metaindex_handle) split
      ∙ decode_handle-bytes old.metaindex_handle f.metaindex_handle input1 hm in
    let second =
      decode_handle-bytes old.index_handle f.index_handle (pad ++ (magic_bytes ++ rest)) hi in
    let parts =
      decode_footer_parts old input input1 (pad ++ (magic_bytes ++ rest)) f.metaindex_handle
        f.index_handle
        (long (length input) (omega (arith, length-append (front f ++ magic_bytes) rest, size)))
        magic first second in
    let behind = drop-append 48 (front f ++ magic_bytes) rest size in
    rw (encode_footer-bytes f) (parts ∙ ap (λ (left : Bytes). (Status.ok, f, left)) behind, size)
  where
    long : (n : ℕ) → 48 ≤ n → ltb n 48 ≡ false
    long n h = ground arith
