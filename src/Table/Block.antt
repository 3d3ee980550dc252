-- ===== src/Table/Block.antt =====
-- ReadBlock of table/format.cc. The file and the codecs of port/port.h are interfaces.
use Prim.Native.String.{String}
pub mod Stored
use leveldb_chinese_annotate.Prelude.{
  ℕ, ◌+◌, ◌<◌, ◌%◌, ◌^◌, zero, suc, append-nil, Option-cases, inl, inr, ◌≡◌, refl, sym, ap, ◌∙◌,
  arith, Bool, true, false, not, ◌&&◌, [], ◌∷◌, ◌++◌, Option, none, some, ◌==◌, if◌then◌else◌,
  length, length-append, take, take-append, drop, drop-append, get_or, append_assoc,
}
use leveldb_chinese_annotate.Coding.{Bytes, encode_fixed32, decode_fixed32}
use leveldb_chinese_annotate.Coding.Fixed.{decode-encode_fixed32_self}
use leveldb_chinese_annotate.Status.{Status, is_ok}
use leveldb_chinese_annotate.Log.Crc.{
  Crc, value, mask, unmask, unmask-mask, mask-IsU32, value-IsU32,
}
use leveldb_chinese_annotate.Table.{BlockHandle}

-- Read at an offset: the status, the bytes, and whether they stand in the caller's buffer.
pub record RandomAccessFile : Type 0 where
  pub read_at : ℕ → ℕ → Status × Bytes × Bool

-- A codec: the length that it claims, which can fail, and the bytes, which can fail as well. Where it
-- succeeds, it fills a buffer of the length that it claims.
pub record Codec : Type 0 where
  pub uncompressed_length : Bytes → Option ℕ
  pub uncompress : Bytes → Option Bytes
  pub length-uncompress :
      (packed plain : Bytes) (ulength : ℕ)
      → uncompressed_length packed ≡ some ulength
      → uncompress packed ≡ some plain
      → length plain ≡ ulength

pub record BlockContents : Type 0 where
  pub bytes : Bytes
  pub cachable : Bool
  pub heap_allocated : Bool

-- `kBlockTrailerSize`
abbrev pub block_trailer_size : ℕ
block_trailer_size = 5

abbrev pub no_contents : BlockContents
no_contents = record { bytes = []; cachable = false; heap_allocated = false }

-- The cases for snappy and zstd: the answer is the buffer of the claimed length.
unfoldable pub uncompressed : Codec → String → String → Bytes → Status × BlockContents
uncompressed codec bad_length bad_contents packed = elim (codec.uncompressed_length packed) [
  | none ↦ (Status.corruption bad_length "", no_contents)
  | some ulength ↦ elim (codec.uncompress packed) [
    | none ↦ (Status.corruption bad_contents "", no_contents)
    | some plain ↦
        (Status.ok, record { bytes = take ulength plain; cachable = true; heap_allocated = true })
  ]
]

module _ (crc : Crc) (file : RandomAccessFile) (snappy zstd : Codec) where
  -- The `switch` over the type byte behind the data.
  unfoldable pub block_contents : ℕ → Bytes → Bool → Status × BlockContents
  block_contents t contents in_buffer =
      if t == 0
      then (
        Status.ok,
        record { bytes = contents; cachable = in_buffer; heap_allocated = in_buffer },
      )
      else if t == 1
      then uncompressed snappy "corrupted snappy compressed block length"
          "corrupted snappy compressed block contents" contents
      else if t == 2
      then uncompressed zstd "corrupted zstd compressed block length"
          "corrupted zstd compressed block contents" contents
      else (Status.corruption "bad block type" "", no_contents)

  unfoldable pub read_block : Bool → BlockHandle → Status × BlockContents
  read_block verify_checksums handle =
      let n = handle.size in
      let size = (n + block_trailer_size) % 2 ^ 64 in
      let (s, contents, in_buffer) = file.read_at handle.offset size in
      if not (is_ok s)
      then (s, no_contents)
      else if not (length contents == size)
      then (Status.corruption "truncated block read" "", no_contents)
      else if verify_checksums
          && not
              (value crc (take (n + 1) contents) == unmask (decode_fixed32 (drop (n + 1) contents)))
      then (Status.corruption "block checksum mismatch" "", no_contents)
      else block_contents (get_or contents n 0) (take n contents) in_buffer

  type_byte : (d rest : Bytes) (t : ℕ) → get_or (d ++ (t ∷ rest)) (length d) 0 ≡ t
  type_byte [] rest t = refl
  type_byte (x ∷ d) rest t = type_byte d rest t

  -- The checksum is found right, and the answer is that of the switch over the type.
  pub read_block-stored :
      (verify in_buffer : Bool) (handle : BlockHandle) (d : Bytes) (t : ℕ)
      → length d ≡ handle.size
      → handle.size + block_trailer_size < 2 ^ 64
      → file.read_at handle.offset (handle.size + block_trailer_size) ≡ (
        Status.ok,
        (d ++ (t ∷ [])) ++ encode_fixed32 (mask (value crc (d ++ (t ∷ [])))),
        in_buffer,
      )
      → read_block verify handle ≡ block_contents t d in_buffer
  unfolding read_block
  read_block-stored verify in_buffer handle d t hl small hr =
      let body = d ++ (t ∷ []) in
      let m = mask (value crc body) in
      let trailer = encode_fixed32 m in
      let n = handle.size in
      let nb : length body ≡ n + 1 = omega (arith, length-append d (t ∷ [])) in
      let all : length (body ++ trailer) ≡ n + 5 =
        length-append body trailer ∙ unfold encode_fixed32 in omega (arith, nb) in
      let sum : unmask (decode_fixed32 trailer) ≡ value crc body =
        ap unmask (decode-encode_fixed32_self m (mask-IsU32 _))
        ∙ unmask-mask (value crc body) (value-IsU32 crc body) in
      let typed : get_or (body ++ trailer) n 0 ≡ t =
        ap (λ (s : Bytes). get_or s n 0) (append_assoc d (t ∷ []) trailer)
        ∙ ap (λ (k : ℕ). get_or (d ++ (t ∷ trailer)) k 0) (sym hl)
        ∙ type_byte d trailer t in
      let front : take n (body ++ trailer) ≡ d =
        ap (take n) (append_assoc d (t ∷ []) trailer) ∙ take-append n d (t ∷ trailer) hl in
      let whole : (n + block_trailer_size) % 2 ^ 64 ≡ n + block_trailer_size =
        omega (arith, small) in
      rw
        (
          whole,
          hr,
          all,
          take-append (n + 1) body trailer nb,
          drop-append (n + 1) body trailer nb,
          sum,
          typed,
          front,
        )
        (ground arith)
