-- ===== src/Table/Block/Stored.antt =====
-- What ReadBlock of table/format.cc answers for a block that stands whole in the file, by its type.
use mathlib.Core.Path.{subst}
use Prim.Native.String.{String}
use leveldb_chinese_annotate.Prelude.{
  ℕ, zero, suc, ◌+◌, ◌<◌, ◌^◌, ◌≡◌, refl, sym, ap, ◌∙◌, arith, Bool, true, [], ◌∷◌, ◌++◌, none,
  some, length, take, take-append, append-nil, Option-cases, inl, inr,
}
use leveldb_chinese_annotate.Coding.{Bytes, encode_fixed32}
use leveldb_chinese_annotate.Status.{Status}
use leveldb_chinese_annotate.Log.Crc.{Crc, value, mask}
use leveldb_chinese_annotate.Table.{BlockHandle}
use leveldb_chinese_annotate.Table.Block.{
  RandomAccessFile, Codec, BlockContents, block_trailer_size, no_contents, uncompressed,
  block_contents, read_block, read_block-stored,
}

abbrev pub corrupted : String → Status × BlockContents
corrupted message = (Status.corruption message "", no_contents)

abbrev pub read_ok : Bytes → Bool → Status × BlockContents
read_ok bytes owned =
    (Status.ok, record { bytes = bytes; cachable = owned; heap_allocated = owned })

-- What a block of a type byte and data is to be read as: type 0 is raw, 1 is snappy, 2 is zstd.
pub data Stored (snappy zstd : Codec) : ℕ → Bytes → Bool → Status × BlockContents → Type 0 where
  raw : (d : Bytes) (in_buffer : Bool) → Stored snappy zstd 0 d in_buffer (read_ok d in_buffer)
  snappy_plain :
      (d plain : Bytes) (n : ℕ) (in_buffer : Bool)
      → snappy.uncompressed_length d ≡ some n
      → snappy.uncompress d ≡ some plain
      → Stored snappy zstd 1 d in_buffer (read_ok plain true)
  snappy_no_length :
      (d : Bytes) (in_buffer : Bool)
      → snappy.uncompressed_length d ≡ none
      → Stored snappy zstd 1 d in_buffer (corrupted "corrupted snappy compressed block length")
  snappy_no_contents :
      (d : Bytes) (n : ℕ) (in_buffer : Bool)
      → snappy.uncompressed_length d ≡ some n
      → snappy.uncompress d ≡ none
      → Stored snappy zstd 1 d in_buffer (corrupted "corrupted snappy compressed block contents")
  zstd_plain :
      (d plain : Bytes) (n : ℕ) (in_buffer : Bool)
      → zstd.uncompressed_length d ≡ some n
      → zstd.uncompress d ≡ some plain
      → Stored snappy zstd 2 d in_buffer (read_ok plain true)
  zstd_no_length :
      (d : Bytes) (in_buffer : Bool)
      → zstd.uncompressed_length d ≡ none
      → Stored snappy zstd 2 d in_buffer (corrupted "corrupted zstd compressed block length")
  zstd_no_contents :
      (d : Bytes) (n : ℕ) (in_buffer : Bool)
      → zstd.uncompressed_length d ≡ some n
      → zstd.uncompress d ≡ none
      → Stored snappy zstd 2 d in_buffer (corrupted "corrupted zstd compressed block contents")
  unknown :
      (t : ℕ) (d : Bytes) (in_buffer : Bool)
      → 2 < t
      → Stored snappy zstd t d in_buffer (corrupted "bad block type")

module _ (crc : Crc) (file : RandomAccessFile) (snappy zstd : Codec) where
  uncompressed-plain :
      (codec : Codec) (bad_length bad_contents : String) (d plain : Bytes) (n : ℕ)
      → codec.uncompressed_length d ≡ some n
      → codec.uncompress d ≡ some plain
      → uncompressed codec bad_length bad_contents d ≡ read_ok plain true
  unfolding uncompressed
  uncompressed-plain codec bad_length bad_contents d plain n hl hp =
      let whole : take n plain ≡ plain =
        ap (take n) (sym (append-nil plain))
        ∙ take-append n plain [] (codec.length-uncompress d plain n hl hp) in
      rw (uncompressed, hl, hp, whole) refl

  uncompressed-no_length :
      (codec : Codec) (bad_length bad_contents : String) (d : Bytes)
      → codec.uncompressed_length d ≡ none
      → uncompressed codec bad_length bad_contents d ≡ corrupted bad_length
  unfolding uncompressed
  uncompressed-no_length codec bad_length bad_contents d hl = rw (uncompressed, hl) refl

  uncompressed-no_contents :
      (codec : Codec) (bad_length bad_contents : String) (d : Bytes) (n : ℕ)
      → codec.uncompressed_length d ≡ some n
      → codec.uncompress d ≡ none
      → uncompressed codec bad_length bad_contents d ≡ corrupted bad_contents
  unfolding uncompressed
  uncompressed-no_contents codec bad_length bad_contents d n hl hp = rw (uncompressed, hl, hp) refl

  block_contents-unknown :
      (t : ℕ) (d : Bytes) (in_buffer : Bool)
      → block_contents crc file snappy zstd (suc (suc (suc t))) d in_buffer
        ≡ corrupted "bad block type"
  unfolding block_contents
  block_contents-unknown t d in_buffer = ground arith

  block_contents-Stored :
      (t : ℕ) (d : Bytes) (in_buffer : Bool)
      → Stored snappy zstd t d in_buffer (block_contents crc file snappy zstd t d in_buffer)
  unfolding block_contents
  block_contents-Stored zero d in_buffer = Stored.raw d in_buffer
  block_contents-Stored (suc zero) d in_buffer =
      elim (Option-cases (snappy.uncompressed_length d)) [
        | inl bad ↦
            subst (Stored snappy zstd 1 d in_buffer) (sym (uncompressed-no_length snappy _ _ d bad))
              (Stored.snappy_no_length d in_buffer bad)
        | inr (n, hl) ↦ elim (Option-cases (snappy.uncompress d)) [
          | inl bad ↦
              subst (Stored snappy zstd 1 d in_buffer)
                (sym (uncompressed-no_contents snappy _ _ d n hl bad))
                (Stored.snappy_no_contents d n in_buffer hl bad)
          | inr (plain, hp) ↦
              subst (Stored snappy zstd 1 d in_buffer)
                (sym (uncompressed-plain snappy _ _ d plain n hl hp))
                (Stored.snappy_plain d plain n in_buffer hl hp)
        ]
      ]
  block_contents-Stored (suc (suc zero)) d in_buffer =
      elim (Option-cases (zstd.uncompressed_length d)) [
        | inl bad ↦
            subst (Stored snappy zstd 2 d in_buffer) (sym (uncompressed-no_length zstd _ _ d bad))
              (Stored.zstd_no_length d in_buffer bad)
        | inr (n, hl) ↦ elim (Option-cases (zstd.uncompress d)) [
          | inl bad ↦
              subst (Stored snappy zstd 2 d in_buffer)
                (sym (uncompressed-no_contents zstd _ _ d n hl bad))
                (Stored.zstd_no_contents d n in_buffer hl bad)
          | inr (plain, hp) ↦
              subst (Stored snappy zstd 2 d in_buffer)
                (sym (uncompressed-plain zstd _ _ d plain n hl hp))
                (Stored.zstd_plain d plain n in_buffer hl hp)
        ]
      ]
  block_contents-Stored (suc (suc (suc t))) d in_buffer =
      subst (Stored snappy zstd (suc (suc (suc t))) d in_buffer)
        (sym (block_contents-unknown t d in_buffer))
        (Stored.unknown (suc (suc (suc t))) d in_buffer (omega arith))

  -- ReadBlock on a handle whose bytes in the file are data, a type and the masked checksum of the two,
  -- fewer than 2^64 bytes together: the checksum is found right, and the answer is, for type 0, the
  -- data, owned if it stands in the caller's buffer; for type 1 what snappy and for type 2 what zstd
  -- makes of it, or corruption where the codec knows no length or no contents; for another type,
  -- corruption.
  pub read_block-Stored :
      (verify in_buffer : Bool) (handle : BlockHandle) (d : Bytes) (t : ℕ)
      → length d ≡ handle.size
      → handle.size + block_trailer_size < 2 ^ 64
      → file.read_at handle.offset (handle.size + block_trailer_size) ≡ (
        Status.ok,
        (d ++ (t ∷ [])) ++ encode_fixed32 (mask (value crc (d ++ (t ∷ [])))),
        in_buffer,
      )
      → Stored snappy zstd t d in_buffer (read_block crc file snappy zstd verify handle)
  read_block-Stored verify in_buffer handle d t hl small hr =
      subst (Stored snappy zstd t d in_buffer)
        (sym (read_block-stored crc file snappy zstd verify in_buffer handle d t hl small hr))
        (block_contents-Stored t d in_buffer)
