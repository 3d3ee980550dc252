-- ===== src/Table/Tests.antt =====
-- The theorems on handles and footers at concrete ones.
use leveldb_chinese_annotate.Prelude.{
  ℕ, ◌+◌, ◌%◌, ◌^◌, ◌≡◌, ◌++◌, refl, arith, [], ◌∷◌, length, true, none, some, Option, ap, sym, ◌∙◌,
}
use leveldb_chinese_annotate.Coding.{Bytes, encode_fixed32}
use leveldb_chinese_annotate.Status.{Status}
use leveldb_chinese_annotate.Log.Crc.{Crc, value, mask}
use leveldb_chinese_annotate.Table.Block.{RandomAccessFile, Codec, read_block}
use leveldb_chinese_annotate.Table.Block.Stored.{Stored, read_block-Stored}
use leveldb_chinese_annotate.Table.{
  BlockHandle, Footer, encode_footer, decode_footer, encoded_length,
}
use leveldb_chinese_annotate.Table.RoundTrip.{decode_footer-encode}

abbrev no_handle : BlockHandle
no_handle = record { offset = 0; size = 0 }

abbrev wide_handle : BlockHandle
wide_handle = record { offset = 300; size = 0x123456789 }

abbrev wide_footer : Footer
wide_footer = record { metaindex_handle = wide_handle; index_handle = wide_handle }

abbrev no_footer : Footer
no_footer = record { metaindex_handle = no_handle; index_handle = no_handle }

decode_footer-encode_example :
    (decode_footer no_footer (encode_footer wide_footer [] ++ (7 ∷ []))
      ≡ (Status.ok, wide_footer, 7 ∷ []))
    × (length (encode_footer wide_footer []) ≡ encoded_length)
decode_footer-encode_example =
    decode_footer-encode no_footer wide_footer (7 ∷ []) (omega arith, omega arith)
      (omega arith, omega arith)

abbrev total : Bytes → ℕ
total [] = 0
total (b ∷ bs) = b + total bs

total-append : (a b : Bytes) → total (a ++ b) ≡ total a + total b
total-append [] b = omega arith
total-append (x ∷ a) b = omega (arith, total-append a b)

-- A checksum that adds the bytes up.
abbrev total_crc : Crc
total_crc = record {
  extend = λ c s. (c + total s) % 2 ^ 32;
  extend-append = λ c a b. omega (arith, total-append a b);
  extend-IsU32 = λ c s. omega arith;
}

nothing_claimed : {A : Type 0} (n : ℕ) → none ≡ some n → A
nothing_claimed n e = absurd (ground arith)

abbrev claimed : Option ℕ → ℕ
claimed none = 0
claimed (some n) = n

abbrev given : Option Bytes → Bytes
given none = []
given (some s) = s

all_claimed :
    (packed plain : Bytes) (n : ℕ)
    → some (length packed) ≡ some n
    → some packed ≡ some plain
    → length plain ≡ n
all_claimed packed plain n e h = sym (ap (λ o. length (given o)) h) ∙ ap claimed e

abbrev no_codec : Codec
no_codec = record {
  uncompressed_length = λ s. none;
  uncompress = λ s. none;
  length-uncompress = λ packed plain n e h. nothing_claimed n e;
}

-- A codec that stores the bytes as they are.
abbrev plain_codec : Codec
plain_codec = record {
  uncompressed_length = λ s. some (length s);
  uncompress = λ s. some s;
  length-uncompress = all_claimed;
}

-- The bytes 10 and 20, stored by the second codec.
abbrev one_block : RandomAccessFile
one_block = record {
  read_at = λ offset n. (
    Status.ok,
    ((10 ∷ 20 ∷ []) ++ (2 ∷ []))
        ++ encode_fixed32 (mask (value total_crc ((10 ∷ 20 ∷ []) ++ (2 ∷ [])))),
    true,
  );
}

read_block-Stored_example :
    Stored no_codec plain_codec 2
      (10 ∷ 20 ∷ [])
      true
      (read_block total_crc one_block no_codec plain_codec true (record { offset = 0; size = 2 }))
read_block-Stored_example =
    read_block-Stored total_crc one_block no_codec plain_codec true true
      (record { offset = 0; size = 2 }) (10 ∷ 20 ∷ []) 2 refl (omega arith) refl
