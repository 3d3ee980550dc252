-- ===== src/Block/Tests.antt =====
-- A block of three entries, written and read; the theorems at it.
use leveldb_chinese_annotate.Prelude.{
  ℕ, zero, suc, ◌+◌, ◌^◌, ◌<◌, ◌≡◌, ◌≢◌, ◌∙◌, sym, ap, refl, arith, Bool, true, ◌&&◌, List, [], ◌∷◌,
  Option, none, some, ltb, take, drop,
}
use leveldb_chinese_annotate.Coding.{
  Bytes, encode_varint32, encode_fixed32, put_varint32, put_fixed32,
}
use leveldb_chinese_annotate.Comparator.{shared_prefix}
use leveldb_chinese_annotate.Comparator.Bytewise.Range.{bytewise_comparator}
use leveldb_chinese_annotate.Table.Block.{BlockContents}
use leveldb_chinese_annotate.Block.{new_builder, finish, put_restarts, put_entry, add, new_block}
use leveldb_chinese_annotate.Block.Building.{add_all}
use leveldb_chinese_annotate.Block.Iter.{
  Iter, BlockIterator, decode_lengths, decode_entry, new_iter, new_iterator, seek_to_first, seek,
}
use leveldb_chinese_annotate.Block.Walk.{Walks}
use leveldb_chinese_annotate.Block.RoundTrip.{seek_to_first-finish}
use leveldb_chinese_annotate.Block.Termination.{seek-returns}

abbrev three_entries : List (Bytes × Bytes)
three_entries = (97 ∷ 98 ∷ [], 1 ∷ []) ∷ (97 ∷ 99 ∷ [], []) ∷ (98 ∷ [], 2 ∷ 3 ∷ []) ∷ []

-- Restart points every two entries.
abbrev three_block : BlockContents
three_block = record {
  bytes =
      0 ∷ 2 ∷ 1 ∷ 97 ∷ 98 ∷ 1 ∷ 1 ∷ 1 ∷ 0 ∷ 99 ∷ 0 ∷ 1 ∷ 2 ∷ 98 ∷ 2 ∷ 3 ∷ 0 ∷ 0 ∷ 0 ∷ 0 ∷ 10 ∷ 0 ∷ 0
      ∷ 0 ∷ 2 ∷ 0 ∷ 0 ∷ 0 ∷ [];
  cachable = true;
  heap_allocated = true;
}

three_block_built : three_block.bytes ≡ (finish (add_all 2 new_builder three_entries)).buffer
unfolding finish add put_entry put_restarts put_fixed32 put_varint32 encode_varint32 encode_fixed32
    shared_prefix
three_block_built = refl

seek_to_first-finish_example :
    (it : Iter) × (new_iterator (new_block three_block) ≡ BlockIterator.block_iterator it)
    × Walks (seek_to_first it) three_entries
seek_to_first-finish_example =
    seek_to_first-finish 2 three_entries three_block (omega arith) three_block_built (omega arith)

-- The lengths of an entry have a sum below 2^32.
abbrev fits : Option (ℕ × ℕ × ℕ × Bytes) → Bool
fits none = true
fits (some (s, n, v, p)) = ltb (n + v) (2 ^ 32)

abbrev all_fit : Bytes → Bool
all_fit [] = true
all_fit (b ∷ p) = fits (decode_entry (b ∷ p)) && all_fit p

fits_at :
    (bytes : Bytes) (o s n v : ℕ) (p : Bytes)
    → all_fit bytes ≡ true
    → decode_entry (drop o bytes) ≡ some (s, n, v, p)
    → n + v < 2 ^ 32
unfolding decode_entry decode_lengths
fits_at [] zero s n v p h e = absurd (ground arith)
fits_at [] (suc o) s n v p h e = absurd (ground arith)
fits_at (b ∷ bytes) zero s n v p h e =
    let fine : fits (decode_entry (b ∷ bytes)) ≡ true = ground arith in
    let known : fits (some (s, n, v, p)) ≡ true = ap fits (sym e) ∙ fine in ground (arith, known)
fits_at (b ∷ bytes) (suc o) s n v p h e = fits_at bytes o s n v p (ground arith) e

three_block-fits : all_fit (take 16 three_block.bytes) ≡ true
unfolding decode_entry decode_lengths
three_block-fits = refl

seek-returns_example :
    seek bytewise_comparator (new_iter three_block.bytes 16 2) (97 ∷ 99 ∷ []) ≢ none
unfolding new_iter
seek-returns_example =
    seek-returns bytewise_comparator (new_iter three_block.bytes 16 2) (97 ∷ 99 ∷ []) (omega arith)
      (omega arith) (omega arith) (omega arith) (omega arith)
      (λ o s n v p e. fits_at (take 16 three_block.bytes) o s n v p three_block-fits e)
