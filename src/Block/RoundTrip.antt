-- ===== src/Block/RoundTrip.antt =====
-- A block that BlockBuilder finished yields its entries when Block::Iter goes through it.
use leveldb_chinese_annotate.Prelude.{
  ℕ, ◌+◌, ◌-◌, ◌*◌, ◌%◌, ◌^◌, ◌<◌, ◌≤◌, ◌≡◌, refl, sym, ap, ◌∙◌, arith, List, [], ◌++◌, length,
  length-append, take, take_all, take-append, drop, drop-append, append_assoc, All,
}
use leveldb_chinese_annotate.Coding.{Bytes, IsU32, encode_fixed32, decode_fixed32}
use leveldb_chinese_annotate.Coding.Fixed.{
  decode-encode_fixed32, decode-encode_fixed32_self, length-encode_fixed32,
}
use leveldb_chinese_annotate.Table.Block.{BlockContents}
use leveldb_chinese_annotate.Block.{new_builder, finish, num_restarts_of, new_block}
use leveldb_chinese_annotate.Block.Building.{
  add_all, add_all-IsBuilt, restart_bytes, length-restart_bytes, finish-bytes,
}
use leveldb_chinese_annotate.Block.Entries.{IsShortEntry}
use leveldb_chinese_annotate.Block.Iter.{
  Iter, BlockIterator, new_iter, new_iterator, seek_to_first, seek_to_restart_point,
  get_restart_point,
}
use leveldb_chinese_annotate.Block.Walk.{Walks, parse-Walks}

-- The restart count at the end of a block.
num_restarts-tail :
    (front : Bytes) (n : ℕ) → IsU32 n → num_restarts_of (front ++ encode_fixed32 n) ≡ n
unfolding num_restarts_of
num_restarts-tail front n h =
    let size : length (front ++ encode_fixed32 n) - 4 ≡ length front =
      omega (arith, length-append front (encode_fixed32 n), length-encode_fixed32 n) in
    ap (λ (k : ℕ). decode_fixed32 (drop k (front ++ encode_fixed32 n))) size
    ∙ ap decode_fixed32 (drop-append (length front) front (encode_fixed32 n) refl)
    ∙ decode-encode_fixed32_self n h

-- The block over entries, a restart array and its length.
opened :
    (entries : Bytes) (restarts : List ℕ) (contents : BlockContents) (n : ℕ)
    → n ≡ length restarts
    → 1 ≤ n
    → contents.bytes ≡ (entries ++ restart_bytes restarts) ++ encode_fixed32 n
    → length contents.bytes < 2 ^ 32
    → new_iterator (new_block contents)
      ≡ BlockIterator.block_iterator (new_iter contents.bytes (length entries) n)
unfolding new_iterator new_block
opened entries restarts contents n en pos e small =
    let front = entries ++ restart_bytes restarts in
    let lf : length front ≡ length entries + n * 4 =
      omega
        (arith, length-append entries (restart_bytes restarts), length-restart_bytes restarts) in
    let size : length contents.bytes ≡ length front + 4 =
      ap length e
      ∙ length-append front (encode_fixed32 n)
      ∙ ap (λ (k : ℕ). length front + k) (length-encode_fixed32 n) in
    let count : num_restarts_of contents.bytes ≡ n =
      ap num_restarts_of e ∙ num_restarts-tail front n (omega arith) in
    let whole : take (length contents.bytes) contents.bytes ≡ contents.bytes =
      take_all (length contents.bytes) contents.bytes (omega arith) in
    let at : (length contents.bytes - ((1 + n) % 2 ^ 32) * 4) % 2 ^ 32 ≡ length entries =
      omega arith in
    ground (arith, count, whole, at)

-- The first restart point of a block whose restart array begins with 0.
first_point :
    (bytes entries tail : Bytes) (n : ℕ) (others : Bytes)
    → tail ≡ (encode_fixed32 0 ++ others)
    → bytes ≡ entries ++ tail
    → get_restart_point (new_iter bytes (length entries) n) 0 ≡ 0
unfolding get_restart_point new_iter
first_point bytes entries tail n others et e =
    ap (λ (b : Bytes). decode_fixed32 (drop (length entries + 0 * 4) b)) (e ∙ ap (◌++◌ entries) et)
    ∙ ap decode_fixed32
        (drop-append (length entries + 0 * 4) entries (encode_fixed32 0 ++ others) (omega arith))
    ∙ decode-encode_fixed32 0 others (omega arith)

-- BlockBuilder with entries added one after the other, and finished, makes a block whose iterator,
-- from SeekToFirst on and by Next, yields exactly these entries in this order, and then stops with
-- no error. Keys and values are short enough for their lengths to be uint32, and the block has less
-- than 4 GB.
pub seek_to_first-finish :
    (interval : ℕ) (entries : List (Bytes × Bytes)) (contents : BlockContents)
    → All IsShortEntry entries
    → contents.bytes ≡ (finish (add_all interval new_builder entries)).buffer
    → length contents.bytes < 2 ^ 32
    → (it : Iter) × (new_iterator (new_block contents) ≡ BlockIterator.block_iterator it)
      × Walks (seek_to_first it) entries
unfolding seek_to_first seek_to_restart_point new_iter
seek_to_first-finish interval entries contents short e small =
    let b = add_all interval new_builder entries in
    let built = add_all-IsBuilt interval entries short in
    let n = length b.restarts in
    let tail = restart_bytes b.restarts ++ encode_fixed32 (n % 2 ^ 32) in
    let bytes : contents.bytes ≡ b.buffer ++ tail = e ∙ finish-bytes b in
    let size : length contents.bytes ≡ length b.buffer + (n * 4 + 4) = omega (
      arith,
      ap length bytes,
      length-append b.buffer tail,
      length-append (restart_bytes b.restarts) (encode_fixed32 (n % 2 ^ 32)),
      length-restart_bytes b.restarts,
      length-encode_fixed32 (n % 2 ^ 32),
    ) in
    let same : n % 2 ^ 32 ≡ n = omega arith in
    let opens =
      opened b.buffer b.restarts contents n refl (omega (arith, ap length built.first_restart))
        (bytes
          ∙ ap (λ (k : ℕ). b.buffer ++ (restart_bytes b.restarts ++ encode_fixed32 k)) same
          ∙ sym (append_assoc b.buffer (restart_bytes b.restarts) (encode_fixed32 n)))
        small in
    let it = new_iter contents.bytes (length b.buffer) n in
    let first : get_restart_point it 0 ≡ 0 =
      first_point contents.bytes b.buffer tail n
        (restart_bytes built.others ++ encode_fixed32 (n % 2 ^ 32))
        (ap (λ (rs : List ℕ). restart_bytes rs ++ encode_fixed32 (n % 2 ^ 32)) built.first_restart
          ∙ append_assoc (encode_fixed32 0) (restart_bytes built.others)
              (encode_fixed32 (n % 2 ^ 32)))
        bytes in
    let cut : take (length b.buffer) contents.bytes ≡ b.buffer =
      ap (take (length b.buffer)) bytes ∙ take-append (length b.buffer) b.buffer tail refl in
    (
      it,
      opens,
      parse-Walks (seek_to_restart_point it 0) [] entries b.buffer b.last_key refl (omega arith)
          (omega arith) (omega (arith, first)) refl
          (ap (λ (o : ℕ). drop ((o + 0) % 2 ^ 32) (take (length b.buffer) contents.bytes)) first
            ∙ cut)
          built.encoded,
    )
