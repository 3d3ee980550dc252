-- ===== src/Comparator/Bytewise.antt =====
-- The methods of BytewiseComparatorImpl in util/comparator.cc.
pub mod Range
use leveldb_chinese_annotate.Prelude.{
  ℕ, ◌+◌, ◌%◌, ◌&&◌, [], ◌∷◌, ltb, leb, ◌==◌, if◌then◌else◌, length, take, set, min,
}
use leveldb_chinese_annotate.Coding.{Bytes, byte_at}
use leveldb_chinese_annotate.Comparator.{shared_prefix}

unfoldable pub find_shortest_separator : Bytes → Bytes → Bytes
unfolding shared_prefix
find_shortest_separator start limit =
    let min_length = min (length start) (length limit) in
    let diff_index = shared_prefix min_length start limit in
    let diff_byte = byte_at start diff_index in
    if leb min_length diff_index
    then start
    else if ltb diff_byte 255 && ltb (diff_byte + 1) (byte_at limit diff_index)
    then take (diff_index + 1) (set start diff_index ((diff_byte + 1) % 256))
    else start

-- The loop from index `i` on: the bytes before `i` are 0xff and stay.
unfoldable pub find_short_successor : Bytes → Bytes
find_short_successor [] = []
find_short_successor (byte ∷ key) =
    let rest = find_short_successor key in
    if byte == 255 then byte ∷ rest else ((byte + 1) % 256) ∷ []
