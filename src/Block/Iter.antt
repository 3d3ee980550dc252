-- ===== src/Block/Iter.antt =====
-- Block::Iter of table/block.cc. Pointers into the block are offsets.
use leveldb_chinese_annotate.Prelude.{
  ℕ, zero, suc, ◌+◌, ◌-◌, ◌*◌, ◌/◌, ◌%◌, ◌^◌, Bool, true, false, ◌&&◌, [], ◌++◌, Option, none, some,
  Ordering, ltb, leb, ◌==◌, if◌then◌else◌, length, take, drop, get_or, bit_or,
}
use leveldb_chinese_annotate.Coding.{Bytes, decode_fixed32, get_varint32_ptr}
use leveldb_chinese_annotate.Comparator.{Comparator}
use leveldb_chinese_annotate.Status.{Status}
use leveldb_chinese_annotate.Block.{Block, num_restarts_of}

-- The bytes that follow the three lengths, with these; `p` is what stands from the entry up to the
-- restart array. The sum of the two lengths is one of uint32.
unfoldable pub decode_lengths : Bytes → Option (ℕ × ℕ × ℕ × Bytes)
decode_lengths p =
    let fast = bit_or (bit_or (get_or p 0 0) (get_or p 1 0)) (get_or p 2 0) in
    if ltb (length p) 3
    then none
    else if ltb fast 128
    then some (get_or p 0 0, get_or p 1 0, get_or p 2 0, drop 3 p)
    else elim (get_varint32_ptr p) [
      | none ↦ none
      | some (shared, p1) ↦ elim (get_varint32_ptr p1) [
        | none ↦ none
        | some (non_shared, p2) ↦ elim (get_varint32_ptr p2) [
          | none ↦ none
          | some (value_length, p3) ↦ some (shared, non_shared, value_length, p3)
        ]
      ]
    ]

-- `DecodeEntry`; `none` is the null pointer.
unfoldable pub decode_entry : Bytes → Option (ℕ × ℕ × ℕ × Bytes)
decode_entry p = elim (decode_lengths p) [
  | none ↦ none
  | some (shared, non_shared, value_length, q) ↦
      if ltb (length q % 2 ^ 32) ((non_shared + value_length) % 2 ^ 32)
      then none
      else some (shared, non_shared, value_length, q)
]

pub record Iter : Type 0 where
  pub block_bytes : Bytes
  pub restarts : ℕ
  pub num_restarts : ℕ
  pub current : ℕ
  pub restart_index : ℕ
  pub key : Bytes
  pub value_offset : ℕ
  pub value_size : ℕ
  pub status : Status

unfoldable pub new_iter : Bytes → ℕ → ℕ → Iter
new_iter block_bytes restarts num_restarts = record {
  block_bytes = block_bytes;
  restarts = restarts;
  num_restarts = num_restarts;
  current = restarts;
  restart_index = num_restarts;
  key = [];
  value_offset = 0;
  value_size = 0;
  status = Status.ok;
}

-- The iterators that Block::NewIterator answers.
pub data BlockIterator : Type 0 where
  error_iterator : Status → BlockIterator
  empty_iterator : BlockIterator
  block_iterator : Iter → BlockIterator

unfoldable pub new_iterator : Block → BlockIterator
new_iterator b =
    let n = num_restarts_of (take b.size b.block_bytes) in
    if ltb b.size 4
    then BlockIterator.error_iterator (Status.corruption "bad block contents" "")
    else if n == 0
    then BlockIterator.empty_iterator
    else BlockIterator.block_iterator (new_iter b.block_bytes b.restart_offset n)

abbrev pub valid : Iter → Bool
valid it = ltb it.current it.restarts

-- `value()`
abbrev pub value_of : Iter → Bytes
value_of it = take it.value_size (drop it.value_offset it.block_bytes)

abbrev pub next_entry_offset : Iter → ℕ
next_entry_offset it = (it.value_offset + it.value_size) % 2 ^ 32

unfoldable pub get_restart_point : Iter → ℕ → ℕ
get_restart_point it index = decode_fixed32 (drop (it.restarts + index * 4) it.block_bytes)

unfoldable pub seek_to_restart_point : Iter → ℕ → Iter
seek_to_restart_point it index = record it {
  key = [];
  restart_index = index;
  value_offset = get_restart_point it index;
  value_size = 0;
}

-- `value_.clear()` lets the pointer go: where it is not valid, an iterator has no next entry.
unfoldable pub corruption_error : Iter → Iter
corruption_error it = record it {
  current = it.restarts;
  restart_index = it.num_restarts;
  status = Status.corruption "bad entry in block" "";
  key = [];
  value_offset = 0;
  value_size = 0;
}

-- What stands from an offset up to the restart array.
abbrev pub window : Iter → ℕ → Bytes
window it offset = drop offset (take it.restarts it.block_bytes)

-- The loop at the end of ParseNextKey; it runs at most `num_restarts` times.
unfoldable pub advance_restart : ℕ → Iter → Iter
advance_restart zero it = it
advance_restart (suc fuel) it =
    let more = advance_restart fuel (record it { restart_index = it.restart_index + 1 }) in
    if ltb (it.restart_index + 1) it.num_restarts
      && ltb (get_restart_point it (it.restart_index + 1)) it.current
    then more
    else it

-- The key gets the bytes that stand in the block: where the sum of the lengths wraps in uint32, so
-- that `non_shared` is more than these, the source reads on behind the block.
unfoldable pub parse_next_key : Iter → Bool × Iter
parse_next_key it =
    let current = next_entry_offset it in
    let it1 = record it { current = current } in
    if leb it.restarts current
    then (false, record it { current = it.restarts; restart_index = it.num_restarts })
    else elim (decode_entry (window it current)) [
      | none ↦ (false, corruption_error it1)
      | some (shared, non_shared, value_length, p) ↦
          if ltb (length it.key) shared then (false, corruption_error it1) else (
            true,
            advance_restart it.num_restarts (record it1 {
              key = take shared it.key ++ take non_shared p;
              value_offset = it.restarts - length p + non_shared;
              value_size = value_length;
            }),
          )
    ]

unfoldable pub next : Iter → Iter
next it = (parse_next_key it).1

unfoldable pub seek_to_first : Iter → Iter
seek_to_first it = (parse_next_key (seek_to_restart_point it 0)).1

-- `while (ParseNextKey() && NextEntryOffset() < end)`: each round goes on by three bytes at least.
unfoldable pub parse_until : ℕ → ℕ → Iter → Option Iter
parse_until zero end it = none
parse_until (suc fuel) end it =
    let (more, it1) = parse_next_key it in
    let rest = parse_until fuel end it1 in
    if more && ltb (next_entry_offset it1) end then rest else some it1

unfoldable pub seek_to_last : Iter → Option Iter
seek_to_last it =
    parse_until (suc it.restarts) it.restarts (seek_to_restart_point it (it.num_restarts - 1))

-- The scan backwards of Prev: the last restart point in front of `original`, if there is one, from
-- `index` down.
unfoldable pub restart_before : Iter → ℕ → ℕ → Option ℕ
restart_before it original zero = if leb original (get_restart_point it 0) then none else some 0
restart_before it original (suc index) =
    let rest = restart_before it original index in
    if leb original (get_restart_point it (suc index)) then rest else some (suc index)

unfoldable pub prev : Iter → Option Iter
prev it = elim (restart_before it it.current it.restart_index) [
  | none ↦ some (record it { current = it.restarts; restart_index = it.num_restarts })
  | some index ↦ parse_until (suc it.restarts) it.current (seek_to_restart_point it index)
]

module _ (comparator : Comparator) where
  -- The key at a restart point: `none` where it cannot be read. As in `parse_next_key`, it ends with
  -- the block, where the source reads on if the sum of the lengths wraps.
  unfoldable pub restart_key : Iter → ℕ → Option Bytes
  restart_key it mid = elim (decode_entry (window it (get_restart_point it mid))) [
    | none ↦ none
    | some (shared, non_shared, value_length, p) ↦
        if shared == 0 then some (take non_shared p) else none
  ]

  abbrev is_less : Bytes → Bytes → Bool
  is_less a b = elim (comparator.cmp a b) [ Ordering.lt ↦ true | _ ↦ false ]

  -- The binary search of Seek: the last restart point whose key is below the target. The outer
  -- `none` is lack of fuel, the inner one a bad entry.
  unfoldable pub search_restarts : ℕ → Iter → Bytes → ℕ → ℕ → Option (Option ℕ)
  search_restarts zero it target left right = none
  search_restarts (suc fuel) it target left right =
      let mid = ((left + right + 1) % 2 ^ 32) / 2 in
      let upper = search_restarts fuel it target mid right in
      let lower = search_restarts fuel it target left (mid - 1) in
      if ltb left right
      then elim (restart_key it mid) [
        | none ↦ some none
        | some mid_key ↦ if is_less mid_key target then upper else lower
      ]
      else some (some left)

  -- The linear search for the first key that is not below the target.
  unfoldable pub scan : ℕ → Iter → Bytes → Option Iter
  scan zero it target = none
  scan (suc fuel) it target =
      let (more, it1) = parse_next_key it in
      let rest = scan fuel it1 target in if more && is_less it1.key target then rest else some it1

  -- Seek from the range and the comparison that the current position gives.
  unfoldable pub seek_in : Iter → Bytes → ℕ → ℕ → Bool → Option Iter
  seek_in it target left right is_behind =
      elim (search_restarts (suc it.num_restarts) it target left right) [
        | none ↦ none
        | some none ↦ some (corruption_error it)
        | some (some index) ↦
            scan (suc it.restarts)
              (if index == it.restart_index && is_behind
                then it
                else seek_to_restart_point it index)
              target
      ]

  unfoldable pub seek : Iter → Bytes → Option Iter
  seek it target =
      if valid it
      then elim (comparator.cmp it.key target) [
        | Ordering.lt ↦ seek_in it target it.restart_index (it.num_restarts - 1) true
        | Ordering.gt ↦ seek_in it target 0 it.restart_index false
        | Ordering.eq ↦ some it
      ]
      else seek_in it target 0 (it.num_restarts - 1) false
