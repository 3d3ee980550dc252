-- ===== src/Filter/Block.antt =====
-- table/filter_block.{h,cc}: the block of a table that holds a filter for every 2 KB of its data.
pub mod Groups
pub mod Lookup
pub mod Members
pub mod RoundTrip
use leveldb_chinese_annotate.Prelude.{
  ℕ, zero, suc, ◌+◌, ◌-◌, ◌*◌, ◌/◌, ◌%◌, ◌^◌, Bool, true, false, ◌&&◌, List, [], ◌∷◌, ◌++◌, ltb,
  leb, ◌==◌, if◌then◌else◌, length, get_or, take, drop,
}
use leveldb_chinese_annotate.Coding.{Bytes, put_fixed32, decode_fixed32}
use leveldb_chinese_annotate.Block.{put_restarts}
use leveldb_chinese_annotate.Filter.Policy.{FilterPolicy}

abbrev pub filter_base_lg : ℕ
filter_base_lg = 11

-- `tmp_keys_` is local to GenerateFilter: it is empty between the calls.
pub record FilterBlockBuilder : Type 0 where
  pub keys : Bytes
  pub start : List ℕ
  pub result : Bytes
  pub filter_offsets : List ℕ

abbrev pub new_builder : FilterBlockBuilder
new_builder = record { keys = []; start = []; result = []; filter_offsets = [] }

-- The keys that begin at these offsets, each up to the next.
unfoldable pub slices : Bytes → List ℕ → List Bytes
slices keys [] = []
slices keys (s ∷ []) = []
slices keys (s ∷ t ∷ starts) = take (t - s) (drop s keys) ∷ slices keys (t ∷ starts)

module _ (policy : FilterPolicy) where
  unfoldable pub generate_filter : FilterBlockBuilder → FilterBlockBuilder
  generate_filter b =
      let offsets = b.filter_offsets ++ ((length b.result % 2 ^ 32) ∷ []) in
      let tmp_keys = slices b.keys (b.start ++ (length b.keys ∷ [])) in
      if length b.start == 0 then record b { filter_offsets = offsets } else record {
        keys = [];
        start = [];
        result = policy.make tmp_keys b.result;
        filter_offsets = offsets;
      }

  -- The loop of StartBlock, which makes so many filters.
  unfoldable pub generate_filters : ℕ → FilterBlockBuilder → FilterBlockBuilder
  generate_filters zero b = b
  generate_filters (suc n) b = generate_filters n (generate_filter b)

  unfoldable pub start_block : FilterBlockBuilder → ℕ → FilterBlockBuilder
  start_block b block_offset =
      generate_filters (block_offset / 2 ^ filter_base_lg - length b.filter_offsets) b

  unfoldable pub add_key : FilterBlockBuilder → Bytes → FilterBlockBuilder
  add_key b key = record b { start = b.start ++ (length b.keys ∷ []); keys = b.keys ++ key }

  -- The contents of the block; the loop over the offsets is that of BlockBuilder::Finish.
  unfoldable pub finish : FilterBlockBuilder → Bytes
  finish b =
      let b1 = if length b.start == 0 then b else generate_filter b in
      put_fixed32 (put_restarts b1.result b1.filter_offsets) (length b1.result % 2 ^ 32)
      ++ (filter_base_lg ∷ [])

  -- `offset` is that of the offset array; `num` is 0 where the contents are no filter block.
  pub record FilterBlockReader : Type 0 where
    pub contents : Bytes
    pub offset : ℕ
    pub num : ℕ
    pub base_lg : ℕ

  unfoldable pub new_reader : Bytes → FilterBlockReader
  new_reader contents =
      let n = length contents in
      let last_word = decode_fixed32 (drop (n - 5) contents) in
      let base_lg = get_or contents (n - 1) 0 in
      let bad : FilterBlockReader = record {
        contents = contents;
        offset = 0;
        num = 0;
        base_lg = if ltb n 5 then 0 else base_lg;
      } in
      if ltb n 5
      then bad
      else if ltb (n - 5) last_word
      then bad
      else record bad { offset = last_word; num = (n - 5 - last_word) / 4 }

  unfoldable pub key_may_match : FilterBlockReader → ℕ → Bytes → Bool
  key_may_match r block_offset key =
      let index = block_offset / 2 ^ r.base_lg in
      let start = decode_fixed32 (drop (r.offset + index * 4) r.contents) in
      let limit = decode_fixed32 (drop (r.offset + index * 4 + 4) r.contents) in
      if ltb index r.num
      then (if leb start limit && leb limit r.offset
          then policy.may_match key (take (limit - start) (drop start r.contents))
          else if start == limit
          then false
          else true)
      else true
