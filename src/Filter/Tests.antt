-- ===== src/Filter/Tests.antt =====
-- A filter of three keys, and a filter block; the theorems at them.
use leveldb_chinese_annotate.Prelude.{
  ℕ, ◌^◌, ◌<◌, ◌≡◌, refl, arith, true, List, [], ◌∷◌, length, drop,
}
use leveldb_chinese_annotate.Coding.{Bytes, decode_fixed32, encode_fixed32, put_fixed32}
use leveldb_chinese_annotate.Block.{put_restarts}
use leveldb_chinese_annotate.Filter.{
  create_filter, key_may_match, bloom_hash, hash, hash_loop, delta_of, probes_of, filter_bytes,
  add_keys, add_probes, set_bit,
}
use leveldb_chinese_annotate.Filter.Policy.{FilterPolicy, bloom_filter_policy}
use leveldb_chinese_annotate.Filter.Block
use leveldb_chinese_annotate.Filter.Block.{
  new_builder, new_reader, slices, finish, generate_filter, generate_filters, start_block, add_key,
}
use leveldb_chinese_annotate.Filter.Block.RoundTrip.{add_blocks, key_may_match-finish}
use leveldb_chinese_annotate.Filter.Bloom.{key_may_match-create_filter}

abbrev three_keys : List Bytes
three_keys = (97 ∷ []) ∷ (98 ∷ 99 ∷ []) ∷ (100 ∷ 101 ∷ 102 ∷ 103 ∷ 104 ∷ []) ∷ []

key_may_match-create_filter_example :
    key_may_match (98 ∷ 99 ∷ []) (drop 1 (create_filter 10 three_keys (0 ∷ []))) ≡ true
key_may_match-create_filter_example =
    key_may_match-create_filter 10 three_keys (0 ∷ []) 1 (98 ∷ 99 ∷ []) (omega arith) refl

abbrev policy_of_ten : FilterPolicy
policy_of_ten = bloom_filter_policy 10 (omega arith)

-- Two blocks, at 0 and behind 4 KB.
abbrev two_blocks : List (ℕ × List Bytes)
two_blocks = (0, three_keys) ∷ (4100, (98 ∷ []) ∷ []) ∷ []

finish_short :
    length (finish policy_of_ten (add_blocks policy_of_ten new_builder two_blocks)) < 2 ^ 32
unfolding finish generate_filter generate_filters start_block add_key slices put_restarts
    put_fixed32 encode_fixed32 bloom_filter_policy create_filter probes_of filter_bytes add_keys
    add_probes set_bit bloom_hash hash hash_loop delta_of decode_fixed32
finish_short =
    let size : length (finish policy_of_ten (add_blocks policy_of_ten new_builder two_blocks))
        ≡ 35 =
      refl in
    omega (arith, size)

key_may_match-finish_example :
    Block.key_may_match policy_of_ten
      (new_reader policy_of_ten
        (finish policy_of_ten (add_blocks policy_of_ten new_builder two_blocks)))
      4100
      (98 ∷ [])
    ≡ true
key_may_match-finish_example =
    key_may_match-finish policy_of_ten two_blocks 1 0 4100 (98 ∷ []) ((98 ∷ []) ∷ [])
      (omega arith, (omega arith, tt)) (omega arith) finish_short refl refl
