-- ===== src/Filter/Policy.antt =====
-- include/leveldb/filter_policy.h as a record of operations and laws, and BloomFilterPolicy of
-- util/bloom.cc, which fills it.
use native.Mathlib.Nat.{mul-le-mul}
use leveldb_chinese_annotate.Prelude.{
  ℕ, ◌*◌, ◌^◌, ◌≤◌, ◌<◌, ◌≡◌, refl, arith, Bool, true, List, [], ◌++◌, some, get_elem?, length,
}
use leveldb_chinese_annotate.Coding.{Bytes}
use leveldb_chinese_annotate.Filter.{create_filter, key_may_match}
use leveldb_chinese_annotate.Filter.Bloom.{key_may_match-create_filter}

-- CreateFilter appends, and a filter matches each of the keys, whose number is an int.
pub record FilterPolicy : Type 0 where
  pub make : List Bytes → Bytes → Bytes
  pub may_match : Bytes → Bytes → Bool
  pub appends : (keys : List Bytes) (dst : Bytes) → make keys dst ≡ dst ++ make keys []
  pub matches :
      (keys : List Bytes) (i : ℕ) (key : Bytes)
      → length keys < 2 ^ 31
      → get_elem? keys i ≡ some key
      → may_match key (make keys []) ≡ true

le_of_small : (m : ℕ) → m < 2 ^ 31 → m ≤ 2 ^ 31
le_of_small m h = omega arith

pub product_small : (m n : ℕ) → m < 2 ^ 31 → n < 2 ^ 31 → m * n < 2 ^ 63
product_small m n hm hn =
    let top : m * n ≤ 2 ^ 31 * 2 ^ 31 = mul-le-mul (le_of_small m hm) (le_of_small n hn) in
    omega (arith, top)

-- NewBloomFilterPolicy, of an int.
unfoldable pub bloom_filter_policy : (bits_per_key : ℕ) → bits_per_key < 2 ^ 31 → FilterPolicy
unfolding create_filter
bloom_filter_policy bits_per_key h = record {
  make = create_filter bits_per_key;
  may_match = key_may_match;
  appends = λ keys dst. refl;
  matches = λ keys i key few at.
      key_may_match-create_filter bits_per_key keys [] i key
        (product_small (length keys) bits_per_key few h) at;
}
