-- ===== src/Filter.antt =====
-- util/hash.cc and util/bloom.cc: the hash of keys, and the filter policy that sets for each key some
-- bits of an array.
pub mod Bits
pub mod Bloom
pub mod Policy
pub mod Block
mod Tests
use Prim.Native.Nat.{bit_xor}
use leveldb_chinese_annotate.Prelude.{
  ℕ, zero, suc, ◌+◌, ◌-◌, ◌*◌, ◌/◌, ◌%◌, ◌^◌, Bool, true, false, List, [], ◌∷◌, ◌++◌, ltb, ◌==◌,
  if◌then◌else◌, length, get_or, set, replicate, bit_and, bit_or,
}
use leveldb_chinese_annotate.Coding.{Bytes, decode_fixed32}

-- Hash, in uint32. The constant `m`:
abbrev hash_m : ℕ
hash_m = 3332679571

-- The loop over four bytes at a time, and then the remaining ones.
unfoldable pub hash_loop : Bytes → ℕ → ℕ
hash_loop (a ∷ b ∷ c ∷ d ∷ rest) h =
    let h1 = (h + decode_fixed32 (a ∷ b ∷ c ∷ d ∷ [])) % 2 ^ 32 * hash_m % 2 ^ 32 in
    hash_loop rest (bit_xor h1 (h1 / 2 ^ 16))
hash_loop (a ∷ b ∷ c ∷ []) h =
    let h1 = (h + c * 2 ^ 16 + b * 2 ^ 8 + a) % 2 ^ 32 * hash_m % 2 ^ 32 in bit_xor h1 (h1 / 2 ^ 24)
hash_loop (a ∷ b ∷ []) h =
    let h1 = (h + b * 2 ^ 8 + a) % 2 ^ 32 * hash_m % 2 ^ 32 in bit_xor h1 (h1 / 2 ^ 24)
hash_loop (a ∷ []) h = let h1 = (h + a) % 2 ^ 32 * hash_m % 2 ^ 32 in bit_xor h1 (h1 / 2 ^ 24)
hash_loop [] h = h

unfoldable pub hash : Bytes → ℕ → ℕ
hash bytes seed = hash_loop bytes (bit_xor seed (length bytes * hash_m % 2 ^ 32))

unfoldable pub bloom_hash : Bytes → ℕ
bloom_hash key = hash key 3164544308

-- `(h >> 17) | (h << 15)`
unfoldable pub delta_of : ℕ → ℕ
delta_of h = bit_or (h / 2 ^ 17) (h * 2 ^ 15 % 2 ^ 32)

-- `k_`. The product with 0.69 is rounded down, and is no integer below the upper bound.
unfoldable pub probes_of : ℕ → ℕ
probes_of bits_per_key =
    let k = bits_per_key * 69 / 100 in if ltb k 1 then 1 else if ltb 30 k then 30 else k

-- The number of bytes of the array.
unfoldable pub filter_bytes : ℕ → ℕ → ℕ
filter_bytes bits_per_key n =
    let bits = n * bits_per_key % 2 ^ 64 in ((if ltb bits 64 then 64 else bits) + 7) % 2 ^ 64 / 8

unfoldable pub set_bit : Bytes → ℕ → Bytes
set_bit array pos = set array (pos / 8) (bit_or (get_or array (pos / 8) 0) (2 ^ (pos % 8)) % 256)

-- The loops of CreateFilter over the probes of a key, and over the keys.
unfoldable pub add_probes : ℕ → ℕ → ℕ → ℕ → Bytes → Bytes
add_probes zero h delta bits array = array
add_probes (suc k) h delta bits array =
    add_probes k ((h + delta) % 2 ^ 32) delta bits (set_bit array (h % bits))

unfoldable pub add_keys : ℕ → ℕ → List Bytes → Bytes → Bytes
add_keys k bits [] array = array
add_keys k bits (key ∷ keys) array =
    let h = bloom_hash key in add_keys k bits keys (add_probes k h (delta_of h) bits array)

unfoldable pub create_filter : ℕ → List Bytes → Bytes → Bytes
create_filter bits_per_key keys dst =
    let bytes = filter_bytes bits_per_key (length keys) in
    let k = probes_of bits_per_key in
    dst ++ (add_keys k (bytes * 8) keys (replicate bytes 0) ++ (k ∷ []))

unfoldable pub test_bit : Bytes → ℕ → Bool
test_bit array pos = if bit_and (get_or array (pos / 8) 0) (2 ^ (pos % 8)) == 0 then false else true

-- The loop of KeyMayMatch.
unfoldable pub test_probes : ℕ → ℕ → ℕ → ℕ → Bytes → Bool
test_probes zero h delta bits array = true
test_probes (suc k) h delta bits array =
    let rest = test_probes k ((h + delta) % 2 ^ 32) delta bits array in
    if test_bit array (h % bits) then rest else false

unfoldable pub key_may_match : Bytes → Bytes → Bool
key_may_match key bloom_filter =
    let len = length bloom_filter in
    let k = get_or bloom_filter (len - 1) 0 in
    let h = bloom_hash key in
    if ltb len 2
    then false
    else if ltb 30 k
    then true
    else test_probes k h (delta_of h) ((len - 1) * 8) bloom_filter
