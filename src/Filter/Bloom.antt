-- ===== src/Filter/Bloom.antt =====
-- A bloom filter of util/bloom.cc matches every key that it was made of.
use mathlib.Core.Path.{subst}
use native.Mathlib.Nat.{mod-lt}
use Prim.Native.Nat.{bit_and-bitwise}
use leveldb_chinese_annotate.Prelude.{
  ℕ, zero, suc, ◌+◌, ◌-◌, ◌*◌, ◌/◌, ◌%◌, ◌^◌, ◌≤◌, ◌<◌, ◌≡◌, sym, ap, refl, arith, true, false,
  List, [], ◌∷◌, ◌++◌, Option, none, some, get_elem?, ltb, length, length-append, length-replicate,
  get_or, replicate, drop, drop-append, bit_and, dec_lt,
}
use leveldb_chinese_annotate.Coding.{Bytes}
use leveldb_chinese_annotate.Filter.{
  bloom_hash, delta_of, probes_of, filter_bytes, set_bit, add_probes, add_keys, create_filter,
  test_bit, test_probes, key_may_match,
}
use leveldb_chinese_annotate.Filter.Bits.{
  IsArray, IsArray-set_bit, IsByte-replicate, test_bit-kept, test_bit-set,
}

-- The first array's bits are among those of the second.
Keeps : Bytes → Bytes → Type 0
Keeps a b = (q : ℕ) → test_bit a q ≡ true → test_bit b q ≡ true

test_probes-Keeps :
    (k h delta bits : ℕ) (a b : Bytes)
    → Keeps a b
    → test_probes k h delta bits a ≡ true
    → test_probes k h delta bits b ≡ true
unfolding test_probes Keeps
test_probes-Keeps zero h delta bits a b keeps e = refl
test_probes-Keeps (suc k) h delta bits a b keeps e =
    ground
      (arith, keeps (h % bits), test_probes-Keeps k ((h + delta) % 2 ^ 32) delta bits a b keeps)

in_array : (n h bits : ℕ) → bits ≡ n * 8 → 1 ≤ n → h % bits / 8 < n
in_array n h bits e pos = omega (arith, mod-lt h {m = bits} (omega arith), e)

-- What the probes of one key do to an array.
record IsProbed (n k h delta bits : ℕ) (a b : Bytes) : Type 0 where
  array : IsArray n b
  keeps : Keeps a b
  probed : test_probes k h delta bits b ≡ true

add_probes-IsProbed :
    (n k h delta bits : ℕ) (a : Bytes)
    → bits ≡ n * 8
    → 1 ≤ n
    → IsArray n a
    → IsProbed n k h delta bits a (add_probes k h delta bits a)
unfolding add_probes test_probes Keeps
add_probes-IsProbed n zero h delta bits a e pos ha = record {
  array = ha;
  keeps = λ q t. t;
  probed = refl;
}
add_probes-IsProbed n (suc k) h delta bits a e pos ha =
    let p = h % bits in
    let inside = in_array n h bits e pos in
    let later =
      add_probes-IsProbed n k ((h + delta) % 2 ^ 32) delta bits (set_bit a p) e pos
        (IsArray-set_bit n a p ha) in
    let first = later.keeps p (test_bit-set n a p ha inside) in
    record {
      array = later.array;
      keeps = λ q t. later.keeps q (test_bit-kept n a p q ha inside t);
      probed = rw first later.probed;
    }

record IsFilled (n : ℕ) (a b : Bytes) : Type 0 where
  array : IsArray n b
  keeps : Keeps a b

add_keys-IsFilled :
    (n k bits : ℕ) (keys : List Bytes) (a : Bytes)
    → bits ≡ n * 8
    → 1 ≤ n
    → IsArray n a
    → IsFilled n a (add_keys k bits keys a)
unfolding add_keys Keeps
add_keys-IsFilled n k bits [] a e pos ha = record { array = ha; keeps = λ q t. t }
add_keys-IsFilled n k bits (key ∷ keys) a e pos ha =
    let h = bloom_hash key in
    let one = add_probes-IsProbed n k h (delta_of h) bits a e pos ha in
    let later =
      add_keys-IsFilled n k bits keys (add_probes k h (delta_of h) bits a) e pos one.array in
    record { array = later.array; keeps = λ q t. later.keeps q (one.keeps q t) }

-- Each key's probes are set in the end.
add_keys-probed :
    (n k bits : ℕ) (keys : List Bytes) (a : Bytes) (i : ℕ) (key : Bytes)
    → bits ≡ n * 8
    → 1 ≤ n
    → IsArray n a
    → get_elem? keys i ≡ some key
    → test_probes k (bloom_hash key) (delta_of (bloom_hash key)) bits (add_keys k bits keys a)
      ≡ true
unfolding add_keys
add_keys-probed n k bits [] a i key e pos ha at = absurd (ground arith)
add_keys-probed n k bits (x ∷ keys) a zero key e pos ha at =
    let same : x ≡ key = ap (λ (o : Option Bytes). elim o [ none ↦ x | some y ↦ y ]) at in
    let h = bloom_hash x in
    let one = add_probes-IsProbed n k h (delta_of h) bits a e pos ha in
    let b = add_probes k h (delta_of h) bits a in
    let later = add_keys-IsFilled n k bits keys b e pos one.array in
    subst
      (λ (y : Bytes).
        test_probes k (bloom_hash y) (delta_of (bloom_hash y)) bits (add_keys k bits keys b) ≡ true)
      same
      (test_probes-Keeps k h (delta_of h) bits b (add_keys k bits keys b) later.keeps one.probed)
add_keys-probed n k bits (x ∷ keys) a (suc i) key e pos ha at =
    let h = bloom_hash x in
    let one = add_probes-IsProbed n k h (delta_of h) bits a e pos ha in
    add_keys-probed n k bits keys (add_probes k h (delta_of h) bits a) i key e pos one.array at

-- A filter's array stands in it, in front of the number of probes.
get_or-append : (xs ys : Bytes) (i : ℕ) → i < length xs → get_or (xs ++ ys) i 0 ≡ get_or xs i 0
get_or-append [] ys i h = absurd (omega arith)
get_or-append (x ∷ xs) ys zero h = refl
get_or-append (x ∷ xs) ys (suc i) h = get_or-append xs ys i (omega arith)

pub get_or_last : (xs : Bytes) (k i : ℕ) → i ≡ length xs → get_or (xs ++ (k ∷ [])) i 0 ≡ k
get_or_last [] k zero e = refl
get_or_last [] k (suc i) e = absurd (omega arith)
get_or_last (x ∷ xs) k zero e = absurd (omega arith)
get_or_last (x ∷ xs) k (suc i) e = get_or_last xs k i (omega arith)

get_or_beyond : (xs : Bytes) (i : ℕ) → length xs ≤ i → get_or xs i 0 ≡ 0
get_or_beyond [] i h = refl
get_or_beyond (x ∷ xs) zero h = absurd (omega arith)
get_or_beyond (x ∷ xs) (suc i) h = get_or_beyond xs i (omega arith)

zero-bit_and : (b : ℕ) → bit_and 0 b ≡ 0
zero-bit_and b = bit_and-bitwise 0 b

Keeps-append : (a b : Bytes) → Keeps a (a ++ b)
unfolding Keeps test_bit
Keeps-append a b q h = elim (dec_lt (q / 8) (length a)) [
  | yes inside ↦ rw (get_or-append a b (q / 8) inside) h
  | no outside ↦ absurd (
      ground (
        arith,
        ap (λ (v : ℕ). bit_and v (2 ^ (q % 8))) (get_or_beyond a (q / 8) (omega arith)),
        zero-bit_and (2 ^ (q % 8)),
      ))
]

probes_of_bound : (b : ℕ) → probes_of b ≤ 30
unfolding probes_of
probes_of_bound b = ground arith

filter_bytes_bound : (b n : ℕ) → n * b < 2 ^ 63 → 8 ≤ filter_bytes b n
unfolding filter_bytes
filter_bytes_bound b n h = ground arith

key_may_match_array :
    (array key : Bytes) (k : ℕ)
    → 1 ≤ length array
    → k ≤ 30
    → test_probes k (bloom_hash key) (delta_of (bloom_hash key)) (length array * 8) array ≡ true
    → key_may_match key (array ++ (k ∷ [])) ≡ true
unfolding key_may_match
key_may_match_array array key k pos hk h =
    let len = length (array ++ (k ∷ [])) in
    let size : len ≡ length array + 1 = length-append array (k ∷ []) in
    let one : len - 1 ≡ length array = omega (arith, size) in
    let read : get_or (array ++ (k ∷ [])) (len - 1) 0 ≡ k = get_or_last array k (len - 1) one in
    let long : ltb len 2 ≡ false = ground (arith, size) in
    let few : ltb 30 k ≡ false = ground arith in
    let b = bloom_hash key in
    let probed =
      test_probes-Keeps k b (delta_of b) (length array * 8) array (array ++ (k ∷ []))
        (Keeps-append array (k ∷ [])) h in
    rw (long, read, few, one) probed

-- A filter that CreateFilter appends to a string matches every key that it was made of. The bits for
-- the keys are below 2^63 in number.
pub key_may_match-create_filter :
    (bits_per_key : ℕ) (keys : List Bytes) (dst : Bytes) (i : ℕ) (key : Bytes)
    → length keys * bits_per_key < 2 ^ 63
    → get_elem? keys i ≡ some key
    → key_may_match key (drop (length dst) (create_filter bits_per_key keys dst)) ≡ true
unfolding create_filter
key_may_match-create_filter bits_per_key keys dst i key small at =
    let n = filter_bytes bits_per_key (length keys) in
    let k = probes_of bits_per_key in
    let empty : IsArray n (replicate n 0) = record {
      size = length-replicate n 0;
      bytes = IsByte-replicate n;
    } in
    let pos : 1 ≤ n = omega (arith, filter_bytes_bound bits_per_key (length keys) small) in
    let array = add_keys k (n * 8) keys (replicate n 0) in
    let filled = add_keys-IsFilled n k (n * 8) keys (replicate n 0) refl pos empty in
    let probed = add_keys-probed n k (n * 8) keys (replicate n 0) i key refl pos empty at in
    let size : length array ≡ n = filled.array.size in
    rw (drop-append (length dst) dst (array ++ (k ∷ [])) refl) (
      key_may_match_array array key k (omega (arith, size)) (probes_of_bound bits_per_key) (
        subst
          (λ (m : ℕ).
            test_probes k (bloom_hash key) (delta_of (bloom_hash key)) (m * 8) array ≡ true)
          (sym size) probed))
