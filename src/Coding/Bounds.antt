-- ===== src/Coding/Bounds.antt =====
-- What the varint readers of util/coding.cc answer on any bytes, well formed or not; how much the
-- writers write.
use leveldb_chinese_annotate.Prelude.{
  ℕ, ◌+◌, ◌*◌, ◌%◌, ◌^◌, ◌≤◌, ◌<◌, ◌≡◌, ◌≢◌, refl, sym, ◌∙◌, arith, [], ◌∷◌, ◌++◌, none, some,
  length, length-append, All, bit_or, bit_and, append-nil, Option-cases, inl, inr,
}
use leveldb_chinese_annotate.Prelude.Bits.{bit_or_bound}
use leveldb_chinese_annotate.Coding.{
  Bytes, IsByte, IsU32, IsU64, encode_varint32, encode_varint64, varint_length, get_varint_loop,
  get_varint32_ptr_fallback, get_varint32_ptr, get_varint64_ptr, get_varint32, get_varint64,
}
use leveldb_chinese_annotate.Coding.Varint.{
  encode_varint32-groups, encode_varint64-groups, length-groups, varint_length-groups,
  groups-IsByte, get_varint64-encode, get_varint32_ptr-fallback,
}

module _ (bits last : ℕ) where
  -- `j` bytes are read when the shift is 7 * j.
  get_varint_loop_takes :
      (p : Bytes) (acc shift j v : ℕ) (rest : Bytes)
      → acc < 2 ^ bits
      → shift ≡ 7 * j
      → shift ≤ last + 7
      → All IsByte p
      → get_varint_loop bits last acc shift p ≡ some (v, rest)
      → (v < 2 ^ bits)
        × (length rest < length p)
        × (7 * (length p + j) ≤ 7 * length rest + last + 7)
        × All IsByte rest
  unfolding get_varint_loop
  get_varint_loop_takes [] acc shift j v rest ha hs hl hp e = cc
  get_varint_loop_takes (b ∷ p) acc shift j v rest ha hs hl hp e = ground (
    arith,
    pow_pos,
    bit_or_bound bits acc (b * 2 ^ shift % 2 ^ bits) ha,
    bit_or_bound bits acc (bit_and b 127 * 2 ^ shift % 2 ^ bits) ha,
    get_varint_loop_takes p (bit_or acc (bit_and b 127 * 2 ^ shift % 2 ^ bits)) (shift + 7) (j + 1)
        v rest,
  )
    where
      pow_pos : 0 < 2 ^ bits
      pow_pos = omega arith

  -- The reader does not look past the number: bytes added behind the input join the rest.
  get_varint_loop-append :
      (p more : Bytes) (acc shift v : ℕ) (rest : Bytes)
      → get_varint_loop bits last acc shift p ≡ some (v, rest)
      → get_varint_loop bits last acc shift (p ++ more) ≡ some (v, rest ++ more)
  unfolding get_varint_loop
  get_varint_loop-append [] more acc shift v rest e = cc
  get_varint_loop-append (b ∷ p) more acc shift v rest e = ground (
    arith,
    get_varint_loop-append p more (bit_or acc (bit_and b 127 * 2 ^ shift % 2 ^ bits)) (shift + 7) v
        rest,
  )

-- A successful GetVarint32 answers a uint32, takes one to five bytes, and leaves bytes.
pub get_varint32_takes :
    (input : Bytes) (v : ℕ) (rest : Bytes)
    → All IsByte input
    → get_varint32 input ≡ some (v, rest)
    → IsU32 v × (length rest < length input) × (length input ≤ length rest + 5) × All IsByte rest
unfolding get_varint32 get_varint32_ptr_fallback
get_varint32_takes input v rest hp e =
    let e' : get_varint_loop 32 28 0 0 input ≡ some (v, rest) =
      sym (get_varint32_ptr-fallback input hp) ∙ inner in
    let t =
      get_varint_loop_takes 32 28 input 0 0 0 v rest (omega arith) (omega arith) (omega arith) hp
        e' in
    (t.0, t.1, omega (arith, t.2), t.3)
  where
    inner : get_varint32_ptr input ≡ some (v, rest)
    inner = ground arith

pub get_varint64_takes :
    (input : Bytes) (v : ℕ) (rest : Bytes)
    → All IsByte input
    → get_varint64 input ≡ some (v, rest)
    → IsU64 v × (length rest < length input) × (length input ≤ length rest + 10) × All IsByte rest
unfolding get_varint64 get_varint64_ptr
get_varint64_takes input v rest hp e =
    let e' : get_varint_loop 64 63 0 0 input ≡ some (v, rest) = ground arith in
    let t =
      get_varint_loop_takes 64 63 input 0 0 0 v rest (omega arith) (omega arith) (omega arith) hp
        e' in
    (t.0, t.1, omega (arith, t.2), t.3)

-- EncodeVarint32 writes one to five bytes, so the buffer `char buf[5]` of PutVarint32 holds them.
pub encode_varint32_shape :
    (v : ℕ)
    → IsU32 v
    → All IsByte (encode_varint32 v)
      × (1 ≤ length (encode_varint32 v))
      × (length (encode_varint32 v) ≤ 5)
encode_varint32_shape v h =
    let (lo, hi) = length-groups 4 v in
    rw (encode_varint32-groups v h) (groups-IsByte 4 v (omega arith), lo, hi)

-- EncodeVarint64 writes one to ten bytes, so the buffer `char buf[10]` of PutVarint64 holds them,
-- and VarintLength is their number.
pub encode_varint64_shape :
    (v : ℕ)
    → IsU64 v
    → All IsByte (encode_varint64 v)
      × (1 ≤ length (encode_varint64 v))
      × (length (encode_varint64 v) ≤ 10)
      × (varint_length v ≡ length (encode_varint64 v))
encode_varint64_shape v h =
    let (lo, hi) = length-groups 9 v in
    rw (encode_varint64-groups v h)
      (groups-IsByte 9 v (omega arith), lo, hi, varint_length-groups v h)

-- A reading that takes all of its input is not the reading of a shorter input.
no_shorter_reading :
    (front back : Bytes) (b v : ℕ)
    → get_varint64 (front ++ (b ∷ back)) ≡ some (v, [])
    → (u : ℕ) (rest : Bytes) → get_varint64 front ≢ some (u, rest)
unfolding get_varint64 get_varint64_ptr
no_shorter_reading front back b v all u rest early =
    let longer = get_varint_loop-append 64 63 front (b ∷ back) 0 0 u rest in
    ground (arith, longer, length-append rest (b ∷ back))

-- GetVarint64 answers false on every proper prefix of what EncodeVarint64 wrote.
pub get_varint64_truncated :
    (v b : ℕ) (front back : Bytes)
    → IsU64 v
    → encode_varint64 v ≡ front ++ (b ∷ back)
    → get_varint64 front ≡ none
get_varint64_truncated v b front back h e =
    let read : get_varint64 (encode_varint64 v) ≡ some (v, []) =
      rw append-nil at (get_varint64-encode v [] h) in
    elim (Option-cases (get_varint64 front)) [
      | inr ((u, rest), early) ↦
          absurd (no_shorter_reading front back b v (rw e at read) u rest early)
      | inl failed ↦ failed
    ]

pub get_varint32-nil : get_varint32 [] ≡ none
unfolding get_varint32 get_varint32_ptr get_varint32_ptr_fallback get_varint_loop
get_varint32-nil = refl

get_varint_loop_shorter :
    (bits last : ℕ) (p : Bytes) (acc shift v : ℕ) (rest : Bytes)
    → get_varint_loop bits last acc shift p ≡ some (v, rest)
    → length rest < length p
unfolding get_varint_loop
get_varint_loop_shorter bits last [] acc shift v rest e = cc
get_varint_loop_shorter bits last (b ∷ p) acc shift v rest e = ground (
  arith,
  get_varint_loop_shorter bits last p (bit_or acc (bit_and b 127 * 2 ^ shift % 2 ^ bits))
      (shift + 7) v rest,
)

pub get_varint32_ptr_shorter :
    (p : Bytes) (v : ℕ) (rest : Bytes)
    → get_varint32_ptr p ≡ some (v, rest)
    → length rest < length p
unfolding get_varint32_ptr get_varint32_ptr_fallback
get_varint32_ptr_shorter [] v rest e = get_varint_loop_shorter 32 28 [] 0 0 v rest e
get_varint32_ptr_shorter (b ∷ p) v rest e =
    ground (arith, get_varint_loop_shorter 32 28 (b ∷ p) 0 0 v rest)
