-- ===== src/Coding/Varint.antt =====
-- The varints of util/coding.cc: one reference encoding, that the two encoders write it, and that
-- the two decoders read it back.
use leveldb_chinese_annotate.Prelude.{
  ℕ, zero, suc, ◌+◌, ◌*◌, ◌/◌, ◌%◌, ◌^◌, ◌≤◌, ◌<◌, ◌≡◌, refl, ap, ◌∙◌, arith, [], ◌∷◌, ◌++◌, some,
  length, All, ltb, if◌then◌else◌, lt_wf, bit_and,
}
use leveldb_chinese_annotate.Prelude.Bits.{bit_or-shifted, or_128, byte_low, byte_top, zero-bit_or}
use leveldb_chinese_annotate.Coding.{
  Bytes, IsByte, IsU32, IsU64, encode_varint32, encode_varint64_loop, encode_varint64,
  varint_length_loop, varint_length, get_varint_loop, get_varint32_ptr_fallback, get_varint32_ptr,
  get_varint64_ptr, get_varint32, get_varint64,
}
use mathlib.Core.WellFounded.{Acc}
use native.Mathlib.Nat.{mod-eq_of_lt}
use native.Mathlib.Numerals.{towards_suc}

-- The groups of seven bits of `v`, lowest first, for `v` below 128 ^ (k + 1): each but the last has
-- its top bit set.
pub groups : ℕ → ℕ → Bytes
groups zero v = v ∷ []
groups (suc k) v =
    let rest = groups k (v / 128) in if ltb v 128 then v ∷ [] else (v % 128 + 128) ∷ rest

encode_varint64_loop-groups :
    (k v : ℕ) (w : Acc ◌<◌ v) → v < 128 ^ suc k → encode_varint64_loop v w ≡ groups k v
unfolding encode_varint64_loop groups
encode_varint64_loop-groups zero v (Acc.intro _ smaller) h = ground arith
encode_varint64_loop-groups (suc k) v (Acc.intro _ smaller) h = grind (
  arith,
  or_128 v,
  λ (w : Acc ◌<◌ (v / 128)). encode_varint64_loop-groups k (v / 128) w (omega arith),
)

-- The loop of EncodeVarint64 writes the groups of a uint64.
pub encode_varint64-groups : (v : ℕ) → IsU64 v → encode_varint64 v ≡ groups 9 v
unfolding encode_varint64
encode_varint64-groups v h = encode_varint64_loop-groups 9 v (lt_wf.apply v) (omega arith)

-- The unrolled EncodeVarint32 writes the groups of a uint32.
pub encode_varint32-groups : (v : ℕ) → IsU32 v → encode_varint32 v ≡ groups 4 v
unfolding encode_varint32 groups
encode_varint32-groups v h =
    ground (arith, or_128 v, or_128 (v / 2 ^ 7), or_128 (v / 2 ^ 14), or_128 (v / 2 ^ 21))

pub length-groups : (k v : ℕ) → (1 ≤ length (groups k v)) × (length (groups k v) ≤ k + 1)
unfolding groups
length-groups zero v = omega arith
length-groups (suc k) v = ground (arith, length-groups k (v / 128))

pub groups-IsByte : (k v : ℕ) → v < 128 ^ suc k → All IsByte (groups k v)
unfolding groups
groups-IsByte zero v h = omega arith
groups-IsByte (suc k) v h = ground (arith, groups-IsByte k (v / 128) (omega arith))

varint_length_loop-groups :
    (k v len : ℕ) (w : Acc ◌<◌ v)
    → v < 128 ^ suc k
    → varint_length_loop v len w + 1 ≡ len + length (groups k v)
unfolding varint_length_loop groups
varint_length_loop-groups zero v len (Acc.intro _ smaller) h = ground arith
varint_length_loop-groups (suc k) v len (Acc.intro _ smaller) h = grind (
  arith,
  λ (w : Acc ◌<◌ (v / 128)). varint_length_loop-groups k (v / 128) (len + 1) w (omega arith),
)

pub varint_length-groups : (v : ℕ) → IsU64 v → varint_length v ≡ length (groups 9 v)
unfolding varint_length
varint_length-groups v h =
    omega (arith, varint_length_loop-groups 9 v 1 (lt_wf.apply v) (omega arith))

pow-next : (shift : ℕ) → 2 ^ (shift + 7) ≡ 128 * 2 ^ shift
pow-next shift = simp towards_suc (omega arith)

-- The lowest seven bits of `q` stay at `shift`, the others move to the next shift.
low_high : (shift q : ℕ) → q % 128 * 2 ^ shift + q / 128 * 2 ^ (shift + 7) ≡ q * 2 ^ shift
low_high shift q =
    let at_next : q / 128 * 2 ^ (shift + 7) ≡ q / 128 * (128 * 2 ^ shift) =
      ap (◌*◌ (q / 128)) (pow-next shift) in
    let whole : (q / 128 * 128 + q % 128) * 2 ^ shift ≡ q * 2 ^ shift =
      ap (λ (t : ℕ). t * 2 ^ shift) (omega arith) in
    omega (arith, at_next, whole)

below_next : (shift low d : ℕ) → low < 2 ^ shift → d < 128 → low + d * 2 ^ shift < 2 ^ (shift + 7)
below_next shift low d hl hd = rw (pow-next shift) (grind arith)

module _ (bits last : ℕ) where
  -- A byte with the top bit set adds its digit, and the loop goes on seven bits higher.
  goes_on :
      (low shift d : ℕ) (rest : Bytes)
      → low < 2 ^ shift
      → low + d * 2 ^ shift < 2 ^ bits
      → d < 128
      → shift ≤ last
      → get_varint_loop bits last low shift ((d + 128) ∷ rest)
        ≡ get_varint_loop bits last (low + d * 2 ^ shift) (shift + 7) rest
  unfolding get_varint_loop
  goes_on low shift d rest disjoint room hd hs =
      let digit : bit_and (d + 128) 127 ≡ d = byte_low (d + 128) (omega arith) ∙ omega arith in
      let kept : d * 2 ^ shift % 2 ^ bits ≡ d * 2 ^ shift = mod-eq_of_lt (omega arith) in
      ground (arith, digit, kept, byte_top (d + 128), bit_or-shifted shift low d)

  -- A byte without it ends the number.
  ends :
      (low shift d : ℕ) (rest : Bytes)
      → low < 2 ^ shift
      → low + d * 2 ^ shift < 2 ^ bits
      → d < 128
      → shift ≤ last
      → get_varint_loop bits last low shift (d ∷ rest) ≡ some (low + d * 2 ^ shift, rest)
  unfolding get_varint_loop
  ends low shift d rest disjoint room hd hs =
      let kept : d * 2 ^ shift % 2 ^ bits ≡ d * 2 ^ shift = mod-eq_of_lt (omega arith) in
      ground (arith, kept, byte_top d, bit_or-shifted shift low d)

  -- `low` is what the loop has read so far, all of it below bit `shift`; `q` is still to come.
  get_varint_loop-groups :
      (low shift k q : ℕ) (rest : Bytes)
      → low < 2 ^ shift
      → low + q * 2 ^ shift < 2 ^ bits
      → q < 128 ^ suc k
      → shift + 7 * k ≤ last
      → get_varint_loop bits last low shift (groups k q ++ rest) ≡ some (low + q * 2 ^ shift, rest)
  unfolding groups
  get_varint_loop-groups low shift zero q rest disjoint room hq hs =
      ends low shift q rest disjoint room hq (omega arith)
  get_varint_loop-groups low shift (suc k) q rest disjoint room hq hs =
      let d = q % 128 in
      let low' = low + d * 2 ^ shift in
      let later = get_varint_loop-groups low' (shift + 7) k (q / 128) rest in
      ground (
        arith,
        low_high shift q,
        below_next shift low d disjoint (omega arith),
        goes_on low shift d (groups k (q / 128) ++ rest) disjoint,
        ends low shift q rest disjoint room,
        later,
      )

-- GetVarint64Ptr reads the groups of a uint64, and leaves what follows them.
pub get_varint64_ptr-groups :
    (v : ℕ) (rest : Bytes) → IsU64 v → get_varint64_ptr (groups 9 v ++ rest) ≡ some (v, rest)
unfolding get_varint64_ptr
get_varint64_ptr-groups v rest h = ground (arith, get_varint_loop-groups 64 63 0 0 9 v rest)

fallback-groups :
    (v : ℕ) (rest : Bytes)
    → IsU32 v
    → get_varint32_ptr_fallback (groups 4 v ++ rest) ≡ some (v, rest)
unfolding get_varint32_ptr_fallback
fallback-groups v rest h = ground (arith, get_varint_loop-groups 32 28 0 0 4 v rest)

fast_path :
    (b : ℕ) (p : Bytes) → b < 256 → get_varint32_ptr (b ∷ p) ≡ get_varint32_ptr_fallback (b ∷ p)
unfolding get_varint32_ptr get_varint32_ptr_fallback get_varint_loop
fast_path b p h = ground (arith, zero-bit_or (b * 1 % 4294967296))

-- The fast path of GetVarint32Ptr answers as the loop of its fallback does.
pub get_varint32_ptr-fallback :
    (p : Bytes) → All IsByte p → get_varint32_ptr p ≡ get_varint32_ptr_fallback p
get_varint32_ptr-fallback [] h = unfold get_varint32_ptr in refl
get_varint32_ptr-fallback (b ∷ p) h = fast_path b p h.0

fast_path-append :
    (g rest : Bytes)
    → All IsByte g
    → 1 ≤ length g
    → get_varint32_ptr (g ++ rest) ≡ get_varint32_ptr_fallback (g ++ rest)
fast_path-append [] rest h l = absurd (omega arith)
fast_path-append (b ∷ g) rest h l = fast_path b (g ++ rest) h.0

-- GetVarint32Ptr likewise.
pub get_varint32_ptr-encode :
    (v : ℕ) (rest : Bytes) → IsU32 v → get_varint32_ptr (encode_varint32 v ++ rest) ≡ some (v, rest)
get_varint32_ptr-encode v rest h =
    let read : get_varint32_ptr (groups 4 v ++ rest) ≡ some (v, rest) =
      fast_path-append (groups 4 v) rest (groups-IsByte 4 v (omega arith)) (length-groups 4 v).0
      ∙ fallback-groups v rest h in
    rw (encode_varint32-groups v h) read

-- GetVarint32 reads back the uint32 that EncodeVarint32 wrote, and leaves what follows it.
pub get_varint32-encode :
    (v : ℕ) (rest : Bytes) → IsU32 v → get_varint32 (encode_varint32 v ++ rest) ≡ some (v, rest)
unfolding get_varint32
get_varint32-encode v rest h = rw (get_varint32_ptr-encode v rest h, get_varint32)

-- GetVarint64 reads back the uint64 that EncodeVarint64 wrote, and leaves what follows it.
pub get_varint64-encode :
    (v : ℕ) (rest : Bytes) → IsU64 v → get_varint64 (encode_varint64 v ++ rest) ≡ some (v, rest)
unfolding get_varint64
get_varint64-encode v rest h =
    rw (encode_varint64-groups v h, get_varint64_ptr-groups v rest h, get_varint64)
