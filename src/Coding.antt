-- ===== src/Coding.antt =====
-- util/coding.h and util/coding.cc: fixed-width and varint encodings of integers, and strings with
-- a length in front. A `char` buffer is a list of numbers below 256; what is appended to a
-- `std::string` is the list of the bytes written. A pointer pair [p, limit) is the list of the
-- bytes between the two, and a returned pointer is the list of the bytes that it leaves.
pub mod Fixed
pub mod Varint
pub mod Bounds
pub mod Slices
mod Tests
use leveldb_chinese_annotate.Prelude.{
  ℕ, zero, suc, ◌+◌, ◌*◌, ◌/◌, ◌%◌, ◌^◌, ◌≤◌, ◌<◌, ◌≡◌, bit_and, bit_or, arith, List, [], ◌∷◌, ◌++◌,
  Option, none, some, leb, ltb, ◌==◌, if◌then◌else◌, length, take, drop, get_or, All, lt_wf, dec_lt,
  dite,
}
use mathlib.Core.WellFounded.{Acc}

abbrev pub Bytes : Type 0
Bytes = List ℕ

abbrev pub IsByte : ℕ → Type 0
IsByte b = b < 256

abbrev pub IsU32 : ℕ → Type 0
IsU32 v = v < 2 ^ 32

abbrev pub IsU64 : ℕ → Type 0
IsU64 v = v < 2 ^ 64

-- Each byte is `static_cast<uint8_t>(value >> k)`.
unfoldable pub encode_fixed32 : ℕ → Bytes
encode_fixed32 value =
    (value % 256) ∷ (value / 2 ^ 8 % 256) ∷ (value / 2 ^ 16 % 256) ∷ (value / 2 ^ 24 % 256) ∷ []

unfoldable pub encode_fixed64 : ℕ → Bytes
encode_fixed64 value =
    (value % 256)
    ∷ (value / 2 ^ 8 % 256)
    ∷ (value / 2 ^ 16 % 256)
    ∷ (value / 2 ^ 24 % 256)
    ∷ (value / 2 ^ 32 % 256)
    ∷ (value / 2 ^ 40 % 256)
    ∷ (value / 2 ^ 48 % 256)
    ∷ (value / 2 ^ 56 % 256)
    ∷ []

unfoldable pub put_fixed32 : Bytes → ℕ → Bytes
put_fixed32 dst value = dst ++ encode_fixed32 value

unfoldable pub put_fixed64 : Bytes → ℕ → Bytes
put_fixed64 dst value = dst ++ encode_fixed64 value

-- The readers check no bounds. A byte past the end of the buffer reads as 0 here; every caller
-- checks the size first.
abbrev pub byte_at : Bytes → ℕ → ℕ
byte_at buffer i = get_or buffer i 0

unfoldable pub decode_fixed32 : Bytes → ℕ
decode_fixed32 buffer =
    bit_or
      (bit_or (bit_or (byte_at buffer 0) (byte_at buffer 1 * 2 ^ 8)) (byte_at buffer 2 * 2 ^ 16))
      (byte_at buffer 3 * 2 ^ 24)

unfoldable pub decode_fixed64 : Bytes → ℕ
decode_fixed64 buffer =
    bit_or
      (bit_or
        (bit_or
          (bit_or
            (bit_or
              (bit_or (bit_or (byte_at buffer 0) (byte_at buffer 1 * 2 ^ 8))
                (byte_at buffer 2 * 2 ^ 16))
              (byte_at buffer 3 * 2 ^ 24))
            (byte_at buffer 4 * 2 ^ 32))
          (byte_at buffer 5 * 2 ^ 40))
        (byte_at buffer 6 * 2 ^ 48))
      (byte_at buffer 7 * 2 ^ 56)

-- `*(ptr++) = v | B`: the store keeps the low eight bits.
abbrev more_byte : ℕ → ℕ
more_byte v = bit_or v 128 % 256

-- The five branches of the unrolled encoder. A store of `v >> k` keeps the low eight bits too.
unfoldable pub encode_varint32 : ℕ → Bytes
encode_varint32 v =
    if ltb v (2 ^ 7)
    then (v % 256) ∷ []
    else if ltb v (2 ^ 14)
    then more_byte v ∷ (v / 2 ^ 7 % 256) ∷ []
    else if ltb v (2 ^ 21)
    then more_byte v ∷ more_byte (v / 2 ^ 7) ∷ (v / 2 ^ 14 % 256) ∷ []
    else if ltb v (2 ^ 28)
    then more_byte v ∷ more_byte (v / 2 ^ 7) ∷ more_byte (v / 2 ^ 14) ∷ (v / 2 ^ 21 % 256) ∷ []
    else more_byte v
      ∷ more_byte (v / 2 ^ 7)
      ∷ more_byte (v / 2 ^ 14)
      ∷ more_byte (v / 2 ^ 21)
      ∷ (v / 2 ^ 28 % 256)
      ∷ []

unfoldable pub put_varint32 : Bytes → ℕ → Bytes
put_varint32 dst v = dst ++ encode_varint32 v

pub shift_shrinks : (v : ℕ) → 127 < v → v / 2 ^ 7 < v
shift_shrinks v h = omega arith

-- `while (v >= B)`. The value falls at each round, so no fuel is needed.
pub encode_varint64_loop : (v : ℕ) → Acc ◌<◌ v → Bytes
encode_varint64_loop v (Acc.intro _ smaller) =
    dite (dec_lt 127 v)
      (λ more. more_byte v ∷ encode_varint64_loop (v / 2 ^ 7) (smaller _ (shift_shrinks v more)))
      (λ _. (v % 256) ∷ [])

unfoldable pub encode_varint64 : ℕ → Bytes
unfolding encode_varint64_loop lt_wf dec_lt
encode_varint64 v = encode_varint64_loop v (lt_wf.apply v)

unfoldable pub put_varint64 : Bytes → ℕ → Bytes
put_varint64 dst v = dst ++ encode_varint64 v

pub varint_length_loop : (v : ℕ) → ℕ → Acc ◌<◌ v → ℕ
varint_length_loop v len (Acc.intro _ smaller) =
    dite (dec_lt 127 v)
      (λ more. varint_length_loop (v / 2 ^ 7) (len + 1) (smaller _ (shift_shrinks v more)))
      (λ _. len)

unfoldable pub varint_length : ℕ → ℕ
unfolding varint_length_loop lt_wf dec_lt
varint_length v = varint_length_loop v 1 (lt_wf.apply v)

-- `PutVarint32(dst, value.size())` passes a `size_t` as a `uint32_t`.
unfoldable pub put_length_prefixed_slice : Bytes → Bytes → Bytes
put_length_prefixed_slice dst value = put_varint32 dst (length value % 2 ^ 32) ++ value

-- The loop that GetVarint32PtrFallback (bits = 32, last = 28) and GetVarint64Ptr (bits = 64,
-- last = 63) share, from the state (result, shift) on. `none` is the null pointer.
pub get_varint_loop : (bits last result shift : ℕ) → Bytes → Option (ℕ × Bytes)
get_varint_loop bits last result shift [] = none
get_varint_loop bits last result shift (byte ∷ p) =
    let more =
      get_varint_loop bits last (bit_or result (bit_and byte 127 * 2 ^ shift % 2 ^ bits))
        (shift + 7) p in
    if leb shift last
    then if bit_and byte 128 == 0
      then some (bit_or result (byte * 2 ^ shift % 2 ^ bits), p)
      else more
    else none

unfoldable pub get_varint32_ptr_fallback : Bytes → Option (ℕ × Bytes)
unfolding get_varint_loop
get_varint32_ptr_fallback p = get_varint_loop 32 28 0 0 p

unfoldable pub get_varint32_ptr : Bytes → Option (ℕ × Bytes)
get_varint32_ptr [] = get_varint32_ptr_fallback []
get_varint32_ptr (byte ∷ p) =
    if bit_and byte 128 == 0 then some (byte, p) else get_varint32_ptr_fallback (byte ∷ p)

unfoldable pub get_varint64_ptr : Bytes → Option (ℕ × Bytes)
unfolding get_varint_loop
get_varint64_ptr p = get_varint_loop 64 63 0 0 p

-- `none` is the answer `false`; a result carries the value and the slice that is left.
unfoldable pub get_varint32 : Bytes → Option (ℕ × Bytes)
get_varint32 input = elim (get_varint32_ptr input) [ none ↦ none | some (v, q) ↦ some (v, q) ]

unfoldable pub get_varint64 : Bytes → Option (ℕ × Bytes)
get_varint64 input = elim (get_varint64_ptr input) [ none ↦ none | some (v, q) ↦ some (v, q) ]

-- Where the length does not fit, the source has already moved `input` past it; every caller gives
-- the input up on `false`, so that position is not part of the answer.
unfoldable pub get_length_prefixed_slice : Bytes → Option (Bytes × Bytes)
get_length_prefixed_slice input = elim (get_varint32 input) [
  | none ↦ none
  | some (len, rest) ↦ if leb len (length rest) then some (take len rest, drop len rest) else none
]
