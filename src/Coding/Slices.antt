-- ===== src/Coding/Slices.antt =====
-- Strings with a length in front, of util/coding.cc: PutLengthPrefixedSlice and
-- GetLengthPrefixedSlice.
use leveldb_chinese_annotate.Prelude.{
  ℕ, ◌+◌, ◌^◌, ◌≤◌, ◌<◌, ◌≡◌, refl, ◌∙◌, arith, ◌++◌, some, length, length-append, length-drop,
  length-take, take, drop, take-append, drop-append, All, All-append, All-take, All-drop,
  append_assoc, Option-cases, inl, inr, [],
}
use leveldb_chinese_annotate.Coding.{
  Bytes, IsByte, encode_varint32, put_varint32, get_varint32, put_length_prefixed_slice,
  get_length_prefixed_slice,
}
use leveldb_chinese_annotate.Coding.Varint.{get_varint32-encode}
use leveldb_chinese_annotate.Coding.Bounds.{get_varint32_takes, encode_varint32_shape}
use native.Mathlib.Nat.{mod-eq_of_lt}

-- The size of a slice fits the uint32 that PutLengthPrefixedSlice makes of it.
abbrev pub IsShort : Bytes → Type 0
IsShort s = length s < 2 ^ 32

-- What PutLengthPrefixedSlice appends.
abbrev pub prefixed : Bytes → Bytes
prefixed s = encode_varint32 (length s) ++ s

pub put_length_prefixed_slice_lem :
    (dst s : Bytes) → IsShort s → put_length_prefixed_slice dst s ≡ dst ++ prefixed s
unfolding put_length_prefixed_slice put_varint32
put_length_prefixed_slice_lem dst s h =
    rw (mod-eq_of_lt {n = length s} {m = 2 ^ 32} h)
      (append_assoc dst (encode_varint32 (length s)) s)

read_slice :
    (input : Bytes) (len : ℕ) (more : Bytes)
    → get_varint32 input ≡ some (len, more)
    → len ≤ length more
    → get_length_prefixed_slice input ≡ some (take len more, drop len more)
unfolding get_length_prefixed_slice
read_slice input len more e h = ground arith

pub get_length_prefixed_slice-prefixed :
    (s rest : Bytes) → IsShort s → get_length_prefixed_slice (prefixed s ++ rest) ≡ some (s, rest)
get_length_prefixed_slice-prefixed s rest h =
    rw (append_assoc (encode_varint32 (length s)) s rest) (
      read_slice _ (length s) (s ++ rest) (get_varint32-encode (length s) (s ++ rest) h)
        (omega (arith, length-append s rest))
      ∙ rw (take-append (length s) s rest refl, drop-append (length s) s rest refl))

-- GetLengthPrefixedSlice reads back a slice of less than 2^32 bytes that PutLengthPrefixedSlice
-- appended to an empty string, and leaves what follows it.
pub get-put_length_prefixed_slice :
    (s rest : Bytes)
    → IsShort s
    → get_length_prefixed_slice (put_length_prefixed_slice [] s ++ rest) ≡ some (s, rest)
get-put_length_prefixed_slice s rest h =
    rw (put_length_prefixed_slice_lem [] s h) (get_length_prefixed_slice-prefixed s rest h)

pub prefixed-IsByte : (s : Bytes) → IsShort s → All IsByte s → All IsByte (prefixed s)
prefixed-IsByte s h b = All-append IsByte _ s (encode_varint32_shape (length s) h).0 b

-- A successful read takes at least one byte, and answers parts of the input.
pub get_length_prefixed_slice_takes :
    (input s rest : Bytes)
    → All IsByte input
    → get_length_prefixed_slice input ≡ some (s, rest)
    → IsShort s × (length s + length rest < length input) × All IsByte s × All IsByte rest
unfolding get_length_prefixed_slice
get_length_prefixed_slice_takes input s rest hp e = elim (Option-cases (get_varint32 input)) [
  | inl r ↦ absurd (ground arith)
  | inr ((len, more), r) ↦ parts len more r
]
  where
    parts :
        (len : ℕ) (more : Bytes)
        → get_varint32 input ≡ some (len, more)
        → IsShort s × (length s + length rest < length input) × All IsByte s × All IsByte rest
    parts len more r =
        let t = get_varint32_takes input len more hp r in
        ground (
          arith,
          t,
          length-take len more,
          length-drop len more,
          All-take IsByte len more t.3,
          All-drop IsByte len more t.3,
        )
