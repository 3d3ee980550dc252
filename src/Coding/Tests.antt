-- ===== src/Coding/Tests.antt =====
-- Concrete runs of util/coding.cc, and the theorems at concrete inputs.
use leveldb_chinese_annotate.Prelude.{
  ◌+◌, ◌^◌, ◌≤◌, ◌≡◌, refl, arith, [], ◌∷◌, ◌++◌, none, some, length, All,
}
use leveldb_chinese_annotate.Coding.{
  IsByte, encode_fixed32, decode_fixed32, encode_varint32, encode_varint64, varint_length,
  get_varint32, get_varint32_ptr, get_varint32_ptr_fallback, get_varint64,
  put_length_prefixed_slice, get_length_prefixed_slice,
}
use leveldb_chinese_annotate.Coding.Fixed.{decode-encode_fixed32}
use leveldb_chinese_annotate.Coding.Varint.{get_varint32-encode, get_varint64-encode}
use leveldb_chinese_annotate.Coding.Bounds.{encode_varint64_shape}
use leveldb_chinese_annotate.Coding.Slices.{get-put_length_prefixed_slice}

encode_300 : encode_varint32 300 ≡ 0xac ∷ 0x02 ∷ []
unfolding encode_varint32
encode_300 = refl

encode_300_long : encode_varint64 300 ≡ 0xac ∷ 0x02 ∷ []
unfolding encode_varint64
encode_300_long = refl

-- A sixth byte is never read.
six_bytes : get_varint32 (0x80 ∷ 0x80 ∷ 0x80 ∷ 0x80 ∷ 0x80 ∷ 0 ∷ []) ≡ none
unfolding get_varint32 get_varint32_ptr get_varint32_ptr_fallback
six_bytes = refl

read_300 : get_varint32 (0xac ∷ 0x02 ∷ 7 ∷ []) ≡ some (300, 7 ∷ [])
unfolding get_varint32 get_varint32_ptr get_varint32_ptr_fallback
read_300 = refl

read_abc : get_length_prefixed_slice (2 ∷ 97 ∷ 98 ∷ 99 ∷ []) ≡ some (97 ∷ 98 ∷ [], 99 ∷ [])
unfolding get_length_prefixed_slice get_varint32 get_varint32_ptr
read_abc = refl

decode-encode_fixed32_example :
    decode_fixed32 (encode_fixed32 0xdead_beef ++ (9 ∷ [])) ≡ 0xdead_beef
decode-encode_fixed32_example = decode-encode_fixed32 0xdead_beef (9 ∷ []) (omega arith)

get_varint32-encode_example : get_varint32 (encode_varint32 300 ++ (9 ∷ [])) ≡ some (300, 9 ∷ [])
get_varint32-encode_example = get_varint32-encode 300 (9 ∷ []) (omega arith)

get_varint64-encode_example :
    get_varint64 (encode_varint64 (2 ^ 63 + 5) ++ (9 ∷ [])) ≡ some (2 ^ 63 + 5, 9 ∷ [])
get_varint64-encode_example = get_varint64-encode (2 ^ 63 + 5) (9 ∷ []) (omega arith)

encode_varint64_shape_example :
    All IsByte (encode_varint64 300)
    × (1 ≤ length (encode_varint64 300))
    × (length (encode_varint64 300) ≤ 10)
    × (varint_length 300 ≡ length (encode_varint64 300))
encode_varint64_shape_example = encode_varint64_shape 300 (omega arith)

get-put_length_prefixed_slice_example :
    get_length_prefixed_slice (put_length_prefixed_slice [] (97 ∷ 98 ∷ []) ++ (9 ∷ []))
    ≡ some (97 ∷ 98 ∷ [], 9 ∷ [])
get-put_length_prefixed_slice_example =
    get-put_length_prefixed_slice (97 ∷ 98 ∷ []) (9 ∷ []) (omega arith)
