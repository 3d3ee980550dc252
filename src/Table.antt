-- ===== src/Table.antt =====
-- table/format.h and table/format.cc: the handle of a block and the footer of a table file.
pub mod RoundTrip
pub mod Block
mod Tests
use leveldb_chinese_annotate.Prelude.{
  ℕ, zero, suc, ◌+◌, ◌-◌, ◌*◌, ◌/◌, ◌%◌, ◌^◌, Bool, not, List, [], ◌∷◌, ◌++◌, Option, none, some,
  ltb, ◌==◌, if◌then◌else◌, length, take, drop, replicate, bit_or,
}
use leveldb_chinese_annotate.Coding.{Bytes, put_varint64, get_varint64, put_fixed32, decode_fixed32}
use leveldb_chinese_annotate.Status.{Status, is_ok}

pub record BlockHandle : Type 0 where
  pub offset : ℕ
  pub size : ℕ

-- `kMaxEncodedLength`
abbrev pub max_encoded_length : ℕ
max_encoded_length = 10 + 10

unfoldable pub encode_handle : BlockHandle → Bytes → Bytes
encode_handle h dst = put_varint64 (put_varint64 dst h.offset) h.size

-- The status, the fields and what is left of the input; a number that cannot be read changes neither.
unfoldable pub decode_handle : BlockHandle → Bytes → Status × BlockHandle × Bytes
decode_handle h input = elim (get_varint64 input) [
  | none ↦ (Status.corruption "bad block handle" "", h, input)
  | some (offset, input1) ↦ elim (get_varint64 input1) [
    | none ↦ (Status.corruption "bad block handle" "", record h { offset = offset }, input1)
    | some (size, input2) ↦ (Status.ok, record { offset = offset; size = size }, input2)
  ]
]

pub record Footer : Type 0 where
  pub metaindex_handle : BlockHandle
  pub index_handle : BlockHandle

-- `kEncodedLength`
abbrev pub encoded_length : ℕ
encoded_length = 2 * max_encoded_length + 8

-- `kTableMagicNumber`
abbrev pub table_magic_number : ℕ
table_magic_number = 0xdb4775248b80fb57

-- `std::string::resize`
unfoldable pub resize : ℕ → Bytes → Bytes
resize n dst = take n dst ++ replicate (n - length dst) 0

unfoldable pub encode_footer : Footer → Bytes → Bytes
encode_footer f dst =
    let handles = encode_handle f.index_handle (encode_handle f.metaindex_handle dst) in
    let padded = resize (2 * max_encoded_length) handles in
    put_fixed32 (put_fixed32 padded (table_magic_number % 2 ^ 32)) (table_magic_number / 2 ^ 32)

-- The number that stands eight bytes in front of the end of the footer.
unfoldable pub footer_magic : Bytes → ℕ
footer_magic input =
    let magic_ptr = drop (encoded_length - 8) input in
    bit_or (decode_fixed32 (drop 4 magic_ptr) * 2 ^ 32) (decode_fixed32 magic_ptr)

unfoldable pub decode_footer : Footer → Bytes → Status × Footer × Bytes
decode_footer f input =
    if ltb (length input) encoded_length
    then (Status.corruption "not an sstable (footer too short)" "", f, input)
    else if not (footer_magic input == table_magic_number)
    then (Status.corruption "not an sstable (bad magic number)" "", f, input)
    else (let (s1, h1, input1) = decode_handle f.metaindex_handle input in
        let (s2, h2, input2) = decode_handle f.index_handle input1 in
        if is_ok s1
        then (
          s2,
          record { metaindex_handle = h1; index_handle = h2 },
          if is_ok s2 then drop encoded_length input else input2,
        )
        else (s1, record f { metaindex_handle = h1 }, input1))
