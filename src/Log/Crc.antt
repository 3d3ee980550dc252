-- ===== src/Log/Crc.antt =====
-- util/crc32c.h: Mask and Unmask. The checksum itself, util/crc32c.cc, is an interface: its function
-- Extend with the laws that its header documents.
use leveldb_chinese_annotate.Prelude.{
  ℕ, ◌+◌, ◌-◌, ◌*◌, ◌/◌, ◌%◌, ◌^◌, ◌≡◌, ◌∙◌, arith, ◌++◌, bit_or,
}
use leveldb_chinese_annotate.Prelude.Bits.{bit_or-shifted}
use leveldb_chinese_annotate.Coding.{Bytes, IsU32}

-- "Return the crc32c of concat(A, data[0,n-1]) where init_crc is the crc32c of some string A."
pub record Crc : Type 0 where
  pub extend : ℕ → Bytes → ℕ
  pub extend-append : (c : ℕ) (a b : Bytes) → extend (extend c a) b ≡ extend c (a ++ b)
  pub extend-IsU32 : (c : ℕ) (a : Bytes) → IsU32 (extend c a)

-- `Value(data, n)`
unfoldable pub value : Crc → Bytes → ℕ
value crc s = crc.extend 0 s

-- `kMaskDelta`
abbrev pub mask_delta : ℕ
mask_delta = 0xa282ead8

-- Rotate right by 15 bits and add a constant, in a uint32.
unfoldable pub mask : ℕ → ℕ
mask crc = (bit_or (crc / 2 ^ 15) (crc * 2 ^ 17 % 2 ^ 32) + mask_delta) % 2 ^ 32

unfoldable pub unmask : ℕ → ℕ
unmask masked_crc =
    let rot = (masked_crc + 2 ^ 32 - mask_delta) % 2 ^ 32 in
    bit_or (rot / 2 ^ 17) (rot * 2 ^ 15 % 2 ^ 32)

rotate_right :
    (c : ℕ) → IsU32 c → bit_or (c / 2 ^ 15) (c * 2 ^ 17 % 2 ^ 32) ≡ c / 2 ^ 15 + c % 2 ^ 15 * 2 ^ 17
rotate_right c h =
    let e : c * 2 ^ 17 % 2 ^ 32 ≡ c % 2 ^ 15 * 2 ^ 17 = omega arith in
    rw e (bit_or-shifted 17 (c / 2 ^ 15) (c % 2 ^ 15) (omega arith))

rotate_left :
    (c : ℕ) → IsU32 c → bit_or (c / 2 ^ 17) (c * 2 ^ 15 % 2 ^ 32) ≡ c / 2 ^ 17 + c % 2 ^ 17 * 2 ^ 15
rotate_left c h =
    let e : c * 2 ^ 15 % 2 ^ 32 ≡ c % 2 ^ 17 * 2 ^ 15 = omega arith in
    rw e (bit_or-shifted 15 (c / 2 ^ 17) (c % 2 ^ 17) (omega arith))

-- Unmask undoes Mask on every uint32.
pub unmask-mask : (c : ℕ) → IsU32 c → unmask (mask c) ≡ c
unfolding mask unmask
unmask-mask c h =
    let r = c / 2 ^ 15 + c % 2 ^ 15 * 2 ^ 17 in
    let back : ((r + mask_delta) % 2 ^ 32 + 2 ^ 32 - mask_delta) % 2 ^ 32 ≡ r = omega arith in
    rw (rotate_right c h, back) (rotate_left r (omega arith) ∙ omega arith)

pub mask-IsU32 : (c : ℕ) → IsU32 (mask c)
unfolding mask
mask-IsU32 c = omega arith

pub value-IsU32 : (crc : Crc) (s : Bytes) → IsU32 (value crc s)
unfolding value
value-IsU32 crc s = crc.extend-IsU32 0 s
