-- ===== src/Block/Entries.antt =====
-- The entries of a block as bytes: what BlockBuilder writes, and what DecodeEntry reads.
use mathlib.Core.Path.{subst}
use leveldb_chinese_annotate.Prelude.{
  ℕ, zero, suc, ◌+◌, ◌-◌, ◌/◌, ◌%◌, ◌^◌, ◌<◌, ◌≤◌, ◌≡◌, refl, sym, ap, ◌∙◌, arith, false, List, [],
  ◌∷◌, ◌++◌, some, ltb, length, length-append, length-drop, take, drop, take_all, append-nil,
  bit_or, append_assoc,
}
use leveldb_chinese_annotate.Prelude.Bits.{bit_or_step, zero-bit_or, byte_top}
use leveldb_chinese_annotate.Coding.{Bytes, encode_varint32, put_varint32, get_varint32_ptr}
use leveldb_chinese_annotate.Coding.Varint.{get_varint32_ptr-encode}
use leveldb_chinese_annotate.Coding.Bounds.{encode_varint32_shape}
use leveldb_chinese_annotate.Comparator.{shared_prefix}
use leveldb_chinese_annotate.Block.{put_entry}
use leveldb_chinese_annotate.Block.Iter.{decode_lengths, decode_entry}

-- The bytes of an entry that drops `shared` bytes of its key.
abbrev pub entry_bytes : ℕ → Bytes → Bytes → Bytes
entry_bytes shared key value =
    encode_varint32 shared
    ++ (encode_varint32 (length key - shared)
        ++ (encode_varint32 (length value) ++ (drop shared key ++ value)))

-- The sum of the two lengths is a uint32.
abbrev pub IsShortEntry : Bytes × Bytes → Type 0
IsShortEntry (key, value) = length key + length value < 2 ^ 32

-- `Encoded previous entries bytes last`: the bytes hold the entries, each key against the key before
-- it, the first one against `previous`; the last key is `last`.
pub data Encoded : Bytes → List (Bytes × Bytes) → Bytes → Bytes → Type 0 where
  nothing : (previous : Bytes) → Encoded previous [] [] previous
  entry :
      (previous key value : Bytes) (shared : ℕ) {entries : List (Bytes × Bytes)} {out last : Bytes}
      → shared ≤ length previous
      → shared ≤ length key
      → take shared previous ≡ take shared key
      → IsShortEntry (key, value)
      → Encoded key entries out last
      → Encoded previous ((key, value) ∷ entries) (entry_bytes shared key value ++ out) last

-- One more entry at the end.
pub Encoded-append :
    {previous last : Bytes} {entries : List (Bytes × Bytes)} {out : Bytes} (key value : Bytes)
    (shared : ℕ)
    → shared ≤ length last
    → shared ≤ length key
    → take shared last ≡ take shared key
    → IsShortEntry (key, value)
    → Encoded previous entries out last
    → Encoded previous (entries ++ ((key, value) ∷ [])) (out ++ entry_bytes shared key value) key
Encoded-append key value shared hl hk e hs (Encoded.nothing previous) =
    subst (λ bytes. Encoded previous ((key, value) ∷ []) bytes key)
      (append-nil (entry_bytes shared key value))
      (Encoded.entry previous key value shared hl hk e hs (Encoded.nothing key))
Encoded-append {previous = previous} key value shared hl hk e hs
      (Encoded.entry _ k v s {entries = entries} {out = out} sp sk se ss rest) =
    subst (λ bytes. Encoded previous ((k, v) ∷ (entries ++ ((key, value) ∷ []))) bytes key)
      (sym (append_assoc (entry_bytes s k v) out (entry_bytes shared key value)))
      (Encoded.entry previous k v s sp sk se ss (Encoded-append key value shared hl hk e hs rest))

-- BlockBuilder::Add appends the bytes of an entry.
pub put_entry-bytes :
    (buffer key value : Bytes) (shared : ℕ)
    → shared ≤ length key
    → IsShortEntry (key, value)
    → put_entry buffer shared key value ≡ buffer ++ entry_bytes shared key value
unfolding put_entry put_varint32
put_entry-bytes buffer key value shared h hs =
    let n = length key - shared in
    let e1 : shared % 2 ^ 32 ≡ shared = omega arith in
    let e2 : n % 2 ^ 32 ≡ n = omega arith in
    let e3 : length value % 2 ^ 32 ≡ length value = omega arith in
    let e4 : take n (drop shared key) ≡ drop shared key =
      take_all n (drop shared key) (omega (arith, length-drop shared key)) in
    rw (e1, e2, e3, e4) (simp append_assoc)

pub shared_prefix-agrees :
    (n : ℕ) (a b : Bytes)
    → (shared_prefix n a b ≤ length a)
      × (shared_prefix n a b ≤ length b)
      × (take (shared_prefix n a b) a ≡ take (shared_prefix n a b) b)
unfolding shared_prefix
shared_prefix-agrees zero a b = (omega arith, omega arith, refl)
shared_prefix-agrees (suc n) [] b = (omega arith, omega arith, refl)
shared_prefix-agrees (suc n) (x ∷ a) [] = (omega arith, omega arith, refl)
shared_prefix-agrees (suc n) (x ∷ a) (y ∷ b) = ground (arith, shared_prefix-agrees n a b)

-- A disjunction is not below its sides.
le-bit_or : (bound a b : ℕ) → a < bound → (a ≤ bit_or a b) × (b ≤ bit_or a b)
le-bit_or zero a b h = absurd (omega arith)
le-bit_or (suc bound) zero b h = omega (arith, zero-bit_or b)
le-bit_or (suc bound) (suc a) b h =
    omega (arith, bit_or_step (suc a) b, le-bit_or bound (suc a / 2) (b / 2) (omega arith))

small_bytes : (a b c : ℕ) → bit_or (bit_or a b) c < 128 → (a < 128) × (b < 128) × (c < 128)
small_bytes a b c h = omega (
  arith,
  le-bit_or (suc a) a b (omega arith),
  le-bit_or (suc (bit_or a b)) (bit_or a b) c (omega arith),
)

one_byte : (b : ℕ) (p : Bytes) → b < 128 → get_varint32_ptr (b ∷ p) ≡ some (b, p)
unfolding get_varint32_ptr
one_byte b p h = ground (arith, byte_top b)

-- The fast path of DecodeEntry reads what GetVarint32Ptr reads.
fast_lengths :
    (p p1 p2 p3 : Bytes) (shared non_shared value_length : ℕ)
    → 3 ≤ length p
    → get_varint32_ptr p ≡ some (shared, p1)
    → get_varint32_ptr p1 ≡ some (non_shared, p2)
    → get_varint32_ptr p2 ≡ some (value_length, p3)
    → decode_lengths p ≡ some (shared, non_shared, value_length, p3)
unfolding decode_lengths
fast_lengths [] p1 p2 p3 s n v h e1 e2 e3 = absurd (omega arith)
fast_lengths (a ∷ []) p1 p2 p3 s n v h e1 e2 e3 = absurd (omega arith)
fast_lengths (a ∷ b ∷ []) p1 p2 p3 s n v h e1 e2 e3 = absurd (omega arith)
fast_lengths (a ∷ b ∷ c ∷ p) p1 p2 p3 s n v h e1 e2 e3 =
    ground (arith, small_bytes a b c, one_byte a (b ∷ c ∷ p), one_byte b (c ∷ p), one_byte c p)

length-sum :
    (key value out : Bytes) (shared : ℕ)
    → shared ≤ length key
    → length ((drop shared key ++ value) ++ out) ≡ (length key - shared) + length value + length out
length-sum key value out shared hk = omega (
  arith,
  length-append (drop shared key ++ value) out,
  length-append (drop shared key) value,
  length-drop shared key,
)

pub length-entry_bytes :
    (key value : Bytes) (shared : ℕ)
    → shared ≤ length key
    → IsShortEntry (key, value)
    → length (drop shared key ++ value) + 3 ≤ length (entry_bytes shared key value)
length-entry_bytes key value shared hk hs =
    let n = length key - shared in
    let tail = drop shared key ++ value in
    let v = encode_varint32 (length value) in
    let u = encode_varint32 n in
    omega (
      arith,
      (encode_varint32_shape shared (omega arith)).1,
      (encode_varint32_shape n (omega arith)).1,
      (encode_varint32_shape (length value) (omega arith)).1,
      length-append (encode_varint32 shared) (u ++ (v ++ tail)),
      length-append u (v ++ tail),
      length-append v tail,
    )

decode_entry-lengths :
    (p q : Bytes) (shared non_shared value_length : ℕ)
    → decode_lengths p ≡ some (shared, non_shared, value_length, q)
    → ltb (length q % 2 ^ 32) ((non_shared + value_length) % 2 ^ 32) ≡ false
    → decode_entry p ≡ some (shared, non_shared, value_length, q)
unfolding decode_entry
decode_entry-lengths p q shared non_shared value_length e f = ground arith

-- DecodeEntry reads back the lengths of an entry and leaves the rest of the key, the value and what
-- follows them, in a block of less than 4 GB.
pub decode_entry-bytes :
    (key value out : Bytes) (shared : ℕ)
    → shared ≤ length key
    → IsShortEntry (key, value)
    → length (entry_bytes shared key value ++ out) < 2 ^ 32
    → decode_entry (entry_bytes shared key value ++ out)
      ≡ some (shared, length key - shared, length value, (drop shared key ++ value) ++ out)
decode_entry-bytes key value out shared hk hs small =
    let n = length key - shared in
    let tail = drop shared key ++ value in
    let s = encode_varint32 shared in
    let u = encode_varint32 n in
    let v = encode_varint32 (length value) in
    let size = length-append (entry_bytes shared key value) out in
    let three = length-entry_bytes key value shared hk hs in
    let e1 : get_varint32_ptr (entry_bytes shared key value ++ out)
        ≡ some (shared, (u ++ (v ++ tail)) ++ out) =
      ap get_varint32_ptr (append_assoc s (u ++ (v ++ tail)) out)
      ∙ get_varint32_ptr-encode shared ((u ++ (v ++ tail)) ++ out) (omega arith) in
    let e2 : get_varint32_ptr ((u ++ (v ++ tail)) ++ out) ≡ some (n, (v ++ tail) ++ out) =
      ap get_varint32_ptr (append_assoc u (v ++ tail) out)
      ∙ get_varint32_ptr-encode n ((v ++ tail) ++ out) (omega arith) in
    let e3 : get_varint32_ptr ((v ++ tail) ++ out) ≡ some (length value, tail ++ out) =
      ap get_varint32_ptr (append_assoc v tail out)
      ∙ get_varint32_ptr-encode (length value) (tail ++ out) (omega arith) in
    let fits : ltb (length (tail ++ out) % 2 ^ 32) ((n + length value) % 2 ^ 32) ≡ false =
      enough (length (tail ++ out)) (n + length value)
        (omega (arith, length-sum key value out shared hk))
        (omega (arith, size, three, length-append tail out)) in
    let lengths =
      fast_lengths (entry_bytes shared key value ++ out) ((u ++ (v ++ tail)) ++ out)
        ((v ++ tail) ++ out) (tail ++ out) shared n (length value) (omega (arith, size, three)) e1
        e2 e3 in
    decode_entry-lengths (entry_bytes shared key value ++ out) (tail ++ out) shared n (length value)
      lengths fits
  where
    enough :
        (have want : ℕ) → want ≤ have → have < 2 ^ 32 → ltb (have % 2 ^ 32) (want % 2 ^ 32) ≡ false
    enough have want h small = ground arith
