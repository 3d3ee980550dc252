-- ===== src/WriteBatch/Header.antt =====
-- The header of a batch: the sequence number and the count can be set and read one by one.
use leveldb_chinese_annotate.Prelude.{
  ℕ, ◌+◌, ◌%◌, ◌^◌, ◌≤◌, ◌≡◌, refl, ap, arith, [], ◌∷◌, ◌++◌, length, drop, drop-append,
}
use leveldb_chinese_annotate.Coding.{
  Bytes, IsU32, IsU64, encode_fixed32, encode_fixed64, decode_fixed64,
}
use leveldb_chinese_annotate.Coding.Fixed.{
  length-encode_fixed64, decode-encode_fixed32, decode-encode_fixed64,
}
use leveldb_chinese_annotate.WriteBatch.{header, clear, count, set_count, sequence, set_sequence}

-- A batch with a given header.
unfoldable pub batch : ℕ → ℕ → Bytes → Bytes
batch seq n body = encode_fixed64 seq ++ (encode_fixed32 n ++ body)

pub clear-batch : clear ≡ batch 0 0 []
unfolding clear batch encode_fixed64 encode_fixed32
clear-batch = refl

drop-eight : (seq : ℕ) (rest : Bytes) → drop 8 (encode_fixed64 seq ++ rest) ≡ rest
drop-eight seq rest = drop-append 8 (encode_fixed64 seq) rest (length-encode_fixed64 seq)

pub drop-twelve : (seq n : ℕ) (rest : Bytes) → drop 12 (batch seq n rest) ≡ rest
unfolding batch encode_fixed64 encode_fixed32
drop-twelve seq n rest = refl

pub batch-append :
    (seq n : ℕ) (body more : Bytes) → batch seq n body ++ more ≡ batch seq n (body ++ more)
unfolding batch encode_fixed64 encode_fixed32
batch-append seq n body more = refl

pub length-batch : (seq n : ℕ) (body : Bytes) → length (batch seq n body) ≡ 12 + length body
unfolding batch encode_fixed64 encode_fixed32
length-batch seq n body = omega arith

pub count-batch : (seq n : ℕ) (body : Bytes) → IsU32 n → count (batch seq n body) ≡ n
unfolding count batch
count-batch seq n body h =
    rw (drop-eight seq (encode_fixed32 n ++ body)) (decode-encode_fixed32 n body h)

pub sequence-batch : (seq n : ℕ) (body : Bytes) → IsU64 seq → sequence (batch seq n body) ≡ seq
unfolding sequence batch
sequence-batch seq n body h = decode-encode_fixed64 seq (encode_fixed32 n ++ body) h

pub set_count-batch :
    (seq n m : ℕ) (body : Bytes) → set_count (batch seq n body) m ≡ batch seq (m % 2 ^ 32) body
unfolding set_count batch
set_count-batch seq n m body = unfold encode_fixed64 encode_fixed32 in refl

pub set_sequence-batch :
    (seq n m : ℕ) (body : Bytes) → set_sequence (batch seq n body) m ≡ batch m n body
unfolding set_sequence batch
set_sequence-batch seq n m body =
    ap (λ t. encode_fixed64 m ++ t) (drop-eight seq (encode_fixed32 n ++ body))

-- On a batch with a header: SetCount stores the count (as a uint32) and SetSequence the sequence
-- number; each leaves the other field, the records and the size alone.
pub header_fields :
    (rep : Bytes) (n seq : ℕ)
    → header ≤ length rep
    → IsU64 seq
    → (count (set_count rep n) ≡ n % 2 ^ 32)
      × (sequence (set_count rep n) ≡ sequence rep)
      × (drop header (set_count rep n) ≡ drop header rep)
      × (sequence (set_sequence rep seq) ≡ seq)
      × (count (set_sequence rep seq) ≡ count rep)
      × (drop header (set_sequence rep seq) ≡ drop header rep)
unfolding set_count set_sequence count sequence
header_fields (a ∷ b ∷ c ∷ d ∷ e ∷ f ∷ g ∷ h ∷ i ∷ j ∷ k ∷ l ∷ rest) n seq le s = (
  decode-encode_fixed32 (n % 2 ^ 32) rest (omega arith),
  unfold decode_fixed64 in refl,
  unfold encode_fixed32 in refl,
  decode-encode_fixed64 seq (i ∷ j ∷ k ∷ l ∷ rest) s,
  unfold encode_fixed64 in refl,
  unfold encode_fixed64 in refl,
)
header_fields rep n seq le s = absurd (omega arith)
