-- ===== src/WriteBatch/Records.antt =====
-- The records of a batch as a list of operations.
use leveldb_chinese_annotate.Prelude.{
  ℕ, ◌+◌, ◌%◌, ◌^◌, ◌<◌, ◌≡◌, ap, ◌∙◌, arith, List, [], ◌∷◌, ◌++◌, length, append_assoc, append-nil,
  All,
}
use leveldb_chinese_annotate.Coding.{Bytes}
use leveldb_chinese_annotate.Coding.Slices.{IsShort, prefixed, put_length_prefixed_slice_lem}
use leveldb_chinese_annotate.WriteBatch.{Handler, count, set_count, put, delete}
use leveldb_chinese_annotate.WriteBatch.Header.{batch, count-batch, set_count-batch, batch-append}

pub data Op : Type 0 where
  put_op : Bytes → Bytes → Op
  delete_op : Bytes → Op

-- Keys and values fit their length fields.
abbrev pub IsShortOp : Op → Type 0
IsShortOp (Op.put_op key value) = IsShort key × IsShort value
IsShortOp (Op.delete_op key) = IsShort key

abbrev pub record_bytes : Op → Bytes
record_bytes (Op.put_op key value) = 1 ∷ (prefixed key ++ prefixed value)
record_bytes (Op.delete_op key) = 0 ∷ prefixed key

abbrev pub records : List Op → Bytes
records [] = []
records (op ∷ ops) = record_bytes op ++ records ops

-- The batch's own method for an operation.
abbrev pub apply : Bytes → Op → Bytes
apply rep (Op.put_op key value) = put rep key value
apply rep (Op.delete_op key) = delete rep key

abbrev pub apply_all : Bytes → List Op → Bytes
apply_all rep [] = rep
apply_all rep (op ∷ ops) = apply_all (apply rep op) ops

-- The calls that a handler gets for the operations, in order.
module _ {ℓ} {S : Type ℓ} (handler : Handler S) where
  abbrev pub handle : S → Op → S
  handle s (Op.put_op key value) = handler.on_put key value s
  handle s (Op.delete_op key) = handler.on_delete key s

  abbrev pub handle_all : S → List Op → S
  handle_all s [] = s
  handle_all s (op ∷ ops) = handle_all (handle s op) ops

counted :
    (seq n : ℕ) (body : Bytes)
    → n < 2 ^ 32
    → set_count (batch seq n body) (count (batch seq n body) + 1)
      ≡ batch seq ((n + 1) % 2 ^ 32) body
counted seq n body h = rw (count-batch seq n body h) (set_count-batch seq n (n + 1) body)

-- Put and Delete count one record more and append it.
pub apply-batch :
    (seq n : ℕ) (body : Bytes) (op : Op)
    → n < 2 ^ 32
    → IsShortOp op
    → apply (batch seq n body) op ≡ batch seq ((n + 1) % 2 ^ 32) (body ++ record_bytes op)
unfolding put delete
apply-batch seq n body (Op.put_op key value) hn (hk, hv) =
    rw
      (
        counted seq n body hn,
        put_length_prefixed_slice_lem (batch seq ((n + 1) % 2 ^ 32) body ++ (1 ∷ [])) key hk,
        put_length_prefixed_slice_lem
            ((batch seq ((n + 1) % 2 ^ 32) body ++ (1 ∷ [])) ++ prefixed key) value hv,
      )
      (simp (batch-append, append_assoc))
apply-batch seq n body (Op.delete_op key) hn h =
    rw
      (
        counted seq n body hn,
        put_length_prefixed_slice_lem (batch seq ((n + 1) % 2 ^ 32) body ++ (0 ∷ [])) key h,
      )
      (simp (batch-append, append_assoc))

-- Any number of operations, one after the other.
pub apply_all-batch :
    (seq n : ℕ) (body : Bytes) (ops : List Op)
    → n + length ops < 2 ^ 32
    → All IsShortOp ops
    → apply_all (batch seq n body) ops ≡ batch seq (n + length ops) (body ++ records ops)
apply_all-batch seq n body [] hn h = rw (append-nil body) (ap (λ m. batch seq m body) (omega arith))
apply_all-batch seq n body (op ∷ ops) hn (h, hs) =
    let first : apply (batch seq n body) op ≡ batch seq (n + 1) (body ++ record_bytes op) =
      apply-batch seq n body op (omega arith) h
      ∙ ap (λ m. batch seq m (body ++ record_bytes op)) (omega arith) in
    let count_all : n + 1 + length ops ≡ n + length (op ∷ ops) = omega arith in
    rw first (
      apply_all-batch seq (n + 1) (body ++ record_bytes op) ops (omega arith) hs
      ∙ rw (count_all, append_assoc body (record_bytes op) (records ops)))
