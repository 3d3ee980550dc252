-- ===== src/WriteBatch/Insertion.antt =====
-- WriteBatchInternal::InsertInto: the entries that a batch leaves in a memtable.
use leveldb_chinese_annotate.Prelude.{
  ℕ, ◌+◌, ◌^◌, ◌≤◌, ◌<◌, ◌≡◌, ap, ◌∙◌, arith, List, [], ◌∷◌, some, true, length, All, ◌==◌,
}
use leveldb_chinese_annotate.Status.{ok}
use leveldb_chinese_annotate.DbFormat.{ValueType, max_sequence_number}
use leveldb_chinese_annotate.WriteBatch.{MemTableOps, mem_table_inserter, insert_into, set_sequence}
use leveldb_chinese_annotate.WriteBatch.Header.{batch, set_sequence-batch, sequence-batch}
use leveldb_chinese_annotate.WriteBatch.Records.{Op, IsShortOp, records, handle, handle_all}
use leveldb_chinese_annotate.WriteBatch.Iteration.{iterate-batch}
use leveldb_chinese_annotate.WriteBatch.Building.{build, build-batch}

module _ {ℓ} {M : Type ℓ} (mem : MemTableOps M) where
  -- One entry for each operation, under consecutive sequence numbers.
  pub add_op : ℕ → Op → M → M
  add_op seq (Op.put_op key value) m = mem.add seq ValueType.type_value key value m
  add_op seq (Op.delete_op key) m = mem.add seq ValueType.type_deletion key [] m

  pub add_ops : ℕ → List Op → M → M
  add_ops seq [] m = m
  add_ops seq (op ∷ ops) m = add_ops (seq + 1) ops (add_op seq op m)

  inserter_step :
      (op : Op) (seq : ℕ) (m : M)
      → seq + 1 < 2 ^ 64
      → handle (mem_table_inserter mem) (seq, m) op ≡ (seq + 1, add_op seq op m)
  unfolding add_op mem_table_inserter
  inserter_step (Op.put_op key value) seq m h =
      ap (λ n. (n, mem.add seq ValueType.type_value key value m)) (omega arith)
  inserter_step (Op.delete_op key) seq m h =
      ap (λ n. (n, mem.add seq ValueType.type_deletion key [] m)) (omega arith)

  handle_all-inserter :
      (ops : List Op) (seq : ℕ) (m : M)
      → seq + length ops < 2 ^ 64
      → handle_all (mem_table_inserter mem) (seq, m) ops ≡ (seq + length ops, add_ops seq ops m)
  unfolding add_ops
  handle_all-inserter [] seq m h = ap (λ n. (n, m)) (omega arith)
  handle_all-inserter (op ∷ ops) seq m h =
      let last : seq + 1 + length ops ≡ seq + length (op ∷ ops) = omega arith in
      ap (λ p. handle_all (mem_table_inserter mem) p ops) (inserter_step op seq m (omega arith))
      ∙ handle_all-inserter ops (seq + 1) (add_op seq op m) (omega arith)
      ∙ ap (λ n. (n, add_ops (seq + 1) ops (add_op seq op m))) last

  -- InsertInto of a built batch whose sequence number was set to `seq`: the memtable gets one entry
  -- for each operation, in order, numbered seq, seq + 1, ..., and the status is ok. The operations
  -- are fewer than 2^31, keys and values are shorter than 2^32 bytes, and `seq` plus the number of
  -- operations is at most kMaxSequenceNumber.
  pub insert_into-build :
      (ops : List Op) (seq : ℕ) (m : M)
      → length ops < 2 ^ 31
      → seq + length ops ≤ max_sequence_number
      → All IsShortOp ops
      → insert_into mem (set_sequence (build ops) seq) m ≡ some (ok, add_ops seq ops m)
  unfolding insert_into
  insert_into-build ops seq m hn hs h =
      let rep : set_sequence (build ops) seq ≡ batch seq (length ops) (records ops) =
        rw (build-batch ops (omega (arith, hn)) h)
          (set_sequence-batch 0 (length ops) seq (records ops)) in
      let same : (length ops == length ops) ≡ true = ground arith in
      let run =
        iterate-batch (mem_table_inserter mem) seq (length ops) ops (seq, m) (omega (arith, hn)) hn
          h in
      rw rep (
        ground (
          arith,
          sequence-batch seq (length ops) (records ops) (omega arith),
          run,
          same,
          handle_all-inserter ops seq m (omega arith),
        ))
