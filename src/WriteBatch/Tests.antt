-- ===== src/WriteBatch/Tests.antt =====
-- Concrete batches of db/write_batch.cc, and the theorems at concrete inputs.
use leveldb_chinese_annotate.Prelude.{
  ℕ, ◌≡◌, arith, List, [], ◌∷◌, ◌++◌, some, length, ◌==◌, if◌then◌else◌,
}
use leveldb_chinese_annotate.Coding.{Bytes}
use leveldb_chinese_annotate.Status.{Status, ok, corruption}
use leveldb_chinese_annotate.WriteBatch.{
  Handler, MemTableOps, set_sequence, append, iterate, insert_into,
}
use leveldb_chinese_annotate.WriteBatch.Header.{batch}
use leveldb_chinese_annotate.WriteBatch.Records.{Op, records, handle_all}
use leveldb_chinese_annotate.WriteBatch.Iteration.{iterate-batch, iterate_total}
use leveldb_chinese_annotate.WriteBatch.Building.{build, iterate-build, append-build}
use leveldb_chinese_annotate.WriteBatch.Insertion.{add_ops, insert_into-build}

-- A handler that keeps the calls, the last one first.
abbrev recorder : Handler (List Op)
recorder = record {
  on_put = λ key value s. Op.put_op key value ∷ s;
  on_delete = λ key s. Op.delete_op key ∷ s;
}

-- A memtable that keeps its entries.
abbrev entries : MemTableOps (List (ℕ × Bytes × Bytes))
entries = record { add = λ seq t key value m. (seq, key, value) ∷ m }

abbrev two_ops : List Op
two_ops = Op.put_op (97 ∷ []) (49 ∷ 50 ∷ []) ∷ Op.delete_op (98 ∷ []) ∷ []

iterate-build_example :
    iterate recorder (build two_ops) [] ≡ some (ok, handle_all recorder [] two_ops)
iterate-build_example = iterate-build recorder two_ops [] (omega arith) (omega arith)

append-build_example : append (build two_ops) (build two_ops) ≡ build (two_ops ++ two_ops)
append-build_example = append-build two_ops two_ops (omega arith) (omega arith) (omega arith)

-- A count of 7 over two records.
iterate-batch_example :
    iterate recorder (batch 5 7 (records two_ops)) []
    ≡ some (
      if length two_ops == 7 then ok else corruption "WriteBatch has wrong count" "",
      handle_all recorder [] two_ops,
    )
iterate-batch_example =
    iterate-batch recorder 5 7 two_ops [] (omega arith) (omega arith) (omega arith)

-- The second record has an unknown tag.
abbrev broken : Bytes
broken = 0 ∷ 0 ∷ 0 ∷ 0 ∷ 0 ∷ 0 ∷ 0 ∷ 0 ∷ 2 ∷ 0 ∷ 0 ∷ 0 ∷ 0 ∷ 1 ∷ 98 ∷ 9 ∷ []

iterate_total_example : (r : Status × List Op) × (iterate recorder broken [] ≡ some r)
iterate_total_example = iterate_total recorder broken [] (omega arith)

insert_into-build_example :
    insert_into entries (set_sequence (build two_ops) 41) []
    ≡ some (ok, add_ops entries 41 two_ops [])
insert_into-build_example =
    insert_into-build entries two_ops 41 [] (omega arith) (omega arith) (omega arith)
