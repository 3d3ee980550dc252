-- ===== src/WriteBatch/Building.antt =====
-- Batches that a client builds by Put, Delete and Append.
use leveldb_chinese_annotate.Prelude.{
  ℕ, ◌+◌, ◌%◌, ◌^◌, ◌<◌, ◌≡◌, refl, sym, ap, ◌∙◌, arith, true, List, [], ◌∷◌, ◌++◌, some, length,
  length-append, append_assoc, All, All-append, ◌==◌, if◌then◌else◌,
}
use leveldb_chinese_annotate.Coding.{Bytes}
use leveldb_chinese_annotate.Status.{ok, corruption}
use leveldb_chinese_annotate.WriteBatch.{Handler, clear, append, iterate}
use leveldb_chinese_annotate.WriteBatch.Header.{
  batch, clear-batch, count-batch, set_count-batch, drop-twelve, batch-append,
}
use leveldb_chinese_annotate.WriteBatch.Records.{
  Op, IsShortOp, record_bytes, records, apply_all, apply_all-batch, handle_all,
}
use leveldb_chinese_annotate.WriteBatch.Iteration.{iterate-batch}

-- The batch of a client: Clear, and then the operations.
abbrev pub build : List Op → Bytes
build ops = apply_all clear ops

pub build-batch :
    (ops : List Op)
    → length ops < 2 ^ 32
    → All IsShortOp ops
    → build ops ≡ batch 0 (length ops) (records ops)
build-batch ops hn h =
    let n : 0 + length ops ≡ length ops = omega arith in
    rw clear-batch
      (apply_all-batch 0 0 [] ops (omega arith) h ∙ ap (λ m. batch 0 m (records ops)) n)

-- Iterate over the batch that Put and Delete built: the handler gets exactly those operations, in
-- their order, and the status is ok. The operations are fewer than 2^31, and keys and values are
-- shorter than 2^32 bytes.
pub iterate-build {ℓ} :
    {S : Type ℓ} (handler : Handler S) (ops : List Op) (s : S)
    → length ops < 2 ^ 31
    → All IsShortOp ops
    → iterate handler (build ops) s ≡ some (ok, handle_all handler s ops)
iterate-build handler ops s hn h =
    let same : (length ops == length ops) ≡ true = ground arith in
    rw (build-batch ops (omega (arith, hn)) h) (
      iterate-batch handler 0 (length ops) ops s (omega (arith, hn)) hn h
      ∙ ap
          (λ b. some (
            if b then ok else corruption "WriteBatch has wrong count" "",
            handle_all handler s ops,
          ))
          same)

records-append : (ops more : List Op) → records (ops ++ more) ≡ records ops ++ records more
records-append [] more = refl
records-append (op ∷ ops) more =
    ap (λ t. record_bytes op ++ t) (records-append ops more)
    ∙ sym (append_assoc (record_bytes op) (records ops) (records more))

-- Append adds the counts and the records, and keeps the sequence number of the first batch.
append-batch :
    (seq seq' n m : ℕ) (body more : Bytes)
    → n + m < 2 ^ 32
    → append (batch seq n body) (batch seq' m more) ≡ batch seq (n + m) (body ++ more)
unfolding append
append-batch seq seq' n m body more h =
    let fits : (n + m) % 2 ^ 32 ≡ n + m = omega arith in
    rw
      (
        count-batch seq n body (omega arith),
        count-batch seq' m more (omega arith),
        set_count-batch seq n (n + m) body,
        drop-twelve seq' m more,
        fits,
      )
      (batch-append seq (n + m) body more)

-- Append of one built batch to another is the batch of both lists of operations, which are fewer
-- than 2^31 together, with keys and values shorter than 2^32 bytes.
pub append-build :
    (ops more : List Op)
    → length ops + length more < 2 ^ 31
    → All IsShortOp ops
    → All IsShortOp more
    → append (build ops) (build more) ≡ build (ops ++ more)
append-build ops more hn h hm = rw (
  build-batch ops (omega arith) h,
  build-batch more (omega arith) hm,
  build-batch (ops ++ more) (omega (arith, length-append ops more))
      (All-append IsShortOp ops more h hm),
  append-batch 0 0 (length ops) (length more) (records ops) (records more) (omega (arith, hn)),
  records-append ops more,
  length-append ops more,
)
