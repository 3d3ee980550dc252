-- ===== src/WriteBatch/Iteration.antt =====
-- WriteBatch::Iterate on the records that Put and Delete wrote, and on any bytes.
use leveldb_chinese_annotate.Prelude.{
  ℕ, zero, suc, ◌+◌, ◌%◌, ◌^◌, ◌<◌, ◌≤◌, ◌≡◌, ◌≢◌, ap, ◌∙◌, arith, List, [], ◌∷◌, ◌++◌, none, some,
  length, length-append, length-drop, append_assoc, All, ◌==◌, drop, All-drop, if◌then◌else◌,
  Option-cases, inl, inr,
}
use leveldb_chinese_annotate.Coding.{Bytes, IsByte, IsU32, get_length_prefixed_slice}
use leveldb_chinese_annotate.Coding.Slices.{
  prefixed, get_length_prefixed_slice-prefixed, get_length_prefixed_slice_takes,
}
use leveldb_chinese_annotate.Status.{Status, ok, corruption}
use leveldb_chinese_annotate.WriteBatch.{header, Handler, Outcome, iterate_loop, iterate}
use leveldb_chinese_annotate.WriteBatch.Header.{batch, count-batch, length-batch, drop-twelve}
use leveldb_chinese_annotate.WriteBatch.Records.{
  Op, IsShortOp, record_bytes, records, handle, handle_all,
}

module _ {ℓ} {S : Type ℓ} (handler : Handler S) where
  put_round :
      (fuel found : ℕ) (input input1 input2 key value : Bytes) (s : S)
      → get_length_prefixed_slice input ≡ some (key, input1)
      → get_length_prefixed_slice input1 ≡ some (value, input2)
      → iterate_loop handler (suc fuel) found (1 ∷ input) s
        ≡ iterate_loop handler fuel ((found + 1) % 2 ^ 32) input2 (handler.on_put key value s)
  unfolding iterate_loop
  put_round fuel found input input1 input2 key value s e1 e2 = ground arith

  delete_round :
      (fuel found : ℕ) (input input1 key : Bytes) (s : S)
      → get_length_prefixed_slice input ≡ some (key, input1)
      → iterate_loop handler (suc fuel) found (0 ∷ input) s
        ≡ iterate_loop handler fuel ((found + 1) % 2 ^ 32) input1 (handler.on_delete key s)
  unfolding iterate_loop
  delete_round fuel found input input1 key s e = ground arith

  -- One round on a record that Put or Delete wrote.
  loop_step :
      (fuel found : ℕ) (op : Op) (rest : Bytes) (s : S)
      → IsShortOp op
      → iterate_loop handler (suc fuel) found (record_bytes op ++ rest) s
        ≡ iterate_loop handler fuel ((found + 1) % 2 ^ 32) rest (handle handler s op)
  loop_step fuel found (Op.put_op key value) rest s (hk, hv) =
      rw (append_assoc (prefixed key) (prefixed value) rest) (
        put_round fuel found _ (prefixed value ++ rest) rest key value s
          (get_length_prefixed_slice-prefixed key (prefixed value ++ rest) hk)
          (get_length_prefixed_slice-prefixed value rest hv))
  loop_step fuel found (Op.delete_op key) rest s h =
      delete_round fuel found _ rest key s (get_length_prefixed_slice-prefixed key rest h)

  pub iterate_loop-records :
      (ops : List Op) (fuel found : ℕ) (s : S)
      → length (records ops) ≤ fuel
      → found + length ops < 2 ^ 31
      → All IsShortOp ops
      → iterate_loop handler fuel found (records ops) s
        ≡ Outcome.finished (found + length ops) (handle_all handler s ops)
  iterate_loop-records [] fuel found s hf small h =
      unfold iterate_loop in ap (λ n. Outcome.finished n s) (omega arith)
  iterate_loop-records (op ∷ ops) zero found s hf small h = absurd (no_room op ops hf)
    where
      no_room : (op : Op) (ops : List Op) → ¬ (length (records (op ∷ ops)) ≤ zero)
      no_room (Op.put_op key value) ops le = omega arith
      no_room (Op.delete_op key) ops le = omega arith
  iterate_loop-records (op ∷ ops) (suc fuel) found s hf small (h, hs) =
      loop_step fuel found op (records ops) s h
      ∙ ap (λ (n : ℕ). iterate_loop handler fuel n (records ops) (handle handler s op))
          (omega arith)
      ∙ iterate_loop-records ops fuel (found + 1) (handle handler s op) (shorter op ops hf)
          (omega arith) hs
      ∙ ap (λ n. Outcome.finished n (handle_all handler s (op ∷ ops))) (omega arith)
    where
      shorter :
          (op : Op) (ops : List Op)
          → length (records (op ∷ ops)) ≤ suc fuel
          → length (records ops) ≤ fuel
      shorter (Op.put_op key value) ops le =
          omega (arith, length-append (prefixed key ++ prefixed value) (records ops))
      shorter (Op.delete_op key) ops le = omega (arith, length-append (prefixed key) (records ops))

  -- On any bytes the loop ends before its fuel does.
  iterate_loop-ne-stuck :
      (fuel found : ℕ) (input : Bytes) (s : S)
      → length input ≤ fuel
      → All IsByte input
      → iterate_loop handler fuel found input s ≢ Outcome.stuck
  unfolding iterate_loop
  iterate_loop-ne-stuck fuel found [] s hf hb = λ e. cc
  iterate_loop-ne-stuck zero found (tag ∷ input) s hf hb = absurd (omega arith)
  iterate_loop-ne-stuck (suc fuel) found (tag ∷ input) s hf hb =
      elim (Option-cases (get_length_prefixed_slice input)) [
        | inl r ↦ ground arith
        | inr ((key, input1), r) ↦
            let t = get_length_prefixed_slice_takes input key input1 hb.1 r in
            let deleted =
              iterate_loop-ne-stuck fuel ((found + 1) % 2 ^ 32) input1 (handler.on_delete key s)
                (omega arith) t.3 in
            elim (Option-cases (get_length_prefixed_slice input1)) [
              | inl r1 ↦ ground arith
              | inr ((value, input2), r1) ↦
                  let t1 = get_length_prefixed_slice_takes input1 value input2 t.3 r1 in
                  let stored =
                    iterate_loop-ne-stuck fuel ((found + 1) % 2 ^ 32) input2
                      (handler.on_put key value s) (omega arith) t1.3 in
                  ground arith
            ]
      ]

  -- Iterate over a batch of the operations `ops` under any header: the handler gets every operation
  -- in order, and the status is ok exactly when the header's count is their number. The operations
  -- are fewer than 2^31, which `found` can count, and keys and values are shorter than 2^32 bytes.
  pub iterate-batch :
      (seq n : ℕ) (ops : List Op) (s : S)
      → IsU32 n
      → length ops < 2 ^ 31
      → All IsShortOp ops
      → iterate handler (batch seq n (records ops)) s
        ≡ some (
          if length ops == n then ok else corruption "WriteBatch has wrong count" "",
          handle_all handler s ops,
        )
  unfolding iterate
  iterate-batch seq n ops s hn small h =
      let rep = batch seq n (records ops) in
      let len : length rep ≡ 12 + length (records ops) = length-batch seq n (records ops) in
      let loop : iterate_loop handler (length rep) 0 (records ops) s
          ≡ Outcome.finished (0 + length ops) (handle_all handler s ops) =
        iterate_loop-records ops (length rep) 0 s (omega (arith, len)) (omega (arith, small)) h in
      ground (arith, len, loop, count-batch seq n (records ops) hn, drop-twelve seq n (records ops))

  iterate-ne-none : (rep : Bytes) (s : S) → All IsByte rep → iterate handler rep s ≢ none
  unfolding iterate
  iterate-ne-none rep s h =
      let ends =
        iterate_loop-ne-stuck (length rep) 0 (drop header rep) s
          (omega (arith, length-drop header rep)) (All-drop IsByte header rep h) in
      ground arith

  -- Iterate ends on every string of bytes with a status.
  pub iterate_total :
      (rep : Bytes) (s : S) → All IsByte rep → (r : Status × S) × (iterate handler rep s ≡ some r)
  iterate_total rep s h = elim (Option-cases (iterate handler rep s)) [
    | inl stopped ↦ absurd (no_stop stopped)
    | inr r ↦ r
  ]
    where
      no_stop : iterate handler rep s ≢ none
      no_stop = iterate-ne-none rep s h
