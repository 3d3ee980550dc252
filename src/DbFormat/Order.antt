-- ===== src/DbFormat/Order.antt =====
-- InternalKeyComparator::Compare is a total order, by user key and then from the newest entry to
-- the oldest.
use leveldb_chinese_annotate.Prelude.{ℕ, ◌+◌, ◌*◌, ◌≤◌, ◌≡◌, ◌∙◌, arith, compare, Ordering, []}
use leveldb_chinese_annotate.Coding.{Bytes, put_fixed64}
use leveldb_chinese_annotate.Slice.Order.{IsLawful}
use mathlib.Core.Path.{fun_ext}
use leveldb_chinese_annotate.Comparator.{Comparator}
use leveldb_chinese_annotate.DbFormat.{
  type_code, max_sequence_number, ParsedInternalKey, pack_sequence_and_type, append_internal_key,
  extract_user_key, tag, internal_compare,
}
use leveldb_chinese_annotate.DbFormat.Tags.{
  pack_sequence_and_type_lem, pack-IsU64, type_code-lt, tag-append, extract_user_key-append,
}

module _ (c : Comparator) where
  open c use {cmp, lawful}

  -- The same comparison on the two parts of a key.
  unfoldable pub parts_compare : Bytes → ℕ → Bytes → ℕ → Ordering
  parts_compare u m v n = elim (cmp u v) [
    | Ordering.lt ↦ Ordering.lt
    | Ordering.gt ↦ Ordering.gt
    | Ordering.eq ↦ compare n m
  ]

  pub internal_compare-parts :
      (a b : Bytes)
      → internal_compare c a b
        ≡ parts_compare (extract_user_key a) (tag a) (extract_user_key b) (tag b)
  unfolding internal_compare parts_compare
  internal_compare-parts a b = ground arith

  -- The order that the comment in InternalKeyComparator::Compare describes: increasing user key,
  -- decreasing sequence number, decreasing type.
  unfoldable pub key_order : ParsedInternalKey → ParsedInternalKey → Ordering
  key_order j k = elim (cmp j.user_key k.user_key) [
    | Ordering.lt ↦ Ordering.lt
    | Ordering.gt ↦ Ordering.gt
    | Ordering.eq ↦ elim (compare k.sequence j.sequence) [
      | Ordering.lt ↦ Ordering.lt
      | Ordering.gt ↦ Ordering.gt
      | Ordering.eq ↦ compare (type_code k.type) (type_code j.type)
    ]
  ]

  parts-key_order :
      (j k : ParsedInternalKey)
      → parts_compare j.user_key
          (j.sequence * 256 + type_code j.type)
          k.user_key
          (k.sequence * 256 + type_code k.type)
        ≡ key_order j k
  unfolding parts_compare key_order
  parts-key_order j k = ground (arith, type_code-lt j.type, type_code-lt k.type)

  -- InternalKeyComparator::Compare on the encodings of two keys whose sequence numbers are at most
  -- kMaxSequenceNumber: increasing user key by the user's comparator, then decreasing sequence
  -- number, then decreasing type.
  pub internal_compare-append :
      (j k : ParsedInternalKey)
      → j.sequence ≤ max_sequence_number
      → k.sequence ≤ max_sequence_number
      → internal_compare c (append_internal_key [] j) (append_internal_key [] k) ≡ key_order j k
  unfolding append_internal_key put_fixed64
  internal_compare-append j k hj hk =
      internal_compare-parts _ _
      ∙ rw
          (
            extract_user_key-append j.user_key (pack_sequence_and_type j.sequence j.type),
            extract_user_key-append k.user_key (pack_sequence_and_type k.sequence k.type),
            tag-append j.user_key _ (pack-IsU64 j.sequence j.type hj),
            tag-append k.user_key _ (pack-IsU64 k.sequence k.type hk),
            pack_sequence_and_type_lem j.sequence j.type hj,
            pack_sequence_and_type_lem k.sequence k.type hk,
          )
          (parts-key_order j k)

  parts_refl : (u : Bytes) (n : ℕ) → parts_compare u n u n ≡ Ordering.eq
  unfolding parts_compare
  parts_refl u n = ground (arith, lawful.cmp_refl u)

  parts_gt_of_lt :
      (u v : Bytes) (m n : ℕ)
      → parts_compare u m v n ≡ Ordering.lt
      → parts_compare v n u m ≡ Ordering.gt
  unfolding parts_compare
  parts_gt_of_lt u v m n h =
      ground
        (arith, lawful.gt_of_lt u v, lawful.lt_of_gt v u, lawful.gt_of_lt v u, lawful.lt_of_gt u v)

  parts_lt_of_gt :
      (u v : Bytes) (m n : ℕ)
      → parts_compare u m v n ≡ Ordering.gt
      → parts_compare v n u m ≡ Ordering.lt
  unfolding parts_compare
  parts_lt_of_gt u v m n h =
      ground
        (arith, lawful.gt_of_lt u v, lawful.lt_of_gt v u, lawful.gt_of_lt v u, lawful.lt_of_gt u v)

  parts_trans :
      (u v w : Bytes) (l m n : ℕ)
      → parts_compare u l v m ≡ Ordering.lt
      → parts_compare v m w n ≡ Ordering.lt
      → parts_compare u l w n ≡ Ordering.lt
  unfolding parts_compare
  parts_trans u v w l m n h k = ground (
    arith,
    lawful.lt_trans u v w,
    lawful.eq_left u v w,
    lawful.eq_left v w u,
    lawful.gt_of_lt u v,
    lawful.lt_of_gt w u,
    lawful.lt_of_gt v u,
  )

  parts_eq_left :
      (u v w : Bytes) (l m n : ℕ)
      → parts_compare u l v m ≡ Ordering.eq
      → parts_compare u l w n ≡ parts_compare v m w n
  unfolding parts_compare
  parts_eq_left u v w l m n h = ground (arith, lawful.eq_left u v w)

  -- InternalKeyComparator::Compare keeps the laws of a comparison when the user's comparator does.
  pub internal_compare-IsLawful : IsLawful (internal_compare c)
  internal_compare-IsLawful = rw (fun_ext λ a. fun_ext λ b. internal_compare-parts a b) (record {
    cmp_refl = λ a. parts_refl (extract_user_key a) (tag a);
    gt_of_lt = λ a b. parts_gt_of_lt _ _ _ _;
    lt_of_gt = λ a b. parts_lt_of_gt _ _ _ _;
    lt_trans = λ a b d. parts_trans _ _ _ _ _ _;
    eq_left = λ a b d. parts_eq_left _ _ _ _ _ _;
  })
