-- ===== src/Version/Boundary/Largest.antt =====
-- The largest key of inputs, and the files that go on with its user key, by the order of the keys;
-- FindLargestKey and the test for a boundary file against these.
use mathlib.Core.Path.{subst}
use leveldb_chinese_annotate.Prelude.{
  suc, ◌≡◌, ◌≢◌, ◌⊎◌, true, Bool-cases, sym, refl, arith, false, Ordering, List, [], ◌∷◌, some,
  if◌then◌else◌, All, inl, inr,
}
use leveldb_chinese_annotate.Coding.{Bytes}
use leveldb_chinese_annotate.Comparator.{Comparator}
use leveldb_chinese_annotate.DbFormat.{extract_user_key, internal_compare}
use leveldb_chinese_annotate.Version.Overlap.{le_of_le_le}
use leveldb_chinese_annotate.DbFormat.Order.{internal_compare-IsLawful}
use leveldb_chinese_annotate.Slice.Order.{IsLawful}
use leveldb_chinese_annotate.VersionEdit.{FileMetaData}
use leveldb_chinese_annotate.Version.{is_gt}
use leveldb_chinese_annotate.Version.Boundary.{largest_from, find_largest_key, is_boundary}
use leveldb_chinese_annotate.Version.Boundary.Next.{IsAmong}

module _ (c : Comparator) where
  abbrev lawful_order : IsLawful (internal_compare c)
  lawful_order = internal_compare-IsLawful c

  -- The key is the largest one that the files end in.
  pub record IsLargest (key : Bytes) (files : List FileMetaData) : Type 0 where
    pub top : All (λ f. internal_compare c f.largest key ≢ Ordering.gt) files
    pub reached : (f : FileMetaData) × IsAmong c f files × (f.largest ≡ key)

  -- The file begins with an older entry of the key's user key.
  abbrev pub Continues : Bytes → FileMetaData → Type 0
  Continues key f =
      (internal_compare c key f.smallest ≡ Ordering.lt)
      × (c.cmp (extract_user_key key) (extract_user_key f.smallest) ≡ Ordering.eq)

  -- The higher one of two keys.
  higher :
      (key x : Bytes)
      → let next = if is_gt (internal_compare c x key) then x else key in
        (internal_compare c key next ≢ Ordering.gt) × (internal_compare c x next ≢ Ordering.gt)
  higher key x = elim (Bool-cases (is_gt (internal_compare c x key))) [
    | inl above ↦ rw above (
      ground (arith, above, lawful_order.lt_of_gt x key),
      ground (arith, lawful_order.cmp_refl x),
    )
    | inr below ↦ rw below (ground (arith, lawful_order.cmp_refl key), ground (arith, below))
  ]

  largest_from-top :
      (key : Bytes) (files : List FileMetaData)
      → (internal_compare c key (largest_from c key files) ≢ Ordering.gt)
        × All (λ f. internal_compare c f.largest (largest_from c key files) ≢ Ordering.gt) files
  unfolding largest_from
  largest_from-top key [] = (ground (arith, lawful_order.cmp_refl key), tt)
  largest_from-top key (f ∷ files) =
      let next = if is_gt (internal_compare c f.largest key) then f.largest else key in
      let (h, t) = largest_from-top next files in
      let (old, new) = higher key f.largest in
      (le_of_le_le c key next _ old h, (le_of_le_le c f.largest next _ new h, t))

  largest_from-reached :
      (key : Bytes) (files : List FileMetaData)
      → (largest_from c key files ≡ key)
        ⊎ ((f : FileMetaData) × IsAmong c f files × (f.largest ≡ largest_from c key files))
  unfolding largest_from
  largest_from-reached key [] = inl refl
  largest_from-reached key (f ∷ files) =
      elim (Bool-cases (is_gt (internal_compare c f.largest key))) [
        | inl above ↦ rw above (elim (largest_from-reached f.largest files) [
          | inl same ↦ inr (f, (0, refl), sym same)
          | inr (g, (i, e), h) ↦ inr (g, (suc i, e), h)
        ])
        | inr below ↦ rw below (elim (largest_from-reached key files) [
          | inl same ↦ inl same
          | inr (g, (i, e), h) ↦ inr (g, (suc i, e), h)
        ])
      ]

  pub find_largest_key-IsLargest :
      (files : List FileMetaData) (key : Bytes)
      → find_largest_key c files ≡ some key
      → IsLargest key files
  unfolding find_largest_key
  find_largest_key-IsLargest [] key e = absurd (ground arith)
  find_largest_key-IsLargest (f ∷ files) key e =
      let same : largest_from c f.largest files ≡ key = ground arith in
      let (h, t) = largest_from-top f.largest files in
      subst (λ k. IsLargest k (f ∷ files)) same
        (record {
          top = (h, t);
          reached = elim (largest_from-reached f.largest files) [
            | inl first ↦ (f, (0, refl), sym first)
            | inr (g, (i, e), last) ↦ (g, (suc i, e), last)
          ];
        })

  pub is_boundary-Continues :
      (key : Bytes) (f : FileMetaData) → is_boundary c key f ≡ true → Continues key f
  unfolding is_boundary
  is_boundary-Continues key f h =
      let u = extract_user_key key in
      let v = extract_user_key f.smallest in
      (
        ground (arith, lawful_order.lt_of_gt f.smallest key),
        ground (arith, c.lawful.eq_left v u v, c.lawful.cmp_refl v),
      )

  Continues-is_boundary :
      (key : Bytes) (f : FileMetaData) → is_boundary c key f ≡ false → ¬ (Continues key f)
  unfolding is_boundary
  Continues-is_boundary key f h (above, same) =
      let u = extract_user_key key in
      let v = extract_user_key f.smallest in
      ground
        (arith, lawful_order.gt_of_lt key f.smallest, c.lawful.eq_left u v u, c.lawful.cmp_refl u)

  Continues-boundary :
      (key : Bytes) (f : FileMetaData) → Continues key f → is_boundary c key f ≡ true
  Continues-boundary key f h = elim (Bool-cases (is_boundary c key f)) [
    | inl yes_it_is ↦ yes_it_is
    | inr not_so ↦ absurd (Continues-is_boundary key f not_so h)
  ]

  pub least-Continues :
      (key : Bytes) (b : FileMetaData) (files : List FileMetaData)
      → All
          (λ g. is_boundary c key g ≡ true → internal_compare c b.smallest g.smallest ≢ Ordering.gt)
          files
      → All
          (λ g. ¬ (Continues key g × (internal_compare c g.smallest b.smallest ≡ Ordering.lt)))
          files
  least-Continues key b [] h = tt
  least-Continues key b (g ∷ files) h = (
    λ (goes_on, below).
        h.0 (Continues-boundary key g goes_on) (lawful_order.gt_of_lt g.smallest b.smallest below),
    least-Continues key b files h.1,
  )

  pub uncontinued :
      (key : Bytes) (files : List FileMetaData)
      → All (λ f. is_boundary c key f ≡ false) files
      → All (λ f. ¬ (Continues key f)) files
  uncontinued key [] h = tt
  uncontinued key (f ∷ files) h = (Continues-is_boundary key f h.0, uncontinued key files h.1)
