-- ===== src/Version/Compaction/Ranges.antt =====
-- GetRange of db/version_set.cc: the range that it answers holds the ranges of all files.
use mathlib.Core.Path.{subst}
use leveldb_chinese_annotate.Prelude.{
  zero, suc, ◌≡◌, ◌≢◌, ap, arith, Ordering, List, [], ◌∷◌, Option, none, some, if◌then◌else◌, All,
  Bool-cases, inl, inr,
}
use leveldb_chinese_annotate.Coding.{Bytes}
use leveldb_chinese_annotate.Comparator.{Comparator}
use leveldb_chinese_annotate.DbFormat.{extract_user_key, internal_compare, is_lt}
use leveldb_chinese_annotate.DbFormat.Order.{
  internal_compare-IsLawful, internal_compare-parts, parts_compare,
}
use leveldb_chinese_annotate.Slice.Order.{IsLawful}
use leveldb_chinese_annotate.VersionEdit.{FileMetaData}
use leveldb_chinese_annotate.Version.{is_gt}
use leveldb_chinese_annotate.Version.Overlap.{le_of_le_le}
use leveldb_chinese_annotate.Version.Boundary.Next.{IsAmong}
use leveldb_chinese_annotate.Version.Compaction.{range_from, get_range}

module _ (c : Comparator) where
  abbrev lawful_order : IsLawful (internal_compare c)
  lawful_order = internal_compare-IsLawful c

  -- The keys are those of a range that holds the file's.
  abbrev pub Holds : Bytes × Bytes → FileMetaData → Type 0
  Holds r f =
      (internal_compare c r.0 f.smallest ≢ Ordering.gt)
      × (internal_compare c f.largest r.1 ≢ Ordering.gt)

  lower :
      (key x : Bytes)
      → let next = if is_lt (internal_compare c x key) then x else key in
        (internal_compare c next key ≢ Ordering.gt) × (internal_compare c next x ≢ Ordering.gt)
  lower key x = elim (Bool-cases (is_lt (internal_compare c x key))) [
    | inl below ↦ rw below (ground (arith, below), ground (arith, lawful_order.cmp_refl x))
    | inr above ↦ rw above (
      ground (arith, lawful_order.cmp_refl key),
      ground (arith, above, lawful_order.lt_of_gt key x),
    )
  ]

  higher :
      (key x : Bytes)
      → let next = if is_gt (internal_compare c x key) then x else key in
        (internal_compare c key next ≢ Ordering.gt) × (internal_compare c x next ≢ Ordering.gt)
  higher key x = elim (Bool-cases (is_gt (internal_compare c x key))) [
    | inl above ↦ rw above (
      ground (arith, above, lawful_order.lt_of_gt x key),
      ground (arith, lawful_order.cmp_refl x),
    )
    | inr below ↦ rw below (ground (arith, lawful_order.cmp_refl key), ground (arith, below))
  ]

  range_from-Holds :
      (start limit : Bytes) (files : List FileMetaData)
      → (internal_compare c (range_from c (start, limit) files).0 start ≢ Ordering.gt)
        × (internal_compare c limit (range_from c (start, limit) files).1 ≢ Ordering.gt)
        × All (Holds (range_from c (start, limit) files)) files
  unfolding range_from
  range_from-Holds start limit [] =
      (ground (arith, lawful_order.cmp_refl start), ground (arith, lawful_order.cmp_refl limit), tt)
  range_from-Holds start limit (f ∷ files) =
      let s = if is_lt (internal_compare c f.smallest start) then f.smallest else start in
      let l = if is_gt (internal_compare c f.largest limit) then f.largest else limit in
      let (h, k, t) = range_from-Holds s l files in
      let (s0, s1) = lower start f.smallest in
      let (l0, l1) = higher limit f.largest in
      (
        le_of_le_le c _ s start h s0,
        le_of_le_le c limit l _ l0 k,
        ((le_of_le_le c _ s f.smallest h s1, le_of_le_le c f.largest l _ l1 k), t),
      )

  get_range-Holds : (files : List FileMetaData) → All (Holds (get_range c files)) files
  unfolding get_range
  get_range-Holds [] = tt
  get_range-Holds (f ∷ files) =
      let (h, k, t) = range_from-Holds f.smallest f.largest files in ((h, k), t)

  Holds-among :
      (r : Bytes × Bytes) (files : List FileMetaData) (g : FileMetaData)
      → All (Holds r) files
      → IsAmong c g files
      → Holds r g
  Holds-among r [] g h (i, e) = absurd (ground arith)
  Holds-among r (x ∷ files) g h (zero, e) =
      let same : x ≡ g = ap (λ (o : Option FileMetaData). elim o [ none ↦ x | some y ↦ y ]) e in
      subst (Holds r) same h.0
  Holds-among r (x ∷ files) g h (suc i, e) = Holds-among r files g h.1 (i, e)

  pub user_le_of_le :
      (a b : Bytes)
      → internal_compare c a b ≢ Ordering.gt
      → c.cmp (extract_user_key a) (extract_user_key b) ≢ Ordering.gt
  unfolding parts_compare
  user_le_of_le a b h = ground (arith, internal_compare-parts c a b)

  -- The user keys of the range are around those of each file.
  pub get_range-among :
      (files : List FileMetaData) (g : FileMetaData)
      → IsAmong c g files
      → (c.cmp (extract_user_key (get_range c files).0) (extract_user_key g.smallest) ≢ Ordering.gt)
        × (c.cmp (extract_user_key g.largest) (extract_user_key (get_range c files).1)
            ≢ Ordering.gt)
  get_range-among files g among =
      let (h, k) = Holds-among (get_range c files) files g (get_range-Holds files) among in
      (user_le_of_le _ g.smallest h, user_le_of_le g.largest _ k)
