-- ===== src/Version/Inputs/Bounds.antt =====
-- Bounds of a range of user keys, lower and higher, and the files that meet a range.
use leveldb_chinese_annotate.Prelude.{
  ◌≡◌, ◌≢◌, arith, refl, Bool, true, false, not, ◌&&◌, ◌||◌, Ordering, List, [], ◌∷◌, Option, none,
  some, if◌then◌else◌,
}
use leveldb_chinese_annotate.Coding.{Bytes}
use leveldb_chinese_annotate.Comparator.{Comparator}
use leveldb_chinese_annotate.DbFormat.{extract_user_key}
use leveldb_chinese_annotate.Slice.Order.{IsLawful}
use leveldb_chinese_annotate.VersionEdit.{FileMetaData}
use leveldb_chinese_annotate.Version.Inputs.{is_before, is_after, starts_before, ends_after}

module _ (c : Comparator) where
  abbrev pub lawful : IsLawful c.cmp
  lawful = c.lawful

  -- The first key is not above the second.
  abbrev pub le : Bytes → Bytes → Bool
  le u v = elim (c.cmp u v) [ Ordering.gt ↦ false | Ordering.eq ↦ true | Ordering.lt ↦ true ]

  -- The key is not below the range's begin; a missing begin is below every key.
  abbrev pub reaches : Option Bytes → Bytes → Bool
  reaches none key = true
  reaches (some begin) key = le begin key

  -- The key is not above the range's end; a missing end is above every key.
  abbrev pub stays_below : Option Bytes → Bytes → Bool
  stays_below none key = true
  stays_below (some end) key = le key end

  -- The file's range of keys meets the range: it ends at the range's begin or later, and begins at the
  -- range's end or earlier.
  abbrev pub meets : Option Bytes → Option Bytes → FileMetaData → Bool
  meets begin end f =
      reaches begin (extract_user_key f.largest) && stays_below end (extract_user_key f.smallest)

  -- The files that meet a range of user keys.
  abbrev pub overlapping : Option Bytes → Option Bytes → List FileMetaData → List FileMetaData
  overlapping begin end [] = []
  overlapping begin end (f ∷ files) =
      let rest = overlapping begin end files in if meets begin end f then f ∷ rest else rest

  -- The file lies inside the range.
  pub record IsInside (begin end : Option Bytes) (f : FileMetaData) : Type 0 where
    pub start : reaches begin (extract_user_key f.smallest) ≡ true
    pub limit : stays_below end (extract_user_key f.largest) ≡ true

  -- The tests of GetOverlappingInputs, by the order of the keys.
  pub is_before-reaches :
      (begin : Option Bytes) (f : FileMetaData)
      → is_before c begin f ≡ not (reaches begin (extract_user_key f.largest))
  unfolding is_before
  is_before-reaches none f = refl
  is_before-reaches (some x) f =
      let u = extract_user_key f.largest in ground (arith, lawful.gt_of_lt u x, lawful.lt_of_gt x u)

  pub is_after-stays_below :
      (end : Option Bytes) (f : FileMetaData)
      → is_after c end f ≡ not (stays_below end (extract_user_key f.smallest))
  unfolding is_after
  is_after-stays_below none f = refl
  is_after-stays_below (some x) f = ground arith

  pub starts_before-reaches :
      (begin : Option Bytes) (f : FileMetaData)
      → starts_before c begin f ≡ not (reaches begin (extract_user_key f.smallest))
  unfolding starts_before
  starts_before-reaches none f = refl
  starts_before-reaches (some x) f =
      let u = extract_user_key f.smallest in
      ground (arith, lawful.gt_of_lt u x, lawful.lt_of_gt x u)

  pub ends_after-stays_below :
      (end : Option Bytes) (f : FileMetaData)
      → ends_after c end f ≡ not (stays_below end (extract_user_key f.largest))
  unfolding ends_after
  ends_after-stays_below none f = refl
  ends_after-stays_below (some x) f = ground arith

  -- The loop skips exactly the files that do not meet the range.
  pub meets-apart :
      (begin end : Option Bytes) (f : FileMetaData)
      → meets begin end f ≡ not (is_before c begin f || is_after c end f)
  meets-apart begin end f = ground (arith, is_before-reaches begin f, is_after-stays_below end f)

  -- The second bound is not above the first, or both are missing.
  abbrev pub IsLowered : Option Bytes → Option Bytes → Type 0
  IsLowered none none = Unit
  IsLowered (some x) (some y) = c.cmp y x ≢ Ordering.gt
  IsLowered none (some y) = ⊥
  IsLowered (some x) none = ⊥

  abbrev pub IsRaised : Option Bytes → Option Bytes → Type 0
  IsRaised none none = Unit
  IsRaised (some x) (some y) = c.cmp x y ≢ Ordering.gt
  IsRaised none (some y) = ⊥
  IsRaised (some x) none = ⊥

  pub le_trans :
      (x y z : Bytes) → c.cmp x y ≢ Ordering.gt → c.cmp y z ≢ Ordering.gt → c.cmp x z ≢ Ordering.gt
  le_trans x y z h k = ground (
    arith,
    lawful.lt_trans x y z,
    lawful.eq_left x y z,
    lawful.eq_left y z x,
    lawful.gt_of_lt x y,
    lawful.gt_of_lt x z,
    lawful.lt_of_gt x z,
    lawful.lt_of_gt z x,
    lawful.gt_of_lt z x,
  )

  pub IsLowered-refl : (x : Option Bytes) → IsLowered x x
  IsLowered-refl none = tt
  IsLowered-refl (some x) = ground (arith, lawful.cmp_refl x)

  pub IsRaised-refl : (x : Option Bytes) → IsRaised x x
  IsRaised-refl none = tt
  IsRaised-refl (some x) = ground (arith, lawful.cmp_refl x)

  pub IsLowered-trans : (x y z : Option Bytes) → IsLowered x y → IsLowered y z → IsLowered x z
  IsLowered-trans none none none h k = tt
  IsLowered-trans none none (some z) h k = k
  IsLowered-trans none (some y) z h k = absurd h
  IsLowered-trans (some x) none z h k = absurd h
  IsLowered-trans (some x) (some y) none h k = k
  IsLowered-trans (some x) (some y) (some z) h k = le_trans z y x k h

  pub IsRaised-trans : (x y z : Option Bytes) → IsRaised x y → IsRaised y z → IsRaised x z
  IsRaised-trans none none none h k = tt
  IsRaised-trans none none (some z) h k = k
  IsRaised-trans none (some y) z h k = absurd h
  IsRaised-trans (some x) none z h k = absurd h
  IsRaised-trans (some x) (some y) none h k = k
  IsRaised-trans (some x) (some y) (some z) h k = le_trans x y z h k

  pub starts_before-lowered :
      (x y : Option Bytes) (f : FileMetaData)
      → IsLowered x y
      → starts_before c y f ≡ true
      → starts_before c x f ≡ true
  unfolding starts_before
  starts_before-lowered x none f h e = absurd (ground arith)
  starts_before-lowered none (some y) f h e = absurd h
  starts_before-lowered (some x) (some y) f h e =
      let s = extract_user_key f.smallest in
      ground (
        arith,
        lawful.lt_trans s y x,
        lawful.eq_left y x s,
        lawful.lt_of_gt x s,
        lawful.gt_of_lt s y,
        lawful.gt_of_lt s x,
        lawful.lt_of_gt y s,
      )

  pub ends_after-raised :
      (x y : Option Bytes) (f : FileMetaData)
      → IsRaised x y
      → ends_after c y f ≡ true
      → ends_after c x f ≡ true
  unfolding ends_after
  ends_after-raised x none f h e = absurd (ground arith)
  ends_after-raised none (some y) f h e = absurd h
  ends_after-raised (some x) (some y) f h e =
      let s = extract_user_key f.largest in
      ground (
        arith,
        lawful.lt_of_gt s y,
        lawful.lt_trans x y s,
        lawful.eq_left x y s,
        lawful.gt_of_lt x s,
      )
