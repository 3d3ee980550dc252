-- ===== src/Version/Inputs/Widening.antt =====
-- A file of level 0 that sticks out of a range widens it, and fewer files stick out afterwards.
use leveldb_chinese_annotate.Prelude.{
  ℕ, ◌+◌, ◌*◌, ◌≤◌, ◌<◌, ◌≡◌, arith, true, false, List, [], ◌∷◌, Option, none, some, if◌then◌else◌,
  length,
}
use leveldb_chinese_annotate.Coding.{Bytes}
use leveldb_chinese_annotate.Comparator.{Comparator}
use leveldb_chinese_annotate.DbFormat.{extract_user_key}
use leveldb_chinese_annotate.VersionEdit.{FileMetaData}
use leveldb_chinese_annotate.Version.Inputs.{starts_before, ends_after}
use leveldb_chinese_annotate.Version.Inputs.Bounds.{
  IsLowered, IsRaised, IsLowered-refl, IsRaised-refl, starts_before-lowered, ends_after-raised,
}

module _ (c : Comparator) where
  -- How many files stick out of the range, at either end.
  abbrev pub sticking : Option Bytes → Option Bytes → List FileMetaData → ℕ
  sticking begin end [] = 0
  sticking begin end (f ∷ files) =
      (if starts_before c begin f then 1 else 0)
      + (if ends_after c end f then 1 else 0)
      + sticking begin end files

  pub sticking_bound :
      (begin end : Option Bytes) (files : List FileMetaData)
      → sticking begin end files ≤ 2 * length files
  sticking_bound begin end [] = omega arith
  sticking_bound begin end (f ∷ files) = ground (arith, sticking_bound begin end files)

  pub sticking_wider :
      (begin end b e : Option Bytes) (files : List FileMetaData)
      → IsLowered c begin b
      → IsRaised c end e
      → sticking b e files ≤ sticking begin end files
  sticking_wider begin end b e [] hb he = omega arith
  sticking_wider begin end b e (f ∷ files) hb he = ground (
    arith,
    starts_before-lowered c begin b f hb,
    ends_after-raised c end e f he,
    sticking_wider begin end b e files hb he,
  )

  -- A file's own start as the bound.
  pub starts_before-own :
      (begin : Option Bytes) (f : FileMetaData)
      → starts_before c begin f ≡ true
      → IsLowered c begin (some (extract_user_key f.smallest))
        × (starts_before c (some (extract_user_key f.smallest)) f ≡ false)
  unfolding starts_before
  starts_before-own none f e = absurd (ground arith)
  starts_before-own (some x) f e =
      let s = extract_user_key f.smallest in ground (arith, c.lawful.cmp_refl s)

  pub ends_after-own :
      (end : Option Bytes) (f : FileMetaData)
      → ends_after c end f ≡ true
      → IsRaised c end (some (extract_user_key f.largest))
        × (ends_after c (some (extract_user_key f.largest)) f ≡ false)
  unfolding ends_after
  ends_after-own none f e = absurd (ground arith)
  ends_after-own (some x) f e =
      let s = extract_user_key f.largest in
      ground (arith, c.lawful.cmp_refl s, c.lawful.lt_of_gt s x)

  -- What a pass that widens the range has won.
  pub record IsWidening (begin end b e : Option Bytes) (files : List FileMetaData) : Type 0 where
    pub lowered : IsLowered c begin b
    pub raised : IsRaised c end e
    pub fewer : sticking b e files < sticking begin end files

  pub IsWidening-tail :
      (begin end b e : Option Bytes) (f : FileMetaData) (files : List FileMetaData)
      → IsWidening begin end b e files
      → IsWidening begin end b e (f ∷ files)
  IsWidening-tail begin end b e f files h = record {
    lowered = h.lowered;
    raised = h.raised;
    fewer = omega (arith, h.fewer, sticking_wider begin end b e (f ∷ []) h.lowered h.raised);
  }

  pub IsWidening-start :
      (begin end : Option Bytes) (f : FileMetaData) (files : List FileMetaData)
      → starts_before c begin f ≡ true
      → IsWidening begin end (some (extract_user_key f.smallest)) end (f ∷ files)
  IsWidening-start begin end f files h =
      let b = some (extract_user_key f.smallest) in
      let (low, own) = starts_before-own begin f h in
      record {
        lowered = low;
        raised = IsRaised-refl c end;
        fewer = ground (arith, own, sticking_wider begin end b end files low (IsRaised-refl c end));
      }

  pub IsWidening-limit :
      (begin end : Option Bytes) (f : FileMetaData) (files : List FileMetaData)
      → ends_after c end f ≡ true
      → IsWidening begin end begin (some (extract_user_key f.largest)) (f ∷ files)
  IsWidening-limit begin end f files h =
      let e = some (extract_user_key f.largest) in
      let (high, own) = ends_after-own end f h in
      record {
        lowered = IsLowered-refl c begin;
        raised = high;
        fewer =
            ground
              (arith, own, sticking_wider begin end begin e files (IsLowered-refl c begin) high);
      }
