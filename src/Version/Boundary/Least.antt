-- ===== src/Version/Boundary/Least.antt =====
-- FindSmallestBoundaryFile answers the first one of the boundary files.
use mathlib.Core.Path.{subst}
use leveldb_chinese_annotate.Prelude.{
  ◌≡◌, ◌≢◌, ◌∙◌, sym, ap, arith, true, false, ◌&&◌, Ordering, List, [], ◌∷◌, Option, none, some,
  All, inl, inr, Bool-cases,
}
use leveldb_chinese_annotate.Coding.{Bytes}
use leveldb_chinese_annotate.Comparator.{Comparator}
use leveldb_chinese_annotate.DbFormat.{internal_compare}
use leveldb_chinese_annotate.DbFormat.Order.{internal_compare-IsLawful}
use leveldb_chinese_annotate.Slice.Order.{IsLawful}
use leveldb_chinese_annotate.VersionEdit.{FileMetaData}
use leveldb_chinese_annotate.Version.Overlap.{le_of_le_le}
use leveldb_chinese_annotate.Version.Boundary.{
  is_boundary, replaces, smallest_boundary, find_smallest_boundary_file,
}
use leveldb_chinese_annotate.Version.Boundary.Next.{smallest_boundary_taken, smallest_boundary_kept}

module _ (c : Comparator) where
  -- The found file does not begin above this one, if there is one.
  IsBelow : FileMetaData → Option FileMetaData → Type 0
  IsBelow b none = Unit
  IsBelow b (some f) = internal_compare c b.smallest f.smallest ≢ Ordering.gt

  IsBelow-replaced :
      (b f : FileMetaData) (found : Option FileMetaData)
      → replaces c found f ≡ true
      → internal_compare c b.smallest f.smallest ≢ Ordering.gt
      → IsBelow b found
  unfolding IsBelow
  IsBelow-replaced b f none h hb = tt
  IsBelow-replaced b f (some x) h hb =
      le_of_le_le c b.smallest f.smallest x.smallest hb (ground arith)

  below_kept :
      (b f : FileMetaData) (found : Option FileMetaData)
      → replaces c found f ≡ false
      → IsBelow b found
      → internal_compare c b.smallest f.smallest ≢ Ordering.gt
  unfolding IsBelow
  below_kept b f none h hb = absurd (ground arith)
  below_kept b f (some x) h hb =
      let l : IsLawful (internal_compare c) = internal_compare-IsLawful c in
      le_of_le_le c b.smallest x.smallest f.smallest hb
        (ground (arith, l.lt_of_gt x.smallest f.smallest))

  -- No boundary file of the key begins before the one that the search answers.
  smallest_boundary-least :
      (found : Option FileMetaData) (files : List FileMetaData) (key : Bytes) (b : FileMetaData)
      → smallest_boundary c found files key ≡ some b
      → IsBelow b found
        × All
            (λ g.
              is_boundary c key g ≡ true → internal_compare c b.smallest g.smallest ≢ Ordering.gt)
            files
  unfolding smallest_boundary IsBelow
  smallest_boundary-least none [] key b e = absurd (ground arith)
  smallest_boundary-least (some f) [] key b e =
      let l : IsLawful (internal_compare c) = internal_compare-IsLawful c in
      let same : f ≡ b = ap (λ (o : Option FileMetaData). elim o [ none ↦ f | some y ↦ y ]) e in
      (
        subst (λ y. internal_compare c y.smallest f.smallest ≢ Ordering.gt) same
            (ground (arith, l.cmp_refl f.smallest)),
        tt,
      )
  smallest_boundary-least found (f ∷ files) key b e =
      elim (Bool-cases (is_boundary c key f && replaces c found f)) [
        | inl goes ↦
            let (below, rest) =
              smallest_boundary-least (some f) files key b
                (sym (smallest_boundary_taken c found f files key goes) ∙ e) in
            (IsBelow-replaced b f found (ground arith) below, ((λ h. below), rest))
        | inr stays ↦
            let (below, rest) =
              smallest_boundary-least found files key b
                (sym (smallest_boundary_kept c found f files key stays) ∙ e) in
            (below, ((λ h. below_kept b f found (ground arith) below), rest))
      ]

  pub find_smallest_boundary_file-least :
      (files : List FileMetaData) (key : Bytes) (b : FileMetaData)
      → find_smallest_boundary_file c files key ≡ some b
      → All
          (λ g. is_boundary c key g ≡ true → internal_compare c b.smallest g.smallest ≢ Ordering.gt)
          files
  unfolding find_smallest_boundary_file
  find_smallest_boundary_file-least files key b e = (smallest_boundary-least none files key b e).1
