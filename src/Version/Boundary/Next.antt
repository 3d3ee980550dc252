-- ===== src/Version/Boundary/Next.antt =====
-- One search of FindSmallestBoundaryFile.
use mathlib.Core.Path.{subst}
use leveldb_chinese_annotate.Prelude.{
  ℕ, suc, ◌+◌, ◌≤◌, ◌<◌, ◌≡◌, ◌≢◌, ◌∙◌, sym, refl, arith, Bool, true, false, ◌&&◌, Ordering, List,
  [], ◌∷◌, Option, none, some, if◌then◌else◌, length, get_elem?, All, ◌⊎◌, inl, inr, Bool-cases,
}
use leveldb_chinese_annotate.Coding.{Bytes}
use leveldb_chinese_annotate.Comparator.{Comparator}
use leveldb_chinese_annotate.DbFormat.{internal_compare}
use leveldb_chinese_annotate.DbFormat.Order.{internal_compare-IsLawful}
use leveldb_chinese_annotate.Slice.Order.{IsLawful}
use leveldb_chinese_annotate.VersionEdit.{FileMetaData}
use leveldb_chinese_annotate.Version.{is_gt}
use leveldb_chinese_annotate.Version.Overlap.{lt_of_lt_le}
use leveldb_chinese_annotate.Version.Boundary.{
  is_boundary, replaces, smallest_boundary, find_smallest_boundary_file,
}

module _ (c : Comparator) where
  -- A file does not begin above its end.
  abbrev pub IsOrdered : FileMetaData → Type 0
  IsOrdered f = internal_compare c f.smallest f.largest ≢ Ordering.gt

  -- How many files begin above the key.
  abbrev pub starts_above : Bytes → List FileMetaData → ℕ
  starts_above key [] = 0
  starts_above key (f ∷ files) =
      (if is_gt (internal_compare c f.smallest key) then 1 else 0) + starts_above key files

  pub starts_above_bound :
      (key : Bytes) (files : List FileMetaData) → starts_above key files ≤ length files
  starts_above_bound key [] = omega arith
  starts_above_bound key (f ∷ files) = ground (arith, starts_above_bound key files)

  starts_above_higher :
      (a b : Bytes) (files : List FileMetaData)
      → internal_compare c a b ≡ Ordering.lt
      → starts_above b files ≤ starts_above a files
  starts_above_higher a b [] h = omega arith
  starts_above_higher a b (f ∷ files) h =
      let l : IsLawful (internal_compare c) = internal_compare-IsLawful c in
      ground (
        arith,
        l.lt_of_gt f.smallest b,
        l.lt_trans a b f.smallest,
        l.gt_of_lt a f.smallest,
        starts_above_higher a b files h,
      )

  abbrev pub IsAmong : FileMetaData → List FileMetaData → Type 0
  IsAmong b files = (i : ℕ) × (get_elem? files i ≡ some b)

  -- The file that the search finds for a key.
  pub record IsNext (key : Bytes) (b : FileMetaData) (files : List FileMetaData) : Type 0 where
    pub boundary : is_boundary c key b ≡ true
    pub above : internal_compare c key b.largest ≡ Ordering.lt
    pub fewer : starts_above b.largest files < starts_above key files
    pub among : IsAmong b files

  boundary_above :
      (key : Bytes) (b : FileMetaData)
      → IsOrdered b
      → is_boundary c key b ≡ true
      → internal_compare c key b.largest ≡ Ordering.lt
  unfolding is_boundary
  boundary_above key b ho h =
      let l : IsLawful (internal_compare c) = internal_compare-IsLawful c in
      ground (arith, l.lt_of_gt b.smallest key, lt_of_lt_le c key b.smallest b.largest)

  IsNext-head :
      (key : Bytes) (f : FileMetaData) (files : List FileMetaData)
      → IsOrdered f
      → is_boundary c key f ≡ true
      → IsNext key f (f ∷ files)
  unfolding is_boundary
  IsNext-head key f files ho h =
      let above = boundary_above key f ho h in
      record {
        boundary = h;
        above = above;
        fewer = ground (arith, starts_above_higher key f.largest files above);
        among = (0, refl);
      }

  IsNext-tail :
      (key : Bytes) (b f : FileMetaData) (files : List FileMetaData)
      → IsNext key b files
      → IsNext key b (f ∷ files)
  IsNext-tail key b f files h = record {
    boundary = h.boundary;
    above = h.above;
    fewer = omega (arith, h.fewer, starts_above_higher key b.largest (f ∷ []) h.above);
    among = (suc h.among.0, h.among.1);
  }

  pub smallest_boundary_taken :
      (found : Option FileMetaData) (f : FileMetaData) (files : List FileMetaData) (key : Bytes)
      → (is_boundary c key f && replaces c found f) ≡ true
      → smallest_boundary c found (f ∷ files) key ≡ smallest_boundary c (some f) files key
  unfolding smallest_boundary
  smallest_boundary_taken found f files key h = ground arith

  pub smallest_boundary_kept :
      (found : Option FileMetaData) (f : FileMetaData) (files : List FileMetaData) (key : Bytes)
      → (is_boundary c key f && replaces c found f) ≡ false
      → smallest_boundary c found (f ∷ files) key ≡ smallest_boundary c found files key
  unfolding smallest_boundary
  smallest_boundary_kept found f files key h = ground arith

  NextOrNothing : Bytes → List FileMetaData → Option FileMetaData → Type 0
  NextOrNothing key files none = Unit
  NextOrNothing key files (some b) = IsNext key b files

  and_left : {a : Bool} (b : Bool) → (a && b) ≡ true → a ≡ true
  and_left b h = ground arith

  smallest_boundary-some :
      (found : Option FileMetaData) (files : List FileMetaData) (key : Bytes) (b : FileMetaData)
      → All IsOrdered files
      → smallest_boundary c found files key ≡ some b
      → (found ≡ some b) ⊎ IsNext key b files
  unfolding smallest_boundary NextOrNothing
  smallest_boundary-some found [] key b ho e = inl e
  smallest_boundary-some found (f ∷ files) key b ho e =
      elim (Bool-cases (is_boundary c key f && replaces c found f)) [
        | inl goes ↦
            elim (smallest_boundary-some (some f) files key b ho.1
              (sym (smallest_boundary_taken found f files key goes) ∙ e)) [
                | inl same ↦ inr (
                    subst (NextOrNothing key (f ∷ files)) same
                      (IsNext-head key f files ho.0 (and_left _ goes)))
                | inr later ↦ inr (IsNext-tail key b f files later)
              ]
        | inr stays ↦
            elim (smallest_boundary-some found files key b ho.1
              (sym (smallest_boundary_kept found f files key stays) ∙ e)) [
                | inl same ↦ inl same
                | inr later ↦ inr (IsNext-tail key b f files later)
              ]
      ]

  -- Nothing found: no file of the level is a boundary file of the key.
  smallest_boundary-none :
      (found : Option FileMetaData) (files : List FileMetaData) (key : Bytes)
      → smallest_boundary c found files key ≡ none
      → (found ≡ none) × All (λ f. is_boundary c key f ≡ false) files
  unfolding smallest_boundary
  smallest_boundary-none found [] key e = (e, tt)
  smallest_boundary-none none (f ∷ files) key e =
      ground
        (arith, smallest_boundary-none none files key, smallest_boundary-none (some f) files key)
  smallest_boundary-none (some b) (f ∷ files) key e =
      ground (
        arith,
        smallest_boundary-none (some b) files key,
        smallest_boundary-none (some f) files key,
      )

  pub find_smallest_boundary_file-some :
      (files : List FileMetaData) (key : Bytes) (b : FileMetaData)
      → All IsOrdered files
      → find_smallest_boundary_file c files key ≡ some b
      → IsNext key b files
  unfolding find_smallest_boundary_file
  find_smallest_boundary_file-some files key b ho e =
      elim (smallest_boundary-some none files key b ho e) [
        | inl same ↦ absurd (ground arith)
        | inr found ↦ found
      ]

  pub find_smallest_boundary_file-none :
      (files : List FileMetaData) (key : Bytes)
      → find_smallest_boundary_file c files key ≡ none
      → All (λ f. is_boundary c key f ≡ false) files
  unfolding find_smallest_boundary_file
  find_smallest_boundary_file-none files key e = (smallest_boundary-none none files key e).1
