-- ===== src/Version/Overlap.antt =====
-- SomeFileOverlapsRange of db/version_set.cc: the binary search answers as the check of all files.
use leveldb_chinese_annotate.Prelude.{
  ℕ, ◌+◌, ◌-◌, ◌*◌, ◌^◌, ◌≤◌, ◌<◌, ◌≡◌, ◌≢◌, ◌∙◌, sym, ap, refl, arith, Bool, true, false, not,
  Ordering, List, [], ◌∷◌, Option, none, some, length, get_elem?, All, Bool-cases, inl, inr,
}
use leveldb_chinese_annotate.Coding.{Bytes, put_fixed64}
use leveldb_chinese_annotate.Comparator.{Comparator}
use leveldb_chinese_annotate.DbFormat.{
  extract_user_key, tag, append_internal_key, internal_key, internal_compare, is_lt,
  max_sequence_number, value_type_for_seek,
}
use leveldb_chinese_annotate.DbFormat.Order.{
  internal_compare-IsLawful, internal_compare-parts, parts_compare,
}
use leveldb_chinese_annotate.DbFormat.Tags.{
  extract_user_key-append, tag-append, pack-IsU64, pack_sequence_and_type_lem,
}
use leveldb_chinese_annotate.Slice.Order.{IsLawful}
use leveldb_chinese_annotate.VersionEdit.{FileMetaData}
use leveldb_chinese_annotate.Version.{
  after_file, before_file, some_file_meets, first_candidate, some_file_overlaps_range,
}
use leveldb_chinese_annotate.Version.Find.{IsAscending, scan, find_file-scan}

-- The largest tag that an internal key can have: the largest sequence number with a value.
abbrev pub max_tag : ℕ
max_tag = (2 ^ 56 - 1) * 256 + 1

module _ (c : Comparator) where
  -- The range of a file is one, its tag can occur.
  pub record IsFile (f : FileMetaData) : Type 0 where
    pub ordered : internal_compare c f.smallest f.largest ≢ Ordering.gt
    pub tagged : tag f.largest ≤ max_tag

  -- The files of a level above 0: every one ends before the next begins.
  abbrev pub IsDisjoint : List FileMetaData → Type 0
  IsDisjoint [] = Unit
  IsDisjoint (f ∷ files) =
      IsFile f
      × All (λ g. internal_compare c f.largest g.smallest ≡ Ordering.lt) files
      × IsDisjoint files

  pub lt_of_lt_le :
      (a b d : Bytes)
      → internal_compare c a b ≡ Ordering.lt
      → internal_compare c b d ≢ Ordering.gt
      → internal_compare c a d ≡ Ordering.lt
  lt_of_lt_le a b d h k =
      let l : IsLawful (internal_compare c) = internal_compare-IsLawful c in
      ground
        (arith, l.lt_trans a b d, l.eq_left b d a, l.gt_of_lt a b, l.lt_of_gt d a, l.gt_of_lt d a)

  pub le_of_le_le :
      (a b d : Bytes)
      → internal_compare c a b ≢ Ordering.gt
      → internal_compare c b d ≢ Ordering.gt
      → internal_compare c a d ≢ Ordering.gt
  le_of_le_le a b d h k =
      let l : IsLawful (internal_compare c) = internal_compare-IsLawful c in
      ground (
        arith,
        l.lt_trans a b d,
        l.eq_left a b d,
        l.eq_left b d a,
        l.gt_of_lt a b,
        l.gt_of_lt a d,
        l.lt_of_gt a d,
        l.lt_of_gt d a,
        l.gt_of_lt d a,
      )

  pub le_lt_trans :
      (a b d : Bytes)
      → internal_compare c a b ≢ Ordering.gt
      → internal_compare c b d ≡ Ordering.lt
      → internal_compare c a d ≡ Ordering.lt
  le_lt_trans a b d h k =
      let l : IsLawful (internal_compare c) = internal_compare-IsLawful c in
      ground (arith, l.lt_trans a b d, l.eq_left a b d)

  pub user_le :
      (a b : Bytes)
      → internal_compare c a b ≡ Ordering.lt
      → c.cmp (extract_user_key a) (extract_user_key b) ≢ Ordering.gt
  unfolding parts_compare
  user_le a b h = ground (arith, internal_compare-parts c a b)

  ascending_head :
      (f : FileMetaData) (files : List FileMetaData)
      → All (λ g. internal_compare c f.largest g.smallest ≡ Ordering.lt) files
      → IsDisjoint files
      → All (λ g. internal_compare c f.largest g.largest ≢ Ordering.gt) files
  ascending_head f [] hs hd = tt
  ascending_head f (g ∷ files) hs hd = (
    ground (arith, lt_of_lt_le f.largest g.smallest g.largest hs.0 hd.0.ordered),
    ascending_head f files hs.1 hd.2,
  )

  pub IsDisjoint-IsAscending : (files : List FileMetaData) → IsDisjoint files → IsAscending c files
  IsDisjoint-IsAscending [] hd = tt
  IsDisjoint-IsAscending (f ∷ files) hd =
      (ascending_head f files hd.1 hd.2, IsDisjoint-IsAscending files hd.2)

  abbrev seek_key : Bytes → Bytes
  seek_key user_key = internal_key user_key max_sequence_number value_type_for_seek

  seek_key-user : (u : Bytes) → extract_user_key (seek_key u) ≡ u
  unfolding internal_key append_internal_key put_fixed64
  seek_key-user u = extract_user_key-append u _

  seek_key-tag : (u : Bytes) → tag (seek_key u) ≡ max_tag
  unfolding internal_key append_internal_key put_fixed64
  seek_key-tag u =
      tag-append u _ (pack-IsU64 max_sequence_number value_type_for_seek (omega arith))
      ∙ pack_sequence_and_type_lem max_sequence_number value_type_for_seek (omega arith)

  -- A file is in front of a user key when its largest key is below the first key with that user key.
  after_file-seek :
      (u : Bytes) (f : FileMetaData)
      → tag f.largest ≤ max_tag
      → after_file c (some u) f ≡ is_lt (internal_compare c f.largest (seek_key u))
  unfolding after_file parts_compare
  after_file-seek u f h =
      let w = extract_user_key f.largest in
      let l : IsLawful c.cmp = c.lawful in
      ground (
        arith,
        internal_compare-parts c f.largest (seek_key u),
        seek_key-user u,
        seek_key-tag u,
        l.gt_of_lt w u,
        l.lt_of_gt u w,
        l.gt_of_lt u w,
        l.lt_of_gt w u,
      )

  -- A range that ends before a file begins ends before the files behind it begin.
  before_later :
      (largest : Option Bytes) (f g : FileMetaData)
      → IsFile f
      → internal_compare c f.largest g.smallest ≡ Ordering.lt
      → before_file c largest f ≡ true
      → before_file c largest g ≡ true
  unfolding before_file
  before_later none f g hf hg h = ground arith
  before_later (some u) f g hf hg h =
      let l : IsLawful c.cmp = c.lawful in
      let s = extract_user_key f.smallest in
      let t = extract_user_key g.smallest in
      let whole : internal_compare c f.smallest g.smallest ≡ Ordering.lt =
        le_lt_trans f.smallest f.largest g.smallest hf.ordered hg in
      let users = user_le f.smallest g.smallest whole in
      ground
        (arith, l.lt_trans u s t, l.eq_left s t u, l.gt_of_lt u s, l.lt_of_gt t u, l.gt_of_lt t u)

  meets_nothing :
      (files : List FileMetaData) (f : FileMetaData) (smallest largest : Option Bytes)
      → IsFile f
      → All (λ g. internal_compare c f.largest g.smallest ≡ Ordering.lt) files
      → before_file c largest f ≡ true
      → some_file_meets c files smallest largest ≡ false
  unfolding some_file_meets
  meets_nothing [] f smallest largest hf hs h = refl
  meets_nothing (g ∷ files) f smallest largest hf hs h =
      ground (
        arith,
        before_later largest f g hf hs.0 h,
        meets_nothing files f smallest largest hf hs.1 h,
      )

  -- What the binary search would look at, from the front.
  abbrev candidate : List FileMetaData → Option Bytes → ℕ
  candidate files none = 0
  candidate files (some u) = scan c files (seek_key u)

  overlap_at : List FileMetaData → ℕ → Option Bytes → Bool
  overlap_at files i largest = elim (get_elem? files i) [
    | none ↦ false
    | some f ↦ not (before_file c largest f)
  ]

  pub meets_first :
      (f : FileMetaData) (files : List FileMetaData) (smallest largest : Option Bytes)
      → IsDisjoint (f ∷ files)
      → after_file c smallest f ≡ false
      → some_file_meets c (f ∷ files) smallest largest ≡ not (before_file c largest f)
  unfolding some_file_meets
  meets_first f files smallest largest hd h = elim (Bool-cases (before_file c largest f)) [
    | inl before ↦ ground (arith, before, meets_nothing files f smallest largest hd.0 hd.1 before)
    | inr meets ↦ ground (arith, meets)
  ]

  meets_candidate :
      (files : List FileMetaData) (smallest largest : Option Bytes)
      → IsDisjoint files
      → overlap_at files (candidate files smallest) largest
        ≡ some_file_meets c files smallest largest
  unfolding overlap_at some_file_meets after_file
  meets_candidate [] none largest hd = refl
  meets_candidate [] (some u) largest hd = refl
  meets_candidate (f ∷ files) none largest hd = sym (meets_first f files none largest hd refl)
  meets_candidate (f ∷ files) (some u) largest hd = ground (
    arith,
    after_file-seek u f hd.0.tagged,
    meets_first f files (some u) largest hd,
    meets_candidate files (some u) largest hd.2,
  )

  first_candidate-scan :
      (files : List FileMetaData) (smallest : Option Bytes)
      → IsDisjoint files
      → length files < 2 ^ 31
      → first_candidate c files smallest ≡ candidate files smallest
  unfolding first_candidate
  first_candidate-scan files none hd small = refl
  first_candidate-scan files (some u) hd small =
      find_file-scan c files (seek_key u) (IsDisjoint-IsAscending files hd) small

  -- SomeFileOverlapsRange answers the same for the files of a level above 0 whether it searches or
  -- checks all files, when these are disjoint and in order, fewer than 2^31, each with a range of its
  -- own and a tag that can occur. A missing bound stands for no bound.
  pub some_file_overlaps_range-all :
      (files : List FileMetaData) (smallest largest : Option Bytes)
      → IsDisjoint files
      → length files < 2 ^ 31
      → some_file_overlaps_range c true files smallest largest
        ≡ some_file_overlaps_range c false files smallest largest
  unfolding some_file_overlaps_range overlap_at
  some_file_overlaps_range-all files smallest largest hd small =
      ap (λ (i : ℕ). overlap_at files i largest) (first_candidate-scan files smallest hd small)
      ∙ meets_candidate files smallest largest hd
