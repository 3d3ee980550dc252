-- ===== src/Version/Find.antt =====
-- FindFile of db/version_set.cc against a search from the front.
use leveldb_chinese_annotate.Prelude.{
  ℕ, zero, suc, ◌+◌, ◌/◌, ◌%◌, ◌^◌, ◌≤◌, ◌<◌, ◌≡◌, ◌≢◌, ◌∙◌, ap, arith, true, false, Ordering, List,
  [], ◌∷◌, if◌then◌else◌, length, All,
}
use leveldb_chinese_annotate.Coding.{Bytes}
use leveldb_chinese_annotate.Comparator.{Comparator}
use leveldb_chinese_annotate.DbFormat.{internal_compare, is_lt}
use leveldb_chinese_annotate.DbFormat.Order.{internal_compare-IsLawful}
use leveldb_chinese_annotate.Slice.Order.{IsLawful}
use leveldb_chinese_annotate.VersionEdit.{FileMetaData}
use leveldb_chinese_annotate.Version.{largest_at, find_loop, find_file}

module _ (c : Comparator) where
  -- No file has a largest key above that of a file behind it.
  abbrev pub IsAscending : List FileMetaData → Type 0
  IsAscending [] = Unit
  IsAscending (f ∷ files) =
      All (λ g. internal_compare c f.largest g.largest ≢ Ordering.gt) files × IsAscending files

  -- The number of files in front of the first one whose largest key is not below the key.
  abbrev pub scan : List FileMetaData → Bytes → ℕ
  scan [] key = 0
  scan (f ∷ files) key =
      let rest = scan files key in if is_lt (internal_compare c f.largest key) then suc rest else 0

  -- A key at most one that is below a third is below that.
  below_trans :
      (a b key : Bytes)
      → internal_compare c a b ≢ Ordering.gt
      → is_lt (internal_compare c b key) ≡ true
      → is_lt (internal_compare c a key) ≡ true
  below_trans a b key h e =
      let l : IsLawful (internal_compare c) = internal_compare-IsLawful c in
      ground (arith, l.lt_trans a b key, l.eq_left a b key)

  scan_le :
      (files : List FileMetaData) (key : Bytes) (i : ℕ)
      → i < length files
      → is_lt (internal_compare c (largest_at files i) key) ≡ false
      → scan files key ≤ i
  unfolding largest_at
  scan_le [] key i h e = absurd (omega arith)
  scan_le (f ∷ files) key zero h e = ground arith
  scan_le (f ∷ files) key (suc i) h e = ground (arith, scan_le files key i)

  first_below :
      (f : FileMetaData) (files : List FileMetaData) (key : Bytes) (i : ℕ)
      → All (λ g. internal_compare c f.largest g.largest ≢ Ordering.gt) files
      → i < length files
      → is_lt (internal_compare c (largest_at files i) key) ≡ true
      → is_lt (internal_compare c f.largest key) ≡ true
  unfolding largest_at
  first_below f [] key i hs h e = absurd (omega arith)
  first_below f (g ∷ files) key zero hs h e = below_trans f.largest g.largest key hs.0 e
  first_below f (g ∷ files) key (suc i) hs h e = first_below f files key i hs.1 (omega arith) e

  scan_gt :
      (files : List FileMetaData) (key : Bytes) (i : ℕ)
      → IsAscending files
      → i < length files
      → is_lt (internal_compare c (largest_at files i) key) ≡ true
      → i < scan files key
  unfolding largest_at
  scan_gt [] key i hs h e = absurd (omega arith)
  scan_gt (f ∷ files) key zero hs h e = ground arith
  scan_gt (f ∷ files) key (suc i) hs h e = ground (
    arith,
    first_below f files key i hs.0 (omega arith) e,
    scan_gt files key i hs.1 (omega arith) e,
  )

  scan_bound : (files : List FileMetaData) (key : Bytes) → scan files key ≤ length files
  scan_bound [] key = omega arith
  scan_bound (f ∷ files) key = ground (arith, scan_bound files key)

  find_loop-scan :
      (fuel : ℕ) (files : List FileMetaData) (key : Bytes) (left right : ℕ)
      → IsAscending files
      → left ≤ scan files key
      → scan files key ≤ right
      → right ≤ length files
      → length files < 2 ^ 31
      → right ≤ left + fuel
      → find_loop c fuel files key left right ≡ scan files key
  unfolding find_loop
  find_loop-scan zero files key left right hs hl hr hn small hf = omega arith
  find_loop-scan (suc fuel) files key left right hs hl hr hn small hf =
      let mid = ((left + right) % 2 ^ 32) / 2 in
      ground (
        arith,
        scan_le files key mid,
        scan_gt files key mid hs,
        find_loop-scan fuel files key (mid + 1) right hs,
        find_loop-scan fuel files key left mid hs,
      )

  -- FindFile answers, in files that ascend by their largest keys, the index of the first file whose
  -- largest key is not below the key, and the number of files where there is none. The files are
  -- fewer than 2^31.
  pub find_file-scan :
      (files : List FileMetaData) (key : Bytes)
      → IsAscending files
      → length files < 2 ^ 31
      → find_file c files key ≡ scan files key
  unfolding find_file
  find_file-scan files key hs small =
      let same : length files % 2 ^ 32 ≡ length files = omega arith in
      ap (find_loop c (length files) files key 0) same
      ∙ find_loop-scan (length files) files key 0 (length files) hs (omega arith)
          (scan_bound files key) (omega arith) small (omega arith)
