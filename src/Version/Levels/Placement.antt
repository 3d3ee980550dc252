-- ===== src/Version/Levels/Placement.antt =====
-- PickLevelForMemTableOutput of db/version_set.cc never puts a table below data that it overlaps.
use mathlib.Core.Path.{subst}
use leveldb_chinese_annotate.Prelude.{
  ℕ, zero, suc, ◌+◌, ◌≤◌, ◌<◌, ◌^◌, ◌≡◌, ◌≢◌, ◌∙◌, sym, ap, List, [], ◌∷◌, Option, none, length,
  refl, arith, Bool, true, false, some, ltb, Bool-cases, inl, inr, dec_lt,
}
use leveldb_chinese_annotate.Coding.{Bytes}
use leveldb_chinese_annotate.Comparator.{Comparator}
use leveldb_chinese_annotate.DbFormat.{
  extract_user_key, ValueType, internal_key, max_sequence_number, value_type_for_seek,
}
use leveldb_chinese_annotate.VersionEdit.{num_levels}
use leveldb_chinese_annotate.Version.Inputs.Closed.{get_overlapping_inputs-IsClosed}
use leveldb_chinese_annotate.Version.Inputs.Bounds.{meets}
use leveldb_chinese_annotate.Version.Boundary.Next.{IsAmong}
use leveldb_chinese_annotate.Version.Overlap.{IsDisjoint, some_file_overlaps_range-all}
use leveldb_chinese_annotate.Version.{
  some_file_meets, after_file, before_file, some_file_overlaps_range,
}
use leveldb_chinese_annotate.VersionEdit.{FileMetaData}
use leveldb_chinese_annotate.Version.Levels.{
  Version, lt64, total_file_size, max_grand_parent_overlap_bytes, max_mem_compact_level,
  overlap_in_level, overlaps_too_much, pick_level_loop, pick_level_for_mem_table_output,
}

module _ (c : Comparator) where
  overlaps_too_much-answers :
      (target : ℕ) (v : Version) (level : ℕ) (start limit : Bytes)
      → (b : Bool) × (overlaps_too_much c target v level start limit ≡ some b)
  unfolding overlaps_too_much
  overlaps_too_much-answers target v level start limit =
      let (xs, answers, closed) =
        get_overlapping_inputs-IsClosed c level (v.files level) (some start) (some limit) in
      elim (Bool-cases (ltb level num_levels)) [
        | inl inside ↦ (
          lt64 (max_grand_parent_overlap_bytes target) (total_file_size xs),
          rw (inside, answers) refl,
        )
        | inr outside ↦ (false, rw outside refl)
      ]

  -- No file of the levels up to this one meets the range.
  pub IsClear : Version → ℕ → Bytes → Bytes → Type 0
  IsClear v level smallest largest =
      (l : ℕ) → l ≤ level → overlap_in_level c v l (some smallest) (some largest) ≡ false

  IsClear-first :
      (v : Version) (smallest largest : Bytes)
      → overlap_in_level c v 0 (some smallest) (some largest) ≡ false
      → IsClear v 0 smallest largest
  unfolding IsClear
  IsClear-first v smallest largest h zero hl = h
  IsClear-first v smallest largest h (suc l) hl = absurd (omega arith)

  IsClear-next :
      (v : Version) (level : ℕ) (smallest largest : Bytes)
      → IsClear v level smallest largest
      → overlap_in_level c v (level + 1) (some smallest) (some largest) ≡ false
      → IsClear v (level + 1) smallest largest
  unfolding IsClear
  IsClear-next v level smallest largest h last l hl = elim (dec_lt level l) [
    | yes above ↦
        subst (λ (k : ℕ). overlap_in_level c v k (some smallest) (some largest) ≡ false)
          (omega arith) last
    | no below ↦ h l (omega arith)
  ]

  pick_level_loop-IsClear :
      (left target : ℕ) (v : Version) (smallest largest : Bytes) (level : ℕ)
      → IsClear v level smallest largest
      → (answer : ℕ) × (pick_level_loop c left target v smallest largest level ≡ some answer)
        × (answer ≤ level + left)
        × IsClear v answer smallest largest
  unfolding pick_level_loop
  pick_level_loop-IsClear zero target v smallest largest level h = (level, refl, omega arith, h)
  pick_level_loop-IsClear (suc left) target v smallest largest level h =
      let start = internal_key smallest max_sequence_number value_type_for_seek in
      let limit = internal_key largest 0 ValueType.type_deletion in
      let (too_much, known) = overlaps_too_much-answers target v (level + 2) start limit in
      elim (Bool-cases (overlap_in_level c v (level + 1) (some smallest) (some largest))) [
        | inl meeting ↦ (level, rw meeting refl, omega arith, h)
        | inr clear ↦ elim (Bool-cases too_much) [
          | inl much ↦ (level, ground (arith, clear, known, much), omega arith, h)
          | inr little ↦
              let (answer, answers, bound, later) =
                pick_level_loop-IsClear left target v smallest largest (level + 1)
                  (IsClear-next v level smallest largest h clear) in
              (answer, ground (arith, clear, known, little, answers), omega (arith, bound), later)
        ]
      ]

  some_file_meets-clear :
      (files : List FileMetaData) (smallest largest : Bytes) (f : FileMetaData)
      → some_file_meets c files (some smallest) (some largest) ≡ false
      → IsAmong c f files
      → meets c (some smallest) (some largest) f ≡ false
  unfolding some_file_meets after_file before_file
  some_file_meets-clear [] smallest largest f h (i, e) = absurd (ground arith)
  some_file_meets-clear (x ∷ files) smallest largest f h (zero, e) =
      let same : x ≡ f = ap (λ (o : Option FileMetaData). elim o [ none ↦ x | some y ↦ y ]) e in
      let u = extract_user_key x.smallest in
      subst (λ y. meets c (some smallest) (some largest) y ≡ false) same
        (ground (arith, c.lawful.gt_of_lt largest u))
  some_file_meets-clear (x ∷ files) smallest largest f h (suc i, e) =
      some_file_meets-clear files smallest largest f (ground arith) (i, e)

  -- At every level the search answers as the check of all files.
  overlap_in_level-clear :
      (v : Version) (l : ℕ) (smallest largest : Bytes) (f : FileMetaData)
      → (l ≢ 0 → IsDisjoint c (v.files l))
      → length (v.files l) < 2 ^ 31
      → overlap_in_level c v l (some smallest) (some largest) ≡ false
      → IsAmong c f (v.files l)
      → meets c (some smallest) (some largest) f ≡ false
  unfolding overlap_in_level some_file_overlaps_range
  overlap_in_level-clear v zero smallest largest f hd small h =
      some_file_meets-clear (v.files 0) smallest largest f h
  overlap_in_level-clear v (suc l) smallest largest f hd small h =
      let files = v.files (suc l) in
      let above : ltb 0 (suc l) ≡ true = ground arith in
      some_file_meets-clear files smallest largest f (
        sym (
          some_file_overlaps_range-all c files (some smallest) (some largest) (hd (ground arith))
            small)
        ∙ sym (
            ap (λ (b : Bool). some_file_overlaps_range c b files (some smallest) (some largest))
              above)
        ∙ h)

  -- PickLevelForMemTableOutput answers a level, 2 at most, for levels of fewer than 2^31 files that
  -- are, above level 0, disjoint and in order. Where the answer is not level 0, no file of the
  -- answered level or of one above it has a range of user keys that meets the new table's.
  pub pick_level_for_mem_table_output-clear :
      (target : ℕ) (v : Version) (smallest largest : Bytes)
      → ((l : ℕ) → l ≢ 0 → IsDisjoint c (v.files l))
      → ((l : ℕ) → length (v.files l) < 2 ^ 31)
      → (level : ℕ) × (pick_level_for_mem_table_output c target v smallest largest ≡ some level)
        × (level ≤ max_mem_compact_level)
        × (level ≢ 0
            → (l : ℕ) (f : FileMetaData) → l ≤ level
            → IsAmong c f (v.files l)
            → meets c (some smallest) (some largest) f ≡ false)
  unfolding pick_level_for_mem_table_output IsClear
  pick_level_for_mem_table_output-clear target v smallest largest hd small =
      elim (Bool-cases (overlap_in_level c v 0 (some smallest) (some largest))) [
        | inl meeting ↦ (0, rw meeting refl, omega arith, λ h. absurd (h refl))
        | inr clear ↦
            let (level, answers, bound, later) =
              pick_level_loop-IsClear max_mem_compact_level target v smallest largest 0
                (IsClear-first v smallest largest clear) in
            (
              level,
              ground (arith, clear, answers),
              omega (arith, bound),
              λ h l f hl.
                  overlap_in_level-clear v l smallest largest f (hd l) (small l) (later l hl),
            )
      ]
