-- ===== src/Version/Compaction/Parents.antt =====
-- SetupOtherInputs of db/version_set.cc answers, and no file of the next level that overlaps the
-- inputs stays out.
use leveldb_chinese_annotate.Prelude.{
  ℕ, ◌+◌, ◌%◌, ◌^◌, ◌≡◌, ◌≢◌, Ordering, sym, refl, arith, true, ◌&&◌, List, [], some, ltb, ◌==◌,
  if◌then◌else◌, length, All, Bool-cases, inl, inr,
}
use mathlib.Core.Path.{subst}
use leveldb_chinese_annotate.Coding.{Bytes}
use leveldb_chinese_annotate.Comparator.{Comparator}
use leveldb_chinese_annotate.DbFormat.{extract_user_key}
use leveldb_chinese_annotate.VersionEdit.{FileMetaData, num_levels, set_compact_pointer}
use leveldb_chinese_annotate.Version.Inputs.Bounds.{meets}
use leveldb_chinese_annotate.Version.Compaction.Members.{
  Keeps, IsAmong-append, IsAmong-overlapping, inputs_at-answers, add_boundary_inputs_grows,
  between-meets, inputs_at-Keeps, grown-Keeps,
}
use leveldb_chinese_annotate.Version.Inputs.Closed.{get_overlapping_inputs-IsClosed}
use leveldb_chinese_annotate.Version.Boundary.Next.{IsOrdered, IsAmong}
use leveldb_chinese_annotate.Version.Levels.{Version, lt64, total_file_size}
use leveldb_chinese_annotate.Version.Compaction.{
  Compaction, update, get_range, get_range2, inputs_at, expand_inputs, grandparents_of,
  setup_other_inputs, expanded_compaction_byte_size_limit,
}

module _ (c : Comparator) where
  -- All files of the level that meet the range are among the files.
  pub HasAll : Version → ℕ → Bytes × Bytes → List FileMetaData → Type 0
  HasAll v level range ys =
      (f : FileMetaData)
      → IsAmong c f (v.files level)
      → meets c (some (extract_user_key range.0)) (some (extract_user_key range.1)) f ≡ true
      → IsAmong c f ys

  inputs_at-HasAll :
      (v : Version) (level : ℕ) (range : Bytes × Bytes)
      → All (IsOrdered c) (v.files (level + 1))
      → (ys : List FileMetaData) × (inputs_at c v (level + 1) range ≡ some ys)
        × HasAll v (level + 1) range ys
  unfolding HasAll
  inputs_at-HasAll v level (start, limit) ho =
      let (ys, added, xs, answers, grown, closed) =
        inputs_at-answers c v (level + 1) start limit ho in
      let (first, last) = closed.same (ground arith) in
      (
        ys,
        answers,
        λ f among m. subst (IsAmong c f) (sym grown) (
            IsAmong-append c f xs added (
              subst (IsAmong c f) (sym closed.whole) (
                IsAmong-overlapping c f closed.first closed.last (v.files (level + 1))
                  (rw (first, last) m) among))),
      )

  expand_inputs-HasAll :
      (target : ℕ) (v : Version) (level : ℕ) (inputs0 inputs1 : List FileMetaData)
      → All (IsOrdered c) (v.files level)
      → All (IsOrdered c) (v.files (level + 1))
      → Keeps c inputs0 (v.files level)
      → HasAll v (level + 1) (get_range c inputs0) inputs1
      → (r : List FileMetaData × List FileMetaData) × (expand_inputs c target v level inputs0
            inputs1
          ≡ some r)
        × Keeps c inputs0 r.0
        × HasAll v (level + 1) (get_range c r.0) r.1
  unfolding expand_inputs
  expand_inputs-HasAll target v level inputs0 inputs1 ho hn own has =
      let range = get_range2 c inputs0 inputs1 in
      let (expanded0, added, xs, found0, grown, closed) =
        inputs_at-answers c v level range.0 range.1 ho in
      let (expanded1, found1, all) = inputs_at-HasAll v level (get_range c expanded0) hn in
      let kept = inputs_at-Keeps c v level inputs0 inputs1 expanded0 added xs ho own grown closed in
      let test =
        ltb (length inputs0) (length expanded0)
        && lt64 ((total_file_size inputs1 + total_file_size expanded0) % 2 ^ 64)
            (expanded_compaction_byte_size_limit target)
        && (length expanded1 == length inputs1) in
      elim (Bool-cases test) [
        | inl wider ↦ ((expanded0, expanded1), rw (found0, found1, wider) refl, kept, all)
        | inr same ↦ ((inputs0, inputs1), rw (found0, found1, same) refl, λ g among. among, has)
      ]

  grandparents_of-answers :
      (v : Version) (level : ℕ) (range : Bytes × Bytes)
      → (xs : List FileMetaData) × (grandparents_of c v level range ≡ some xs)
  unfolding grandparents_of
  grandparents_of-answers v level (start, limit) =
      let (xs, found, closed) =
        get_overlapping_inputs-IsClosed c (level + 2) (v.files (level + 2)) (some start)
          (some limit) in
      elim (Bool-cases (ltb (level + 2) num_levels)) [
        | inl deep ↦ (xs, rw (deep, found) refl)
        | inr no_more ↦ ([], rw no_more refl)
      ]

  choice :
      (target : ℕ) (v : Version) (level : ℕ) (inputs0 inputs1 : List FileMetaData)
      → All (IsOrdered c) (v.files level)
      → All (IsOrdered c) (v.files (level + 1))
      → Keeps c inputs0 (v.files level)
      → HasAll v (level + 1) (get_range c inputs0) inputs1
      → (r : List FileMetaData × List FileMetaData) × ((if length inputs1 == 0
            then some (inputs0, inputs1)
            else expand_inputs c target v level inputs0 inputs1)
          ≡ some r)
        × Keeps c inputs0 r.0
        × HasAll v (level + 1) (get_range c r.0) r.1
  choice target v level inputs0 inputs1 ho hn own has =
      let (r, found, kept, all) =
        expand_inputs-HasAll target v level inputs0 inputs1 ho hn own has in
      elim (Bool-cases (length inputs1 == 0)) [
        | inl empty ↦ ((inputs0, inputs1), rw empty refl, λ g among. among, has)
        | inr some_files ↦ (r, rw (some_files, found) refl, kept, all)
      ]

  -- SetupOtherInputs answers, for files whose ranges are in order and a compaction whose inputs are
  -- files of its level. The compaction it answers stays at its level and keeps these inputs, and it
  -- takes every file of the next level that overlaps what the inputs of its level span: a file is
  -- among its inputs of the next level if one of its inputs of the level begins, by user key, at the
  -- file's end or before, and one of them ends at the file's start or behind.
  pub setup_other_inputs-HasAll :
      (target : ℕ) (v : Version) (compact_pointer : ℕ → Bytes) (k : Compaction)
      → ((l : ℕ) → All (IsOrdered c) (v.files l))
      → ((g : FileMetaData) → IsAmong c g k.inputs0 → IsAmong c g (v.files k.level))
      → (k' : Compaction) × (pointers : ℕ → Bytes) × (setup_other_inputs c target v compact_pointer
            k
          ≡ some (k', pointers))
        × (k'.level ≡ k.level)
        × ((g : FileMetaData) → IsAmong c g k.inputs0 → IsAmong c g k'.inputs0)
        × ((f g1 g2 : FileMetaData)
            → IsAmong c f (v.files (k.level + 1))
            → IsAmong c g1 k'.inputs0
            → IsAmong c g2 k'.inputs0
            → c.cmp (extract_user_key g1.smallest) (extract_user_key f.largest) ≢ Ordering.gt
            → c.cmp (extract_user_key f.smallest) (extract_user_key g2.largest) ≢ Ordering.gt
            → IsAmong c f k'.inputs1)
  unfolding setup_other_inputs HasAll
  setup_other_inputs-HasAll target v compact_pointer k ho own =
      let (inputs0, added, found0, grown, from_level) =
        add_boundary_inputs_grows c (v.files k.level) k.inputs0 (ho k.level) in
      let (inputs1, found1, has) =
        inputs_at-HasAll v k.level (get_range c inputs0) (ho (k.level + 1)) in
      let (first_kept, of_level) =
        grown-Keeps c (v.files k.level) k.inputs0 added inputs0 grown from_level own in
      let (r, found, kept, all) =
        choice target v k.level inputs0 inputs1 (ho k.level) (ho (k.level + 1)) of_level has in
      let (grandparents, known) = grandparents_of-answers v k.level (get_range2 c r.0 r.1) in
      (
        record k {
          inputs0 = r.0;
          inputs1 = r.1;
          grandparents = grandparents;
          edit = set_compact_pointer k.edit k.level (get_range c r.0).1;
        },
        update compact_pointer k.level (get_range c r.0).1,
        rw (found0, found1, found, known) refl,
        refl,
        λ g among. kept g (first_kept g among),
        λ f g1 g2 among a1 a2 h1 h2. all f among (between-meets c r.0 f g1 g2 a1 a2 h1 h2),
      )
