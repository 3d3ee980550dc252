-- ===== src/Version/Boundary/Whole.antt =====
-- AddBoundaryInputs ends, and leaves no user key cut in two.
use leveldb_chinese_annotate.Prelude.{
  ℕ, zero, suc, ◌<◌, ◌≡◌, ◌∙◌, sym, ap, refl, arith, Ordering, List, [], ◌∷◌, ◌++◌, append_assoc,
  append-nil, some, if◌then◌else◌, length, All, inl, inr, Option-cases,
}
use leveldb_chinese_annotate.Coding.{Bytes}
use leveldb_chinese_annotate.Comparator.{Comparator}
use leveldb_chinese_annotate.DbFormat.{internal_compare}
use leveldb_chinese_annotate.DbFormat.Order.{internal_compare-IsLawful}
use leveldb_chinese_annotate.Slice.Order.{IsLawful}
use leveldb_chinese_annotate.VersionEdit.{FileMetaData}
use leveldb_chinese_annotate.Version.{is_gt}
use leveldb_chinese_annotate.Version.Boundary.{
  largest_from, find_largest_key, find_smallest_boundary_file, add_boundary_loop,
  add_boundary_inputs,
}
use leveldb_chinese_annotate.Version.Boundary.Next.{
  IsOrdered, IsAmong, IsNext, starts_above, starts_above_bound, find_smallest_boundary_file-some,
  find_smallest_boundary_file-none,
}
use leveldb_chinese_annotate.Version.Boundary.Least.{find_smallest_boundary_file-least}
use leveldb_chinese_annotate.Version.Boundary.Largest.{
  IsLargest, Continues, find_largest_key-IsLargest, is_boundary-Continues, least-Continues,
  uncontinued,
}

module _ (c : Comparator) where
  -- Each file begins with an older entry of the user key in which the one before it ends, and no
  -- file of the level that does so begins before it.
  abbrev pub Chain : List FileMetaData → Bytes → List FileMetaData → Type 0
  Chain level_files key [] = Unit
  Chain level_files key (f ∷ files) =
      Continues c key f
      × All (λ g. ¬ (Continues c key g × (internal_compare c g.smallest f.smallest ≡ Ordering.lt)))
          level_files
      × Chain level_files f.largest files

  -- What the inputs `files` become, with the largest keys before and after: files of the level are
  -- added, a chain from the first of these keys, and no file of the level continues the last one.
  pub record IsWhole (level_files files ys : List FileMetaData) (first_key largest_key : Bytes)
      : Type 0 where
    pub added : List FileMetaData
    pub grown : ys ≡ files ++ added
    pub from_level : All (λ b. IsAmong c b level_files) added
    pub before : IsLargest c first_key files
    pub chain : Chain level_files first_key added
    pub after : IsLargest c largest_key ys
    pub cut : All (λ f. ¬ (Continues c largest_key f)) level_files

  largest_from-last :
      (key top : Bytes) (files : List FileMetaData) (b : FileMetaData)
      → largest_from c key files ≡ top
      → internal_compare c top b.largest ≡ Ordering.lt
      → largest_from c key (files ++ (b ∷ [])) ≡ b.largest
  unfolding largest_from
  largest_from-last key top [] b e h =
      let l : IsLawful (internal_compare c) = internal_compare-IsLawful c in
      ground (arith, ap (λ k. internal_compare c k b.largest) e, l.gt_of_lt top b.largest)
  largest_from-last key top (f ∷ files) b e h =
      largest_from-last (if is_gt (internal_compare c f.largest key) then f.largest else key) top
        files b e h

  find_largest_key-last :
      (top : Bytes) (files : List FileMetaData) (b : FileMetaData)
      → find_largest_key c files ≡ some top
      → internal_compare c top b.largest ≡ Ordering.lt
      → find_largest_key c (files ++ (b ∷ [])) ≡ some b.largest
  unfolding find_largest_key
  find_largest_key-last top [] b e h = absurd (ground arith)
  find_largest_key-last top (f ∷ files) b e h =
      ap some (largest_from-last f.largest top files b (ground arith) h)

  add_boundary_loop-IsWhole :
      (fuel : ℕ) (level_files files : List FileMetaData) (top : Bytes)
      → All (IsOrdered c) level_files
      → find_largest_key c files ≡ some top
      → starts_above c top level_files < fuel
      → (ys : List FileMetaData) × (key : Bytes) × (add_boundary_loop c fuel level_files files top
          ≡ some ys)
        × IsWhole level_files files ys top key
  unfolding add_boundary_loop
  add_boundary_loop-IsWhole zero level_files files top ho e h = absurd (omega arith)
  add_boundary_loop-IsWhole (suc fuel) level_files files top ho e h =
      elim (Option-cases (find_smallest_boundary_file c level_files top)) [
        | inl nothing ↦ (
          files,
          top,
          ground (arith, nothing),
          record {
            added = [];
            grown = sym (append-nil files);
            from_level = tt;
            before = find_largest_key-IsLargest c files top e;
            chain = tt;
            after = find_largest_key-IsLargest c files top e;
            cut =
                uncontinued c top level_files
                  (find_smallest_boundary_file-none c level_files top nothing);
          },
        )
        | inr (b, found) ↦
            let next : IsNext c top b level_files =
              find_smallest_boundary_file-some c level_files top b ho found in
            let (ys, key, answers, whole) =
              add_boundary_loop-IsWhole fuel level_files (files ++ (b ∷ [])) b.largest ho
                (find_largest_key-last top files b e next.above) (omega (arith, next.fewer)) in
            (
              ys,
              key,
              ground (arith, found, answers),
              record {
                added = b ∷ whole.added;
                grown = whole.grown ∙ append_assoc files (b ∷ []) whole.added;
                from_level = (next.among, whole.from_level);
                before = find_largest_key-IsLargest c files top e;
                chain = (
                  is_boundary-Continues c top b next.boundary,
                  least-Continues c top b level_files
                      (find_smallest_boundary_file-least c level_files top b found),
                  whole.chain,
                );
                after = whole.after;
                cut = whole.cut;
              },
            )
      ]

  -- AddBoundaryInputs answers, for inputs that are not empty and files of the level whose ranges are
  -- in order. It adds files of the level behind the inputs, each of which begins with an older entry
  -- of the user key in which the one before it ends, from the largest key of the given inputs on, and
  -- no file of the level that does so begins before it. When it is done, no file of the level begins above the largest key that its inputs end in, in the
  -- order of internal keys, with the user key of that key.
  pub add_boundary_inputs-IsWhole :
      (level_files : List FileMetaData) (f : FileMetaData) (files : List FileMetaData)
      → All (IsOrdered c) level_files
      → (ys : List FileMetaData) × (first_key largest_key : Bytes) × (add_boundary_inputs c
            level_files
            (f ∷ files)
          ≡ some ys)
        × IsWhole level_files (f ∷ files) ys first_key largest_key
  unfolding add_boundary_inputs find_largest_key
  add_boundary_inputs-IsWhole level_files f files ho =
      let top = largest_from c f.largest files in
      let (ys, key, answers, whole) =
        add_boundary_loop-IsWhole (suc (length level_files)) level_files (f ∷ files) top ho refl
          (omega (arith, starts_above_bound c top level_files)) in
      (ys, top, key, answers, whole)
