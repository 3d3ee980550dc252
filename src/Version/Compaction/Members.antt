-- ===== src/Version/Compaction/Members.antt =====
-- Which files AddBoundaryInputs and GetOverlappingInputs leave among the inputs of a compaction.
use leveldb_chinese_annotate.Prelude.{
  ◌⊎◌, ℕ, zero, suc, ◌≡◌, ◌≢◌, Ordering, ◌∙◌, sym, ap, refl, arith, Bool, true, ◌&&◌, List, [], ◌∷◌,
  ◌++◌, Option, none, some, ◌==◌, All, Bool-cases, inl, inr,
}
use mathlib.Core.Path.{subst}
use leveldb_chinese_annotate.Coding.{Bytes}
use leveldb_chinese_annotate.Comparator.{Comparator}
use leveldb_chinese_annotate.DbFormat.{extract_user_key}
use leveldb_chinese_annotate.VersionEdit.{FileMetaData}
use leveldb_chinese_annotate.Version.Inputs.Bounds.{
  overlapping, meets, le, le_trans, reaches, stays_below, IsLowered, IsRaised,
}
use leveldb_chinese_annotate.Version.Compaction.Ranges.{get_range-among, user_le_of_le}
use leveldb_chinese_annotate.Version.Inputs.Closed.{IsClosed, get_overlapping_inputs-IsClosed}
use leveldb_chinese_annotate.Version.Boundary.{add_boundary_inputs, find_largest_key}
use leveldb_chinese_annotate.Version.Boundary.Next.{IsOrdered, IsAmong}
use leveldb_chinese_annotate.Version.Boundary.Whole.{add_boundary_inputs-IsWhole}
use leveldb_chinese_annotate.Version.Levels.{Version}
use leveldb_chinese_annotate.Version.Compaction.{get_range, get_range2, inputs_at}

module _ (c : Comparator) where
  pub IsAmong-append :
      (f : FileMetaData) (xs ys : List FileMetaData) → IsAmong c f xs → IsAmong c f (xs ++ ys)
  IsAmong-append f [] ys (i, e) = absurd (ground arith)
  IsAmong-append f (x ∷ xs) ys (zero, e) = (0, e)
  IsAmong-append f (x ∷ xs) ys (suc i, e) =
      let (j, later) = IsAmong-append f xs ys (i, e) in (suc j, later)

  IsAmong-later :
      (f x : FileMetaData) (xs : List FileMetaData) → IsAmong c f xs → IsAmong c f (x ∷ xs)
  IsAmong-later f x xs (i, e) = (suc i, e)

  pub IsAmong-overlapping :
      (f : FileMetaData) (begin end : Option Bytes) (files : List FileMetaData)
      → meets c begin end f ≡ true
      → IsAmong c f files
      → IsAmong c f (overlapping c begin end files)
  IsAmong-overlapping f begin end [] h (i, e) = absurd (ground arith)
  IsAmong-overlapping f begin end (x ∷ files) h (zero, e) =
      let same : x ≡ f = ap (λ (o : Option FileMetaData). elim o [ none ↦ x | some y ↦ y ]) e in
      let takes : meets c begin end x ≡ true =
        ap (λ (y : FileMetaData). meets c begin end y) same ∙ h in
      rw takes (0, e)
  IsAmong-overlapping f begin end (x ∷ files) h (suc i, e) =
      let later = IsAmong-overlapping f begin end files h (i, e) in
      elim (Bool-cases (meets c begin end x)) [
        | inl takes ↦ rw takes (IsAmong-later f x (overlapping c begin end files) later)
        | inr out ↦ rw out later
      ]

  -- AddBoundaryInputs keeps the inputs.
  pub add_boundary_inputs_grows :
      (level_files files : List FileMetaData)
      → All (IsOrdered c) level_files
      → (ys added : List FileMetaData) × (add_boundary_inputs c level_files files ≡ some ys)
        × (ys ≡ files ++ added)
        × All (λ b. IsAmong c b level_files) added
  unfolding add_boundary_inputs find_largest_key
  add_boundary_inputs_grows level_files [] ho = ([], [], refl, refl, tt)
  add_boundary_inputs_grows level_files (f ∷ files) ho =
      let (ys, first, key, answers, whole) = add_boundary_inputs-IsWhole c level_files f files ho in
      (ys, whole.added, answers, whole.grown, whole.from_level)

  both : (a b : Bool) → (a && b) ≡ true → (a ≡ true) × (b ≡ true)
  both a b h = (ground arith, ground arith)

  both_true : (a b : Bool) → a ≡ true → b ≡ true → (a && b) ≡ true
  both_true a b h k = ground arith

  le-false : (u v : Bytes) → c.cmp u v ≢ Ordering.gt → le c u v ≡ true
  le-false u v h = ground arith

  le-true : (u v : Bytes) → le c u v ≡ true → c.cmp u v ≢ Ordering.gt
  le-true u v h = ground arith

  reaches-lower :
      (b b' : Option Bytes) (u : Bytes)
      → IsLowered c b b'
      → reaches c b u ≡ true
      → reaches c b' u ≡ true
  reaches-lower none none u hb h = refl
  reaches-lower none (some y) u hb h = absurd hb
  reaches-lower (some x) none u hb h = refl
  reaches-lower (some x) (some y) u hb h = le-false y u (le_trans c y x u hb (le-true x u h))

  stays_below-higher :
      (e e' : Option Bytes) (u : Bytes)
      → IsRaised c e e'
      → stays_below c e u ≡ true
      → stays_below c e' u ≡ true
  stays_below-higher none none u he h = refl
  stays_below-higher none (some y) u he h = absurd he
  stays_below-higher (some x) none u he h = refl
  stays_below-higher (some x) (some y) u he h = le-false u y (le_trans c u x y (le-true u x h) he)

  -- The files of the first list are in the second.
  abbrev pub Keeps : List FileMetaData → List FileMetaData → Type 0
  Keeps xs ys = (g : FileMetaData) → IsAmong c g xs → IsAmong c g ys

  -- The file is of one of the two lists.
  append_IsAmong :
      (f : FileMetaData) (xs ys : List FileMetaData)
      → IsAmong c f (xs ++ ys)
      → IsAmong c f xs ⊎ IsAmong c f ys
  append_IsAmong f [] ys h = inr h
  append_IsAmong f (x ∷ xs) ys (zero, e) = inl (0, e)
  append_IsAmong f (x ∷ xs) ys (suc i, e) = elim (append_IsAmong f xs ys (i, e)) [
    | inl (j, h) ↦ inl (suc j, h)
    | inr h ↦ inr h
  ]

  All-among :
      (P : FileMetaData → Type 0) (files : List FileMetaData) (f : FileMetaData)
      → All P files
      → IsAmong c f files
      → P f
  All-among P [] f h (i, e) = absurd (ground arith)
  All-among P (x ∷ files) f h (zero, e) =
      let same : x ≡ f = ap (λ (o : Option FileMetaData). elim o [ none ↦ x | some y ↦ y ]) e in
      subst P same h.0
  All-among P (x ∷ files) f h (suc i, e) = All-among P files f h.1 (i, e)

  -- AddBoundaryInputs keeps the inputs, and those of the level stay with the level.
  pub grown-Keeps :
      (level_files files added ys : List FileMetaData)
      → ys ≡ files ++ added
      → All (λ b. IsAmong c b level_files) added
      → Keeps files level_files
      → Keeps files ys × Keeps ys level_files
  grown-Keeps level_files files added ys grown from_level h = (
    λ g among. subst (IsAmong c g) (sym grown) (IsAmong-append g files added among),
    λ g among. elim (append_IsAmong g files added (subst (IsAmong c g) grown among)) [
      | inl old ↦ h g old
      | inr new ↦ All-among (λ b. IsAmong c b level_files) added g from_level new
    ],
  )

  -- A file that meets a range meets a wider one.
  meets-wider :
      (b e b' e' : Option Bytes) (f : FileMetaData)
      → IsLowered c b b'
      → IsRaised c e e'
      → meets c b e f ≡ true
      → meets c b' e' f ≡ true
  meets-wider b e b' e' f hb he h =
      let (low, high) = both _ _ h in
      both_true _ _ (reaches-lower b b' (extract_user_key f.largest) hb low)
        (stays_below-higher e e' (extract_user_key f.smallest) he high)

  pub inputs_at-answers :
      (v : Version) (level : ℕ) (start limit : Bytes)
      → All (IsOrdered c) (v.files level)
      → (ys added xs : List FileMetaData) × (inputs_at c v level (start, limit) ≡ some ys)
        × (ys ≡ xs ++ added)
        × IsClosed c
            (level == 0)
            (some (extract_user_key start))
            (some (extract_user_key limit))
            (v.files level)
            xs
  unfolding inputs_at
  inputs_at-answers v level start limit ho =
      let (xs, found, closed) =
        get_overlapping_inputs-IsClosed c level (v.files level) (some start) (some limit) in
      let (ys, added, answers, grown, from_level) =
        add_boundary_inputs_grows (v.files level) xs ho in
      (ys, added, xs, rw found answers, grown, closed)

  -- A file that begins before the end of one file and ends behind the start of another meets the
  -- range of the two and of what is with them.
  pub between-meets :
      (files : List FileMetaData) (f g1 g2 : FileMetaData)
      → IsAmong c g1 files
      → IsAmong c g2 files
      → c.cmp (extract_user_key g1.smallest) (extract_user_key f.largest) ≢ Ordering.gt
      → c.cmp (extract_user_key f.smallest) (extract_user_key g2.largest) ≢ Ordering.gt
      → meets c
          (some (extract_user_key (get_range c files).0))
          (some (extract_user_key (get_range c files).1))
          f
        ≡ true
  between-meets files f g1 g2 a1 a2 h1 h2 =
      let lowest = (get_range-among c files g1 a1).0 in
      let highest = (get_range-among c files g2 a2).1 in
      ground (
        arith,
        le_trans c _ (extract_user_key g1.smallest) (extract_user_key f.largest) lowest h1,
        le_trans c (extract_user_key f.smallest) (extract_user_key g2.largest) _ h2 highest,
      )

  -- The files of a level whose range they are taken by stay: they meet it.
  pub inputs_at-Keeps :
      (v : Version) (level : ℕ) (inputs others ys added xs : List FileMetaData)
      → All (IsOrdered c) (v.files level)
      → Keeps inputs (v.files level)
      → ys ≡ xs ++ added
      → IsClosed c
          (level == 0)
          (some (extract_user_key (get_range2 c inputs others).0))
          (some (extract_user_key (get_range2 c inputs others).1))
          (v.files level)
          xs
      → Keeps inputs ys
  unfolding get_range2
  inputs_at-Keeps v level inputs others ys added xs ho h grown closed g among =
      let here = IsAmong-append g inputs others among in
      let ordered =
        user_le_of_le c g.smallest g.largest
          (All-among (IsOrdered c) (v.files level) g ho (h g among)) in
      let met = between-meets (inputs ++ others) g g g here here ordered ordered in
      subst (IsAmong c g) (sym grown) (
        IsAmong-append g xs added (
          subst (IsAmong c g) (sym closed.whole) (
            IsAmong-overlapping g closed.first closed.last (v.files level)
              (meets-wider (some (extract_user_key (get_range2 c inputs others).0))
                (some (extract_user_key (get_range2 c inputs others).1)) closed.first closed.last g
                closed.lowered closed.raised met)
              (h g among))))
