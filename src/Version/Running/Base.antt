-- ===== src/Version/Running/Base.antt =====
-- IsBaseLevelForKey of db/version_set.cc against a check of all deeper levels: the pointers that it
-- keeps from call to call skip no file.
use mathlib.Core.Path.{subst}
use leveldb_chinese_annotate.Prelude.{
  ℕ, zero, suc, ◌+◌, ◌-◌, ◌≤◌, ◌≡◌, ◌≢◌, ◌∙◌, sym, refl, arith, Bool, true, false, not, ◌||◌,
  Ordering, List, [], ◌∷◌, some, ◌==◌, ==_iff, take, drop, All, Bool-cases, inl, inr,
}
use leveldb_chinese_annotate.Coding.{Bytes}
use leveldb_chinese_annotate.Comparator.{Comparator}
use leveldb_chinese_annotate.DbFormat.{extract_user_key}
use leveldb_chinese_annotate.Slice.Order.{IsLawful}
use leveldb_chinese_annotate.VersionEdit.{FileMetaData, num_levels}
use leveldb_chinese_annotate.Version.{is_gt, after_file, before_file, some_file_meets}
use leveldb_chinese_annotate.Version.Overlap.{IsDisjoint, meets_first}
use leveldb_chinese_annotate.Version.Levels.{Version}
use leveldb_chinese_annotate.Version.Compaction.{Compaction, update}
use leveldb_chinese_annotate.Version.Running.{move_pointer, base_level_loop, is_base_level_for_key}

module _ (c : Comparator) where
  -- A file of the levels has the key in its range: of so many levels, from one on.
  abbrev pub some_level_meets : ℕ → ℕ → Version → Bytes → Bool
  some_level_meets zero level v key = false
  some_level_meets (suc left) level v key =
      some_file_meets c (v.files level) (some key) (some key)
      || some_level_meets left (level + 1) v key

  -- The files end in front of the key.
  abbrev AllPassed : Bytes → List FileMetaData → Type 0
  AllPassed key files = All (λ f. after_file c (some key) f ≡ true) files

  -- The files in front of the pointers end in front of the key.
  unfoldable pub IsPassed : Bytes → Compaction → Type 0
  IsPassed key k = (l : ℕ) → AllPassed key (take (k.level_ptrs l) (k.input_version.files l))

  after_file-later :
      (key key' : Bytes) (f : FileMetaData)
      → c.cmp key key' ≢ Ordering.gt
      → after_file c (some key) f ≡ true
      → after_file c (some key') f ≡ true
  unfolding after_file
  after_file-later key key' f h e =
      let l : IsLawful c.cmp = c.lawful in
      let u = extract_user_key f.largest in
      ground (
        arith,
        l.lt_of_gt key u,
        l.gt_of_lt u key',
        l.lt_trans u key key',
        l.eq_left key key' u,
        l.lt_of_gt key' u,
      )

  AllPassed-later :
      (key key' : Bytes) (files : List FileMetaData)
      → c.cmp key key' ≢ Ordering.gt
      → AllPassed key files
      → AllPassed key' files
  AllPassed-later key key' [] h p = tt
  AllPassed-later key key' (f ∷ files) h p =
      (after_file-later key key' f h p.0, AllPassed-later key key' files h p.1)

  -- What is in front of the pointers stays there for the keys that come later.
  pub IsPassed-later :
      (key key' : Bytes) (k : Compaction)
      → c.cmp key key' ≢ Ordering.gt
      → IsPassed key k
      → IsPassed key' k
  unfolding IsPassed
  IsPassed-later key key' k h p l =
      AllPassed-later key key' (take (k.level_ptrs l) (k.input_version.files l)) h (p l)

  passed_files :
      (n : ℕ) (key : Bytes) (files : List FileMetaData)
      → AllPassed key (take n files)
      → some_file_meets c files (some key) (some key)
        ≡ some_file_meets c (drop n files) (some key) (some key)
  unfolding some_file_meets
  passed_files zero key files p = refl
  passed_files (suc n) key [] p = refl
  passed_files (suc n) key (f ∷ files) p = ground (arith, p.0, passed_files n key files p.1)

  IsDisjoint-drop :
      (n : ℕ) (files : List FileMetaData) → IsDisjoint c files → IsDisjoint c (drop n files)
  IsDisjoint-drop zero files d = d
  IsDisjoint-drop (suc n) [] d = d
  IsDisjoint-drop (suc n) (f ∷ files) d = IsDisjoint-drop n files d.2

  move_pointer-meets :
      (key : Bytes) (files : List FileMetaData) (pointer : ℕ)
      → IsDisjoint c files
      → (move_pointer c key files pointer).0 ≡ some_file_meets c files (some key) (some key)
  unfolding move_pointer some_file_meets after_file before_file
  move_pointer-meets key [] pointer d = refl
  move_pointer-meets key (f ∷ files) pointer d = ground (
    arith,
    meets_first c f files (some key) (some key) d,
    move_pointer-meets key files (pointer + 1) d.2,
  )

  -- The pointer moves over files that end in front of the key.
  move_pointer-passes :
      (key : Bytes) (files : List FileMetaData) (pointer : ℕ)
      → (n : ℕ) × ((move_pointer c key files pointer).1 ≡ pointer + n)
        × AllPassed key (take n files)
  unfolding move_pointer after_file
  move_pointer-passes key [] pointer = (0, omega arith, tt)
  move_pointer-passes key (f ∷ files) pointer =
      let (n, e, p) = move_pointer-passes key files (pointer + 1) in
      elim (Bool-cases (is_gt (c.cmp key (extract_user_key f.largest)))) [
        | inl passes ↦ (suc n, ground (arith, passes, e), (passes, p))
        | inr stays ↦ (0, ground (arith, stays), tt)
      ]

  take_more :
      (m n j : ℕ) (key : Bytes) (files : List FileMetaData)
      → j ≡ m + n
      → AllPassed key (take m files)
      → AllPassed key (take n (drop m files))
      → AllPassed key (take j files)
  take_more zero n j key files e p q =
      subst (λ (i : ℕ). AllPassed key (take i files)) (omega (arith, e)) q
  take_more (suc m) n zero key files e p q = tt
  take_more (suc m) n (suc j) key [] e p q = tt
  take_more (suc m) n (suc j) key (f ∷ files) e p q =
      (p.0, take_more m n j key files (omega arith) p.1 q)

  -- The compaction after a step at one level.
  abbrev at_pointer : Compaction → ℕ → ℕ → Compaction
  at_pointer k level pointer = record k { level_ptrs = update k.level_ptrs level pointer }

  IsPassed-update :
      (key : Bytes) (k : Compaction) (level n pointer : ℕ)
      → pointer ≡ k.level_ptrs level + n
      → AllPassed key (take n (drop (k.level_ptrs level) (k.input_version.files level)))
      → IsPassed key k
      → IsPassed key (at_pointer k level pointer)
  unfolding IsPassed
  IsPassed-update key k level n pointer e q p l = elim (Bool-cases (l == level)) [
    | inl here ↦
        let same : level ≡ l = sym ((==_iff l level).0 here) in
        rw here (
          subst (λ (i : ℕ). AllPassed key (take pointer (k.input_version.files i))) same
            (take_more (k.level_ptrs level) n pointer key (k.input_version.files level) e (p level)
              q))
    | inr other ↦ rw other (p l)
  ]

  -- What a check of the levels answers, with the pointers it leaves.
  record IsChecked (left level : ℕ) (key : Bytes) (k : Compaction) (answer : Bool × Compaction)
      : Type 0 where
    right : answer.0 ≡ not (some_level_meets left level k.input_version key)
    kept : answer.1.input_version ≡ k.input_version
    passed : IsPassed key answer.1

  base_level_loop-IsChecked :
      (left level : ℕ) (key : Bytes) (k : Compaction)
      → ((l : ℕ) → level ≤ l → IsDisjoint c (k.input_version.files l))
      → IsPassed key k
      → IsChecked left level key k (base_level_loop c left level key k)
  unfolding base_level_loop IsPassed
  base_level_loop-IsChecked zero level key k d p = record { right = refl; kept = refl; passed = p }
  base_level_loop-IsChecked (suc left) level key k d p =
      let pointer = k.level_ptrs level in
      let files = k.input_version.files level in
      let moved = move_pointer c key (drop pointer files) pointer in
      let k1 = at_pointer k level moved.1 in
      let (n, e, q) = move_pointer-passes key (drop pointer files) pointer in
      let p1 : IsPassed key k1 = IsPassed-update key k level n moved.1 e q p in
      let meets : moved.0 ≡ some_file_meets c files (some key) (some key) =
        move_pointer-meets key (drop pointer files) pointer
          (IsDisjoint-drop pointer files (d level (omega arith)))
        ∙ sym (passed_files pointer key files (p level)) in
      let later =
        base_level_loop-IsChecked left (level + 1) key k1 (λ l h. d l (omega (arith, h))) p1 in
      elim (Bool-cases moved.0) [
        | inl hit ↦
            let found : some_file_meets c files (some key) (some key) ≡ true = sym meets ∙ hit in
            rw hit (record { right = rw found refl; kept = refl; passed = p1 })
        | inr miss ↦
            let clear : some_file_meets c files (some key) (some key) ≡ false = sym meets ∙ miss in
            rw miss
              (record { right = rw clear later.right; kept = later.kept; passed = later.passed })
      ]

  -- IsBaseLevelForKey answers whether no file of the levels behind level + 1 has the user key in its
  -- range, for levels of disjoint files in order, as long as the keys do not descend from call to
  -- call: that no file in front of a pointer reaches the key holds again afterwards, and for every
  -- later key.
  pub is_base_level_for_key-all :
      (k : Compaction) (key : Bytes)
      → ((l : ℕ) → k.level + 2 ≤ l → IsDisjoint c (k.input_version.files l))
      → IsPassed key k
      → ((is_base_level_for_key c k key).0
          ≡ not (some_level_meets (num_levels - (k.level + 2)) (k.level + 2) k.input_version key))
        × ((key' : Bytes)
            → c.cmp key key' ≢ Ordering.gt
            → IsPassed key' (is_base_level_for_key c k key).1)
  unfolding is_base_level_for_key
  is_base_level_for_key-all k key d p =
      let checked =
        base_level_loop-IsChecked (num_levels - (k.level + 2)) (k.level + 2) key k d p in
      (checked.right, λ key' h. IsPassed-later key key' _ h checked.passed)
