-- ===== src/Version/Builder/Live.antt =====
-- The files of the version that a Builder saves, against the edits read one after the other.
use leveldb_chinese_annotate.Prelude.{
  ℕ, ◌≡◌, ◌∙◌, sym, ap, refl, arith, Bool, true, false, not, ◌&&◌, ◌||◌, List, [], ◌∷◌, ◌==◌,
  ==_iff, if◌then◌else◌, Bool-cases, inl, inr,
}
use leveldb_chinese_annotate.Coding.{Bytes}
use leveldb_chinese_annotate.Comparator.{Comparator}
use leveldb_chinese_annotate.DbFormat.{internal_compare}
use leveldb_chinese_annotate.DbFormat.Order.{internal_compare-IsLawful}
use leveldb_chinese_annotate.Slice.Order.{IsLawful}
use leveldb_chinese_annotate.VersionEdit.{FileMetaData, VersionEdit}
use leveldb_chinese_annotate.Version.Compaction.{update}
use leveldb_chinese_annotate.Version.Builder.{
  Builder, new_builder, has, set_add, set_erase, seeks_of, apply_pointers, apply_deleted,
  by_smallest_key, file_set_insert, apply_new, apply, maybe_add_file, add_smaller, save_loop,
  save_to,
}
use leveldb_chinese_annotate.Version.Builder.Sets.{
  has_file, deletes, adds, edited, all_edited, live_in, has-set_add, has-set_erase, has_file-maybe,
  has_file-rest,
}

module _ (c : Comparator) where
  neither_less :
      (f g : FileMetaData)
      → by_smallest_key c f g ≡ false
      → by_smallest_key c g f ≡ false
      → f.number ≡ g.number
  unfolding by_smallest_key
  neither_less f g h k =
      let l : IsLawful (internal_compare c) = internal_compare-IsLawful c in
      ground (
        arith,
        l.lt_of_gt f.smallest g.smallest,
        l.eq_left f.smallest g.smallest f.smallest,
        l.cmp_refl f.smallest,
      )

  has_file-insert :
      (n : ℕ) (f : FileMetaData) (files : List FileMetaData)
      → has_file n (file_set_insert c f files) ≡ (f.number == n || has_file n files)
  unfolding file_set_insert
  has_file-insert n f [] = refl
  has_file-insert n f (g ∷ files) = ground (arith, neither_less f g, has_file-insert n f files)

  -- What add_smaller puts into the new files, and what it leaves.
  has_file-smaller :
      (n : ℕ) (deleted : List ℕ) (f : FileMetaData) (files base : List FileMetaData)
      → (has_file n (add_smaller c deleted f files base).0
          || (has_file n (add_smaller c deleted f files base).1 && not (has n deleted)))
        ≡ (has_file n files || (has_file n base && not (has n deleted)))
  unfolding add_smaller
  has_file-smaller n deleted f files [] = refl
  has_file-smaller n deleted f files (g ∷ base) = ground (
    arith,
    has_file-maybe n deleted files g,
    has_file-smaller n deleted f (maybe_add_file deleted files g) base,
  )

  has_file-save :
      (n : ℕ) (deleted : List ℕ) (files base added : List FileMetaData)
      → has_file n (save_loop c deleted files base added)
        ≡ (has_file n files || ((has_file n base || has_file n added) && not (has n deleted)))
  unfolding save_loop
  has_file-save n deleted files base [] = ground (arith, has_file-rest n deleted files base)
  has_file-save n deleted files base (f ∷ added) =
      let smaller = add_smaller c deleted f files base in
      ground (
        arith,
        has_file-smaller n deleted f files base,
        has_file-maybe n deleted smaller.0 f,
        has_file-save n deleted (maybe_add_file deleted smaller.0 f) smaller.1 added,
      )

  save_to-live : (b : Builder) (level n : ℕ) → has_file n (save_to c b level) ≡ live_in b level n
  unfolding save_to live_in
  save_to-live b level n = has_file-save n (b.deleted level) [] (b.base level) (b.added level)

  apply_pointers-live :
      (pointers : List (ℕ × Bytes)) (b : Builder) (level n : ℕ)
      → live_in (apply_pointers pointers b) level n ≡ live_in b level n
  unfolding apply_pointers live_in
  apply_pointers-live [] b level n = refl
  apply_pointers-live ((l, key) ∷ pointers) b level n =
      apply_pointers-live pointers (record b { compact_pointer = update b.compact_pointer l key })
        level n

  if_or : (x y t z : Bool) → (if x then t else if y then t else z) ≡ (if y || x then t else z)
  if_or x y t z = ground arith

  edited_same :
      (e : VersionEdit) (live live' : ℕ → ℕ → Bool) (level n : ℕ)
      → live level n ≡ live' level n
      → edited e live level n ≡ edited e live' level n
  edited_same e live live' level n h =
      ap
        (λ (x : Bool).
          if adds e.new_files level n
          then true
          else if deletes e.deleted_files level n
          then false
          else x)
        h

  abbrev delete_one : Builder → ℕ → ℕ → Builder
  delete_one b l m = record b { deleted = update b.deleted l (set_add m (b.deleted l)) }

  delete_one-live :
      (b : Builder) (l m level n : ℕ)
      → live_in (delete_one b l m) level n
        ≡ (if level == l && (m == n) then false else live_in b level n)
  unfolding live_in
  delete_one-live b l m level n = elim (Bool-cases (level == l)) [
    | inl here ↦
        let at : has n (set_add m (b.deleted l)) ≡ (m == n || has n (b.deleted level)) =
          ap (λ (i : ℕ). has n (set_add m (b.deleted i))) (sym ((==_iff level l).0 here))
          ∙ has-set_add n m (b.deleted level) in
        rw (here, at) (ground arith)
    | inr other ↦ rw other refl
  ]

  abbrev stored : FileMetaData → FileMetaData
  stored f = record f { refs = 1; allowed_seeks = seeks_of f.file_size }

  abbrev add_one : Builder → ℕ → FileMetaData → Builder
  add_one b l f = record b {
    deleted = update b.deleted l (set_erase f.number (b.deleted l));
    added = update b.added l (file_set_insert c (stored f) (b.added l));
  }

  add_one-live :
      (b : Builder) (l : ℕ) (f : FileMetaData) (level n : ℕ)
      → live_in (add_one b l f) level n
        ≡ (if level == l && (f.number == n) then true else live_in b level n)
  unfolding live_in
  add_one-live b l f level n = elim (Bool-cases (level == l)) [
    | inl here ↦
        let back : l ≡ level = sym ((==_iff level l).0 here) in
        let gone : has n (set_erase f.number (b.deleted l))
            ≡ (has n (b.deleted level) && not (f.number == n)) =
          ap (λ (i : ℕ). has n (set_erase f.number (b.deleted i))) back
          ∙ has-set_erase n f.number (b.deleted level) in
        let there : has_file n (file_set_insert c (stored f) (b.added l))
            ≡ (f.number == n || has_file n (b.added level)) =
          ap (λ (i : ℕ). has_file n (file_set_insert c (stored f) (b.added i))) back
          ∙ has_file-insert n (stored f) (b.added level) in
        rw (here, gone, there) (ground arith)
    | inr other ↦ rw other refl
  ]

  apply_deleted-live :
      (files : List (ℕ × ℕ)) (b : Builder) (level n : ℕ)
      → live_in (apply_deleted files b) level n
        ≡ (if deletes files level n then false else live_in b level n)
  unfolding apply_deleted live_in
  apply_deleted-live [] b level n = refl
  apply_deleted-live ((l, m) ∷ files) b level n =
      let step : live_in (delete_one b l m) level n
          ≡ (if level == l && (m == n) then false else live_in b level n) =
        delete_one-live b l m level n in
      apply_deleted-live files (delete_one b l m) level n
      ∙ ap (λ (x : Bool). if deletes files level n then false else x) step
      ∙ if_or (deletes files level n) (level == l && (m == n)) false (live_in b level n)

  apply_new-live :
      (files : List (ℕ × FileMetaData)) (b : Builder) (level n : ℕ)
      → live_in (apply_new c files b) level n
        ≡ (if adds files level n then true else live_in b level n)
  unfolding apply_new live_in
  apply_new-live [] b level n = refl
  apply_new-live ((l, f) ∷ files) b level n =
      let step : live_in (add_one b l f) level n
          ≡ (if level == l && (f.number == n) then true else live_in b level n) =
        add_one-live b l f level n in
      apply_new-live files (add_one b l f) level n
      ∙ ap (λ (x : Bool). if adds files level n then true else x) step
      ∙ if_or (adds files level n) (level == l && (f.number == n)) true (live_in b level n)

  -- One edit, and then a list of edits.
  apply-live :
      (b : Builder) (e : VersionEdit) (level n : ℕ)
      → live_in (apply c b e) level n ≡ edited e (live_in b) level n
  unfolding apply
  apply-live b e level n =
      apply_new-live e.new_files
        (apply_deleted e.deleted_files (apply_pointers e.compact_pointers b)) level n
      ∙ ap (λ (x : Bool). if adds e.new_files level n then true else x)
          (apply_deleted-live e.deleted_files (apply_pointers e.compact_pointers b) level n
            ∙ ap (λ (x : Bool). if deletes e.deleted_files level n then false else x)
                (apply_pointers-live e.compact_pointers b level n))

  abbrev pub apply_all : Builder → List VersionEdit → Builder
  apply_all b [] = b
  apply_all b (e ∷ edits) = apply_all (apply c b e) edits

  apply_all-live :
      (edits : List VersionEdit) (b : Builder) (live : ℕ → ℕ → Bool)
      → ((level n : ℕ) → live_in b level n ≡ live level n)
      → (level n : ℕ) → live_in (apply_all b edits) level n ≡ all_edited edits live level n
  apply_all-live [] b live h level n = h level n
  apply_all-live (e ∷ edits) b live h level n =
      apply_all-live edits (apply c b e) (edited e live)
        (λ l m. apply-live b e l m ∙ edited_same e (live_in b) live l m (h l m)) level n

  -- A Builder over a base version, to which edits are applied one after the other, saves at a level a
  -- file of a number just when the edits, read in this order, leave one: an edit takes away what it
  -- deletes and then brings what it adds.
  pub save_to-edits :
      (pointers : ℕ → Bytes) (base : ℕ → List FileMetaData) (edits : List VersionEdit) (level n : ℕ)
      → has_file n (save_to c (apply_all (new_builder pointers base) edits) level)
        ≡ all_edited edits (λ l m. has_file m (base l)) level n
  unfolding new_builder live_in
  save_to-edits pointers base edits level n =
      save_to-live (apply_all (new_builder pointers base) edits) level n
      ∙ apply_all-live edits (new_builder pointers base) (λ l m. has_file m (base l))
          (λ l m. ground arith) level n
