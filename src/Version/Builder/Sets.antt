-- ===== src/Version/Builder/Sets.antt =====
-- Sets of numbers and of files, and what an edit does to the files of a level.
use leveldb_chinese_annotate.Prelude.{
  ℕ, ◌≡◌, ◌∙◌, sym, ap, refl, arith, Bool, true, false, not, ◌&&◌, ◌||◌, List, [], ◌∷◌, ◌++◌, ◌==◌,
  ==_iff, if◌then◌else◌, Bool-cases, inl, inr,
}
use leveldb_chinese_annotate.VersionEdit.{FileMetaData, VersionEdit}
use leveldb_chinese_annotate.Version.Builder.{
  Builder, has, set_add, set_erase, maybe_add_file, add_rest,
}

-- A file with this number is among the files.
abbrev pub has_file : ℕ → List FileMetaData → Bool
has_file n [] = false
has_file n (f ∷ files) = f.number == n || has_file n files

-- The edit deletes the file, or adds it, at the level.
abbrev pub deletes : List (ℕ × ℕ) → ℕ → ℕ → Bool
deletes [] level n = false
deletes ((l, m) ∷ files) level n = (level == l && (m == n)) || deletes files level n

abbrev pub adds : List (ℕ × FileMetaData) → ℕ → ℕ → Bool
adds [] level n = false
adds ((l, f) ∷ files) level n = (level == l && (f.number == n)) || adds files level n

-- The files of each level after one edit, by number, and after some.
abbrev pub edited : VersionEdit → (ℕ → ℕ → Bool) → ℕ → ℕ → Bool
edited e live level n =
    if adds e.new_files level n
    then true
    else if deletes e.deleted_files level n
    then false
    else live level n

abbrev pub all_edited : List VersionEdit → (ℕ → ℕ → Bool) → ℕ → ℕ → Bool
all_edited [] live = live
all_edited (e ∷ edits) live = all_edited edits (edited e live)

-- The files that a builder would save.
unfoldable pub live_in : Builder → ℕ → ℕ → Bool
live_in b level n =
    (has_file n (b.base level) || has_file n (b.added level)) && not (has n (b.deleted level))

pub has_same : (n m : ℕ) (ms : List ℕ) → (n == m) ≡ true → has n ms ≡ has m ms
has_same n m ms e = ap (λ (k : ℕ). has k ms) ((==_iff n m).0 e)

pub has-set_add : (m n : ℕ) (ms : List ℕ) → has m (set_add n ms) ≡ (n == m || has m ms)
has-set_add m n ms = elim (Bool-cases (has n ms)) [
  | inl in_it ↦ elim (Bool-cases (n == m)) [
    | inl same ↦ rw (in_it, same) (sym (has_same n m ms same) ∙ in_it)
    | inr other ↦ rw (in_it, other) refl
  ]
  | inr out ↦ rw out refl
]

pub has-set_erase : (m n : ℕ) (ms : List ℕ) → has m (set_erase n ms) ≡ (has m ms && not (n == m))
has-set_erase m n [] = refl
has-set_erase m n (k ∷ ms) = ground (arith, has-set_erase m n ms)

pub has_file-append :
    (n : ℕ) (xs : List FileMetaData) (f : FileMetaData)
    → has_file n (xs ++ (f ∷ [])) ≡ (has_file n xs || f.number == n)
has_file-append n [] f = ground arith
has_file-append n (x ∷ xs) f = ground (arith, has_file-append n xs f)

-- A file that MaybeAddFile adds is one whose number is not deleted.
pub has_file-maybe :
    (n : ℕ) (deleted : List ℕ) (files : List FileMetaData) (f : FileMetaData)
    → has_file n (maybe_add_file deleted files f)
      ≡ (has_file n files || (f.number == n && not (has n deleted)))
unfolding maybe_add_file
has_file-maybe n deleted files f =
    ground (arith, has_same f.number n deleted, has_file-append n files f)

pub has_file-rest :
    (n : ℕ) (deleted : List ℕ) (files base : List FileMetaData)
    → has_file n (add_rest deleted files base)
      ≡ (has_file n files || (has_file n base && not (has n deleted)))
unfolding add_rest
has_file-rest n deleted files [] = ground arith
has_file-rest n deleted files (f ∷ base) = ground (
  arith,
  has_file-maybe n deleted files f,
  has_file-rest n deleted (maybe_add_file deleted files f) base,
)
