-- ===== src/VersionEdit.antt =====
-- db/version_edit.h and db/version_edit.cc: the changes from one version to the next, as a record
-- and as the bytes of a MANIFEST entry. A field with its `has_` flag is an Option: the source reads
-- the field only under the flag, and sets both together.
pub mod Encode
pub mod Decode
pub mod Files
pub mod Fields
pub mod RoundTrip
mod Tests
use Prim.Native.String.{String}
use leveldb_chinese_annotate.Prelude.{
  ℕ, zero, suc, ◌+◌, ◌^◌, ◌%◌, true, false, List, [], ◌∷◌, ◌++◌, Option, none, some, ltb, ◌==◌,
  if◌then◌else◌, length, compare, Ordering,
}
use leveldb_chinese_annotate.Coding.{Bytes}

-- `config::kNumLevels`
abbrev pub num_levels : ℕ
num_levels = 7

-- An InternalKey is its string.
pub record FileMetaData : Type 0 where
  pub refs : ℕ
  pub allowed_seeks : ℕ
  pub number : ℕ
  pub file_size : ℕ
  pub smallest : Bytes
  pub largest : Bytes

-- What the constructor leaves, with the four fields that AddFile and DecodeFrom set.
abbrev pub file_meta_data : ℕ → ℕ → Bytes → Bytes → FileMetaData
file_meta_data number file_size smallest largest = record {
  refs = 0;
  allowed_seeks = 2 ^ 30;
  number = number;
  file_size = file_size;
  smallest = smallest;
  largest = largest;
}

pub record VersionEdit : Type 0 where
  pub comparator : Option Bytes
  pub log_number : Option ℕ
  pub prev_log_number : Option ℕ
  pub next_file_number : Option ℕ
  pub last_sequence : Option ℕ
  pub compact_pointers : List (ℕ × Bytes)
  pub deleted_files : List (ℕ × ℕ)
  pub new_files : List (ℕ × FileMetaData)

abbrev pub clear : VersionEdit
clear = record {
  comparator = none;
  log_number = none;
  prev_log_number = none;
  next_file_number = none;
  last_sequence = none;
  compact_pointers = [];
  deleted_files = [];
  new_files = [];
}

unfoldable pub set_comparator_name : VersionEdit → Bytes → VersionEdit
set_comparator_name e name = record e { comparator = some name }

unfoldable pub set_log_number : VersionEdit → ℕ → VersionEdit
set_log_number e num = record e { log_number = some num }

unfoldable pub set_prev_log_number : VersionEdit → ℕ → VersionEdit
set_prev_log_number e num = record e { prev_log_number = some num }

unfoldable pub set_next_file : VersionEdit → ℕ → VersionEdit
set_next_file e num = record e { next_file_number = some num }

unfoldable pub set_last_sequence : VersionEdit → ℕ → VersionEdit
set_last_sequence e seq = record e { last_sequence = some seq }

unfoldable pub set_compact_pointer : VersionEdit → ℕ → Bytes → VersionEdit
set_compact_pointer e level key = record e {
  compact_pointers = e.compact_pointers ++ ((level, key) ∷ []);
}

unfoldable pub add_file : VersionEdit → ℕ → ℕ → ℕ → Bytes → Bytes → VersionEdit
add_file e level file file_size smallest largest = record e {
  new_files = e.new_files ++ ((level, file_meta_data file file_size smallest largest) ∷ []);
}

-- `std::pair` compares its first parts, then the second ones.
abbrev pub pair_compare : ℕ × ℕ → ℕ × ℕ → Ordering
pair_compare (a, b) (c, d) = elim (compare a c) [
  | Ordering.lt ↦ Ordering.lt
  | Ordering.eq ↦ compare b d
  | Ordering.gt ↦ Ordering.gt
]

-- A `std::set` is the list of its elements in increasing order.
unfoldable pub set_insert : ℕ × ℕ → List (ℕ × ℕ) → List (ℕ × ℕ)
set_insert p [] = p ∷ []
set_insert p (q ∷ qs) =
    let rest = set_insert p qs in
    elim (pair_compare p q) [
      | Ordering.lt ↦ p ∷ (q ∷ qs)
      | Ordering.eq ↦ q ∷ qs
      | Ordering.gt ↦ q ∷ rest
    ]

unfoldable pub remove_file : VersionEdit → ℕ → ℕ → VersionEdit
remove_file e level file = record e { deleted_files = set_insert (level, file) e.deleted_files }
