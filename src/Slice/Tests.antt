-- ===== src/Slice/Tests.antt =====
-- Concrete comparisons of slices, and the theorems at concrete inputs.
use leveldb_chinese_annotate.Prelude.{ℕ, ◌≡◌, refl, ◌↔◌, List, [], ◌∷◌, Ordering, true}
use leveldb_chinese_annotate.Slice.{slice_compare, slice_eq, starts_with}
use leveldb_chinese_annotate.Slice.Order.{lex, slice_compare-lex, slice_eq_iff}

prefix_is_less : slice_compare (97 ∷ []) (97 ∷ 0 ∷ []) ≡ Ordering.lt
unfolding slice_compare
prefix_is_less = refl

-- Bytes above 127 are not negative.
unsigned_bytes : slice_compare (200 ∷ []) (100 ∷ []) ≡ Ordering.gt
unfolding slice_compare
unsigned_bytes = refl

starts : starts_with (1 ∷ 2 ∷ 3 ∷ []) (1 ∷ 2 ∷ []) ≡ true
unfolding starts_with
starts = refl

slice_compare-lex_example :
    slice_compare (97 ∷ 98 ∷ []) (97 ∷ 99 ∷ []) ≡ lex (97 ∷ 98 ∷ []) (97 ∷ 99 ∷ [])
slice_compare-lex_example = slice_compare-lex (97 ∷ 98 ∷ []) (97 ∷ 99 ∷ [])

same_slices :
    (slice_eq (1 ∷ 2 ∷ []) (1 ∷ 2 ∷ []) ≡ true) ↔ (◌≡◌ {A = List ℕ} (1 ∷ 2 ∷ []) (1 ∷ 2 ∷ []))
same_slices = slice_eq_iff (1 ∷ 2 ∷ []) (1 ∷ 2 ∷ [])
