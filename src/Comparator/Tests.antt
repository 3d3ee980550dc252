-- ===== src/Comparator/Tests.antt =====
-- Concrete separators and successors, and the theorems at concrete inputs.
use leveldb_chinese_annotate.Prelude.{◌≡◌, ◌⊎◌, refl, [], ◌∷◌, Ordering}
use leveldb_chinese_annotate.Slice.{slice_compare}
use leveldb_chinese_annotate.Comparator.Bytewise.{find_shortest_separator, find_short_successor}
use leveldb_chinese_annotate.Comparator.Bytewise.Range.{separator_cases}

-- "abcde" and "abfgh" are separated by "abd".
short_separator :
    find_shortest_separator (97 ∷ 98 ∷ 99 ∷ 100 ∷ []) (97 ∷ 98 ∷ 102 ∷ []) ≡ 97 ∷ 98 ∷ 100 ∷ []
unfolding find_shortest_separator
short_separator = refl

no_room : find_shortest_separator (97 ∷ 98 ∷ []) (97 ∷ 99 ∷ []) ≡ 97 ∷ 98 ∷ []
unfolding find_shortest_separator
no_room = refl

skips_ff : find_short_successor (255 ∷ 7 ∷ 9 ∷ []) ≡ 255 ∷ 8 ∷ []
unfolding find_short_successor
skips_ff = refl

separator_cases_example :
    (find_shortest_separator (97 ∷ 99 ∷ 1 ∷ []) (97 ∷ 102 ∷ []) ≡ 97 ∷ 99 ∷ 1 ∷ [])
    ⊎ ((slice_compare
            (97 ∷ 99 ∷ 1 ∷ [])
            (find_shortest_separator (97 ∷ 99 ∷ 1 ∷ []) (97 ∷ 102 ∷ []))
          ≡ Ordering.lt)
        × (slice_compare
              (find_shortest_separator (97 ∷ 99 ∷ 1 ∷ []) (97 ∷ 102 ∷ []))
              (97 ∷ 102 ∷ [])
            ≡ Ordering.lt))
separator_cases_example = separator_cases (97 ∷ 99 ∷ 1 ∷ []) (97 ∷ 102 ∷ [])
