-- ===== src/VersionEdit/Files.antt =====
-- The set of deleted files is kept in increasing order, with no element twice.
use leveldb_chinese_annotate.Prelude.{ℕ, ◌≡◌, refl, arith, List, [], ◌∷◌, ◌++◌, All, Ordering}
use leveldb_chinese_annotate.VersionEdit.{pair_compare, set_insert}

-- Every element is greater than those before it.
abbrev pub IsAscending : List (ℕ × ℕ) → Type 0
IsAscending [] = Unit
IsAscending (p ∷ ps) = All (λ q. pair_compare q p ≡ Ordering.gt) ps × IsAscending ps

-- `p` is greater than all elements.
abbrev pub IsAbove : ℕ × ℕ → List (ℕ × ℕ) → Type 0
IsAbove p ps = All (λ q. pair_compare p q ≡ Ordering.gt) ps

pub set_insert_last :
    (p : ℕ × ℕ) (ps : List (ℕ × ℕ)) → IsAbove p ps → set_insert p ps ≡ ps ++ (p ∷ [])
unfolding set_insert
set_insert_last p [] h = refl
set_insert_last p (q ∷ qs) h = ground (arith, set_insert_last p qs h.1)

All-set_insert {ℓ} :
    (P : ℕ × ℕ → Type ℓ) (p : ℕ × ℕ) (ps : List (ℕ × ℕ)) → P p → All P ps → All P (set_insert p ps)
unfolding set_insert
All-set_insert P p [] hp h = (hp, tt)
All-set_insert P p (q ∷ qs) hp h = ground (arith, All-set_insert P p qs hp h.1)

pair_gt_trans :
    (p q r : ℕ × ℕ)
    → pair_compare p q ≡ Ordering.gt
    → pair_compare q r ≡ Ordering.gt
    → pair_compare p r ≡ Ordering.gt
pair_gt_trans p q r h k = ground arith

pair_gt_of_lt : (p q : ℕ × ℕ) → pair_compare p q ≡ Ordering.lt → pair_compare q p ≡ Ordering.gt
pair_gt_of_lt p q h = ground arith

All-weaken :
    (p q : ℕ × ℕ) (qs : List (ℕ × ℕ))
    → pair_compare q p ≡ Ordering.gt
    → All (λ r. pair_compare r q ≡ Ordering.gt) qs
    → All (λ r. pair_compare r p ≡ Ordering.gt) qs
All-weaken p q [] h k = tt
All-weaken p q (r ∷ qs) h k = (pair_gt_trans r q p k.0 h, All-weaken p q qs h k.1)

pub set_insert-IsAscending :
    (p : ℕ × ℕ) (ps : List (ℕ × ℕ)) → IsAscending ps → IsAscending (set_insert p ps)
unfolding set_insert
set_insert-IsAscending p [] h = (tt, tt)
set_insert-IsAscending p (q ∷ qs) h = ground (
  arith,
  pair_gt_of_lt p q,
  All-weaken p q qs,
  All-set_insert (λ r. pair_compare r q ≡ Ordering.gt) p qs,
  set_insert-IsAscending p qs h.1,
)
