-- ===== src/Slice/Order.antt =====
-- `slice_compare` is the lexicographic order on bytes, and a total order; `slice_eq` and
-- `starts_with` decide equality and being a prefix.
use leveldb_chinese_annotate.Prelude.{
  ◌≤◌, ◌≡◌, refl, ap, sym, ◌∙◌, arith, true, ◌↔◌, compare, Ordering, [], ◌∷◌, ◌++◌, length, take,
  drop, take-append-drop, length-append, append-nil,
}
use leveldb_chinese_annotate.Coding.{Bytes}
use leveldb_chinese_annotate.Slice.{memcmp, slice_compare, slice_eq, starts_with, is_eq}

-- The laws of a three-way comparison whose `eq` need not be equality.
pub record IsLawful {ℓ} {K : Type ℓ} (cmp : K → K → Ordering) : Type ℓ where
  pub cmp_refl : (a : K) → cmp a a ≡ Ordering.eq
  pub gt_of_lt : (a b : K) → cmp a b ≡ Ordering.lt → cmp b a ≡ Ordering.gt
  pub lt_of_gt : (a b : K) → cmp a b ≡ Ordering.gt → cmp b a ≡ Ordering.lt
  pub lt_trans : (a b c : K) → cmp a b ≡ Ordering.lt → cmp b c ≡ Ordering.lt → cmp a c ≡ Ordering.lt
  pub eq_left : (a b c : K) → cmp a b ≡ Ordering.eq → cmp a c ≡ cmp b c

-- The order as a recursion of its own: the first difference decides, and a proper prefix is less.
abbrev pub lex : Bytes → Bytes → Ordering
lex [] [] = Ordering.eq
lex [] (y ∷ b) = Ordering.lt
lex (x ∷ a) [] = Ordering.gt
lex (x ∷ a) (y ∷ b) = elim (compare x y) [
  | Ordering.lt ↦ Ordering.lt
  | Ordering.eq ↦ lex a b
  | Ordering.gt ↦ Ordering.gt
]

-- Slice::compare is the lexicographic order.
pub slice_compare-lex : (a b : Bytes) → slice_compare a b ≡ lex a b
unfolding slice_compare
slice_compare-lex [] [] = refl
slice_compare-lex [] (y ∷ b) = ground arith
slice_compare-lex (x ∷ a) [] = ground arith
slice_compare-lex (x ∷ a) (y ∷ b) = ground (arith, slice_compare-lex a b)

lex_refl : (a : Bytes) → lex a a ≡ Ordering.eq
lex_refl [] = refl
lex_refl (x ∷ a) = ground (arith, lex_refl a)

pub eq_of_lex : (a b : Bytes) → lex a b ≡ Ordering.eq → a ≡ b
eq_of_lex [] [] h = refl
eq_of_lex [] (y ∷ b) h = cc
eq_of_lex (x ∷ a) [] h = cc
eq_of_lex (x ∷ a) (y ∷ b) h = ground (arith, eq_of_lex a b)

lex_gt_of_lt : (a b : Bytes) → lex a b ≡ Ordering.lt → lex b a ≡ Ordering.gt
lex_gt_of_lt [] [] h = cc
lex_gt_of_lt [] (y ∷ b) h = refl
lex_gt_of_lt (x ∷ a) [] h = cc
lex_gt_of_lt (x ∷ a) (y ∷ b) h = ground (arith, lex_gt_of_lt a b)

lex_lt_of_gt : (a b : Bytes) → lex a b ≡ Ordering.gt → lex b a ≡ Ordering.lt
lex_lt_of_gt [] [] h = cc
lex_lt_of_gt [] (y ∷ b) h = cc
lex_lt_of_gt (x ∷ a) [] h = refl
lex_lt_of_gt (x ∷ a) (y ∷ b) h = ground (arith, lex_lt_of_gt a b)

pub lex_trans :
    (a b c : Bytes) → lex a b ≡ Ordering.lt → lex b c ≡ Ordering.lt → lex a c ≡ Ordering.lt
lex_trans [] [] c h k = cc
lex_trans [] (y ∷ b) [] h k = cc
lex_trans [] (y ∷ b) (z ∷ c) h k = refl
lex_trans (x ∷ a) [] c h k = cc
lex_trans (x ∷ a) (y ∷ b) [] h k = cc
lex_trans (x ∷ a) (y ∷ b) (z ∷ c) h k = ground (arith, lex_trans a b c)

lex-IsLawful : IsLawful lex
lex-IsLawful = record {
  cmp_refl = lex_refl;
  gt_of_lt = lex_gt_of_lt;
  lt_of_gt = lex_lt_of_gt;
  lt_trans = lex_trans;
  eq_left = λ a b c h. ap (λ t. lex t c) (eq_of_lex a b h);
}

slice_compare_fun : slice_compare ≡ lex
slice_compare_fun = λ i a b. slice_compare-lex a b i

-- Slice::compare is reflexive, antisymmetric and transitive, and answers 0 on equal slices only.
pub slice_compare-IsLawful : IsLawful slice_compare
slice_compare-IsLawful = rw slice_compare_fun lex-IsLawful

memcmp_prefix :
    (a x : Bytes)
    → length x ≤ length a
    → is_eq (memcmp a x (length x)) ≡ true
    → take (length x) a ≡ x
unfolding memcmp
memcmp_prefix a [] h e = refl
memcmp_prefix [] (y ∷ x) h e = absurd (omega arith)
memcmp_prefix (b ∷ a) (y ∷ x) h e = ground (arith, memcmp_prefix a x)

memcmp_append : (x rest : Bytes) → is_eq (memcmp (x ++ rest) x (length x)) ≡ true
unfolding memcmp
memcmp_append [] rest = refl
memcmp_append (y ∷ x) rest = ground (arith, memcmp_append x rest)

-- starts_with answers true exactly on the slices with the given prefix.
pub starts_with_iff : (a x : Bytes) → (starts_with a x ≡ true) ↔ ((rest : Bytes) × (a ≡ x ++ rest))
unfolding starts_with
starts_with_iff a x = (
  λ e.
      let l : length x ≤ length a = ground arith in
      let p : take (length x) a ≡ x = memcmp_prefix a x l (ground arith) in
      (drop (length x) a, sym (take-append-drop (length x) a) ∙ ap (λ t. t ++ drop (length x) a) p),
  λ (rest, e). rw e (ground (arith, memcmp_append x rest, length-append x rest)),
)

take_all : (a : Bytes) → take (length a) a ≡ a
take_all [] = refl
take_all (x ∷ a) = ap (λ t. x ∷ t) (take_all a)

-- The operator == answers true exactly on equal slices.
pub slice_eq_iff : (x y : Bytes) → (slice_eq x y ≡ true) ↔ (x ≡ y)
unfolding slice_eq
slice_eq_iff x y = (
  λ e.
      let l : length x ≡ length y = ground arith in
      let m : is_eq (memcmp x y (length y)) ≡ true = ground arith in
      sym (take_all x) ∙ ap (λ n. take n x) l ∙ memcmp_prefix x y (omega arith) m,
  λ e. rw e (ground (arith, memcmp_self y)),
)
  where
    memcmp_self : (y : Bytes) → is_eq (memcmp y y (length y)) ≡ true
    memcmp_self y = rw append-nil at (memcmp_append y [])
