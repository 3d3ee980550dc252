-- ===== src/Filter/Block/Members.antt =====
-- The keys of a filter block in their groups, from one step of the builder to the next.
use leveldb_chinese_annotate.Prelude.{
  ℕ, zero, suc, ◌+◌, ◌≤◌, ◌≡◌, ◌⊎◌, ◌∙◌, ap, refl, arith, List, [], ◌∷◌, ◌++◌, Option, none, some,
  get_elem?, length, length-append, inl, inr,
}
use leveldb_chinese_annotate.Coding.{Bytes}
use leveldb_chinese_annotate.Filter.Block.Groups.{padded, left_over}
use leveldb_chinese_annotate.Filter.Block.Lookup.{all_groups}

pub get_elem?-front {ℓ} :
    {A : Type ℓ} (xs ys : List A) (j : ℕ) (g : A)
    → get_elem? xs j ≡ some g
    → get_elem? (xs ++ ys) j ≡ some g
get_elem?-front [] ys j g e = absurd (ground arith)
get_elem?-front (x ∷ xs) ys zero g e = e
get_elem?-front (x ∷ xs) ys (suc j) g e = get_elem?-front xs ys j g e

pub get_elem?-last {ℓ} :
    {A : Type ℓ} (xs : List A) (x : A) → get_elem? (xs ++ (x ∷ [])) (length xs) ≡ some x
get_elem?-last [] x = refl
get_elem?-last (y ∷ xs) x = get_elem?-last xs x

-- An element of a list whose last element is replaced.
pub replaced :
    (done : List (List Bytes)) (p q : List Bytes) (j : ℕ) (g : List Bytes)
    → get_elem? (done ++ (p ∷ [])) j ≡ some g
    → (get_elem? (done ++ (q ∷ [])) j ≡ some g)
      ⊎ ((p ≡ g) × (get_elem? (done ++ (q ∷ [])) j ≡ some q))
replaced [] p q zero g e =
    inr (ap (λ (o : Option (List Bytes)). elim o [ none ↦ p | some y ↦ y ]) e, refl)
replaced [] p q (suc j) g e = absurd (ground arith)
replaced (d ∷ done) p q zero g e = inl e
replaced (d ∷ done) p q (suc j) g e = replaced done p q j g e

-- The key stands in the group of index `j`, which has `few` keys at most.
pub record IsInGroup (j few : ℕ) (key : Bytes) (done : List (List Bytes)) (pending : List Bytes)
    : Type 0 where
  pub group : List Bytes
  pub place : ℕ
  pub at : get_elem? (done ++ (pending ∷ [])) j ≡ some group
  pub there : get_elem? group place ≡ some key
  pub bounded : length group ≤ few

pub IsInGroup-next :
    (j few : ℕ) (key : Bytes) (done : List (List Bytes)) (pending : List Bytes)
    → IsInGroup j few key done pending
    → IsInGroup j few key (done ++ (pending ∷ [])) []
IsInGroup-next j few key done pending h = record {
  group = h.group;
  place = h.place;
  at = get_elem?-front (done ++ (pending ∷ [])) ([] ∷ []) j h.group h.at;
  there = h.there;
  bounded = h.bounded;
}

pub IsInGroup-padded :
    (n j few : ℕ) (key : Bytes) (done : List (List Bytes)) (pending : List Bytes)
    → IsInGroup j few key done pending
    → IsInGroup j few key (padded n done pending) (left_over n pending)
IsInGroup-padded zero j few key done pending h = h
IsInGroup-padded (suc zero) j few key done pending h = IsInGroup-next j few key done pending h
IsInGroup-padded (suc (suc n)) j few key done pending h =
    IsInGroup-padded (suc n) j few key (done ++ (pending ∷ [])) []
      (IsInGroup-next j few key done pending h)

pub IsInGroup-append :
    (j few : ℕ) (key k : Bytes) (done : List (List Bytes)) (pending : List Bytes)
    → IsInGroup j few key done pending
    → IsInGroup j (few + 1) key done (pending ++ (k ∷ []))
IsInGroup-append j few key k done pending h =
    elim (replaced done pending (pending ++ (k ∷ [])) j h.group h.at) [
      | inl same ↦ record {
        group = h.group;
        place = h.place;
        at = same;
        there = h.there;
        bounded = omega (arith, h.bounded);
      }
      | inr (own, at) ↦ record {
        group = pending ++ (k ∷ []);
        place = h.place;
        at = at;
        there =
            get_elem?-front pending (k ∷ []) h.place key
              (ap (λ (g : List Bytes). get_elem? g h.place) own ∙ h.there);
        bounded = omega (arith, h.bounded, ap length own, length-append pending (k ∷ []));
      }
    ]

-- A group with a key is one of the groups that a finished block has.
pub in_all :
    (done : List (List Bytes)) (pending : List Bytes) (j : ℕ) (g : List Bytes) (i : ℕ) (key : Bytes)
    → get_elem? (done ++ (pending ∷ [])) j ≡ some g
    → get_elem? g i ≡ some key
    → get_elem? (all_groups done pending) j ≡ some g
in_all done (k ∷ ks) j g i key at there = at
in_all [] [] zero g i key at there =
    let own : [] ≡ g = ap (λ (o : Option (List Bytes)). elim o [ none ↦ [] | some y ↦ y ]) at in
    absurd (ground (arith, ap (λ (t : List Bytes). get_elem? t i) own))
in_all [] [] (suc j) g i key at there = absurd (ground arith)
in_all (d ∷ done) [] zero g i key at there = at
in_all (d ∷ done) [] (suc j) g i key at there = in_all done [] j g i key at there

pub length-padded :
    (n : ℕ) (done : List (List Bytes)) (pending : List Bytes)
    → length (padded n done pending) ≡ length done + n
length-padded zero done pending = omega arith
length-padded (suc n) done pending =
    omega (arith, length-padded n (done ++ (pending ∷ [])) [], length-append done (pending ∷ []))

pub length-left_over :
    (n : ℕ) (pending : List Bytes) → length (left_over n pending) ≤ length pending
length-left_over zero pending = omega arith
length-left_over (suc n) pending = omega arith
