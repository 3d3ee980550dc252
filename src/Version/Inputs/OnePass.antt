-- ===== src/Version/Inputs/OnePass.antt =====
-- One pass of GetOverlappingInputs over the files of a level.
use mathlib.Core.Path.{subst}
use leveldb_chinese_annotate.Prelude.{
  ◌≡◌, ◌∙◌, sym, ap, not, refl, arith, Bool, true, false, ◌||◌, List, [], ◌∷◌, ◌++◌, Option, some,
  All, ◌⊎◌, inl, inr, append_assoc, append-nil, Bool-cases,
}
use leveldb_chinese_annotate.Coding.{Bytes}
use leveldb_chinese_annotate.Comparator.{Comparator}
use leveldb_chinese_annotate.DbFormat.{extract_user_key}
use leveldb_chinese_annotate.VersionEdit.{FileMetaData}
use leveldb_chinese_annotate.Version.Inputs.{
  Pass, is_before, is_after, starts_before, ends_after, inputs_pass,
}
use leveldb_chinese_annotate.Version.Inputs.Bounds.{
  overlapping, IsInside, meets-apart, starts_before-reaches, ends_after-stays_below,
}
use leveldb_chinese_annotate.Version.Inputs.Widening.{
  IsWidening, IsWidening-tail, IsWidening-start, IsWidening-limit,
}

module _ (c : Comparator) where
  -- What a pass answers: it has won, or its inputs are the files that meet the range.
  unfoldable pub PassResult :
      Bool → Option Bytes → Option Bytes → List FileMetaData → List FileMetaData → Pass → Type 0
  PassResult level0 begin end inputs files (Pass.finished xs) =
      (xs ≡ inputs ++ overlapping c begin end files)
      × (level0 ≡ true → All (IsInside c begin end) (overlapping c begin end files))
  PassResult level0 begin end inputs files (Pass.widened b e) =
      (level0 ≡ true) × IsWidening c begin end b e files

  pub pass_skip :
      (level0 : Bool) (begin end : Option Bytes) (inputs : List FileMetaData) (f : FileMetaData)
      (files : List FileMetaData) (p : Pass)
      → (is_before c begin f || is_after c end f) ≡ true
      → PassResult level0 begin end inputs files p
      → PassResult level0 begin end inputs (f ∷ files) p
  unfolding PassResult
  pass_skip level0 begin end inputs f files (Pass.finished xs) h r =
      rw (meets-apart c begin end f ∙ ap not h) r
  pass_skip level0 begin end inputs f files (Pass.widened b e) h r =
      (r.0, IsWidening-tail c begin end b e f files r.1)

  pub pass_take :
      (level0 : Bool) (begin end : Option Bytes) (inputs : List FileMetaData) (f : FileMetaData)
      (files : List FileMetaData) (p : Pass)
      → (is_before c begin f || is_after c end f) ≡ false
      → (level0 ≡ true → IsInside c begin end f)
      → PassResult level0 begin end (inputs ++ (f ∷ [])) files p
      → PassResult level0 begin end inputs (f ∷ files) p
  unfolding PassResult
  pass_take level0 begin end inputs f files (Pass.finished xs) h inside r =
      rw (meets-apart c begin end f ∙ ap not h)
        (r.0 ∙ append_assoc inputs (f ∷ []) (overlapping c begin end files), λ l. (inside l, r.1 l))
  pass_take level0 begin end inputs f files (Pass.widened b e) h inside r =
      (r.0, IsWidening-tail c begin end b e f files r.1)

  pub pass-skip :
      (level0 : Bool) (begin end : Option Bytes) (inputs : List FileMetaData) (f : FileMetaData)
      (files : List FileMetaData)
      → (is_before c begin f || is_after c end f) ≡ true
      → inputs_pass c level0 begin end inputs (f ∷ files)
        ≡ inputs_pass c level0 begin end inputs files
  unfolding inputs_pass
  pass-skip level0 begin end inputs f files h = ground arith

  pub pass-start :
      (level0 : Bool) (begin end : Option Bytes) (inputs : List FileMetaData) (f : FileMetaData)
      (files : List FileMetaData)
      → (is_before c begin f || is_after c end f) ≡ false
      → level0 ≡ true
      → starts_before c begin f ≡ true
      → inputs_pass c level0 begin end inputs (f ∷ files)
        ≡ Pass.widened (some (extract_user_key f.smallest)) end
  unfolding inputs_pass
  pass-start level0 begin end inputs f files h l s = ground arith

  pub pass-limit :
      (level0 : Bool) (begin end : Option Bytes) (inputs : List FileMetaData) (f : FileMetaData)
      (files : List FileMetaData)
      → (is_before c begin f || is_after c end f) ≡ false
      → level0 ≡ true
      → starts_before c begin f ≡ false
      → ends_after c end f ≡ true
      → inputs_pass c level0 begin end inputs (f ∷ files)
        ≡ Pass.widened begin (some (extract_user_key f.largest))
  unfolding inputs_pass
  pass-limit level0 begin end inputs f files h l s e = ground arith

  pub pass-take :
      (level0 : Bool) (begin end : Option Bytes) (inputs : List FileMetaData) (f : FileMetaData)
      (files : List FileMetaData)
      → (is_before c begin f || is_after c end f) ≡ false
      → (level0 ≡ true → IsInside c begin end f)
      → inputs_pass c level0 begin end inputs (f ∷ files)
        ≡ inputs_pass c level0 begin end (inputs ++ (f ∷ [])) files
  unfolding inputs_pass
  pass-take false begin end inputs f files h inside = ground arith
  pass-take true begin end inputs f files h inside = ground (
    arith,
    (inside refl).start,
    (inside refl).limit,
    starts_before-reaches c begin f,
    ends_after-stays_below c end f,
  )

  -- Whether a file that meets the range sticks out of it.
  pub sticks-cases :
      (level0 : Bool) (begin end : Option Bytes) (f : FileMetaData)
      → ((level0 ≡ true) × (starts_before c begin f ≡ true))
        ⊎ ((level0 ≡ true) × (starts_before c begin f ≡ false) × (ends_after c end f ≡ true))
        ⊎ (level0 ≡ true → IsInside c begin end f)
  sticks-cases false begin end f = inr (inr (λ l. absurd (ground arith)))
  sticks-cases true begin end f = elim (Bool-cases (starts_before c begin f)) [
    | inl s ↦ inl (refl, s)
    | inr s ↦ elim (Bool-cases (ends_after c end f)) [
      | inl e ↦ inr (inl (refl, s, e))
      | inr e ↦ inr (
          inr (λ l. record {
            start = ground (arith, s, starts_before-reaches c begin f);
            limit = ground (arith, e, ends_after-stays_below c end f);
          }))
    ]
  ]

  pub inputs_pass-result :
      (level0 : Bool) (begin end : Option Bytes) (inputs files : List FileMetaData)
      → PassResult level0 begin end inputs files (inputs_pass c level0 begin end inputs files)
  unfolding inputs_pass PassResult
  inputs_pass-result level0 begin end inputs [] = (sym (append-nil inputs), λ l. tt)
  inputs_pass-result level0 begin end inputs (f ∷ files) =
      elim (Bool-cases (is_before c begin f || is_after c end f)) [
        | inl apart ↦
            subst (PassResult level0 begin end inputs (f ∷ files))
              (sym (pass-skip level0 begin end inputs f files apart))
              (pass_skip level0 begin end inputs f files _ apart
                (inputs_pass-result level0 begin end inputs files))
        | inr meets ↦ elim (sticks-cases level0 begin end f) [
          | inl (l, s) ↦
              subst (PassResult level0 begin end inputs (f ∷ files))
                (sym (pass-start level0 begin end inputs f files meets l s))
                (l, IsWidening-start c begin end f files s)
          | inr (inl (l, s, e)) ↦
              subst (PassResult level0 begin end inputs (f ∷ files))
                (sym (pass-limit level0 begin end inputs f files meets l s e))
                (l, IsWidening-limit c begin end f files e)
          | inr (inr inside) ↦
              subst (PassResult level0 begin end inputs (f ∷ files))
                (sym (pass-take level0 begin end inputs f files meets inside))
                (pass_take level0 begin end inputs f files _ meets inside
                  (inputs_pass-result level0 begin end (inputs ++ (f ∷ [])) files))
        ]
      ]
