-- ===== src/Version/Inputs/Closed.antt =====
-- GetOverlappingInputs ends, and what it answers is closed: the files that meet a range at least as
-- wide as the given one and, at level 0, do not stick out of it.
use mathlib.Core.Path.{subst}
use leveldb_chinese_annotate.Prelude.{
  ℕ, zero, suc, ◌*◌, ◌<◌, ◌≡◌, sym, refl, arith, Bool, true, false, List, [], Option, some, ◌==◌,
  length, All, ◌⊎◌, inl, inr,
}
use leveldb_chinese_annotate.Coding.{Bytes}
use leveldb_chinese_annotate.Comparator.{Comparator}
use leveldb_chinese_annotate.VersionEdit.{FileMetaData}
use leveldb_chinese_annotate.Version.Inputs.{
  Pass, user_bound, inputs_pass, inputs_loop, get_overlapping_inputs,
}
use leveldb_chinese_annotate.Version.Inputs.Bounds.{
  overlapping, IsInside, IsLowered, IsRaised, IsLowered-refl, IsRaised-refl, IsLowered-trans,
  IsRaised-trans,
}
use leveldb_chinese_annotate.Version.Inputs.Widening.{sticking, sticking_bound}
use leveldb_chinese_annotate.Version.Inputs.OnePass.{PassResult, inputs_pass-result}

Pass-cases :
    (p : Pass)
    → ((xs : List FileMetaData) × (p ≡ Pass.finished xs))
      ⊎ ((b e : Option Bytes) × (p ≡ Pass.widened b e))
Pass-cases (Pass.finished xs) = inl (xs, refl)
Pass-cases (Pass.widened b e) = inr (b, e, refl)

module _ (c : Comparator) where
  -- The inputs `xs` for a range: all files that meet a range, the given one or one that contains it.
  pub record IsClosed (level0 : Bool) (begin end : Option Bytes) (files xs : List FileMetaData)
      : Type 0 where
    pub first : Option Bytes
    pub last : Option Bytes
    pub lowered : IsLowered c begin first
    pub raised : IsRaised c end last
    pub whole : xs ≡ overlapping c first last files
    pub inside : level0 ≡ true → All (IsInside c first last) xs
    pub same : level0 ≡ false → (first ≡ begin) × (last ≡ end)

  finished_at :
      (fuel : ℕ) (level0 : Bool) (begin end : Option Bytes) (files xs : List FileMetaData)
      → inputs_pass c level0 begin end [] files ≡ Pass.finished xs
      → PassResult c level0 begin end [] files (Pass.finished xs)
      → (ys : List FileMetaData) × (inputs_loop c (suc fuel) level0 begin end files ≡ some ys)
        × IsClosed level0 begin end files ys
  unfolding inputs_loop PassResult
  finished_at fuel level0 begin end files xs e r = (
    xs,
    ground (arith, e),
    record {
      first = begin;
      last = end;
      lowered = IsLowered-refl c begin;
      raised = IsRaised-refl c end;
      whole = r.0;
      inside = λ l. subst (All (IsInside c begin end)) (sym r.0) (r.1 l);
      same = λ l. (refl, refl);
    },
  )

  restarted_at :
      (fuel : ℕ) (level0 : Bool) (begin end : Option Bytes) (files : List FileMetaData)
      (b d : Option Bytes)
      → inputs_pass c level0 begin end [] files ≡ Pass.widened b d
      → PassResult c level0 begin end [] files (Pass.widened b d)
      → sticking c begin end files < suc fuel
      → (sticking c b d files < fuel
          → (xs : List FileMetaData) × (inputs_loop c fuel level0 b d files ≡ some xs)
            × IsClosed level0 b d files xs)
      → (ys : List FileMetaData) × (inputs_loop c (suc fuel) level0 begin end files ≡ some ys)
        × IsClosed level0 begin end files ys
  unfolding inputs_loop PassResult
  restarted_at fuel level0 begin end files b d e r h later =
      let (xs, found, closed) = later (omega (arith, r.1.fewer)) in
      (
        xs,
        ground (arith, e, found),
        record {
          first = closed.first;
          last = closed.last;
          lowered = IsLowered-trans c begin b closed.first r.1.lowered closed.lowered;
          raised = IsRaised-trans c end d closed.last r.1.raised closed.raised;
          whole = closed.whole;
          inside = closed.inside;
          same = λ l. absurd (ground (arith, r.0));
        },
      )

  inputs_loop-IsClosed :
      (fuel : ℕ) (level0 : Bool) (begin end : Option Bytes) (files : List FileMetaData)
      → sticking c begin end files < fuel
      → (xs : List FileMetaData) × (inputs_loop c fuel level0 begin end files ≡ some xs)
        × IsClosed level0 begin end files xs
  unfolding inputs_loop
  inputs_loop-IsClosed zero level0 begin end files h = absurd (omega arith)
  inputs_loop-IsClosed (suc fuel) level0 begin end files h =
      elim (Pass-cases (inputs_pass c level0 begin end [] files)) [
        | inl (xs, e) ↦
            let r : PassResult c level0 begin end [] files (Pass.finished xs) =
              subst (PassResult c level0 begin end [] files) e
                (inputs_pass-result c level0 begin end [] files) in
            finished_at fuel level0 begin end files xs e r
        | inr (b, d, e) ↦
            let r : PassResult c level0 begin end [] files (Pass.widened b d) =
              subst (PassResult c level0 begin end [] files) e
                (inputs_pass-result c level0 begin end [] files) in
            restarted_at fuel level0 begin end files b d e r h
              (λ less. inputs_loop-IsClosed fuel level0 b d files less)
      ]

  -- GetOverlappingInputs answers. The inputs are all files of the level whose user keys, from the
  -- smallest to the largest, meet a range. Above level 0 it is the given range; at level 0 it contains
  -- the given one, and the inputs lie inside it. A missing bound is no bound, and stays missing.
  pub get_overlapping_inputs-IsClosed :
      (level : ℕ) (files : List FileMetaData) (begin end : Option Bytes)
      → (xs : List FileMetaData) × (get_overlapping_inputs c level files begin end ≡ some xs)
        × IsClosed (level == 0) (user_bound begin) (user_bound end) files xs
  unfolding get_overlapping_inputs
  get_overlapping_inputs-IsClosed level files begin end =
      inputs_loop-IsClosed (suc (2 * length files)) (level == 0) (user_bound begin) (user_bound end)
        files (omega (arith, sticking_bound c (user_bound begin) (user_bound end) files))
