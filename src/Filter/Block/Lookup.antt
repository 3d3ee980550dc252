-- ===== src/Filter/Block/Lookup.antt =====
-- FilterBlockReader of table/filter_block.cc on what FilterBlockBuilder finished: a key matches at
-- the offset of its block.
use leveldb_chinese_annotate.Prelude.{
  ℕ, zero, suc, ◌+◌, ◌-◌, ◌*◌, ◌/◌, ◌%◌, ◌^◌, ◌≤◌, ◌<◌, ◌≡◌, ◌∙◌, sym, ap, refl, arith, true, false,
  List, [], ◌∷◌, ◌++◌, append_assoc, append-nil, All, Option, none, some, get_elem?, ltb, leb, ◌==◌,
  length, length-append, get_or, take, take_all, drop, drop-append, drop-drop,
}
use leveldb_chinese_annotate.Coding.{Bytes, encode_fixed32, decode_fixed32, put_fixed32}
use leveldb_chinese_annotate.Coding.Fixed.{decode-encode_fixed32, length-encode_fixed32}
use leveldb_chinese_annotate.Block.{put_restarts}
use leveldb_chinese_annotate.Block.Building.{
  restart_bytes, length-restart_bytes, put_restarts-bytes,
}
use leveldb_chinese_annotate.Filter.Bloom.{get_or_last}
use leveldb_chinese_annotate.Filter.Policy.{FilterPolicy}
use leveldb_chinese_annotate.Filter.Block.{
  FilterBlockBuilder, FilterBlockReader, generate_filter, finish, new_reader, key_may_match,
}
use leveldb_chinese_annotate.Filter.Block.Groups.{
  cut_at, filter_of, filters, offsets_of, IsGrouped, generate_filter-IsGrouped,
}

restart_bytes-append :
    (xs : List ℕ) (n : ℕ) → restart_bytes (xs ++ (n ∷ [])) ≡ restart_bytes xs ++ encode_fixed32 n
restart_bytes-append [] n = append-nil (encode_fixed32 n)
restart_bytes-append (x ∷ xs) n =
    ap (λ (t : Bytes). encode_fixed32 x ++ t) (restart_bytes-append xs n)
    ∙ sym (append_assoc (encode_fixed32 x) (restart_bytes xs) (encode_fixed32 n))

-- One number of an array of numbers below 2^32.
read_offset :
    (xs : List ℕ) (tail : Bytes) (j : ℕ)
    → All (λ x. x < 2 ^ 32) xs
    → j < length xs
    → decode_fixed32 (drop (j * 4) (restart_bytes xs ++ tail)) ≡ get_or xs j 0
read_offset [] tail j hs h = absurd (omega arith)
read_offset (x ∷ xs) tail zero hs h =
    ap decode_fixed32 (append_assoc (encode_fixed32 x) (restart_bytes xs) tail)
    ∙ decode-encode_fixed32 x (restart_bytes xs ++ tail) hs.0
read_offset (x ∷ xs) tail (suc j) hs h =
    ap decode_fixed32 (
      ap (drop (suc j * 4)) (append_assoc (encode_fixed32 x) (restart_bytes xs) tail)
      ∙ sym (
          drop-drop 4 (j * 4) (suc j * 4) (encode_fixed32 x ++ (restart_bytes xs ++ tail))
            (omega arith))
      ∙ ap (drop (j * 4))
          (drop-append 4 (encode_fixed32 x) (restart_bytes xs ++ tail) (length-encode_fixed32 x)))
    ∙ read_offset xs tail j hs.1 (omega arith)

-- The groups of keys that a finished block has filters of.
abbrev pub all_groups : List (List Bytes) → List Bytes → List (List Bytes)
all_groups done [] = done
all_groups done (k ∷ ks) = done ++ ((k ∷ ks) ∷ [])

module _ (policy : FilterPolicy) where
  -- The offsets and the end of the filters.
  abbrev pub boundaries : ℕ → List (List Bytes) → List ℕ
  boundaries from [] = (from % 2 ^ 32) ∷ []
  boundaries from (g ∷ gs) = (from % 2 ^ 32) ∷ boundaries (from + length (filter_of policy g)) gs

  boundaries-offsets_of :
      (from n : ℕ) (gs : List (List Bytes))
      → n ≡ from + length (filters policy gs)
      → offsets_of policy from gs ++ ((n % 2 ^ 32) ∷ []) ≡ boundaries from gs
  boundaries-offsets_of from n [] e = ap (λ (t : ℕ). (t % 2 ^ 32) ∷ []) (omega (arith, e))
  boundaries-offsets_of from n (g ∷ gs) e =
      ap (λ (t : List ℕ). (from % 2 ^ 32) ∷ t)
        (boundaries-offsets_of (from + length (filter_of policy g)) n gs
          (omega (arith, e, length-append (filter_of policy g) (filters policy gs))))

  length-boundaries :
      (from : ℕ) (gs : List (List Bytes)) → length (boundaries from gs) ≡ length gs + 1
  length-boundaries from [] = omega arith
  length-boundaries from (g ∷ gs) =
      omega (arith, length-boundaries (from + length (filter_of policy g)) gs)

  boundaries_small :
      (from : ℕ) (gs : List (List Bytes)) → All (λ x. x < 2 ^ 32) (boundaries from gs)
  boundaries_small from [] = (omega arith, tt)
  boundaries_small from (g ∷ gs) =
      (omega arith, boundaries_small (from + length (filter_of policy g)) gs)

  -- The boundary in front of the group of this index.
  get_or-boundaries :
      (from : ℕ) (gs : List (List Bytes)) (j : ℕ)
      → j ≤ length gs
      → get_or (boundaries from gs) j 0 ≡ (from + length (filters policy (take j gs))) % 2 ^ 32
  get_or-boundaries from [] zero h = omega arith
  get_or-boundaries from [] (suc j) h = absurd (omega arith)
  get_or-boundaries from (g ∷ gs) zero h = omega arith
  get_or-boundaries from (g ∷ gs) (suc j) h = omega (
    arith,
    get_or-boundaries (from + length (filter_of policy g)) gs j (omega arith),
    length-append (filter_of policy g) (filters policy (take j gs)),
  )

  -- A group's filter among all filters.
  filters-split :
      (gs : List (List Bytes)) (j : ℕ) (g : List Bytes)
      → get_elem? gs j ≡ some g
      → (rest : Bytes) × (filters policy gs
          ≡ filters policy (take j gs) ++ (filter_of policy g ++ rest))
        × (length (filters policy (take (suc j) gs))
            ≡ length (filters policy (take j gs)) + length (filter_of policy g))
        × (j < length gs)
  filters-split [] j g e = absurd (ground arith)
  filters-split (x ∷ gs) zero g e =
      let same : x ≡ g = ap (λ (o : Option (List Bytes)). elim o [ none ↦ x | some y ↦ y ]) e in
      (
        filters policy gs,
        ap (λ (t : List Bytes). filter_of policy t ++ filters policy gs) same,
        omega (
          arith,
          ap length (append-nil (filter_of policy x)),
          ap (λ (t : List Bytes). length (filter_of policy t)) same,
        ),
        omega arith,
      )
  filters-split (x ∷ gs) (suc j) g e =
      let (rest, split, longer, inside) = filters-split gs j g e in
      (
        rest,
        ap (λ (t : Bytes). filter_of policy x ++ t) split
            ∙ sym (
                append_assoc (filter_of policy x) (filters policy (take j gs))
                  (filter_of policy g ++ rest)),
        omega (
          arith,
          longer,
          length-append (filter_of policy x) (filters policy (take (suc j) gs)),
          length-append (filter_of policy x) (filters policy (take j gs)),
        ),
        omega (arith, inside),
      )

  -- The bytes of a builder with no keys pending.
  closing : FilterBlockBuilder → Bytes
  closing b =
      put_fixed32 (put_restarts b.result b.filter_offsets) (length b.result % 2 ^ 32) ++ (11 ∷ [])

  closing-bytes :
      (gs : List (List Bytes)) (pending : List Bytes) (b : FilterBlockBuilder)
      → IsGrouped policy gs pending b
      → closing b ≡ filters policy gs ++ (restart_bytes (boundaries 0 gs) ++ (11 ∷ []))
  unfolding closing put_fixed32
  closing-bytes gs pending b h =
      let offsets = offsets_of policy 0 gs in
      let n = length b.result in
      let whole : restart_bytes offsets ++ encode_fixed32 (n % 2 ^ 32)
          ≡ restart_bytes (boundaries 0 gs) =
        sym (restart_bytes-append offsets (n % 2 ^ 32))
        ∙ ap restart_bytes (boundaries-offsets_of 0 n gs (omega (arith, ap length h.made))) in
      ap (λ (t : Bytes). (t ++ encode_fixed32 (n % 2 ^ 32)) ++ (11 ∷ []))
        (put_restarts-bytes b.result b.filter_offsets
          ∙ ap (λ (t : List ℕ). b.result ++ restart_bytes t) h.offsets)
      ∙ ap (λ (t : Bytes). t ++ (11 ∷ []))
          (append_assoc b.result (restart_bytes offsets) (encode_fixed32 (n % 2 ^ 32))
            ∙ ap (λ (t : Bytes). b.result ++ t) whole)
      ∙ append_assoc b.result (restart_bytes (boundaries 0 gs)) (11 ∷ [])
      ∙ ap (λ (t : Bytes). t ++ (restart_bytes (boundaries 0 gs) ++ (11 ∷ []))) h.made

  pub finish-bytes :
      (done : List (List Bytes)) (pending : List Bytes) (b : FilterBlockBuilder)
      → IsGrouped policy done pending b
      → finish policy b
        ≡ filters policy (all_groups done pending)
          ++ (restart_bytes (boundaries 0 (all_groups done pending)) ++ (11 ∷ []))
  unfolding finish closing
  finish-bytes done [] b h =
      let none_yet : (length b.start == 0) ≡ true = ap (λ (t : List ℕ). length t == 0) h.starts in
      rw none_yet (closing-bytes done [] b h)
  finish-bytes done (k ∷ ks) b h =
      let some_keys : (length b.start == 0) ≡ false = ground (arith, ap length h.starts) in
      rw some_keys (
        closing-bytes (done ++ ((k ∷ ks) ∷ [])) [] (generate_filter policy b)
          (generate_filter-IsGrouped policy done (k ∷ ks) b h))

  -- The block as the reader takes it apart.
  abbrev pub block_of : List (List Bytes) → Bytes
  block_of gs = filters policy gs ++ (restart_bytes (boundaries 0 gs) ++ (11 ∷ []))

  pub length-block_of :
      (gs : List (List Bytes))
      → length (block_of gs) ≡ length (filters policy gs) + (length gs * 4 + 5)
  length-block_of gs = omega (
    arith,
    length-append (filters policy gs) (restart_bytes (boundaries 0 gs) ++ (11 ∷ [])),
    length-append (restart_bytes (boundaries 0 gs)) (11 ∷ []),
    length-restart_bytes (boundaries 0 gs),
    length-boundaries 0 gs,
  )

  read_boundary :
      (gs : List (List Bytes)) (j at : ℕ)
      → j ≤ length gs
      → at ≡ length (filters policy gs) + j * 4
      → length (filters policy gs) < 2 ^ 32
      → length (filters policy (take j gs)) ≤ length (filters policy gs)
      → decode_fixed32 (drop at (block_of gs)) ≡ length (filters policy (take j gs))
  read_boundary gs j at h e small within =
      let front = length (filters policy gs) in
      let tail = restart_bytes (boundaries 0 gs) ++ (11 ∷ []) in
      ap decode_fixed32 (
        sym (drop-drop front (j * 4) at (block_of gs) e)
        ∙ ap (drop (j * 4)) (drop-append front (filters policy gs) tail refl))
      ∙ read_offset (boundaries 0 gs) (11 ∷ []) j (boundaries_small 0 gs)
          (omega (arith, length-boundaries 0 gs))
      ∙ get_or-boundaries 0 gs j h
      ∙ omega arith

  abbrev pub read_back : List (List Bytes) → FilterBlockReader policy
  read_back gs = record {
    contents = block_of gs;
    offset = length (filters policy gs);
    num = length gs;
    base_lg = 11;
  }

  pub new_reader-block_of :
      (gs : List (List Bytes))
      → length (filters policy gs) < 2 ^ 32
      → new_reader policy (block_of gs) ≡ read_back gs
  unfolding new_reader
  new_reader-block_of gs small =
      let n = length (block_of gs) in
      let size = length-block_of gs in
      let all_taken : length (filters policy (take (length gs) gs)) ≡ length (filters policy gs) =
        ap (λ (t : List (List Bytes)). length (filters policy t))
          (take_all (length gs) gs (omega arith)) in
      let last : decode_fixed32 (drop (n - 5) (block_of gs)) ≡ length (filters policy gs) =
        read_boundary gs (length gs) (n - 5) (omega arith) (omega (arith, size)) small
          (omega (arith, all_taken))
        ∙ all_taken in
      let lg : get_or (block_of gs) (n - 1) 0 ≡ 11 =
        ap (λ (t : Bytes). get_or t (n - 1) 0)
          (sym (append_assoc (filters policy gs) (restart_bytes (boundaries 0 gs)) (11 ∷ [])))
        ∙ get_or_last (filters policy gs ++ restart_bytes (boundaries 0 gs)) 11 (n - 1) (
            omega (
              arith,
              size,
              length-append (filters policy gs) (restart_bytes (boundaries 0 gs)),
              length-restart_bytes (boundaries 0 gs),
              length-boundaries 0 gs,
            )) in
      ground (arith, size, last, lg)

  nonempty_filter :
      (g : List Bytes) (i : ℕ) (key : Bytes)
      → length g < 2 ^ 31
      → get_elem? g i ≡ some key
      → policy.may_match key (filter_of policy g) ≡ true
  nonempty_filter [] i key few e = absurd (ground arith)
  nonempty_filter (k ∷ ks) i key few e = policy.matches (k ∷ ks) i key few e

  -- The reader finds the filter of a group.
  pub matches_at :
      (gs : List (List Bytes)) (j : ℕ) (g : List Bytes) (i block_offset : ℕ) (key : Bytes)
      → length (filters policy gs) < 2 ^ 32
      → get_elem? gs j ≡ some g
      → get_elem? g i ≡ some key
      → length g < 2 ^ 31
      → block_offset / 2 ^ 11 ≡ j
      → key_may_match policy (read_back gs) block_offset key ≡ true
  unfolding key_may_match
  matches_at gs j g i block_offset key small at there few index =
      let (rest, split, longer, inside) = filters-split gs j g at in
      let front = filters policy (take j gs) in
      let filter = filter_of policy g in
      let tail = restart_bytes (boundaries 0 gs) ++ (11 ∷ []) in
      let size = length (filters policy gs) in
      let total : size ≡ length front + (length filter + length rest) =
        omega (
          arith,
          ap length split,
          length-append front (filter ++ rest),
          length-append filter rest,
        ) in
      let start : decode_fixed32 (drop (size + j * 4) (block_of gs)) ≡ length front =
        read_boundary gs j (size + j * 4) (omega (arith, inside)) refl small
          (omega (arith, total)) in
      let limit : decode_fixed32 (drop (size + j * 4 + 4) (block_of gs))
          ≡ length front + length filter =
        read_boundary gs (suc j) (size + j * 4 + 4) (omega (arith, inside)) (omega arith) small
          (omega (arith, total, longer))
        ∙ longer in
      let whole : block_of gs ≡ front ++ (filter ++ (rest ++ tail)) =
        ap (λ (t : Bytes). t ++ tail) split
        ∙ append_assoc front (filter ++ rest) tail
        ∙ ap (λ (t : Bytes). front ++ t) (append_assoc filter rest tail) in
      let segment : take (length front + length filter - length front)
            (drop (length front) (block_of gs))
          ≡ filter =
        cut_at front filter (rest ++ tail) (length front)
          (length front + length filter - length front) (block_of gs) refl whole (omega arith) in
      let found : ltb j (length gs) ≡ true = ground (arith, inside) in
      let ordered : leb (length front) (length front + length filter) ≡ true = ground arith in
      let within : leb (length front + length filter) size ≡ true = ground (arith, total) in
      let answers : policy.may_match key filter ≡ true = nonempty_filter g i key few there in
      rw (index, found, start, limit, ordered, within, segment) answers
