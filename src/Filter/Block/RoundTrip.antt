-- ===== src/Filter/Block/RoundTrip.antt =====
-- Blocks of keys go through FilterBlockBuilder and come back from FilterBlockReader, both of
-- table/filter_block.cc.
use mathlib.Core.Path.{subst}
use leveldb_chinese_annotate.Prelude.{
  ℕ, zero, suc, ◌+◌, ◌-◌, ◌/◌, ◌^◌, ◌≤◌, ◌<◌, ◌≡◌, ◌∙◌, ap, refl, arith, true, List, [], ◌∷◌, ◌++◌,
  Option, none, some, get_elem?, length, length-append,
}
use leveldb_chinese_annotate.Coding.{Bytes}
use leveldb_chinese_annotate.Filter.Policy.{FilterPolicy}
use leveldb_chinese_annotate.Filter.Block.{
  FilterBlockBuilder, FilterBlockReader, new_builder, start_block, add_key, finish, new_reader,
  key_may_match,
}
use leveldb_chinese_annotate.Filter.Block.Groups.{
  filters, length-offsets_of, IsGrouped, new_builder-IsGrouped, add_key-IsGrouped,
  generate_filters-IsGrouped, padded, left_over,
}
use leveldb_chinese_annotate.Filter.Block.Lookup.{
  all_groups, block_of, length-block_of, read_back, finish-bytes, new_reader-block_of, matches_at,
}
use leveldb_chinese_annotate.Filter.Block.Members.{
  get_elem?-last, IsInGroup, IsInGroup-padded, IsInGroup-append, in_all, length-padded,
  length-left_over,
}

module _ (policy : FilterPolicy) where
  -- The blocks of a table: StartBlock with the offset, and AddKey for each key.
  abbrev pub add_keys : FilterBlockBuilder → List Bytes → FilterBlockBuilder
  add_keys b [] = b
  add_keys b (k ∷ ks) = add_keys (add_key policy b k) ks

  abbrev pub add_blocks : FilterBlockBuilder → List (ℕ × List Bytes) → FilterBlockBuilder
  add_blocks b [] = b
  add_blocks b ((block_offset, keys) ∷ blocks) =
      add_blocks (add_keys (start_block policy b block_offset) keys) blocks

  abbrev pub key_count : List (ℕ × List Bytes) → ℕ
  key_count [] = 0
  key_count ((block_offset, keys) ∷ blocks) = length keys + key_count blocks

  -- The offsets do not descend, from a first one on.
  abbrev pub IsAscending : ℕ → List (ℕ × List Bytes) → Type 0
  IsAscending from [] = Unit
  IsAscending from ((block_offset, keys) ∷ blocks) =
      (from ≤ block_offset) × IsAscending block_offset blocks

  -- A builder that has the key in a group, and one that has made `n` filters.
  record HasKey (j few : ℕ) (key : Bytes) (b : FilterBlockBuilder) : Type 0 where
    done : List (List Bytes)
    pending : List Bytes
    grouped : IsGrouped policy done pending b
    member : IsInGroup j few key done pending

  record IsReady (n few : ℕ) (b : FilterBlockBuilder) : Type 0 where
    done : List (List Bytes)
    pending : List Bytes
    grouped : IsGrouped policy done pending b
    made : length done ≡ n
    bounded : length pending ≤ few

  HasKey-add_key :
      (j few : ℕ) (key k : Bytes) (b : FilterBlockBuilder)
      → HasKey j few key b
      → HasKey j (few + 1) key (add_key policy b k)
  HasKey-add_key j few key k b h = record {
    done = h.done;
    pending = h.pending ++ (k ∷ []);
    grouped = add_key-IsGrouped policy h.done h.pending b k h.grouped;
    member = IsInGroup-append j few key k h.done h.pending h.member;
  }

  HasKey-start_block :
      (j few : ℕ) (key : Bytes) (b : FilterBlockBuilder) (block_offset : ℕ)
      → HasKey j few key b
      → HasKey j few key (start_block policy b block_offset)
  unfolding start_block
  HasKey-start_block j few key b block_offset h =
      let n = block_offset / 2 ^ 11 - length b.filter_offsets in
      record {
        done = padded n h.done h.pending;
        pending = left_over n h.pending;
        grouped = generate_filters-IsGrouped policy n h.done h.pending b h.grouped;
        member = IsInGroup-padded n j few key h.done h.pending h.member;
      }

  HasKey-new :
      (n few : ℕ) (k : Bytes) (b : FilterBlockBuilder)
      → IsReady n few b
      → HasKey n (few + 1) k (add_key policy b k)
  HasKey-new n few k b h = record {
    done = h.done;
    pending = h.pending ++ (k ∷ []);
    grouped = add_key-IsGrouped policy h.done h.pending b k h.grouped;
    member = record {
      group = h.pending ++ (k ∷ []);
      place = length h.pending;
      at =
          subst
            (λ (i : ℕ).
              get_elem? (h.done ++ ((h.pending ++ (k ∷ [])) ∷ [])) i ≡ some (h.pending ++ (k ∷ [])))
            h.made (get_elem?-last h.done (h.pending ++ (k ∷ [])));
      there = get_elem?-last h.pending k;
      bounded = omega (arith, h.bounded, length-append h.pending (k ∷ []));
    };
  }

  IsReady-add_key :
      (n few : ℕ) (k : Bytes) (b : FilterBlockBuilder)
      → IsReady n few b
      → IsReady n (few + 1) (add_key policy b k)
  IsReady-add_key n few k b h = record {
    done = h.done;
    pending = h.pending ++ (k ∷ []);
    grouped = add_key-IsGrouped policy h.done h.pending b k h.grouped;
    made = h.made;
    bounded = omega (arith, h.bounded, length-append h.pending (k ∷ []));
  }

  IsReady-start_block :
      (n few : ℕ) (b : FilterBlockBuilder) (block_offset : ℕ)
      → n ≤ block_offset / 2 ^ 11
      → IsReady n few b
      → IsReady (block_offset / 2 ^ 11) few (start_block policy b block_offset)
  unfolding start_block
  IsReady-start_block n few b block_offset hn h =
      let m = block_offset / 2 ^ 11 - length b.filter_offsets in
      record {
        done = padded m h.done h.pending;
        pending = left_over m h.pending;
        grouped = generate_filters-IsGrouped policy m h.done h.pending b h.grouped;
        made = omega (
          arith,
          length-padded m h.done h.pending,
          h.made,
          ap length h.grouped.offsets,
          length-offsets_of policy 0 h.done,
        );
        bounded = omega (arith, h.bounded, length-left_over m h.pending);
      }

  keep_keys :
      (j few : ℕ) (key : Bytes) (keys : List Bytes) (b : FilterBlockBuilder)
      → HasKey j few key b
      → HasKey j (few + length keys) key (add_keys b keys)
  keep_keys j few key [] b h = subst (λ (n : ℕ). HasKey j n key b) (omega arith) h
  keep_keys j few key (k ∷ ks) b h =
      subst (λ (n : ℕ). HasKey j n key (add_keys (add_key policy b k) ks)) (omega arith)
        (keep_keys j (few + 1) key ks (add_key policy b k) (HasKey-add_key j few key k b h))

  keep_blocks :
      (j few : ℕ) (key : Bytes) (blocks : List (ℕ × List Bytes)) (b : FilterBlockBuilder)
      → HasKey j few key b
      → HasKey j (few + key_count blocks) key (add_blocks b blocks)
  keep_blocks j few key [] b h = subst (λ (n : ℕ). HasKey j n key b) (omega arith) h
  keep_blocks j few key ((o, keys) ∷ blocks) b h =
      let b1 = start_block policy b o in
      subst (λ (n : ℕ). HasKey j n key (add_blocks (add_keys b1 keys) blocks)) (omega arith)
        (keep_blocks j (few + length keys) key blocks (add_keys b1 keys)
          (keep_keys j few key keys b1 (HasKey-start_block j few key b o h)))

  IsReady-keys :
      (n few : ℕ) (keys : List Bytes) (b : FilterBlockBuilder)
      → IsReady n few b
      → IsReady n (few + length keys) (add_keys b keys)
  IsReady-keys n few [] b h = subst (λ (m : ℕ). IsReady n m b) (omega arith) h
  IsReady-keys n few (k ∷ ks) b h =
      subst (λ (m : ℕ). IsReady n m (add_keys (add_key policy b k) ks)) (omega arith)
        (IsReady-keys n (few + 1) ks (add_key policy b k) (IsReady-add_key n few k b h))

  find_key :
      (n few i : ℕ) (key : Bytes) (keys : List Bytes) (b : FilterBlockBuilder)
      → IsReady n few b
      → get_elem? keys i ≡ some key
      → HasKey n (few + length keys) key (add_keys b keys)
  find_key n few i key [] b h e = absurd (ground arith)
  find_key n few zero key (k ∷ ks) b h e =
      let same : k ≡ key = ap (λ (o : Option Bytes). elim o [ none ↦ k | some y ↦ y ]) e in
      subst (λ (x : Bytes). HasKey n (few + length (k ∷ ks)) x (add_keys (add_key policy b k) ks))
        same
        (subst (λ (m : ℕ). HasKey n m k (add_keys (add_key policy b k) ks)) (omega arith)
          (keep_keys n (few + 1) k ks (add_key policy b k) (HasKey-new n few k b h)))
  find_key n few (suc i) key (k ∷ ks) b h e =
      subst (λ (m : ℕ). HasKey n m key (add_keys (add_key policy b k) ks)) (omega arith)
        (find_key n (few + 1) i key ks (add_key policy b k) (IsReady-add_key n few k b h) e)

  find_block :
      (n from few m i block_offset : ℕ) (key : Bytes) (keys : List Bytes)
      (blocks : List (ℕ × List Bytes)) (b : FilterBlockBuilder)
      → IsReady n few b
      → n ≤ from / 2 ^ 11
      → IsAscending from blocks
      → get_elem? blocks m ≡ some (block_offset, keys)
      → get_elem? keys i ≡ some key
      → HasKey (block_offset / 2 ^ 11) (few + key_count blocks) key (add_blocks b blocks)
  find_block n from few m i block_offset key keys [] b h hn asc at there = absurd (ground arith)
  find_block n from few zero i block_offset key keys ((o, ks) ∷ blocks) b h hn asc at there =
      let b1 = start_block policy b o in
      let pair_or : Option (ℕ × List Bytes) → ℕ × List Bytes =
        λ x. elim x [ none ↦ (o, ks) | some y ↦ y ] in
      let same : ◌≡◌ {A = ℕ × List Bytes} (o, ks) (block_offset, keys) = ap pair_or at in
      let reaches : n ≤ o / 2 ^ 11 = omega (arith, hn, asc.0) in
      let ready = IsReady-start_block n few b o reaches h in
      let there' : get_elem? ks i ≡ some key =
        ap (λ (p : ℕ × List Bytes). get_elem? p.1 i) same ∙ there in
      let found = find_key (o / 2 ^ 11) few i key ks b1 ready there' in
      let kept = keep_blocks (o / 2 ^ 11) (few + length ks) key blocks (add_keys b1 ks) found in
      subst
        (λ (p : ℕ × List Bytes).
          HasKey (p.0 / 2 ^ 11) (few + key_count ((o, ks) ∷ blocks)) key
            (add_blocks (add_keys b1 ks) blocks))
        same
        (subst (λ (t : ℕ). HasKey (o / 2 ^ 11) t key (add_blocks (add_keys b1 ks) blocks))
          (omega arith) kept)
  find_block n from few (suc m) i block_offset key keys ((o, ks) ∷ blocks) b h hn asc at there =
      let b1 = start_block policy b o in
      let reaches : n ≤ o / 2 ^ 11 = omega (arith, hn, asc.0) in
      let ready = IsReady-start_block n few b o reaches h in
      let later =
        find_block (o / 2 ^ 11) o (few + length ks) m i block_offset key keys blocks
          (add_keys b1 ks) (IsReady-keys (o / 2 ^ 11) few ks b1 ready) (omega arith) asc.1 at
          there in
      subst (λ (t : ℕ). HasKey (block_offset / 2 ^ 11) t key (add_blocks (add_keys b1 ks) blocks))
        (omega arith) later

  matches_finished :
      (j few block_offset : ℕ) (key : Bytes) (b : FilterBlockBuilder)
      → HasKey j few key b
      → few < 2 ^ 31
      → length (finish policy b) < 2 ^ 32
      → block_offset / 2 ^ 11 ≡ j
      → key_may_match policy (new_reader policy (finish policy b)) block_offset key ≡ true
  matches_finished j few block_offset key b h hf small index =
      let gs = all_groups h.done h.pending in
      let m = h.member in
      let bytes : finish policy b ≡ block_of policy gs =
        finish-bytes policy h.done h.pending b h.grouped in
      let short : length (filters policy gs) < 2 ^ 32 =
        omega (arith, small, ap length bytes, length-block_of policy gs) in
      let reads : new_reader policy (finish policy b) ≡ read_back policy gs =
        ap (new_reader policy) bytes ∙ new_reader-block_of policy gs short in
      ap (λ (r : FilterBlockReader policy). key_may_match policy r block_offset key) reads
      ∙ matches_at policy gs j m.group m.place block_offset key short
          (in_all h.done h.pending j m.group m.place key m.at m.there) m.there
          (omega (arith, m.bounded, hf)) index

  -- A filter block that is built of blocks of keys whose offsets do not descend matches each key at
  -- the offset of its block. The keys are below 2^31 in number, and the filter block has less than
  -- 4 GB.
  pub key_may_match-finish :
      (blocks : List (ℕ × List Bytes)) (m i block_offset : ℕ) (key : Bytes) (keys : List Bytes)
      → IsAscending 0 blocks
      → key_count blocks < 2 ^ 31
      → length (finish policy (add_blocks new_builder blocks)) < 2 ^ 32
      → get_elem? blocks m ≡ some (block_offset, keys)
      → get_elem? keys i ≡ some key
      → key_may_match policy
          (new_reader policy (finish policy (add_blocks new_builder blocks)))
          block_offset
          key
        ≡ true
  key_may_match-finish blocks m i block_offset key keys asc few small at there =
      let ready : IsReady 0 0 new_builder = record {
        done = [];
        pending = [];
        grouped = new_builder-IsGrouped policy;
        made = refl;
        bounded = omega arith;
      } in
      let found =
        find_block 0 0 0 m i block_offset key keys blocks new_builder ready (omega arith) asc at
          there in
      matches_finished (block_offset / 2 ^ 11) (0 + key_count blocks) block_offset key
        (add_blocks new_builder blocks) found (omega (arith, few)) small refl
