-- ===== src/Block/Termination.antt =====
-- The loops of Block::Iter in table/block.cc end on every block, also on a damaged one.
use leveldb_chinese_annotate.Prelude.{
  ℕ, zero, suc, ◌+◌, ◌-◌, ◌*◌, ◌/◌, ◌%◌, ◌^◌, ◌<◌, ◌≤◌, ◌≡◌, ◌≢◌, ap, arith, Bool, true, false, [],
  ◌∷◌, ◌++◌, none, some, length, length-drop, length-take, take, Bool-cases, Option-cases, inl, inr,
}
use leveldb_chinese_annotate.Coding.{Bytes, get_varint32_ptr}
use leveldb_chinese_annotate.Coding.Bounds.{get_varint32_ptr_shorter}
use leveldb_chinese_annotate.Comparator.{Comparator}
use leveldb_chinese_annotate.Block.Iter.{
  Iter, decode_lengths, decode_entry, next_entry_offset, window, advance_restart, parse_next_key,
  parse_until, seek_to_restart_point, seek_to_last, restart_before, prev, search_restarts, scan,
  seek_in, seek,
}
use leveldb_chinese_annotate.Block.Walk.{advance_restart-index}

decode_entry_shorter :
    (p : Bytes) (s n v : ℕ) (rest : Bytes)
    → decode_entry p ≡ some (s, n, v, rest)
    → length rest < length p
unfolding decode_entry decode_lengths
decode_entry_shorter [] s n v rest e = ground arith
decode_entry_shorter (a ∷ []) s n v rest e = ground arith
decode_entry_shorter (a ∷ b ∷ []) s n v rest e = ground arith
decode_entry_shorter (a ∷ b ∷ c ∷ p) s n v rest e =
    elim (Option-cases (get_varint32_ptr (a ∷ b ∷ c ∷ p))) [
      | inl none1 ↦ ground (arith, none1)
      | inr ((s1, p1), e1) ↦ elim (Option-cases (get_varint32_ptr p1)) [
        | inl none2 ↦ ground (arith, e1, none2)
        | inr ((n1, p2), e2) ↦ ground (
          arith,
          e1,
          e2,
          get_varint32_ptr_shorter (a ∷ b ∷ c ∷ p) s1 p1 e1,
          get_varint32_ptr_shorter p1 n1 p2 e2,
          get_varint32_ptr_shorter p2 v rest,
        )
      ]
    ]

advance_restart-fields :
    (fuel : ℕ) (it : Iter)
    → (next_entry_offset (advance_restart fuel it) ≡ next_entry_offset it)
      × ((advance_restart fuel it).restarts ≡ it.restarts)
advance_restart-fields fuel it =
    let (k, e) = advance_restart-index fuel it in
    (ap (λ (j : Iter). next_entry_offset j) e, ap (λ (j : Iter). j.restarts) e)

length-window-le : (it : Iter) (o : ℕ) → length (window it o) ≤ it.restarts - o
length-window-le it o =
    omega (
      arith,
      length-drop o (take it.restarts it.block_bytes),
      length-take it.restarts it.block_bytes,
    )

-- The value that DecodeEntry finds ends within what it has read, in uint32.
decode_entry_fits :
    (p : Bytes) (s n v : ℕ) (rest : Bytes)
    → decode_entry p ≡ some (s, n, v, rest)
    → (n + v) % 2 ^ 32 ≤ length rest % 2 ^ 32
unfolding decode_entry
decode_entry_fits p s n v rest e = elim (Option-cases (decode_lengths p)) [
  | inl bad ↦ ground (arith, bad)
  | inr ((s1, n1, v1, rest1), found) ↦ ground (arith, found)
]

-- The next entry begins behind this one, also where the sum of the lengths wraps.
offset_grows :
    (r o l w n v : ℕ)
    → r < 2 ^ 32
    → l < w
    → w ≤ r - o
    → (n + v) % 2 ^ 32 ≤ l % 2 ^ 32
    → o < (r - l + n + v) % 2 ^ 32
offset_grows r o l w n v small hl hw fits = omega arith

-- A successful ParseNextKey goes on, inside the same block.
parse_next_key_goes_on :
    (it : Iter)
    → it.restarts < 2 ^ 32
    → (parse_next_key it).0 ≡ true
    → (next_entry_offset it < it.restarts)
      × (next_entry_offset it < next_entry_offset (parse_next_key it).1)
      × ((parse_next_key it).1.restarts ≡ it.restarts)
unfolding parse_next_key
parse_next_key_goes_on it small h =
    elim (Option-cases (decode_entry (window it (next_entry_offset it)))) [
      | inl bad ↦ absurd (ground (arith, bad))
      | inr ((s, n, v, p), e) ↦
          let it2 : Iter = record it {
            current = next_entry_offset it;
            key = take s it.key ++ take n p;
            value_offset = it.restarts - length p + n;
            value_size = v;
          } in
          let (same, kept) = advance_restart-fields it.num_restarts it2 in
          let grows : next_entry_offset it < next_entry_offset it2 =
            offset_grows it.restarts (next_entry_offset it) (length p)
              (length (window it (next_entry_offset it))) n v small
              (decode_entry_shorter (window it (next_entry_offset it)) s n v p e)
              (length-window-le it (next_entry_offset it))
              (decode_entry_fits (window it (next_entry_offset it)) s n v p e) in
          ground (arith, e, same, kept, grows)
    ]

-- `parse_until` answers, with fuel above the bytes that are left.
parse_until-returns :
    (fuel end : ℕ) (it : Iter)
    → it.restarts < 2 ^ 32
    → it.restarts - next_entry_offset it < fuel
    → parse_until fuel end it ≢ none
unfolding parse_until
parse_until-returns zero end it small h e = absurd (omega arith)
parse_until-returns (suc fuel) end it small h e = elim (Bool-cases (parse_next_key it).0) [
  | inl goes ↦ ground (
    arith,
    goes,
    parse_next_key_goes_on it small goes,
    parse_until-returns fuel end (parse_next_key it).1,
  )
  | inr stops ↦ ground (arith, stops)
]

module _ (comparator : Comparator) where
  scan-returns :
      (fuel : ℕ) (it : Iter) (target : Bytes)
      → it.restarts < 2 ^ 32
      → it.restarts - next_entry_offset it < fuel
      → scan comparator fuel it target ≢ none
  unfolding scan
  scan-returns zero it target small h e = absurd (omega arith)
  scan-returns (suc fuel) it target small h e = elim (Bool-cases (parse_next_key it).0) [
    | inl goes ↦ ground (
      arith,
      goes,
      parse_next_key_goes_on it small goes,
      scan-returns fuel (parse_next_key it).1 target,
    )
    | inr stops ↦ ground (arith, stops)
  ]

  search_restarts-returns :
      (fuel : ℕ) (it : Iter) (target : Bytes) (left right : ℕ)
      → right < 2 ^ 31
      → right - left < fuel
      → search_restarts comparator fuel it target left right ≢ none
  unfolding search_restarts
  search_restarts-returns zero it target left right small h e = absurd (omega arith)
  search_restarts-returns (suc fuel) it target left right small h e =
      let mid = ((left + right + 1) % 2 ^ 32) / 2 in
      ground (
        arith,
        search_restarts-returns fuel it target mid right,
        search_restarts-returns fuel it target left (mid - 1),
      )

  seek_in-returns :
      (it : Iter) (target : Bytes) (left right : ℕ) (is_behind : Bool)
      → it.restarts < 2 ^ 32
      → it.num_restarts < 2 ^ 31
      → right ≤ it.num_restarts
      → seek_in comparator it target left right is_behind ≢ none
  unfolding seek_in seek_to_restart_point
  seek_in-returns it target left right is_behind small few h e =
      elim (Option-cases (search_restarts comparator (suc it.num_restarts) it target left right)) [
        | inl nowhere ↦
            search_restarts-returns (suc it.num_restarts) it target left right (omega arith)
              (omega arith) nowhere
        | inr (none, at) ↦ ground (arith, at)
        | inr (some i, at) ↦ ground (
          arith,
          at,
          scan-returns (suc it.restarts) it target,
          scan-returns (suc it.restarts) (seek_to_restart_point it i) target,
        )
      ]

  -- Seek returns on every block, also on a damaged one, as long as no entry that DecodeEntry accepts
  -- in it, at any offset, has lengths of a key and a value whose sum is 2^32 or more: the source
  -- adds them in uint32 and reads behind the block where that wraps. The block holds its restart
  -- array, which is not empty and has fewer than 2^31 entries; the offset of the array is a uint32,
  -- and the iterator's restart index is in its range.
  pub seek-returns :
      (it : Iter) (target : Bytes)
      → it.restarts < 2 ^ 32
      → 0 < it.num_restarts
      → it.num_restarts < 2 ^ 31
      → it.restarts + 4 * it.num_restarts + 4 ≤ length it.block_bytes
      → it.restart_index ≤ it.num_restarts
      → ((o s n v : ℕ) (p : Bytes)
          → decode_entry (window it o) ≡ some (s, n, v, p)
          → n + v < 2 ^ 32)
      → seek comparator it target ≢ none
  unfolding seek
  seek-returns it target small some_restarts few array h inside e = ground (
    arith,
    seek_in-returns it target it.restart_index (it.num_restarts - 1) true,
    seek_in-returns it target 0 it.restart_index false,
    seek_in-returns it target 0 (it.num_restarts - 1) false,
  )

-- SeekToLast and Prev likewise.
pub seek_to_last-returns : (it : Iter) → it.restarts < 2 ^ 32 → seek_to_last it ≢ none
unfolding seek_to_last seek_to_restart_point
seek_to_last-returns it small =
    parse_until-returns (suc it.restarts) it.restarts
      (seek_to_restart_point it (it.num_restarts - 1)) small (omega arith)

pub prev-returns : (it : Iter) → it.restarts < 2 ^ 32 → prev it ≢ none
unfolding prev seek_to_restart_point
prev-returns it small e = elim (Option-cases (restart_before it it.current it.restart_index)) [
  | inl nowhere ↦ ground (arith, nowhere)
  | inr (i, at) ↦ ground (
    arith,
    at,
    parse_until-returns (suc it.restarts) it.current (seek_to_restart_point it i) small
        (omega arith),
  )
]
