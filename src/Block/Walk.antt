-- ===== src/Block/Walk.antt =====
-- Block::Iter of table/block.cc on the bytes of encoded entries: entry by entry.
use mathlib.Core.Path.{subst}
use leveldb_chinese_annotate.Prelude.{
  ℕ, zero, suc, ◌+◌, ◌-◌, ◌^◌, ◌<◌, ◌≤◌, ◌≡◌, refl, sym, ap, ◌∙◌, arith, Bool, true, false, ◌&&◌,
  List, [], ◌∷◌, ◌++◌, some, ltb, length, length-append, length-drop, length-take, take, drop,
  take-append-drop, take-append, drop-append, drop-drop, append_assoc, Bool-cases, inl, inr, lt→ltb,
}
use leveldb_chinese_annotate.Coding.{Bytes, encode_varint32}
use leveldb_chinese_annotate.Status.{Status}
use leveldb_chinese_annotate.Block.Iter.{
  Iter, decode_entry, next_entry_offset, value_of, valid, window, advance_restart,
  get_restart_point, parse_next_key, next,
}
use leveldb_chinese_annotate.Block.Entries.{
  entry_bytes, IsShortEntry, Encoded, decode_entry-bytes, length-entry_bytes,
}

-- The iterator yields the entries, its own first, and then is not valid, with no error.
pub data Walks : Iter → List (Bytes × Bytes) → Type 0 where
  past_end : (it : Iter) → valid it ≡ false → it.status ≡ Status.ok → Walks it []
  at_entry :
      (it : Iter) {entries : List (Bytes × Bytes)}
      → valid it ≡ true
      → Walks (next it) entries
      → Walks it ((it.key, value_of it) ∷ entries)

-- The loop over the restart points changes the restart index only.
pub advance_restart-index :
    (fuel : ℕ) (it : Iter) → (k : ℕ) × (advance_restart fuel it ≡ record it { restart_index = k })
unfolding advance_restart
advance_restart-index zero it = (it.restart_index, refl)
advance_restart-index (suc fuel) it =
    let test =
      ltb (it.restart_index + 1) it.num_restarts
      && ltb (get_restart_point it (it.restart_index + 1)) it.current in
    elim (Bool-cases test) [
      | inl goes ↦
          let (k, e) =
            advance_restart-index fuel (record it { restart_index = it.restart_index + 1 }) in
          (k, rw goes e)
      | inr stops ↦ (it.restart_index, rw stops refl)
    ]

-- Bytes in front of a bound are those of the list cut at the bound.
take-drop-take :
    (n o r : ℕ) (bytes : Bytes) → o + n ≤ r → take n (drop o (take r bytes)) ≡ take n (drop o bytes)
take-drop-take zero o r bytes h = refl
take-drop-take (suc n) zero zero bytes h = absurd (omega arith)
take-drop-take (suc n) zero (suc r) [] h = refl
take-drop-take (suc n) zero (suc r) (b ∷ bytes) h =
    ap (◌∷◌ b) (take-drop-take n zero r bytes (omega arith))
take-drop-take (suc n) (suc o) zero bytes h = absurd (omega arith)
take-drop-take (suc n) (suc o) (suc r) [] h = refl
take-drop-take (suc n) (suc o) (suc r) (b ∷ bytes) h =
    take-drop-take (suc n) o r bytes (omega arith)

length-window :
    (it : Iter) (offset : ℕ)
    → it.restarts ≤ length it.block_bytes
    → length (window it offset) ≡ it.restarts - offset
length-window it offset h = omega (
  arith,
  length-drop offset (take it.restarts it.block_bytes),
  length-take it.restarts it.block_bytes,
)

parse_at_end :
    (it : Iter)
    → it.restarts ≤ next_entry_offset it
    → parse_next_key it
      ≡ (false, record it { current = it.restarts; restart_index = it.num_restarts })
unfolding parse_next_key
parse_at_end it h = ground arith

-- The iterator on the entry that begins behind this one.
abbrev at_next : Iter → ℕ → Bytes → ℕ → ℕ → Iter
at_next it index key offset size = record it {
  current = next_entry_offset it;
  restart_index = index;
  key = key;
  value_offset = offset;
  value_size = size;
}

parse_found :
    (it : Iter) (shared non_shared value_length : ℕ) (p : Bytes)
    → next_entry_offset it < it.restarts
    → shared ≤ length it.key
    → decode_entry (window it (next_entry_offset it)) ≡ some (shared, non_shared, value_length, p)
    → parse_next_key it ≡ (
      true,
      advance_restart it.num_restarts (
          at_next it it.restart_index
            (take shared it.key ++ take non_shared p)
            (it.restarts - length p + non_shared)
            value_length),
    )
unfolding parse_next_key
parse_found it shared non_shared value_length p h hs e = ground arith

abbrev goes : Iter → Bool × Iter
goes it = (true, it)

parse_entry :
    (it : Iter) (shared non_shared value_length : ℕ) (p : Bytes)
    → next_entry_offset it < it.restarts
    → shared ≤ length it.key
    → decode_entry (window it (next_entry_offset it)) ≡ some (shared, non_shared, value_length, p)
    → (index : ℕ) × (parse_next_key it ≡ (
      true,
      at_next it index
          (take shared it.key ++ take non_shared p)
          (it.restarts - length p + non_shared)
          value_length,
    ))
parse_entry it shared non_shared value_length p h hs e =
    let key = take shared it.key ++ take non_shared p in
    let offset = it.restarts - length p + non_shared in
    let (k, adv) =
      advance_restart-index it.num_restarts (at_next it it.restart_index key offset value_length) in
    (k, parse_found it shared non_shared value_length p h hs e ∙ ap (λ (it3 : Iter). goes it3) adv)

-- An entry is a header of three bytes at least, and then the rest of the key and the value.
entry_header :
    (key value : Bytes) (shared : ℕ)
    → shared ≤ length key
    → IsShortEntry (key, value)
    → (header : Bytes) × (entry_bytes shared key value ≡ header ++ (drop shared key ++ value))
      × (3 ≤ length header)
entry_header key value shared hk hs =
    let s = encode_varint32 shared in
    let u = encode_varint32 (length key - shared) in
    let v = encode_varint32 (length value) in
    let tail = drop shared key ++ value in
    let e : entry_bytes shared key value ≡ (s ++ (u ++ v)) ++ tail = simp append_assoc in
    (
      s ++ (u ++ v),
      e,
      omega (
        arith,
        ap length e,
        length-append (s ++ (u ++ v)) tail,
        length-entry_bytes key value shared hk hs,
      ),
    )

drop_behind :
    (off h : ℕ) (bytes header p : Bytes)
    → drop off bytes ≡ header ++ p
    → length header ≡ h
    → drop (off + h) bytes ≡ p
drop_behind off h bytes header p w e =
    sym (drop-drop off h (off + h) bytes refl) ∙ ap (drop h) w ∙ drop-append h header p e

-- Where the entries behind the iterator begin with this one, that is the entry it goes to.
parse_encoded :
    (it : Iter) (key value out : Bytes) (shared : ℕ)
    → it.restarts ≤ length it.block_bytes
    → it.restarts < 2 ^ 32
    → shared ≤ length it.key
    → shared ≤ length key
    → take shared it.key ≡ take shared key
    → IsShortEntry (key, value)
    → window it (next_entry_offset it) ≡ entry_bytes shared key value ++ out
    → (index : ℕ) × (offset : ℕ) × (parse_next_key it
        ≡ (true, at_next it index key offset (length value)))
      × (next_entry_offset it < it.restarts)
      × (offset + length value ≤ it.restarts)
      × (window it (offset + length value) ≡ out)
      × (take (length value) (drop offset it.block_bytes) ≡ value)
parse_encoded it key value out shared inside small hl hk e hs w =
    let off = next_entry_offset it in
    let cut = take it.restarts it.block_bytes in
    let n = length key - shared in
    let rest = drop shared key in
    let p = (rest ++ value) ++ out in
    let (header, eh, three) = entry_header key value shared hk hs in
    let h = length header in
    let at : drop off cut ≡ header ++ p =
      w ∙ ap (λ (b : Bytes). b ++ out) eh ∙ append_assoc header (rest ++ value) out in
    let total : h + length p ≡ it.restarts - off =
      sym (length-append header p) ∙ sym (ap length at) ∙ length-window it off inside in
    let lr : length rest ≡ n = length-drop shared key in
    let split : length p ≡ n + (length value + length out) =
      omega (arith, length-append (rest ++ value) out, length-append rest value, lr) in
    let offset = off + h + n in
    let same : it.restarts - length p + n ≡ offset = omega (arith, total, three) in
    let at_rest : drop (off + h) cut ≡ rest ++ (value ++ out) =
      drop_behind off h cut header p at refl ∙ append_assoc rest value out in
    let at_value : drop offset cut ≡ value ++ out =
      drop_behind (off + h) n cut rest (value ++ out) at_rest lr in
    let read : decode_entry (window it off) ≡ some (shared, n, length value, p) =
      ap decode_entry w
      ∙ decode_entry-bytes key value out shared hk hs
          (omega (arith, ap length w, length-window it off inside)) in
    let (index, parsed) =
      parse_entry it shared n (length value) p (omega (arith, total, three)) hl read in
    let whole : take shared it.key ++ take n p ≡ key =
      ap (λ (f : Bytes). f ++ take n p) e
      ∙ ap (λ (b : Bytes). take shared key ++ b)
          (ap (take n) (append_assoc rest value out) ∙ take-append n rest (value ++ out) lr)
      ∙ take-append-drop shared key in
    (
      index,
      offset,
      parsed
          ∙ ap
              (λ (k : Bytes). goes (at_next it index k (it.restarts - length p + n) (length value)))
              whole
          ∙ ap (λ (o : ℕ). goes (at_next it index key o (length value))) same,
      omega (arith, total, three),
      omega (arith, total, three, split),
      drop_behind offset (length value) cut value out at_value refl,
      sym (
            take-drop-take (length value) offset it.restarts it.block_bytes
              (omega (arith, total, three, split)))
          ∙ ap (take (length value)) at_value
          ∙ take-append (length value) value out refl,
    )

-- ParseNextKey, and Next after it, go through the encoded entries.
pub parse-Walks :
    (it : Iter) (previous : Bytes) (entries : List (Bytes × Bytes)) (out last : Bytes)
    → it.status ≡ Status.ok
    → it.restarts ≤ length it.block_bytes
    → it.restarts < 2 ^ 32
    → next_entry_offset it ≤ it.restarts
    → it.key ≡ previous
    → window it (next_entry_offset it) ≡ out
    → Encoded previous entries out last
    → Walks (parse_next_key it).1 entries
unfolding next
parse-Walks it previous _ _ last fine inside small below ek w (Encoded.nothing _) =
    let over : it.restarts ≤ next_entry_offset it =
      omega (arith, ap length w, length-window it (next_entry_offset it) inside) in
    let stop = record it { current = it.restarts; restart_index = it.num_restarts } in
    subst (λ (r : Bool × Iter). Walks r.1 []) (sym (parse_at_end it over))
      (Walks.past_end stop (ground arith) fine)
parse-Walks it previous _ _ last fine inside small below ek w
      (Encoded.entry _ key value shared {entries = entries} {out = out} hp hk e hs rest) =
    let (index, offset, parsed, less, below', w', ev) =
      parse_encoded it key value out shared inside small (omega (arith, ap length ek)) hk
        (ap (take shared) ek ∙ e) hs w in
    let it1 = at_next it index key offset (length value) in
    let exact : next_entry_offset it1 ≡ offset + length value = omega (arith, below', small) in
    let later =
      parse-Walks it1 key entries out last fine inside small (omega (arith, exact, below')) refl
        (ap (λ (o : ℕ). drop o (take it.restarts it.block_bytes)) exact ∙ w') rest in
    subst (λ (r : Bool × Iter). Walks r.1 ((key, value) ∷ entries)) (sym parsed)
      (subst (λ (v : Bytes). Walks it1 ((key, v) ∷ entries)) ev
        (Walks.at_entry it1 (lt→ltb _ _ less) later))
