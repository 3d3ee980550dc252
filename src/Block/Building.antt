-- ===== src/Block/Building.antt =====
-- What BlockBuilder of table/block_builder.cc has in its buffer after some entries.
use mathlib.Core.Path.{subst}
use leveldb_chinese_annotate.Prelude.{
  ℕ, ◌-◌, ◌*◌, ◌%◌, ◌^◌, ◌≤◌, ◌≡◌, refl, sym, ap, ◌∙◌, arith, Bool, true, false, List, [], ◌∷◌,
  ◌++◌, ltb, if◌then◌else◌, length, length-drop, take, drop, take-append-drop, take_all, min,
  append_assoc, append-nil, All, Bool-cases, inl, inr,
}
use leveldb_chinese_annotate.Coding.{Bytes, encode_fixed32, put_fixed32}
use leveldb_chinese_annotate.Comparator.{shared_prefix}
use leveldb_chinese_annotate.Block.{BlockBuilder, new_builder, add, put_entry, finish, put_restarts}
use leveldb_chinese_annotate.Block.Entries.{
  IsShortEntry, Encoded, Encoded-append, put_entry-bytes, shared_prefix-agrees,
}

-- The buffer holds the entries, and there is a restart point at 0.
pub record IsBuilt (entries : List (Bytes × Bytes)) (b : BlockBuilder) : Type 0 where
  pub encoded : Encoded [] entries b.buffer b.last_key
  pub others : List ℕ
  pub first_restart : b.restarts ≡ 0 ∷ others

pub new_builder-IsBuilt : IsBuilt [] new_builder
new_builder-IsBuilt = record { encoded = Encoded.nothing []; others = []; first_restart = refl }

-- The shared length that Add computes.
abbrev shared_of : ℕ → BlockBuilder → Bytes → ℕ
shared_of interval b key =
    if ltb b.counter interval
    then shared_prefix (min (length b.last_key) (length key)) b.last_key key
    else 0

shared_of-agrees :
    (interval : ℕ) (b : BlockBuilder) (key : Bytes)
    → (shared_of interval b key ≤ length b.last_key)
      × (shared_of interval b key ≤ length key)
      × (take (shared_of interval b key) b.last_key ≡ take (shared_of interval b key) key)
shared_of-agrees interval b key = elim (Bool-cases (ltb b.counter interval)) [
  | inl goes ↦ rw goes (shared_prefix-agrees (min (length b.last_key) (length key)) b.last_key key)
  | inr stops ↦ rw stops (omega arith, omega arith, refl)
]

whole_key :
    (n : ℕ) (last key : Bytes)
    → n ≤ length key
    → take n last ≡ take n key
    → take n last ++ take (length key - n) (drop n key) ≡ key
whole_key n last key h e =
    ap (λ (front : Bytes). front ++ take (length key - n) (drop n key)) e
    ∙ ap (λ (back : Bytes). take n key ++ back)
        (take_all (length key - n) (drop n key) (omega (arith, length-drop n key)))
    ∙ take-append-drop n key

-- Add keeps the invariant.
pub add-IsBuilt :
    (interval : ℕ) (b : BlockBuilder) (key value : Bytes) (entries : List (Bytes × Bytes))
    → IsShortEntry (key, value)
    → IsBuilt entries b
    → IsBuilt (entries ++ ((key, value) ∷ [])) (add interval b key value)
unfolding add
add-IsBuilt interval b key value entries hs built =
    let n = shared_of interval b key in
    let (hl, hk, e) = shared_of-agrees interval b key in
    let bytes = put_entry-bytes b.buffer key value n hk hs in
    let snoc = Encoded-append key value n hl hk e hs built.encoded in
    let c = ltb b.counter interval in
    record {
      encoded =
          subst
            (λ last.
              Encoded [] (entries ++ ((key, value) ∷ [])) (put_entry b.buffer n key value) last)
            (sym (whole_key n b.last_key key hk e))
            (subst (λ buffer. Encoded [] (entries ++ ((key, value) ∷ [])) buffer key) (sym bytes)
              snoc);
      others = if c then built.others else built.others ++ ((length b.buffer % 2 ^ 32) ∷ []);
      first_restart =
          restarts c b.restarts built.others (length b.buffer % 2 ^ 32) built.first_restart;
    }
  where
    restarts :
        (c : Bool) (old others : List ℕ) (r : ℕ)
        → old ≡ 0 ∷ others
        → (if c then old else old ++ (r ∷ [])) ≡ 0 ∷ (if c then others else others ++ (r ∷ []))
    restarts true old others r e = e
    restarts false old others r e = ap (λ (l : List ℕ). l ++ (r ∷ [])) e

-- Add for each of the entries.
abbrev pub add_all : ℕ → BlockBuilder → List (Bytes × Bytes) → BlockBuilder
add_all interval b [] = b
add_all interval b ((key, value) ∷ entries) = add_all interval (add interval b key value) entries

add_all_from :
    (interval : ℕ) (b : BlockBuilder) (done entries : List (Bytes × Bytes))
    → All IsShortEntry entries
    → IsBuilt done b
    → IsBuilt (done ++ entries) (add_all interval b entries)
add_all_from interval b done [] h built = rw append-nil built
add_all_from interval b done ((key, value) ∷ entries) h built =
    subst (λ l. IsBuilt l (add_all interval (add interval b key value) entries))
      (append_assoc done ((key, value) ∷ []) entries)
      (add_all_from interval (add interval b key value) (done ++ ((key, value) ∷ [])) entries h.1
        (add-IsBuilt interval b key value done h.0 built))

pub add_all-IsBuilt :
    (interval : ℕ) (entries : List (Bytes × Bytes))
    → All IsShortEntry entries
    → IsBuilt entries (add_all interval new_builder entries)
add_all-IsBuilt interval entries h =
    add_all_from interval new_builder [] entries h new_builder-IsBuilt

-- The restart array as bytes.
abbrev pub restart_bytes : List ℕ → Bytes
restart_bytes [] = []
restart_bytes (r ∷ restarts) = encode_fixed32 r ++ restart_bytes restarts

pub put_restarts-bytes :
    (buffer : Bytes) (restarts : List ℕ)
    → put_restarts buffer restarts ≡ buffer ++ restart_bytes restarts
unfolding put_restarts put_fixed32
put_restarts-bytes buffer [] = sym (append-nil buffer)
put_restarts-bytes buffer (r ∷ restarts) =
    put_restarts-bytes (buffer ++ encode_fixed32 r) restarts
    ∙ append_assoc buffer (encode_fixed32 r) (restart_bytes restarts)

pub length-restart_bytes :
    (restarts : List ℕ) → length (restart_bytes restarts) ≡ length restarts * 4
unfolding encode_fixed32
length-restart_bytes [] = refl
length-restart_bytes (r ∷ restarts) = omega (arith, length-restart_bytes restarts)

-- Finish appends the restart array and its length.
pub finish-bytes :
    (b : BlockBuilder)
    → (finish b).buffer
      ≡ b.buffer ++ (restart_bytes b.restarts ++ encode_fixed32 (length b.restarts % 2 ^ 32))
unfolding finish put_fixed32
finish-bytes b =
    ap (λ (front : Bytes). front ++ encode_fixed32 (length b.restarts % 2 ^ 32))
      (put_restarts-bytes b.buffer b.restarts)
    ∙ append_assoc b.buffer (restart_bytes b.restarts) (encode_fixed32 (length b.restarts % 2 ^ 32))
