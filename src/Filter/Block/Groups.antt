-- ===== src/Filter/Block/Groups.antt =====
-- FilterBlockBuilder of table/filter_block.cc as groups of keys: one for each filter that is made, and
-- the keys for the next one.
use leveldb_chinese_annotate.Prelude.{
  ℕ, zero, suc, ◌+◌, ◌-◌, ◌%◌, ◌^◌, ◌≡◌, ◌∙◌, sym, ap, refl, arith, true, false, List, [], ◌∷◌,
  ◌++◌, append_assoc, append-nil, ◌==◌, length, length-append, take, take-append, drop, drop-append,
}
use leveldb_chinese_annotate.Coding.{Bytes}
use leveldb_chinese_annotate.Filter.Policy.{FilterPolicy}
use leveldb_chinese_annotate.Filter.Block.{
  FilterBlockBuilder, new_builder, slices, generate_filter, generate_filters, add_key,
}

-- Keys one behind the other, and where they start.
abbrev pub joined : List Bytes → Bytes
joined [] = []
joined (k ∷ ks) = k ++ joined ks

abbrev pub starts_of : ℕ → List Bytes → List ℕ
starts_of from [] = []
starts_of from (k ∷ ks) = from ∷ starts_of (from + length k) ks

length-starts_of : (from : ℕ) (ks : List Bytes) → length (starts_of from ks) ≡ length ks
length-starts_of from [] = refl
length-starts_of from (k ∷ ks) = omega (arith, length-starts_of (from + length k) ks)

joined-append : (ks : List Bytes) (k : Bytes) → joined (ks ++ (k ∷ [])) ≡ joined ks ++ k
joined-append [] k = append-nil k
joined-append (x ∷ ks) k =
    ap (λ (t : Bytes). x ++ t) (joined-append ks k) ∙ sym (append_assoc x (joined ks) k)

starts_of-append :
    (from n : ℕ) (ks : List Bytes) (k : Bytes)
    → n ≡ from + length (joined ks)
    → starts_of from (ks ++ (k ∷ [])) ≡ starts_of from ks ++ (n ∷ [])
starts_of-append from n [] k e = ap (λ (t : ℕ). t ∷ []) (omega (arith, e))
starts_of-append from n (x ∷ ks) k e =
    ap (λ (t : List ℕ). from ∷ t)
      (starts_of-append (from + length x) n ks k (omega (arith, e, length-append x (joined ks))))

pub cut_at :
    (front k rest : Bytes) (from m : ℕ) (whole : Bytes)
    → from ≡ length front
    → whole ≡ front ++ (k ++ rest)
    → m ≡ length k
    → take m (drop from whole) ≡ k
cut_at front k rest from m whole e w em =
    ap (λ (t : Bytes). take m (drop from t)) w
    ∙ ap (take m) (drop-append from front (k ++ rest) (sym e))
    ∙ take-append m k rest (sym em)

-- The slices between the starts and the end are the keys.
slices-starts_of :
    (front : Bytes) (ks : List Bytes) (from n : ℕ) (whole : Bytes)
    → from ≡ length front
    → whole ≡ front ++ joined ks
    → n ≡ length whole
    → slices whole (starts_of from ks ++ (n ∷ [])) ≡ ks
unfolding slices
slices-starts_of front [] from n whole e w en = refl
slices-starts_of front (k ∷ []) from n whole e w en =
    let cut : take (n - from) (drop from whole) ≡ k =
      cut_at front k [] from (n - from) whole e w
        (omega (arith, e, en, ap length w, length-append front (k ++ []), length-append k [])) in
    ap (λ (t : Bytes). t ∷ []) cut
slices-starts_of front (k ∷ x ∷ ks) from n whole e w en =
    let cut : take (from + length k - from) (drop from whole) ≡ k =
      cut_at front k (joined (x ∷ ks)) from (from + length k - from) whole e w (omega arith) in
    let later =
      slices-starts_of (front ++ k) (x ∷ ks) (from + length k) n whole
        (omega (arith, e, length-append front k)) (w ∙ sym (append_assoc front k (joined (x ∷ ks))))
        en in
    ap (λ (t : Bytes). t ∷ slices whole (starts_of (from + length k) (x ∷ ks) ++ (n ∷ []))) cut
    ∙ ap (λ (t : List Bytes). k ∷ t) later

-- StartBlock makes the filter of the pending keys, and empty ones up to that of the offset.
abbrev pub padded : ℕ → List (List Bytes) → List Bytes → List (List Bytes)
padded zero done pending = done
padded (suc n) done pending = padded n (done ++ (pending ∷ [])) []

abbrev pub left_over : ℕ → List Bytes → List Bytes
left_over zero pending = pending
left_over (suc n) pending = []

module _ (policy : FilterPolicy) where
  abbrev pub filter_of : List Bytes → Bytes
  filter_of [] = []
  filter_of (k ∷ ks) = policy.make (k ∷ ks) []

  -- The filters one behind the other, and where they start, in uint32.
  abbrev pub filters : List (List Bytes) → Bytes
  filters [] = []
  filters (g ∷ gs) = filter_of g ++ filters gs

  abbrev pub offsets_of : ℕ → List (List Bytes) → List ℕ
  offsets_of from [] = []
  offsets_of from (g ∷ gs) = (from % 2 ^ 32) ∷ offsets_of (from + length (filter_of g)) gs

  filters-append :
      (gs : List (List Bytes)) (g : List Bytes)
      → filters (gs ++ (g ∷ [])) ≡ filters gs ++ filter_of g
  filters-append [] g = append-nil (filter_of g)
  filters-append (x ∷ gs) g =
      ap (λ (t : Bytes). filter_of x ++ t) (filters-append gs g)
      ∙ sym (append_assoc (filter_of x) (filters gs) (filter_of g))

  offsets_of-append :
      (from n : ℕ) (gs : List (List Bytes)) (g : List Bytes)
      → n ≡ from + length (filters gs)
      → offsets_of from (gs ++ (g ∷ [])) ≡ offsets_of from gs ++ ((n % 2 ^ 32) ∷ [])
  offsets_of-append from n [] g e = ap (λ (t : ℕ). (t % 2 ^ 32) ∷ []) (omega (arith, e))
  offsets_of-append from n (x ∷ gs) g e =
      ap (λ (t : List ℕ). (from % 2 ^ 32) ∷ t)
        (offsets_of-append (from + length (filter_of x)) n gs g
          (omega (arith, e, length-append (filter_of x) (filters gs))))

  pub length-offsets_of :
      (from : ℕ) (gs : List (List Bytes)) → length (offsets_of from gs) ≡ length gs
  length-offsets_of from [] = refl
  length-offsets_of from (g ∷ gs) =
      omega (arith, length-offsets_of (from + length (filter_of g)) gs)

  -- The builder has made the filters of `done`, and has the keys of `pending` for the next one.
  pub record IsGrouped (done : List (List Bytes)) (pending : List Bytes) (b : FilterBlockBuilder)
      : Type 0 where
    pub keys_in : b.keys ≡ joined pending
    pub starts : b.start ≡ starts_of 0 pending
    pub made : b.result ≡ filters done
    pub offsets : b.filter_offsets ≡ offsets_of 0 done

  pub new_builder-IsGrouped : IsGrouped [] [] new_builder
  new_builder-IsGrouped = record { keys_in = refl; starts = refl; made = refl; offsets = refl }

  pub add_key-IsGrouped :
      (done : List (List Bytes)) (pending : List Bytes) (b : FilterBlockBuilder) (key : Bytes)
      → IsGrouped done pending b
      → IsGrouped done (pending ++ (key ∷ [])) (add_key policy b key)
  unfolding add_key
  add_key-IsGrouped done pending b key h = record {
    keys_in = ap (λ (t : Bytes). t ++ key) h.keys_in ∙ sym (joined-append pending key);
    starts =
        ap (λ (t : List ℕ). t ++ (length b.keys ∷ [])) h.starts
        ∙ sym (starts_of-append 0 (length b.keys) pending key (omega (arith, ap length h.keys_in)));
    made = h.made;
    offsets = h.offsets;
  }

  sliced :
      (done : List (List Bytes)) (pending : List Bytes) (b : FilterBlockBuilder)
      → IsGrouped done pending b
      → slices b.keys (b.start ++ (length b.keys ∷ [])) ≡ pending
  sliced done pending b h =
      ap (λ (t : List ℕ). slices b.keys (t ++ (length b.keys ∷ []))) h.starts
      ∙ slices-starts_of [] pending 0 (length b.keys) b.keys refl h.keys_in refl

  next_offset :
      (done : List (List Bytes)) (pending : List Bytes) (b : FilterBlockBuilder)
      → IsGrouped done pending b
      → b.filter_offsets ++ ((length b.result % 2 ^ 32) ∷ [])
        ≡ offsets_of 0 (done ++ (pending ∷ []))
  next_offset done pending b h =
      ap (λ (t : List ℕ). t ++ ((length b.result % 2 ^ 32) ∷ [])) h.offsets
      ∙ sym (offsets_of-append 0 (length b.result) done pending (omega (arith, ap length h.made)))

  pub generate_filter-IsGrouped :
      (done : List (List Bytes)) (pending : List Bytes) (b : FilterBlockBuilder)
      → IsGrouped done pending b
      → IsGrouped (done ++ (pending ∷ [])) [] (generate_filter policy b)
  unfolding generate_filter
  generate_filter-IsGrouped done [] b h =
      let none_yet : (length b.start == 0) ≡ true = ap (λ (t : List ℕ). length t == 0) h.starts in
      rw none_yet (record {
        keys_in = h.keys_in;
        starts = h.starts;
        made = h.made ∙ sym (append-nil (filters done)) ∙ sym (filters-append done []);
        offsets = next_offset done [] b h;
      })
  generate_filter-IsGrouped done (k ∷ ks) b h =
      let some_keys : (length b.start == 0) ≡ false = ground (arith, ap length h.starts) in
      let made : policy.make (slices b.keys (b.start ++ (length b.keys ∷ []))) b.result
          ≡ filters (done ++ ((k ∷ ks) ∷ [])) =
        ap (λ (t : List Bytes). policy.make t b.result) (sliced done (k ∷ ks) b h)
        ∙ policy.appends (k ∷ ks) b.result
        ∙ ap (λ (t : Bytes). t ++ policy.make (k ∷ ks) []) h.made
        ∙ sym (filters-append done (k ∷ ks)) in
      rw some_keys (record {
        keys_in = refl;
        starts = refl;
        made = made;
        offsets = next_offset done (k ∷ ks) b h;
      })

  pub generate_filters-IsGrouped :
      (n : ℕ) (done : List (List Bytes)) (pending : List Bytes) (b : FilterBlockBuilder)
      → IsGrouped done pending b
      → IsGrouped (padded n done pending) (left_over n pending) (generate_filters policy n b)
  unfolding generate_filters
  generate_filters-IsGrouped zero done pending b h = h
  generate_filters-IsGrouped (suc zero) done pending b h =
      generate_filter-IsGrouped done pending b h
  generate_filters-IsGrouped (suc (suc n)) done pending b h =
      generate_filters-IsGrouped (suc n) (done ++ (pending ∷ [])) [] (generate_filter policy b)
        (generate_filter-IsGrouped done pending b h)
