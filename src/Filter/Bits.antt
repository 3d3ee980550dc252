-- ===== src/Filter/Bits.antt =====
-- The bits of an array of bytes that a filter sets and tests.
use leveldb_chinese_annotate.Prelude.{
  ℕ, zero, suc, ◌/◌, ◌%◌, ◌^◌, ◌<◌, ◌≡◌, ◌∙◌, sym, ap, refl, arith, true, false, [], ◌∷◌, ◌==◌,
  ==_iff, length-set, if◌then◌else◌, length, get_or, set, replicate, bit_and, bit_or, All,
  Bool-cases, inl, inr,
}
use leveldb_chinese_annotate.Prelude.Bits.{tabulated, from_table}
use leveldb_chinese_annotate.Coding.{Bytes, IsByte}
use leveldb_chinese_annotate.Filter.{set_bit, test_bit}

-- A bit of a byte in which a bit has been set, over all bytes.
abbrev bit_after : ℕ → ℕ → ℕ → ℕ
bit_after i j b = bit_and (bit_or b (2 ^ i) % 256) (2 ^ j)

abbrev bit_expected : ℕ → ℕ → ℕ → ℕ
bit_expected i j b = if i == j then 2 ^ j else bit_and b (2 ^ j)

abbrev agrees : ℕ → ℕ → ℕ
agrees i j = if tabulated (bit_after i j) (bit_expected i j) 256 then 1 else 0

abbrev row : ℕ → ℕ
row i = if tabulated (agrees i) (λ j. 1) 8 then 1 else 0

rows : (i : ℕ) → i < 8 → row i ≡ 1
unfolding tabulated
rows = from_table 8 row (λ i. 1) refl

bit_after_lem : (i j b : ℕ) → i < 8 → j < 8 → b < 256 → bit_after i j b ≡ bit_expected i j b
bit_after_lem i j b hi hj hb =
    let all_j : tabulated (agrees i) (λ j. 1) 8 ≡ true = ground (arith, rows i hi) in
    let at_j : agrees i j ≡ 1 = from_table 8 (agrees i) (λ j. 1) all_j j hj in
    from_table 256 (bit_after i j) (bit_expected i j) (ground (arith, at_j)) b hb

get_or-set :
    (xs : Bytes) (i j v : ℕ)
    → i < length xs
    → get_or (set xs i v) j 0 ≡ (if i == j then v else get_or xs j 0)
get_or-set [] i j v h = absurd (omega arith)
get_or-set (x ∷ xs) zero zero v h = refl
get_or-set (x ∷ xs) zero (suc j) v h = ground arith
get_or-set (x ∷ xs) (suc i) zero v h = ground arith
get_or-set (x ∷ xs) (suc i) (suc j) v h = ground (arith, get_or-set xs i j v)

IsByte-get_or : (xs : Bytes) (i : ℕ) → All IsByte xs → get_or xs i 0 < 256
IsByte-get_or [] i h = omega arith
IsByte-get_or (x ∷ xs) zero h = h.0
IsByte-get_or (x ∷ xs) (suc i) h = IsByte-get_or xs i h.1

IsByte-set : (xs : Bytes) (i v : ℕ) → All IsByte xs → v < 256 → All IsByte (set xs i v)
IsByte-set [] i v h hv = tt
IsByte-set (x ∷ xs) zero v h hv = (hv, h.1)
IsByte-set (x ∷ xs) (suc i) v h hv = (h.0, IsByte-set xs i v h.1 hv)

pub IsByte-replicate : (n : ℕ) → All IsByte (replicate n 0)
IsByte-replicate zero = tt
IsByte-replicate (suc n) = (omega arith, IsByte-replicate n)

-- An array of bytes with this length.
pub record IsArray (n : ℕ) (array : Bytes) : Type 0 where
  pub size : length array ≡ n
  pub bytes : All IsByte array

pub IsArray-set_bit :
    (n : ℕ) (array : Bytes) (pos : ℕ) → IsArray n array → IsArray n (set_bit array pos)
unfolding set_bit
IsArray-set_bit n array pos h = record {
  size = length-set array (pos / 8) _ ∙ h.size;
  bytes = IsByte-set array (pos / 8) _ h.bytes (omega arith);
}

power_nonzero : (j : ℕ) → j < 8 → (2 ^ j == 0) ≡ false
unfolding tabulated
power_nonzero j h =
    let e : (if 2 ^ j == 0 then 0 else 1) ≡ 1 =
      from_table 8 (λ i. if 2 ^ i == 0 then 0 else 1) (λ i. 1) refl j h in
    ground (arith, e)

bit_after_set :
    (i j b : ℕ)
    → i < 8
    → j < 8
    → b < 256
    → (bit_and b (2 ^ j) == 0) ≡ false
    → (bit_after i j b == 0) ≡ false
bit_after_set i j b hi hj hb h =
    let e = bit_after_lem i j b hi hj hb in ground (arith, e, power_nonzero j hj)

-- Setting a bit keeps the bits that are set, and sets it.
pub test_bit-kept :
    (n : ℕ) (array : Bytes) (p q : ℕ)
    → IsArray n array
    → p / 8 < n
    → test_bit array q ≡ true
    → test_bit (set_bit array p) q ≡ true
unfolding test_bit set_bit
test_bit-kept n array p q ha hp h =
    let v = bit_or (get_or array (p / 8) 0) (2 ^ (p % 8)) % 256 in
    let at : get_or (set array (p / 8) v) (q / 8) 0
        ≡ (if p / 8 == q / 8 then v else get_or array (q / 8) 0) =
      get_or-set array (p / 8) (q / 8) v (omega (arith, ha.size)) in
    elim (Bool-cases (p / 8 == q / 8)) [
      | inl same ↦
          let there : get_or array (q / 8) 0 ≡ get_or array (p / 8) 0 =
            ap (λ (i : ℕ). get_or array i 0) (sym ((==_iff (p / 8) (q / 8)).0 same)) in
          let was : (bit_and (get_or array (p / 8) 0) (2 ^ (q % 8)) == 0) ≡ false =
            ground (arith, ap (λ (b : ℕ). bit_and b (2 ^ (q % 8))) there) in
          let now =
            bit_after_set (p % 8) (q % 8) (get_or array (p / 8) 0) (omega arith) (omega arith)
              (IsByte-get_or array (p / 8) ha.bytes) was in
          rw (at, same, now) refl
      | inr other ↦ rw (at, other) h
    ]

pub test_bit-set :
    (n : ℕ) (array : Bytes) (p : ℕ)
    → IsArray n array
    → p / 8 < n
    → test_bit (set_bit array p) p ≡ true
unfolding test_bit set_bit
test_bit-set n array p ha hp =
    let b = get_or array (p / 8) 0 in
    let v = bit_or b (2 ^ (p % 8)) % 256 in
    let at : get_or (set array (p / 8) v) (p / 8) 0
        ≡ (if p / 8 == p / 8 then v else get_or array (p / 8) 0) =
      get_or-set array (p / 8) (p / 8) v (omega (arith, ha.size)) in
    let same : (p / 8 == p / 8) ≡ true = (==_iff (p / 8) (p / 8)).1 refl in
    let now =
      bit_after_lem (p % 8) (p % 8) b (omega arith) (omega arith)
        (IsByte-get_or array (p / 8) ha.bytes) in
    let one : (p % 8 == p % 8) ≡ true = (==_iff (p % 8) (p % 8)).1 refl in
    rw (at, same, now, one, power_nonzero (p % 8) (omega arith)) refl
