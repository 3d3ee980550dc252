-- ===== src/Prelude/Bits.antt =====
-- `|` and `&` as arithmetic: disjoint fields, low masks, and bounds.
use Prim.Native.Nat.{
  ℕ, zero, suc, ◌+◌, ◌-◌, ◌*◌, ◌/◌, ◌%◌, ◌^◌, ◌≤◌, ◌<◌, max, bit_and, bit_or, digits,
  bit_or-bitwise,
}
use mathlib.Core.Path.{◌≡◌, refl, sym, ap, ◌∙◌}
use mathlib.Core.Bool.{Bool, true, ◌&&◌}
use native.Mathlib.Nat.{pow-suc}
use native.Mathlib.Omega.{arith}
use leveldb_chinese_annotate.Prelude.Tests.{◌==◌, ==_iff}

-- Whether two functions agree on the numbers below a bound, by evaluation.
unfoldable pub tabulated : (ℕ → ℕ) → (ℕ → ℕ) → ℕ → Bool
tabulated f g zero = true
tabulated f g (suc bound) = tabulated f g bound && (f bound == g bound)

pub from_table :
    (bound : ℕ) (f g : ℕ → ℕ) → tabulated f g bound ≡ true → (y : ℕ) → y < bound → f y ≡ g y
unfolding tabulated
from_table zero f g t y below = absurd (omega arith)
from_table (suc bound) f g t y below =
    ground (arith, ==_iff (f bound) (g bound), from_table bound f g (ground arith) y)

-- Masks on one byte.
pub byte_low : (b : ℕ) → b < 256 → bit_and b 127 ≡ b % 128
unfolding tabulated
byte_low = from_table 256 (λ y. bit_and y 127) (λ y. y % 128) refl

pub byte_top : (b : ℕ) → b < 256 → bit_and b 128 ≡ b / 128 * 128
unfolding tabulated
byte_top = from_table 256 (λ y. bit_and y 128) (λ y. y / 128 * 128) refl

-- `|` on its first `fuel` digits; digits that the left side does not have change nothing.
abbrev or_upto : ℕ → ℕ → ℕ → ℕ
or_upto fuel a b = digits (λ right. right) max fuel a b

or_upto_more : (a b fuel : ℕ) → a ≤ fuel → or_upto (suc fuel) a b ≡ or_upto fuel a b
or_upto_more (suc a) b zero enough = absurd (omega arith)
or_upto_more (suc a) b (suc fuel) enough =
    ap (λ (t : ℕ). t * 2 + max (suc a % 2) (b % 2))
      (or_upto_more (suc a / 2) (b / 2) fuel (omega arith))
or_upto_more zero b zero enough = refl
or_upto_more zero b (suc fuel) enough = refl

or_upto_slack : (spare fuel a b : ℕ) → a ≤ fuel → or_upto (spare + fuel) a b ≡ or_upto fuel a b
or_upto_slack zero fuel a b enough = ap (λ (t : ℕ). or_upto t a b) (omega arith)
or_upto_slack (suc spare) fuel a b enough =
    let one : suc spare + fuel ≡ suc (spare + fuel) = omega arith in
    ap (λ (t : ℕ). or_upto t a b) one
    ∙ or_upto_more a b (spare + fuel) (omega arith)
    ∙ or_upto_slack spare fuel a b enough

pub zero-bit_or : (b : ℕ) → bit_or 0 b ≡ b
zero-bit_or b = bit_or-bitwise 0 b

-- The law for the lowest digit.
pub bit_or_step : (a b : ℕ) → bit_or a b ≡ bit_or (a / 2) (b / 2) * 2 + max (a % 2) (b % 2)
bit_or_step zero b = omega (arith, zero-bit_or b, zero-bit_or (b / 2))
bit_or_step (suc a) b =
    let half = suc a / 2 in
    let fuel : a - half + half ≡ a = omega arith in
    let short : or_upto a half (b / 2) ≡ bit_or half (b / 2) =
      ap (λ (t : ℕ). or_upto t half (b / 2)) (sym fuel)
      ∙ or_upto_slack (a - half) half half (b / 2) (omega arith)
      ∙ sym (bit_or-bitwise half (b / 2)) in
    bit_or-bitwise (suc a) b ∙ ap (λ (t : ℕ). t * 2 + max (suc a % 2) (b % 2)) short

shift_doubles : (k q : ℕ) → 2 * (q * 2 ^ k) ≡ q * 2 ^ suc k
shift_doubles k q = rw pow-suc (omega arith)

-- `r | (q << k)` is a sum when `r` fits `k` bits.
pub bit_or-shifted : (k r q : ℕ) → r < 2 ^ k → bit_or r (q * 2 ^ k) ≡ r + q * 2 ^ k
bit_or-shifted zero zero q small = omega (arith, zero-bit_or (q * 2 ^ 0))
bit_or-shifted zero (suc r) q small = absurd (omega arith)
bit_or-shifted (suc k) r q small =
    let half : q * 2 ^ suc k / 2 ≡ q * 2 ^ k = omega (arith, shift_doubles k q) in
    let rest : bit_or (r / 2) (q * 2 ^ suc k / 2) ≡ r / 2 + q * 2 ^ k =
      ap (bit_or (r / 2)) half ∙ bit_or-shifted k (r / 2) q (omega (arith, pow-suc 2 k)) in
    omega (arith, rest, shift_doubles k q, bit_or_step r (q * 2 ^ suc k))

-- The bits of a disjunction are those of its sides.
pub bit_or_bound : (k a b : ℕ) → a < 2 ^ k → b < 2 ^ k → bit_or a b < 2 ^ k
bit_or_bound zero zero b ha hb = omega (arith, zero-bit_or b)
bit_or_bound zero (suc a) b ha hb = absurd (omega arith)
bit_or_bound (suc k) a b ha hb = omega (
  arith,
  bit_or_step a b,
  pow-suc 2 k,
  bit_or_bound k (a / 2) (b / 2) (omega (arith, pow-suc 2 k)) (omega (arith, pow-suc 2 k)),
)

bit_or-zero_below : (bound a : ℕ) → a < bound → bit_or a 0 ≡ a
bit_or-zero_below zero a below = absurd (omega arith)
bit_or-zero_below (suc bound) zero below = zero-bit_or 0
bit_or-zero_below (suc bound) (suc a) below =
    let halved = bit_or-zero_below bound (suc a / 2) (omega arith) in
    omega (arith, halved, bit_or_step (suc a) 0)

pub bit_or-zero : (a : ℕ) → bit_or a 0 ≡ a
bit_or-zero a = bit_or-zero_below (suc a) a (omega arith)

bit_or-one : (a : ℕ) → bit_or a 1 ≡ a / 2 * 2 + 1
bit_or-one a = omega (arith, bit_or_step a 1, bit_or-zero (a / 2))

bit_or-eight : (a : ℕ) → bit_or a 8 ≡ a / 16 * 16 + 8 + a % 8
bit_or-eight a = omega (
  arith,
  bit_or_step a 8,
  bit_or_step (a / 2) 4,
  bit_or_step (a / 2 / 2) 2,
  bit_or-one (a / 2 / 2 / 2),
)

-- `v | 128`, kept in a byte, is the low group of `v` with the top bit set.
pub or_128 : (v : ℕ) → bit_or v 128 % 256 ≡ v % 128 + 128
or_128 v = omega (
  arith,
  bit_or_step v 128,
  bit_or_step (v / 2) 64,
  bit_or_step (v / 2 / 2) 32,
  bit_or_step (v / 2 / 2 / 2) 16,
  bit_or-eight (v / 2 / 2 / 2 / 2),
)
