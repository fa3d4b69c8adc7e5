-- ===== src/Prelude/Bits/Bound.antt =====
-- Bounds on `&` and `|`, and `&` with one bit.
use rir.Prelude.Tests.{◌==◌, ==_refl, if◌then◌else◌, Bool-cases}
use Prim.Native.Nat.{ℕ, zero, suc, ◌/◌, ◌≤◌, ◌<◌, ◌^◌, bit_and, bit_or}
use mathlib.Core.Path.{◌≡◌, ap}
use mathlib.Core.Logic.{inl, inr}
use mathlib.Core.Bool.{true, false}
use native.Mathlib.Omega.{arith}
use native.Mathlib.Nat.{pow-suc, one-le-pow, pow-le-pow_right}
use rir.Prelude.Bits.{bit, bit-ext, bit-bit_and, bit-bit_or, bit-two_pow, bit-zero, bit_above}

-- A word whose bits stop at `w` fits `w` bits.
pub lt_of_bits : (w n : ℕ) → ((i : ℕ) → w ≤ i → bit n i ≡ false) → n < 2 ^ w
unfolding bit
lt_of_bits zero n h =
    let e : n ≡ 0 = bit-ext n 0 (λ i. ground (arith, h i (omega arith), bit-zero i)) in omega arith
lt_of_bits (suc w) n h =
    omega (arith, pow-suc 2 w, lt_of_bits w (n / 2) (λ i p. h (suc i) (omega arith)))

pub bit_and-lt : (w a b : ℕ) → a < 2 ^ w → bit_and a b < 2 ^ w
bit_and-lt w a b p = lt_of_bits w _ λ i h. ground (arith, bit-bit_and a b i, bit_above w a i p h)

pub bit_or-lt : (w a b : ℕ) → a < 2 ^ w → b < 2 ^ w → bit_or a b < 2 ^ w
bit_or-lt w a b p q =
    lt_of_bits w _ λ i h. ground (arith, bit-bit_or a b i, bit_above w a i p h, bit_above w b i q h)

pub two_pow-lt : (e w : ℕ) → e < w → 2 ^ e < 2 ^ w
two_pow-lt e w h = omega (
  arith,
  pow-suc 2 e,
  one-le-pow e 2 (omega arith),
  pow-le-pow_right {n = 2} (omega arith) {i = suc e} {j = w} (omega arith),
)

-- `&` with one bit is zero exactly when the bit is not set.
pub bit_and-two_pow : (e s : ℕ) → (bit_and (2 ^ e) s == 0) ≡ (if bit s e then false else true)
bit_and-two_pow e s = elim (Bool-cases (bit s e)) [
  | inl on ↦ rw on (
      ground (
        arith,
        bit-bit_and (2 ^ e) s e,
        bit-two_pow e e,
        ==_refl e,
        on,
        bit-zero e,
        ap (λ (n : ℕ). bit n e) {x = bit_and (2 ^ e) s} {y = 0},
      ))
  | inr off ↦ rw off (
      let z : bit_and (2 ^ e) s ≡ 0 =
        bit-ext _ 0 (λ i. ground (arith, bit-bit_and (2 ^ e) s i, bit-two_pow e i, bit-zero i)) in
      rw z)
]
