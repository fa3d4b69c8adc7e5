-- ===== src/Prelude/Bits/Count.antt =====
-- The population count against inclusion: it is monotone, and tells a word from its subsets.
use Prim.Native.Nat.{ℕ, zero, suc, ◌/◌, ◌%◌, ◌≤◌, ◌<◌, ◌^◌}
use mathlib.Core.Path.{◌≡◌, refl}
use native.Mathlib.Omega.{arith}
use native.Mathlib.Nat.{pow-suc}
use rir.Prelude.Bits.{bit, popcount}
use rir.Prelude.Bits.Subset.{Subset}

Subset-half : (a b : ℕ) → Subset b a → Subset (b / 2) (a / 2)
unfolding bit
Subset-half a b h i p = h (suc i) p

low_digit : (a b : ℕ) → Subset b a → b % 2 ≤ a % 2
unfolding bit
low_digit a b h = ground (arith, h 0)

pub popcount_mono : (w a b : ℕ) → Subset b a → popcount w b ≤ popcount w a
unfolding popcount
popcount_mono zero a b h = omega arith
popcount_mono (suc w) a b h =
    omega (arith, low_digit a b h, popcount_mono w (a / 2) (b / 2) (Subset-half a b h))

pub popcount-eq :
    (w a b : ℕ) → a < 2 ^ w → b < 2 ^ w → Subset b a → popcount w a ≡ popcount w b → a ≡ b
unfolding popcount
popcount-eq zero a b p q h e = omega arith
popcount-eq (suc w) a b p q h e = omega (
  arith,
  pow-suc 2 w,
  low_digit a b h,
  popcount_mono w (a / 2) (b / 2) (Subset-half a b h),
  popcount-eq w (a / 2) (b / 2) (omega (arith, pow-suc 2 w)) (omega (arith, pow-suc 2 w))
      (Subset-half a b h)
      (omega (arith, low_digit a b h, popcount_mono w (a / 2) (b / 2) (Subset-half a b h))),
)

-- Bits past the width are not counted.
pub popcount-le : (w n : ℕ) → popcount w n ≤ w
unfolding popcount
popcount-le zero n = omega arith
popcount-le (suc w) n = omega (arith, popcount-le w (n / 2))

pub popcount-zero : (w : ℕ) → popcount w 0 ≡ 0
unfolding popcount
popcount-zero zero = refl
popcount-zero (suc w) = omega (arith, popcount-zero w)
