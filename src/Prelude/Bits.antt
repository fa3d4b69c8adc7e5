-- ===== src/Prelude/Bits.antt =====
-- The bits of a machine word: `|`, `&`, a complement within a width and a population count on the
-- native numbers, and what they do to each bit. Sets and subsets of flags are read off the bits.
mod Step
pub mod Subset
pub mod Count
pub mod Bound
pub mod Fields
use Step.{bit_or_step, bit_and_step}
use Prim.Native.Nat.{ℕ, zero, suc, ◌+◌, ◌-◌, ◌*◌, ◌/◌, ◌%◌, ◌^◌, ◌≤◌, ◌<◌, bit_and, bit_or}
use mathlib.Core.Path.{◌≡◌, refl, sym, ap, ◌∙◌}
use mathlib.Core.Logic.{◌≢◌, ◌↔◌, ◌⊎◌, inl, inr}
use mathlib.Core.Bool.{Bool, true, false, not, ◌&&◌, ◌||◌}
use native.Mathlib.Omega.{arith}
use native.Mathlib.Nat.{pow-suc, one-le-pow}
use rir.Prelude.Tests.{◌==◌, ltb, if◌then◌else◌, Bool-cases}

-- (n >> i) & 1
unfoldable pub bit : ℕ → ℕ → Bool
bit n zero = n % 2 == 1
bit n (suc i) = bit (n / 2) i

-- ~n on a word of `w` bits
unfoldable pub complement : ℕ → ℕ → ℕ
complement w n = 2 ^ w - 1 - n

-- __builtin_popcount on the low `w` bits
unfoldable pub popcount : ℕ → ℕ → ℕ
popcount zero n = 0
popcount (suc w) n = n % 2 + popcount w (n / 2)

pub bit-bit_and : (a b i : ℕ) → bit (bit_and a b) i ≡ (bit a i && bit b i)
unfolding bit
bit-bit_and a b zero = ground (arith, bit_and_step a b)
bit-bit_and a b (suc i) =
    let half : bit_and a b / 2 ≡ bit_and (a / 2) (b / 2) = omega (arith, bit_and_step a b) in
    rw half (bit-bit_and (a / 2) (b / 2) i)

pub bit-bit_or : (a b i : ℕ) → bit (bit_or a b) i ≡ (bit a i || bit b i)
unfolding bit
bit-bit_or a b zero = ground (arith, bit_or_step a b)
bit-bit_or a b (suc i) =
    let half : bit_or a b / 2 ≡ bit_or (a / 2) (b / 2) = omega (arith, bit_or_step a b) in
    rw half (bit-bit_or (a / 2) (b / 2) i)

pub bit-zero : (i : ℕ) → bit 0 i ≡ false
unfolding bit
bit-zero zero = refl
bit-zero (suc i) = bit-zero i

pub bit-two_pow : (k i : ℕ) → bit (2 ^ k) i ≡ (k == i)
unfolding bit
bit-two_pow zero zero = refl
bit-two_pow zero (suc i) = ground (arith, bit-zero i)
bit-two_pow (suc k) zero = ground (arith, pow-suc 2 k)
bit-two_pow (suc k) (suc i) =
    let half : 2 ^ suc k / 2 ≡ 2 ^ k = omega (arith, pow-suc 2 k) in
    rw half (ground (arith, bit-two_pow k i))

pub bit-complement : (w n i : ℕ) → n < 2 ^ w → bit (complement w n) i ≡ (ltb i w && not (bit n i))
unfolding bit complement
bit-complement zero n zero h = ground arith
bit-complement zero n (suc i) h = ground (arith, bit-zero i)
bit-complement (suc w) n zero h = ground (arith, pow-suc 2 w)
bit-complement (suc w) n (suc i) h =
    let half : (2 ^ suc w - 1 - n) / 2 ≡ 2 ^ w - 1 - n / 2 = omega (arith, pow-suc 2 w) in
    rw half (ground (arith, bit-complement w (n / 2) i (omega (arith, pow-suc 2 w))))

-- A word has no bits past its width.
pub bit_above : (w n i : ℕ) → n < 2 ^ w → w ≤ i → bit n i ≡ false
unfolding bit
bit_above zero n i h k = let e : n ≡ 0 = omega arith in rw e (bit-zero i)
bit_above (suc w) n zero h k = absurd (omega arith)
bit_above (suc w) n (suc i) h k = bit_above w (n / 2) i (omega (arith, pow-suc 2 w)) (omega arith)

-- Words with the same bits are equal.
bits_eq : (f a b : ℕ) → a ≤ f → b ≤ f → ((i : ℕ) → bit a i ≡ bit b i) → a ≡ b
unfolding bit
bits_eq zero a b p q h = omega arith
bits_eq (suc f) a b p q h =
    ground (arith, h 0, bits_eq f (a / 2) (b / 2) (omega arith) (omega arith) (λ i. h (suc i)))

pub bit-ext : (a b : ℕ) → ((i : ℕ) → bit a i ≡ bit b i) → a ≡ b
bit-ext a b = bits_eq (a + b) a b (omega arith) (omega arith)

pub bit_ones : (k i : ℕ) → bit (2 ^ k - 1) i ≡ ltb i k
bit_ones k i =
    let e : 2 ^ k - 1 - 0 ≡ 2 ^ k - 1 = omega arith in
    rw (← e) (
      ground
        (arith, bit-complement k 0 i (one-le-pow k 2 (omega arith)), bit-zero i, complement_lem k))
  where
    complement_lem : (w : ℕ) → complement w 0 ≡ 2 ^ w - 1 - 0
    complement_lem w = unfold complement in refl
