-- ===== src/Prelude/Bits/Step.antt =====
-- The native `bit_and` and `bit_or` are digit recursions with fuel; here is one step of each, with
-- the fuel gone: the lowest digit, and the call on the halves.
use Prim.Native.Nat.{
  ℕ, zero, suc, ◌+◌, ◌*◌, ◌/◌, ◌%◌, ◌≤◌, min, max, digits, bit_and, bit_or, bit_and-bitwise,
  bit_or-bitwise,
}
use mathlib.Core.Path.{◌≡◌, refl, ap}
use native.Mathlib.Omega.{arith}

module _ (end : ℕ → ℕ) (join : ℕ → ℕ → ℕ) where
  -- Any fuel that covers the first word gives the same digits.
  enough : (f g a b : ℕ) → a ≤ f → a ≤ g → digits end join f a b ≡ digits end join g a b
  enough zero zero a b p q = refl
  enough zero (suc g) zero b p q = refl
  enough (suc f) zero zero b p q = refl
  enough (suc f) (suc g) zero b p q = refl
  enough zero (suc g) (suc a) b p q = absurd (omega arith)
  enough (suc f) zero (suc a) b p q = absurd (omega arith)
  enough (suc f) (suc g) (suc a) b p q =
      ap (λ (r : ℕ). r * 2 + join (suc a % 2) (b % 2))
        (enough f g (suc a / 2) (b / 2) (omega arith) (omega arith))

pub bit_and_step : (a b : ℕ) → bit_and a b ≡ bit_and (a / 2) (b / 2) * 2 + min (a % 2) (b % 2)
bit_and_step zero b = omega (arith, bit_and-bitwise 0 b, bit_and-bitwise 0 (b / 2))
bit_and_step (suc a) b = omega (
  arith,
  bit_and-bitwise (suc a) b,
  bit_and-bitwise (suc a / 2) (b / 2),
  enough (λ y. 0) min a (suc a / 2) (suc a / 2) (b / 2) (omega arith) (omega arith),
)

pub bit_or_step : (a b : ℕ) → bit_or a b ≡ bit_or (a / 2) (b / 2) * 2 + max (a % 2) (b % 2)
bit_or_step zero b = omega (arith, bit_or-bitwise 0 b, bit_or-bitwise 0 (b / 2))
bit_or_step (suc a) b = omega (
  arith,
  bit_or-bitwise (suc a) b,
  bit_or-bitwise (suc a / 2) (b / 2),
  enough (λ y. y) max a (suc a / 2) (suc a / 2) (b / 2) (omega arith) (omega arith),
)
