-- ===== src/Prelude/Bits/Subset.antt =====
-- Inclusion of words, `(t & s) == t`, as inclusion of their bits.
use rir.Prelude.Tests.{Bool-ext}
use Prim.Native.Nat.{ℕ, bit_and, bit_or}
use mathlib.Core.Path.{◌≡◌, ap}
use mathlib.Core.Bool.{true}
use native.Mathlib.Omega.{arith}
use rir.Prelude.Bits.{bit, bit-ext, bit-bit_and, bit-bit_or}

-- Every bit of `t` is a bit of `s`.
abbrev pub Subset : ℕ → ℕ → Type 0
Subset t s = (i : ℕ) → bit t i ≡ true → bit s i ≡ true

pub bit_and-eq-Subset : (t s : ℕ) → bit_and t s ≡ t → Subset t s
bit_and-eq-Subset t s e i h = ground (arith, bit-bit_and t s i, ap (λ (n : ℕ). bit n i) e)

pub Subset-bit_and-eq : (t s : ℕ) → Subset t s → bit_and t s ≡ t
Subset-bit_and-eq t s h = bit-ext (bit_and t s) t λ i. ground (arith, bit-bit_and t s i, h i)

pub Subset-antisymm : (s t : ℕ) → Subset s t → Subset t s → s ≡ t
Subset-antisymm s t h k = bit-ext s t λ i. Bool-ext (bit s i) (bit t i) (h i) (k i)

pub bit_and_comm : (a b : ℕ) → bit_and a b ≡ bit_and b a
bit_and_comm a b = bit-ext _ _ λ i. ground (arith, bit-bit_and a b i, bit-bit_and b a i)

pub bit_or_comm : (a b : ℕ) → bit_or a b ≡ bit_or b a
bit_or_comm a b = bit-ext _ _ λ i. ground (arith, bit-bit_or a b i, bit-bit_or b a i)
