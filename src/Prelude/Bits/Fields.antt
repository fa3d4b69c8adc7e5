-- ===== src/Prelude/Bits/Fields.antt =====
-- Words packed into one, `low + 2 ^ k * high`, bit by bit.
use Prim.Native.Nat.{ℕ, zero, suc, ◌+◌, ◌-◌, ◌*◌, ◌/◌, ◌<◌, ◌^◌}
use mathlib.Core.Path.{◌≡◌, refl, ap}
use mathlib.Core.Bool.{false}
use native.Mathlib.Omega.{arith}
use native.Mathlib.Nat.{pow-suc}
use rir.Prelude.Tests.{ltb, if◌then◌else◌}
use rir.Prelude.Bits.{bit, popcount}

pub bit_fields :
    (k low high i : ℕ)
    → low < 2 ^ k
    → bit (low + 2 ^ k * high) i ≡ (if ltb i k then bit low i else bit high (i - k))
unfolding bit
bit_fields zero low high i h =
    let e : low + 2 ^ 0 * high ≡ high = omega arith in
    let f : i - 0 ≡ i = omega arith in rw (e, f) (ground arith)
bit_fields (suc k) low high zero h = ground (arith, ap (λ (t : ℕ). t * high) (pow-suc 2 k))
bit_fields (suc k) low high (suc i) h =
    let double : 2 ^ suc k * high ≡ 2 * (2 ^ k * high) =
      omega (arith, ap (λ (t : ℕ). t * high) (pow-suc 2 k)) in
    let half : (low + 2 ^ suc k * high) / 2 ≡ low / 2 + 2 ^ k * high = omega (arith, double) in
    let f : suc i - suc k ≡ i - k = omega arith in
    rw (half, f) (ground (arith, bit_fields k (low / 2) high i (omega (arith, pow-suc 2 k))))

-- A word with none of its low `w` bits set counts for nothing.
pub popcount_none : (w n : ℕ) → ((i : ℕ) → i < w → bit n i ≡ false) → popcount w n ≡ 0
unfolding popcount bit
popcount_none zero n h = refl
popcount_none (suc w) n h =
    ground (arith, h 0, popcount_none w (n / 2) (λ i p. h (suc i) (omega arith)))
