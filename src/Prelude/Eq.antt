-- ===== src/Prelude/Eq.antt =====
-- Equality of keys as an interface: a test and what it decides.
use Prim.Native.Nat.{ℕ}
use mathlib.Core.Path.{◌≡◌, refl, ap}
use mathlib.Core.Logic.{◌↔◌, inl, inr}
use mathlib.Core.Bool.{Bool, true, false}
use rir.Prelude.Tests
use rir.Prelude.Tests.{==_iff, Bool-cases}

pub record Eq {ℓ} (A : Type ℓ) : Type ℓ where
  pub beq : A → A → Bool
  pub beq_iff : (a b : A) → (beq a b ≡ true) ↔ (a ≡ b)

instance abbrev pub nat_eq : Eq ℕ
nat_eq = record { beq = Tests.◌==◌; beq_iff = ==_iff }

module _ {ℓ} {A : Type ℓ} ⦃e : Eq A⦄ where
  pub beq_refl : (k : A) → e.beq k k ≡ true
  beq_refl k = (e.beq_iff k k).1 refl

  -- Equal keys answer every test alike.
  pub beq_left : (l k j : A) → e.beq l k ≡ true → e.beq l j ≡ e.beq k j
  beq_left l k j h = ap (λ x. e.beq x j) ((e.beq_iff l k).0 h)

  -- A key apart from `l` is apart from what equals `l`.
  pub beq_apart : (l k j : A) → e.beq l k ≡ false → e.beq l j ≡ true → e.beq k j ≡ false
  beq_apart l k j off on = elim (Bool-cases (e.beq k j)) [
    | inl both ↦ absurd (let same = ap (e.beq l) ((e.beq_iff k j).0 both) in cc (off, on, same))
    | inr apart ↦ apart
  ]
