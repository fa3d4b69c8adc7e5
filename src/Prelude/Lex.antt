-- ===== src/Prelude/Lex.antt =====
-- The lexicographic order of lists of numbers, the greater number first.
use Prim.Native.Nat.{ℕ}
use mathlib.Core.Path.{◌≡◌, refl}
use mathlib.Core.Logic.{◌⊎◌, inl}
use mathlib.Core.Bool.{Bool, true, false}
use mathlib.Core.List.{List, [], ◌∷◌}
use native.Mathlib.Omega.{arith}
use rir.Prelude.Tests.{ltb, ◌==◌, if◌then◌else◌}
use rir.Prelude.Lists.{length}

abbrev pub lex : List ℕ → List ℕ → Bool
lex [] ys = false
lex (x ∷ xs) [] = false
lex (x ∷ xs) (y ∷ ys) = let rest = lex xs ys in if x == y then rest else ltb y x

pub lex_irrefl : (xs : List ℕ) → lex xs xs ≡ false
lex_irrefl [] = refl
lex_irrefl (x ∷ xs) = ground (arith, lex_irrefl xs)

pub lex_trans : (xs ys zs : List ℕ) → lex xs ys ≡ true → lex ys zs ≡ true → lex xs zs ≡ true
lex_trans [] ys zs h k = h
lex_trans (x ∷ xs) [] zs h k = absurd (cc)
lex_trans (x ∷ xs) (y ∷ ys) [] h k = k
lex_trans (x ∷ xs) (y ∷ ys) (z ∷ zs) h k = ground (arith, lex_trans xs ys zs)

pub lex_total :
    (xs ys : List ℕ) → length xs ≡ length ys → (xs ≡ ys) ⊎ ((lex xs ys ≡ true) ⊎ (lex ys xs ≡ true))
lex_total [] [] e = inl refl
lex_total [] (y ∷ ys) e = absurd (omega arith)
lex_total (x ∷ xs) [] e = absurd (omega arith)
lex_total (x ∷ xs) (y ∷ ys) e = ground (arith, lex_total xs ys (omega arith))
