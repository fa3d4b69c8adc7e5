-- ===== src/Prelude/Arrays.antt =====
-- Arrays with a length: an entry shifted in at an index, and one shifted out.
use Prim.Native.Nat.{ℕ, zero, suc, ◌+◌, ◌-◌, ◌≤◌, ◌<◌}
use mathlib.Core.Path.{◌≡◌, refl, ap}
use mathlib.Core.Option.{some}
use mathlib.Core.List.{List, [], ◌∷◌}
use native.Mathlib.Omega.{arith}
use rir.Prelude.Tests.{ltb, ◌==◌, if◌then◌else◌}
use rir.Prelude.Lists.{length, get_elem?, set}

module _ {ℓ} {A : Type ℓ} where
  -- The entries from `i` on move up by one place, and `a` takes place `i`.
  unfoldable pub insert_at : ℕ → A → List A → List A
  insert_at zero a xs = a ∷ xs
  insert_at (suc i) a [] = a ∷ []
  insert_at (suc i) a (x ∷ xs) = x ∷ insert_at i a xs

  -- The entries behind `i` move down by one place.
  unfoldable pub remove_at : ℕ → List A → List A
  remove_at i [] = []
  remove_at zero (x ∷ xs) = xs
  remove_at (suc i) (x ∷ xs) = x ∷ remove_at i xs

  pub length-insert_at : (i : ℕ) (a : A) (xs : List A) → length (insert_at i a xs) ≡ length xs + 1
  unfolding insert_at
  length-insert_at zero a xs = omega arith
  length-insert_at (suc i) a [] = omega arith
  length-insert_at (suc i) a (x ∷ xs) = omega (arith, length-insert_at i a xs)

  pub length-remove_at :
      (i : ℕ) (xs : List A) → i < length xs → length (remove_at i xs) + 1 ≡ length xs
  unfolding remove_at
  length-remove_at i [] h = elim h [ ]
  length-remove_at zero (x ∷ xs) h = omega arith
  length-remove_at (suc i) (x ∷ xs) h = omega (arith, length-remove_at i xs (omega arith))

  pub get_elem?-insert_at :
      (i : ℕ) (a : A) (xs : List A) (j : ℕ)
      → i ≤ length xs
      → get_elem? (insert_at i a xs) j
        ≡ (if ltb j i then get_elem? xs j else if j == i then some a else get_elem? xs (j - 1))
  unfolding insert_at
  get_elem?-insert_at zero a xs zero h = refl
  get_elem?-insert_at zero a xs (suc j) h =
      let e : suc j - 1 ≡ j = omega arith in rw e (ground arith)
  get_elem?-insert_at (suc i) a [] j h = elim h [ ]
  get_elem?-insert_at (suc i) a (x ∷ xs) zero h = ground arith
  get_elem?-insert_at (suc i) a (x ∷ xs) (suc zero) h =
      ground (arith, get_elem?-insert_at i a xs zero (omega arith))
  get_elem?-insert_at (suc i) a (x ∷ xs) (suc (suc j)) h =
      let e : suc (suc j) - 1 ≡ suc j = omega arith in
      let f : suc j - 1 ≡ j = omega arith in
      rw e
        (ground (arith, f, ap (get_elem? xs) f, get_elem?-insert_at i a xs (suc j) (omega arith)))

  pub get_elem?-remove_at :
      (i : ℕ) (xs : List A) (j : ℕ)
      → get_elem? (remove_at i xs) j ≡ (if ltb j i then get_elem? xs j else get_elem? xs (suc j))
  unfolding remove_at
  get_elem?-remove_at i [] j = ground arith
  get_elem?-remove_at zero (x ∷ xs) j = ground arith
  get_elem?-remove_at (suc i) (x ∷ xs) zero = ground arith
  get_elem?-remove_at (suc i) (x ∷ xs) (suc j) = ground (arith, get_elem?-remove_at i xs j)

  pub get_elem?-set :
      (xs : List A) (i j : ℕ) (v : A)
      → i < length xs
      → get_elem? (set xs i v) j ≡ (if j == i then some v else get_elem? xs j)
  get_elem?-set [] i j v h = elim h [ ]
  get_elem?-set (x ∷ xs) zero zero v h = refl
  get_elem?-set (x ∷ xs) zero (suc j) v h = ground arith
  get_elem?-set (x ∷ xs) (suc i) zero v h = ground arith
  get_elem?-set (x ∷ xs) (suc i) (suc j) v h = ground (arith, get_elem?-set xs i j v (omega arith))

  pub get_elem?-lt : (xs : List A) (i : ℕ) (a : A) → get_elem? xs i ≡ some a → i < length xs
  get_elem?-lt [] i a h = absurd (cc)
  get_elem?-lt (x ∷ xs) zero a h = omega arith
  get_elem?-lt (x ∷ xs) (suc i) a h = omega (arith, get_elem?-lt xs i a h)

  pub get_elem?-some : (xs : List A) (i : ℕ) → i < length xs → (a : A) × (get_elem? xs i ≡ some a)
  get_elem?-some [] i h = elim h [ ]
  get_elem?-some (x ∷ xs) zero h = (x, refl)
  get_elem?-some (x ∷ xs) (suc i) h = get_elem?-some xs i (omega arith)
