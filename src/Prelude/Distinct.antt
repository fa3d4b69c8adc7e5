-- ===== src/Prelude/Distinct.antt =====
-- The distinct elements of a list in the order of their first appearance, and its first elements.
use Prim.Native.Nat.{ℕ, zero, suc, ◌≤◌, ◌<◌}
use mathlib.Core.Path.{◌≡◌, refl, ap, ◌∙◌}
use mathlib.Core.Logic.{inl, inr}
use mathlib.Core.Bool.{Bool, true, false, ◌||◌}
use mathlib.Core.List.{List, [], ◌∷◌, ◌++◌}
use native.Mathlib.Omega.{arith}
use rir.Prelude.Tests.{if◌then◌else◌, Bool-cases}
use rir.Prelude.Lists.{length, length-append, set}

module _ {ℓ} {A : Type ℓ} where
  abbrev pub take : ℕ → List A → List A
  take zero xs = []
  take (suc n) [] = []
  take (suc n) (x ∷ xs) = x ∷ take n xs

  abbrev pub any : (A → Bool) → List A → Bool
  any p [] = false
  any p (x ∷ xs) = p x || any p xs

  pub take-all : (n : ℕ) (xs : List A) → length xs ≤ n → take n xs ≡ xs
  take-all zero [] h = refl
  take-all zero (x ∷ xs) h = absurd (omega (arith, h))
  take-all (suc n) [] h = refl
  take-all (suc n) (x ∷ xs) h = rw (take-all n xs (omega (arith, h)))

  pub take-append : (n : ℕ) (xs ys : List A) → n ≤ length xs → take n (xs ++ ys) ≡ take n xs
  take-append zero xs ys h = refl
  take-append (suc n) [] ys h = absurd (omega (arith, h))
  take-append (suc n) (x ∷ xs) ys h = rw (take-append n xs ys (omega (arith, h)))

  -- A write just behind the first elements is one more of them.
  pub take-set :
      (n : ℕ) (xs : List A) (x : A)
      → n < length xs
      → take (suc n) (set xs n x) ≡ take n xs ++ x ∷ []
  take-set n [] x h = absurd (omega (arith, h))
  take-set zero (y ∷ xs) x h = refl
  take-set (suc n) (y ∷ xs) x h = rw (take-set n xs x (omega (arith, h)))

  pub length-take : (n : ℕ) (xs : List A) → n ≤ length xs → length (take n xs) ≡ n
  length-take zero xs h = refl
  length-take (suc n) [] h = absurd (omega (arith, h))
  length-take (suc n) (x ∷ xs) h = ap suc (length-take n xs (omega (arith, h)))

  pub length-take_le : (n : ℕ) (xs : List A) → length (take n xs) ≤ length xs
  length-take_le zero xs = omega arith
  length-take_le (suc n) [] = omega arith
  length-take_le (suc n) (x ∷ xs) = omega (arith, length-take_le n xs)

  length-take_lt : (n : ℕ) (xs : List A) → length (take n xs) < n → length xs < n
  length-take_lt zero xs h = absurd (omega (arith, h))
  length-take_lt (suc n) [] h = omega arith
  length-take_lt (suc n) (x ∷ xs) h = omega (arith, length-take_lt n xs (omega (arith, h)))

  -- `x` behind the others, unless one of them is the same.
  abbrev pub push_new : (A → Bool) → A → List A → List A
  push_new same x xs = if any same xs then xs else xs ++ x ∷ []

  -- Behind a list with room, a new element is among the first; behind a full one it is not.
  pub push_new-room :
      (n : ℕ) (same : A → Bool) (x : A) (xs : List A)
      → length (take n xs) < n
      → take n (push_new same x xs) ≡ push_new same x (take n xs)
  push_new-room n same x xs h = rw (take-all n xs within) (elim (Bool-cases (any same xs)) [
    | inl on ↦ rw on (take-all n xs within)
    | inr off ↦ rw off (take-all n (xs ++ x ∷ []) (omega (arith, length-append xs (x ∷ []), short)))
  ])
    where
      short : length xs < n
      short = length-take_lt n xs h

      within : length xs ≤ n
      within = omega (arith, short)

  pub push_new-full :
      (n : ℕ) (same : A → Bool) (x : A) (xs : List A)
      → n ≤ length xs
      → take n (push_new same x xs) ≡ take n xs
  push_new-full n same x xs h = elim (Bool-cases (any same xs)) [
    | inl on ↦ rw on
    | inr off ↦ rw off (take-append n xs (x ∷ []) h)
  ]

  any-append : (p : A → Bool) (xs ys : List A) → any p (xs ++ ys) ≡ (any p xs || any p ys)
  any-append p [] ys = refl
  any-append p (x ∷ xs) ys = elim (Bool-cases (p x)) [
    | inl on ↦ rw on
    | inr off ↦ rw off (any-append p xs ys)
  ]

  -- After the insertion, some element is the same.
  pub any-push_new :
      (same : A → Bool) (x : A) (xs : List A) → same x ≡ true → any same (push_new same x xs) ≡ true
  any-push_new same x xs h = elim (Bool-cases (any same xs)) [
    | inl on ↦ rw on on
    | inr off ↦ rw off (any-append same xs (x ∷ []) ∙ rw (off, h))
  ]
