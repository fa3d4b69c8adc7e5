-- ===== src/Pool.antt =====
-- rir/src/utils/Pool.h and Pool.cpp over the constant pool of rir/src/interpreter/instance.h: the
-- entries, the indices of those entered by value, and the places that may be patched. The maps are
-- association lists. A failed assertion is `none`.
pub mod Stable
pub mod Kept
use rir.Prelude.{
  ℕ, ◌+◌, ◌%◌, ◌^◌, ◌≡◌, Bool, true, false, Option, none, some, List, [], ◌∷◌, ◌++◌, ltb, ◌==◌,
  if◌then◌else◌, length, get_elem?, set,
}
use rir.Prelude.Eq.{Eq, nat_eq}
use rir.Prelude.Distinct.{any}
use rir.SmallMap.Scan.{assoc}

-- `numbers` and `ints` are keyed by the number of the double or int.
pub record Pool {ℓ} (S : Type ℓ) : Type ℓ where
  pub cp : List S
  pub numbers : List (ℕ × ℕ)
  pub ints : List (ℕ × ℕ)
  pub contents : List (S × ℕ)
  pub patchable : List ℕ

abbrev pub max_pool_idx : ℕ
max_pool_idx = 2 ^ 32

module _ {ℓ} {S : Type ℓ} where
  -- cp_pool_add: the index of the new entry, and the entries
  unfoldable pub cp_pool_add : List S → S → ℕ × List S
  cp_pool_add cp v = (length cp, cp ++ v ∷ [])

  -- cp_pool_at, Pool::get
  unfoldable pub get : Pool S → ℕ → Option S
  get p i = get_elem? p.cp i

  unfoldable pub is_patchable : Pool S → ℕ → Bool
  is_patchable p i = any (λ j. j == i) p.patchable

  -- Pool::makeSpace; `nil` is R_NilValue.
  unfoldable pub make_space : S → Pool S → ℕ × Pool S
  make_space nil p =
      let (i, cp) = cp_pool_add p.cp nil in
      (i % max_pool_idx, record p { cp = cp; patchable = i ∷ p.patchable })

  -- Pool::patch
  unfoldable pub patch : ℕ → S → Pool S → Option (Pool S)
  patch idx e p = if is_patchable p idx then some (record p { cp = set p.cp idx e }) else none

  -- Pool::getNum and getInt; `v` is the new vector of length one with the number `n`.
  unfoldable pub get_num : ℕ → S → Pool S → Option (ℕ × Pool S)
  get_num n v p =
      let (i, cp) = cp_pool_add p.cp v in
      elim (assoc p.numbers n) [
        | some j ↦ some (j, p)
        | none ↦
            if ltb i max_pool_idx
            then some (i, record p { cp = cp; numbers = p.numbers ++ (n, i) ∷ [] })
            else none
      ]

  unfoldable pub get_int : ℕ → S → Pool S → Option (ℕ × Pool S)
  get_int n v p =
      let (i, cp) = cp_pool_add p.cp v in
      elim (assoc p.ints n) [
        | some j ↦ some (j, p)
        | none ↦
            if ltb i max_pool_idx
            then some (i, record p { cp = cp; ints = p.ints ++ (n, i) ∷ [] })
            else none
      ]

  -- Pool::insert
  unfoldable pub insert : ⦃e : Eq S⦄ → S → Pool S → ℕ × Pool S
  insert v p =
      let (i, cp) = cp_pool_add p.cp v in
      elim (assoc p.contents v) [
        | some j ↦ (j % max_pool_idx, p)
        | none ↦ (i % max_pool_idx, record p { cp = cp; contents = p.contents ++ (v, i) ∷ [] })
      ]

-- The calls of a compiler on the pool, one after the other.
pub data Step {ℓ} {S : Type ℓ} ⦃e : Eq S⦄ : Pool S → Pool S → Type ℓ where
  inserts : (v : S) (p : Pool S) → Step p (insert v p).1
  makes_space : (nil : S) (p : Pool S) → Step p (make_space nil p).1
  patches : (i : ℕ) (v : S) (p q : Pool S) → patch i v p ≡ some q → Step p q
  gets_num : (n i : ℕ) (v : S) (p q : Pool S) → get_num n v p ≡ some (i, q) → Step p q
  gets_int : (n i : ℕ) (v : S) (p q : Pool S) → get_int n v p ≡ some (i, q) → Step p q

pub data Steps {ℓ} {S : Type ℓ} ⦃e : Eq S⦄ : Pool S → Pool S → Type ℓ where
  done : (p : Pool S) → Steps p p
  more : (p q r : Pool S) → Step p q → Steps q r → Steps p r
