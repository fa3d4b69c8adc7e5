-- ===== src/Pool/Stable.antt =====
-- An entry that `insert` made stays where it is, whatever is inserted or patched afterwards.
use rir.Prelude.{
  ℕ, zero, suc, ◌%◌, ◌<◌, ◌≡◌, refl, ap, ◌∙◌, inl, inr, true, false, some, List, [], ◌∷◌, ◌++◌,
  length, get_elem?, set, arith, ◌==◌, ==_iff, ltb, Option-cases, Bool-cases, eq_of_some, All,
}
use rir.Prelude.Eq.{Eq, nat_eq}
use rir.Prelude.Arrays.{get_elem?-lt}
use rir.Prelude.Distinct.{any}
use rir.SmallMap.Scan.{assoc}
use rir.Pool.{
  Pool, Step, Steps, max_pool_idx, cp_pool_add, get, insert, make_space, patch, get_num, get_int,
  is_patchable,
}
use rir.Pool.Step.{inserts, makes_space, patches, gets_num, gets_int}
use rir.Pool.Steps.{done, more}

-- The entry at `i` is fixed: it exists and may not be patched.
pub record IsFixed {ℓ} {S : Type ℓ} (p : Pool S) (i : ℕ) (v : S) : Type ℓ where
  pub at : get_elem? p.cp i ≡ some v
  pub fixed : any (λ j. j == i) p.patchable ≡ false

get_elem?-grown {ℓ} :
    {S : Type ℓ} (xs ys : List S) (i : ℕ) (v : S)
    → get_elem? xs i ≡ some v
    → get_elem? (xs ++ ys) i ≡ some v
get_elem?-grown [] ys i v h = absurd (cc)
get_elem?-grown (x ∷ xs) ys zero v h = h
get_elem?-grown (x ∷ xs) ys (suc i) v h = get_elem?-grown xs ys i v h

pub get_elem?-last {ℓ} :
    {S : Type ℓ} (xs : List S) (v : S) → get_elem? (xs ++ v ∷ []) (length xs) ≡ some v
get_elem?-last [] v = refl
get_elem?-last (x ∷ xs) v = get_elem?-last xs v

set_other {ℓ} :
    {S : Type ℓ} (xs : List S) (k i : ℕ) (x : S)
    → (i == k) ≡ false
    → get_elem? (set xs k x) i ≡ get_elem? xs i
set_other [] k i x h = refl
set_other (y ∷ xs) zero zero x h = absurd (omega (arith, impossible h))
  where
    impossible : (0 == 0) ≡ false → 0 < 0
    impossible h = absurd (cc)
set_other (y ∷ xs) zero (suc i) x h = refl
set_other (y ∷ xs) (suc k) zero x h = refl
set_other (y ∷ xs) (suc k) (suc i) x h = set_other xs k i x (lowered i k h)
  where
    lowered : (i k : ℕ) → (suc i == suc k) ≡ false → (i == k) ≡ false
    lowered i k h = ground (arith, h)

-- Of two numbers that a test tells apart, one is not the other.
apart :
    (js : List ℕ) (i k : ℕ)
    → any (λ j. j == i) js ≡ false
    → any (λ j. j == k) js ≡ true
    → (i == k) ≡ false
apart js i k h q = elim (Bool-cases (i == k)) [
  | inl same ↦
      absurd (let moved = ap (λ x. any (λ j. j == x) js) ((==_iff i k).0 same) in cc (h, q, moved))
  | inr other ↦ other
]

pub below : (js : List ℕ) (n : ℕ) → All (λ j. j < n) js → any (λ j. j == n) js ≡ false
below [] n a = refl
below (j ∷ js) n (h, a) = rw (differs j n h) (below js n a)
  where
    differs : (j n : ℕ) → j < n → (j == n) ≡ false
    differs j n h = ground (arith, h)

module _ {ℓ} {S : Type ℓ} ⦃e : Eq S⦄ where
  pub appended :
      (p q : Pool S) (v x : S) (i : ℕ)
      → q.cp ≡ p.cp ++ x ∷ []
      → q.patchable ≡ p.patchable
      → IsFixed p i v
      → IsFixed q i v
  appended p q v x i c f w = record {
    at = rw c (get_elem?-grown p.cp (x ∷ []) i v w.at);
    fixed = rw f w.fixed;
  }

  pub IsFixed-insert : (p : Pool S) (v x : S) (i : ℕ) → IsFixed p i v → IsFixed (insert x p).1 i v
  unfolding insert cp_pool_add
  IsFixed-insert p v x i w = elim (Option-cases (assoc p.contents x)) [
    | inl new ↦ rw (new, insert) (appended p _ v x i refl refl w)
    | inr (j, old) ↦ rw (old, insert) w
  ]

  pub IsFixed-make_space :
      (p : Pool S) (v nil : S) (i : ℕ) → IsFixed p i v → IsFixed (make_space nil p).1 i v
  unfolding make_space cp_pool_add
  IsFixed-make_space p v nil i w = record {
    at = get_elem?-grown p.cp (nil ∷ []) i v w.at;
    fixed = rw (behind (length p.cp) i (get_elem?-lt p.cp i v w.at)) w.fixed;
  }
    where
      behind : (n i : ℕ) → i < n → (n == i) ≡ false
      behind n i h = ground (arith, h)

  pub IsFixed-patch :
      (p q : Pool S) (v x : S) (i k : ℕ) → patch k x p ≡ some q → IsFixed p i v → IsFixed q i v
  unfolding patch is_patchable
  IsFixed-patch p q v x i k = elim (Bool-cases (any (λ j. j == k) p.patchable)) [
    | inl on ↦ rw (on, patch) (λ h w. rw⁻¹ (eq_of_some h) (patched on w))
    | inr off ↦ rw (off, patch) (λ h w. absurd (cc))
  ]
    where
      patched :
          any (λ j. j == k) p.patchable ≡ true
          → IsFixed p i v
          → IsFixed (record p { cp = set p.cp k x }) i v
      patched on w = record {
        at = set_other p.cp k i x (apart p.patchable i k w.fixed on) ∙ w.at;
        fixed = w.fixed;
      }

  pub IsFixed-get_num :
      (p q : Pool S) (v x : S) (i n k : ℕ)
      → get_num n x p ≡ some (k, q)
      → IsFixed p i v
      → IsFixed q i v
  unfolding get_num cp_pool_add
  IsFixed-get_num p q v x i n k = elim (Option-cases (assoc p.numbers n)) [
    | inl new ↦ elim (Bool-cases (ltb (length p.cp) max_pool_idx)) [
      | inl on ↦
          rw (new, on, get_num)
            (λ h w. rw⁻¹ (ap (λ t. t.1) (eq_of_some h)) (appended p _ v x i refl refl w))
      | inr off ↦ rw (new, off, get_num) (λ h w. absurd (cc))
    ]
    | inr (j, old) ↦ rw (old, get_num) (λ h w. rw⁻¹ (ap (λ t. t.1) (eq_of_some h)) w)
  ]

  pub IsFixed-get_int :
      (p q : Pool S) (v x : S) (i n k : ℕ)
      → get_int n x p ≡ some (k, q)
      → IsFixed p i v
      → IsFixed q i v
  unfolding get_int cp_pool_add
  IsFixed-get_int p q v x i n k = elim (Option-cases (assoc p.ints n)) [
    | inl new ↦ elim (Bool-cases (ltb (length p.cp) max_pool_idx)) [
      | inl on ↦
          rw (new, on, get_int)
            (λ h w. rw⁻¹ (ap (λ t. t.1) (eq_of_some h)) (appended p _ v x i refl refl w))
      | inr off ↦ rw (new, off, get_int) (λ h w. absurd (cc))
    ]
    | inr (j, old) ↦ rw (old, get_int) (λ h w. rw⁻¹ (ap (λ t. t.1) (eq_of_some h)) w)
  ]

  IsFixed-Step : (p q : Pool S) (i : ℕ) (v : S) → Step p q → IsFixed p i v → IsFixed q i v
  IsFixed-Step p q i v (inserts x r) w = IsFixed-insert p v x i w
  IsFixed-Step p q i v (makes_space nil r) w = IsFixed-make_space p v nil i w
  IsFixed-Step p q i v (patches k x r t h) w = IsFixed-patch p q v x i k h w
  IsFixed-Step p q i v (gets_num n k x r t h) w = IsFixed-get_num p q v x i n k h w
  IsFixed-Step p q i v (gets_int n k x r t h) w = IsFixed-get_int p q v x i n k h w

  -- An entry that exists and may not be patched is there after any calls on the pool.
  pub IsFixed-Steps : (p q : Pool S) (i : ℕ) (v : S) → Steps p q → IsFixed p i v → IsFixed q i v
  IsFixed-Steps p q i v (done r) w = w
  IsFixed-Steps p q i v (more r s t h hs) w = IsFixed-Steps s q i v hs (IsFixed-Step p s i v h w)

  -- A pool in which every entry made by `insert` is fixed, and only entries may be patched.
  pub record IsPool (p : Pool S) : Type ℓ where
    pub known : (v : S) (i : ℕ) → assoc p.contents v ≡ some i → IsFixed p i v
    pub room : All (λ j. j < length p.cp) p.patchable

  entered :
      (p : Pool S) (v : S)
      → IsPool p
      → length p.cp < max_pool_idx
      → IsFixed (insert v p).1 (insert v p).0 v
  unfolding insert cp_pool_add
  entered p v w h = elim (Option-cases (assoc p.contents v)) [
    | inl new ↦
        rw (new, insert)
          (rw (small (length p.cp) h)
            (record { at = get_elem?-last p.cp v; fixed = below p.patchable (length p.cp) w.room }))
    | inr (j, old) ↦
        let there = w.known v j old in
        let inside = get_elem?-lt p.cp j v there.at in
        rw (old, insert) (rw (small j (omega (arith, inside, h))) there)
  ]
    where
      small : (n : ℕ) → n < max_pool_idx → n % max_pool_idx ≡ n
      small n h = omega (arith, h)

  -- In a well-formed pool of fewer than 2^32 entries, the index that `insert` returns is that of an
  -- entry with the value, and after any calls on the pool it still is: no patch, which only writes
  -- places from makeSpace, and no later entry changes it.
  pub insert_stable :
      (p q : Pool S) (v : S)
      → IsPool p
      → length p.cp < max_pool_idx
      → Steps (insert v p).1 q
      → get q (insert v p).0 ≡ some v
  unfolding get
  insert_stable p q v w h steps =
      (IsFixed-Steps (insert v p).1 q (insert v p).0 v steps (entered p v w h)).at
